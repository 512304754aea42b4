-- ===== src/Base/State.antt =====
-- Calls that read and write a state. `none` is an access that C leaves undefined.
use libsocket.Base.Tests.{is_given, if◌then◌else◌}
use mathlib.Core.Bool.{Bool, true, false}
use mathlib.Core.Option.{Option, none, some}
use mathlib.Core.Path.{◌≡◌, refl}

abbrev pub M {ℓ} : Type ℓ → Type ℓ → Type ℓ
M S A = S → Option (A × S)

infixl 5 ◌>>=◌ ◌>>◌
abbrev pub ◌>>=◌ {ℓ} : {S A B : Type ℓ} → M S A → (A → M S B) → M S B
◌>>=◌ m f s = elim (m s) [ none ↦ none | some (a, s') ↦ f a s' ]

abbrev pub ◌>>◌ {ℓ} : {S A B : Type ℓ} → M S A → M S B → M S B
m >> k = m >>= λ _. k

abbrev pub return {ℓ} : {S A : Type ℓ} → A → M S A
return a s = some (a, s)

abbrev pub fault {ℓ} : {S A : Type ℓ} → M S A
fault s = none

-- The call returns, and its result and new state meet `P`.
abbrev pub Returns {ℓ} : {S A : Type ℓ} → Option (A × S) → (A → S → Type 0) → Type 0
Returns none P = ⊥
Returns (some (a, s)) P = P a s

module _ {ℓ} {S A : Type ℓ} where
  pub Returns-mono :
      (o : Option (A × S)) (P Q : A → S → Type 0)
      → Returns o P
      → ((a : A) (s : S) → P a s → Q a s)
      → Returns o Q
  Returns-mono none P Q h f = h
  Returns-mono (some (a, s)) P Q h f = f a s h

  -- A second call behind a first.
  pub Returns->>= {κ} :
      {B T : Type κ} (o : Option (A × S)) (f : A → S → Option (B × T)) (P : A → S → Type 0)
      (Q : B → T → Type 0)
      → Returns o P
      → ((a : A) (s : S) → P a s → Returns (f a s) Q)
      → Returns (elim o [ none ↦ none | some (a, s) ↦ f a s ]) Q
  Returns->>= none f P Q h k = h
  Returns->>= (some (a, s)) f P Q h k = k a s h

pub given-some {ℓ} : {A : Type ℓ} (o : Option A) → is_given o ≡ true → (a : A) × (o ≡ some a)
given-some none h = cc
given-some (some a) h = (a, refl)

module _ {ℓ} {A S : Type ℓ} where
  pub if-Returns :
      (b : Bool) (x y : Option (A × S)) (R : A → S → Type 0)
      → (b ≡ true → Returns x R)
      → (b ≡ false → Returns y R)
      → Returns (if b then x else y) R
  if-Returns true x y R h k = h refl
  if-Returns false x y R h k = k refl

pub elim-Returns {ℓ κ} :
    {T : Type κ} {A S : Type ℓ} (o : Option T) (x : Option (A × S)) (g : T → Option (A × S))
    (R : A → S → Type 0)
    → (o ≡ none → Returns x R)
    → ((t : T) → o ≡ some t → Returns (g t) R)
    → Returns (elim o [ none ↦ x | some t ↦ g t ]) R
elim-Returns none x g R n s = n refl
elim-Returns (some t) x g R n s = s t refl

-- The branch that is taken, where it is known.
pub given-Returns {ℓ κ} :
    {T : Type κ} {A S : Type ℓ} (o : Option T) (t : T) (g : T → Option (A × S)) (R : A → S → Type 0)
    → o ≡ some t
    → Returns (g t) R
    → Returns (elim o [ none ↦ none | some x ↦ g x ]) R
given-Returns o t g R e h = rw e h

pub passes-Returns {ℓ} :
    {A S : Type ℓ} (b : Bool) (x y : Option (A × S)) (R : A → S → Type 0)
    → b ≡ false
    → Returns y R
    → Returns (if b then x else y) R
passes-Returns b x y R e h = rw e h
