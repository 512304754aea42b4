-- ===== src/Layer/Fsext.antt =====
-- src/fsext.c: `__lsck_socket_fsext`, by which the C library's calls on a descriptor reach the
-- socket functions.
use Prim.Native.Nat.{bit_or}
use libsocket.Base.{ℕ, Bool, not, ◌&&◌, ◌||◌, if◌then◌else◌, none, some, List, M, return, ◌>>=◌}
use libsocket.Base.Int.{ℤ, pos, minus_one, ◌==ℤ◌, is_negative}
use libsocket.Layer.Options.{fcntlsocket, f_getown, f_setown}
use libsocket.Layer.Transfer.{recv, send, selectsocket, Received}
use libsocket.Layer.Types.{eagain, espipe, is_ewouldblock}
use libsocket.Layer.World.{Sys, World}

-- FD_READ, FD_WRITE and the complement of the two, the events of `selectsocket`, and the C
-- library's bits for a descriptor that is ready.
pub record Events : Type 0 where
  pub fd_read : ℕ
  pub fd_write : ℕ
  pub fd_others : ℕ
  pub ready_read : ℕ
  pub ready_write : ℕ
  pub ready_error : ℕ

-- The commands of `fcntl` as the C library numbers them; the layer adds F_GETOWN and F_SETOWN.
pub record FcntlCodes : Type 0 where
  pub f_setfl : ℤ
  pub f_getfl : ℤ

-- A positive answer of `selectsocket`.
abbrev pub is_ready : ℤ → Bool
is_ready t = not (is_negative t) && not (t ==ℤ pos 0)

abbrev pub ready_bit : ℕ → ℤ → ℕ
ready_bit bits t = if is_ready t then bits else 0

-- `__FSEXT_ready`: the bits of the three answers, or -1 if one fails.
unfoldable pub ready_bits : Events → ℤ → ℤ → ℤ → ℤ
ready_bits ev a b c =
    if a ==ℤ minus_one || (b ==ℤ minus_one || c ==ℤ minus_one)
    then minus_one
    else pos (
        bit_or (bit_or (ready_bit ev.ready_read a) (ready_bit ev.ready_write b))
          (ready_bit ev.ready_error c))

module _ {E : Type 0} (sys : Sys E) where
  -- `__FSEXT_read`
  unfoldable pub fsext_read : ℤ → List ℕ → ℕ → M (World E) Received
  fsext_read s buf count w = elim (recv sys s (some buf) count 0 w) [
    | none ↦ none
    | some (out, w') ↦
        if out.0 ==ℤ minus_one && is_ewouldblock w'.errno
        then some ((pos 0, out.1), record w' { errno = eagain })
        else some (out, w')
  ]

  -- `__FSEXT_write`. The condition assigns: `(*rv == -1) && (errno = EWOULDBLOCK)`.
  unfoldable pub fsext_write : ℤ → List ℕ → ℕ → M (World E) ℤ
  fsext_write s msg count w = elim (send sys s (some msg) count 0 w) [
    | none ↦ none
    | some (r, w') ↦
        if r ==ℤ minus_one then some (pos 0, record w' { errno = eagain }) else some (r, w')
  ]

  unfoldable pub fsext_ready : Events → ℤ → M (World E) ℤ
  unfolding ready_bits
  fsext_ready ev s = do
    a ← selectsocket sys s ev.fd_read
    b ← selectsocket sys s ev.fd_write
    c ← selectsocket sys s ev.fd_others
    return (ready_bits ev a b c)

  -- `__FSEXT_fcntl`: the commands that the layer knows.
  unfoldable pub fsext_fcntl : FcntlCodes → ℤ → ℤ → ℤ → M (World E) ℤ
  fsext_fcntl codes s comm req =
      if comm ==ℤ codes.f_setfl
      then fcntlsocket sys s comm req
      else if comm ==ℤ codes.f_getfl
      then fcntlsocket sys s comm (pos 0)
      else if comm ==ℤ f_setown
      then fcntlsocket sys s comm req
      else if comm ==ℤ f_getown
      then fcntlsocket sys s comm (pos 0)
      else return minus_one

  -- `__FSEXT_lseek`
  unfoldable pub fsext_lseek : M (World E) ℤ
  fsext_lseek w = some (minus_one, record w { errno = espipe })
