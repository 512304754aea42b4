-- ===== src/Unix/Open.antt =====
-- src/unix/u_socket.c and src/unix/u_bind.c.
use libsocket.Base.{
  ℕ, Bool, true, false, ◌==◌, ltb, if◌then◌else◌, Option, none, some, List, [], ◌∷◌, ◌++◌, length,
  drop, M,
}
use libsocket.Base.Int.{ℤ, pos, minus_one, ◌==ℤ◌}
use libsocket.Layer.Types.{einval, enomem, enametoolong, eacces}
use libsocket.Unix.Path.{local_path}
use libsocket.Unix.Types.{UnixSocket, Files, Unix, Io, fail, cstring, sockaddr_un_size}

-- The cleared data of a new socket.
abbrev pub new_usock : UnixSocket
new_usock = record {
  sockpath = [];
  peerpath = [];
  fd_w = minus_one;
  fd_r = minus_one;
  secret = record { n = 0; pid = 0 };
  seq_w = 0;
  seq_r = 0;
}

-- `sun_path[0] == '/'`.
abbrev pub is_absolute : List ℕ → Bool
is_absolute [] = false
is_absolute (ch ∷ rest) = ch == 47

-- The mailslot's name in `path`, which has `size` bytes: `cwd` is the working directory with its
-- drive, for a name that is not absolute.
unfoldable pub slot_name : ℕ → Option (List ℕ) → List ℕ → Option (List ℕ)
slot_name size cwd path =
    let middle : List ℕ = elim cwd [ none ↦ [] | some dir ↦ drop 2 dir ++ (47 ∷ []) ] in
    let name : List ℕ = local_path ++ middle ++ path in
    if ltb (length name) size then some name else none

module _ {E : Type 0} (files : Files E) where
  -- `__unix_socket`; `malloc` says whether there is memory.
  unfoldable pub socket : Io E Bool → M (Unix E) ℤ
  socket malloc c =
      let (given, e, env) = malloc c.errno c.env in
      if given
      then some (pos 0, record c { usock = new_usock; errno = e; env = env })
      else fail enomem (record c { errno = e; env = env })

  -- From `open` on, with the name of the mailslot and the path of the address.
  unfoldable pub open_slot : List ℕ → List ℕ → M (Unix E) ℤ
  open_slot name path c =
      let (fd, e, env) = files.open_reader name c.errno c.env in
      let found = not_minus_one fd in
      some (
        (if found then pos 0 else minus_one),
        record c {
          usock = record c.usock { fd_r = fd; sockpath = if found then path else [] };
          errno = e;
          env = env;
        },
      )
    where
      not_minus_one : ℤ → Bool
      not_minus_one fd = if fd ==ℤ minus_one then false else true

  unfoldable pub open_named : Option (List ℕ) → List ℕ → M (Unix E) ℤ
  unfolding open_slot slot_name
  open_named cwd path c = elim (slot_name files.max_path cwd path) [
    | none ↦ none
    | some name ↦ open_slot name path c
  ]

  -- `__unix_bind` past the checks, with the path of the address.
  unfoldable pub bind_path : List ℕ → M (Unix E) ℤ
  unfolding open_named
  bind_path path c =
      let (dir, e, env) = files.getcwd c.errno c.env in
      if is_absolute path then open_named none path c else elim dir [
        | none ↦ fail eacces (record c { errno = e; env = env })
        | some cwd ↦ open_named (some cwd) path (record c { errno = e; env = env })
      ]

  unfoldable pub bind : List ℕ → ℕ → M (Unix E) ℤ
  unfolding bind_path
  bind my_addr addrlen c =
      if ltb addrlen sockaddr_un_size
      then fail einval c
      else if ltb sockaddr_un_size addrlen
      then fail enametoolong c
      else elim (cstring (drop 2 my_addr)) [ none ↦ none | some path ↦ bind_path path c ]
