-- ===== src/Csock/Honest.antt =====
-- The interface of src/csock meets what the socket layer relies on in an interface.
mod Mild
mod Calls
mod Transfer
mod Names
use libsocket.Base.{
  ◌+◌, ◌≤◌, ◌==◌, ◌&&◌, not, true, false, Option, none, some, length, ◌≡◌, refl, ◌∙◌, ap, M,
  Option-cases, Bool-cases, inl, inr, length-drop, ◌⊎◌, ltb, if◌then◌else◌, memcpy, bzero,
  memcpy-given, bzero-given, leb,
}
use libsocket.Base.Int.{pos, ◌==ℤ◌}
use libsocket.Csock.Calls.{
  addrlen_check, f_setfl, f_getfl, other_command, with_address, set_blocking, fd_write,
}
use libsocket.Csock.Names.{local_addr, int_option, time_option, unknown_option, put_int, put_time}
use libsocket.Csock.Transfer.{sendto_bound, bind_any, name_bound, recvfrom_named, flip, any_address}
use libsocket.Csock.Types.{Driver, Csock, store_in, sockaddr_in_size, sin_addr}
use libsocket.Layer.Interface.{Call, Interface}
use libsocket.Layer.Sound.{IsSound, Behaves, WellBehaved, Keeps-refl, SameFds}
use libsocket.Layer.Types.{Errno, Socket, sock_dgram}
use libsocket.Layer.World.{Sys}
use libsocket.Csock.Table.{Net, entry}
use libsocket.Csock.Honest.Mild.{Mild-eq, entry-Behaves}
use libsocket.Csock.Honest.Calls.{Same, set_blocking-Mild}
use libsocket.Csock.Honest.Transfer.{
  flip-Mild, recvfrom_named-Mild, name_bound-Mild, bind_any-Mild, sendto_bound-Same,
}

module _ {F E : Type 0} (sys : Sys (Net F E))
    (own : (e e' : Net F E) → e.files ≡ e'.files → SameFds sys e e') (driver : Driver E) where
  kept :
      {A : Type 0} (bad : A) (m : M (Csock E) A)
      → ((c d : Csock E) (a : A) → m c ≡ some (a, d) → d.sock ≡ c.sock)
      → WellBehaved sys (entry bad m)
  kept bad m same =
      entry-Behaves sys own bad m (λ c d a s h. Mild-eq c.sock d.sock s (same c d a h))
