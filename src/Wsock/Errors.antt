-- ===== src/Wsock/Errors.antt =====
-- src/wsock/w_errors.c and w_errors.h.
use libsocket.Base.{ℕ, ◌==◌, if◌then◌else◌, Option, none, some, List, [], ◌∷◌}
use libsocket.Layer.Types.{
  Errno, eaddrinuse, eaddrnotavail, eafnosupport, eagain, ealready, ebadf, econnaborted,
  econnrefused, econnreset, edestaddrreq, edquot, efault, ehostdown, ehostunreach, einprogress,
  eintr, einval, eisconn, eloop, emsgsize, enametoolong, enetdown, enetreset, enetunreach, enfile,
  enobufs, enoprotoopt, enotconn, enotempty, enotsock, eopnotsupp, epfnosupport, eprotonosupport,
  eprototype, eremote, eshutdown, esocktnosupport, estale, etimedout, etoomanyrefs, eusers, other,
}

-- Rows of WSA_ERRORS: the driver's error, and the number of `errno`, `none` for -1. EWOULDBLOCK is
-- EAGAIN, and no error is 0. First the constants of Winsock's own errors.
abbrev extended : List (ℕ × Option Errno)
extended =
    (10091, some (other 0))
    ∷ ((10092, some (other 0))
        ∷ ((10093, some (other 0))
            ∷ ((11001, some (other 0))
                ∷ ((11002, some (other 0))
                    ∷ ((11003, some (other 0)) ∷ ((11004, some (other 0)) ∷ ([])))))))

abbrev pub wsa_errors : List (ℕ × Option Errno)
wsa_errors =
    (10004, some eintr)
    ∷ ((10009, some ebadf)
        ∷ ((10014, some efault)
            ∷ ((10022, some einval)
                ∷ ((10024, some enfile)
                    ∷ ((10035, some eagain)
                        ∷ ((10036, some einprogress)
                            ∷ ((10037, some ealready)
                                ∷ ((10038, some enotsock)
                                    ∷ ((10039, some edestaddrreq)
                                        ∷ ((10040, some emsgsize)
                                            ∷ ((10041, some eprototype)
                                                ∷ ((10042, some enoprotoopt)
                                                    ∷ ((10043, some eprotonosupport)
                                                        ∷ ((10044, some esocktnosupport)
                                                            ∷ ((10045, some eopnotsupp)
                                                            ∷ ((10046, some epfnosupport)
                                                            ∷ ((10047, some eafnosupport)
                                                            ∷ ((10048, some eaddrinuse)
                                                            ∷ ((10049, some eaddrnotavail)
                                                            ∷ ((10050, some enetdown)
                                                            ∷ ((10051, some enetunreach)
                                                            ∷ ((10052, some enetreset)
                                                            ∷ ((10053, some econnaborted)
                                                            ∷ ((10054, some econnreset)
                                                            ∷ ((10055, some enobufs)
                                                            ∷ ((10056, some eisconn)
                                                            ∷ ((10057, some enotconn)
                                                            ∷ ((10058, some eshutdown)
                                                            ∷ ((10059, some etoomanyrefs)
                                                            ∷ ((10060, some etimedout)
                                                            ∷ ((10061, some econnrefused)
                                                            ∷ ((10062, some eloop)
                                                            ∷ ((10063, some enametoolong)
                                                            ∷ ((10064, some ehostdown)
                                                            ∷ ((10065, some ehostunreach)
                                                            ∷ ((10066, some enotempty)
                                                            ∷ ((10067, none)
                                                            ∷ ((10068, some eusers)
                                                            ∷ ((10069, some edquot)
                                                            ∷ ((10070, some estale)
                                                            ∷ ((10071, some eremote) ∷ (extended))))
                                                            ))))))))))))))))))))))))))))))))))))))

-- The row that the loop stops at, the last one for an error that is not there.
unfoldable pub find_error : ℕ → List (ℕ × Option Errno) → Option Errno
find_error n [] = none
find_error n (row ∷ rows) = if row.0 == n then row.1 else find_error n rows

-- `__wsock_errno`: it looks for `_VXDError`, the second argument, and not for its own.
unfoldable pub wsock_errno : ℕ → ℕ → Errno
unfolding find_error
wsock_errno i_errno vxd_error = elim (find_error vxd_error wsa_errors) [
  | none ↦ other 0
  | some e ↦ e
]

-- WSAEWOULDBLOCK, and WSOCK_WILL_BLOCK.
abbrev pub wsaewouldblock : ℕ
wsaewouldblock = 10035

abbrev pub will_block : ℕ
will_block = 65535
