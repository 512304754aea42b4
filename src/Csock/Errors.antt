-- ===== src/Csock/Errors.antt =====
-- src/csock/c_errors.c.
use libsocket.Base.{List, [], ◌∷◌, if◌then◌else◌}
use libsocket.Base.Int.{ℤ, pos, negsuc, ◌==ℤ◌}
use libsocket.Layer.Types.{
  Errno, einval, enobufs, eacces, eagain, enotconn, econnrefused, eisconn, econnreset, enetunreach,
  enotsock, ebusy, eaddrinuse, etimedout, ehostunreach, other,
}

-- The cases of the switch, in their order; the constants are those of src/csock/csock.h, negated,
-- and of src/csock/tdistat.h. EWOULDBLOCK is EAGAIN, and no error is 0.
abbrev pub cases : List (ℤ × Errno)
cases =
    (negsuc 255, einval)
    ∷ ((negsuc 511, enobufs)
        ∷ ((negsuc 767, enotsock)
            ∷ ((negsuc 1023, einval)
                ∷ ((negsuc 1279, einval)
                    ∷ ((negsuc 1535, eacces)
                        ∷ ((negsuc 1791, eagain)
                            ∷ ((negsuc 2047, ebusy)
                                ∷ ((negsuc 2303, ebusy)
                                    ∷ ((negsuc 2559, enotconn)
                                        ∷ ((negsuc 2815, eagain)
                                            ∷ ((pos 0, other 0)
                                                ∷ ((pos 1, enobufs)
                                                    ∷ ((pos 2, eaddrinuse)
                                                        ∷ ((pos 14, econnrefused)
                                                            ∷ ((pos 15, enotconn)
                                                            ∷ ((pos 18, eisconn)
                                                            ∷ ((pos 19, econnrefused)
                                                            ∷ ((pos 20, econnreset)
                                                            ∷ ((pos 21, etimedout)
                                                            ∷ ((pos 22, econnreset)
                                                            ∷ ((pos 27, enetunreach)
                                                            ∷ ((pos 28, ehostunreach)
                                                            ∷ ((pos 30, ehostunreach)
                                                            ∷ [])))))))))))))))))))))))

unfoldable pub select_case : ℤ → Errno → List (ℤ × Errno) → Errno
select_case n e [] = e
select_case n e (c ∷ cs) = if c.0 ==ℤ n then c.1 else select_case n e cs

-- `__csock_errno`, where `errno` is the second argument.
unfoldable pub csock_errno : ℤ → Errno → Errno
unfolding select_case
csock_errno n e = select_case n e cases

-- CSOCK_ERR_FD_INUSE and CSOCK_ERR_WOULD_BLOCK, negated.
abbrev pub fd_inuse : ℤ
fd_inuse = negsuc 2047

abbrev pub would_block : ℤ
would_block = negsuc 2815
