-- ===== src/Unix/Close.antt =====
-- src/unix/u_close.c.
use libsocket.Base.{◌+◌, ◌%◌, if◌then◌else◌, M, return, ◌>>◌}
use libsocket.Base.Int.{ℤ, pos, minus_one}
use libsocket.Unix.Message.{Header, header_bytes}
use libsocket.Unix.Types.{
  UnixSocket, Files, Unix, io, set_usock, header_size, msg_version, msg_server_close,
  msg_client_close, two_32,
}

module _ {E : Type 0} (files : Files E) where
  unfoldable pub close_header : Unix E → Header
  close_header c = record {
    version = msg_version;
    type = if c.sock.accepted then msg_server_close else msg_client_close;
    secret = c.usock.secret;
    seq_start = c.usock.seq_w;
    seq_end = c.usock.seq_w;
    offset = header_size;
  }

  -- `__unix_close`. The results of the calls are not looked at.
  unfoldable pub close : M (Unix E) ℤ
  unfolding close_header
  close c =
      let u = c.usock in
      let k : UnixSocket = record u {
        fd_w = minus_one;
        fd_r = minus_one;
        seq_w = (u.seq_w + 1) % two_32;
      } in
      (io (files.set_nonblock u.fd_w)
          >> io (files.write u.fd_w (header_bytes (close_header c)))
          >> io (files.close u.fd_r)
          >> io (files.close u.fd_w)
          >> set_usock k
          >> return (pos 0))
        c
