-- ===== src/Lib.antt =====
-- libsocket: BSD sockets for DJGPP programs.
--
-- The library has a socket layer, which the program calls and which checks arguments and the state
-- of a descriptor, and interfaces (src/wsock, src/csock, src/unix), each a table of functions that
-- reach a network. Beside the layer stands a resolver from the BSD sources (src/inet).
--
-- Parts and files:
--
-- Base: the names that all parts share. Base/Lists has the byte buffers, with `memcpy` and `bzero`,
-- which are `none` beyond a buffer's end. Base/State has the state monad `M`, in which `none` stands
-- for an access that C leaves undefined (a null or freed pointer, a copy beyond a buffer). Base/Int
-- has the C `int`.
--
-- Layer: the socket layer of src/*.c.
--   Types, Interface: LSCK_SOCKET and LSCK_IF of include/lsck/if.h, and the error numbers. A call of
--   an interface reads and writes one descriptor, `errno` and an environment, and always returns.
--   World: the global state (`__lsck_socket[]`, the interfaces, `errno`, a heap of descriptors), the C
--   library's FSEXT functions as the parameter `Sys`, and the lookup of a descriptor, in src/socket.c
--   and src/fsext.c. `on_socket` is the beginning that most functions share.
--   Bind: src/bind.c, src/listen.c. Connect: src/connct.c. Transfer: src/send.c, src/recv.c and
--   src/select.c. Names: src/gscknm.c, src/gprnm.c. Options: src/shtdwn.c, src/sckopt.c, src/fcntl.c.
--   Close: src/close.c. Init: src/initnt.c. Create: src/socket.c. Accept: src/accept.c.
--   Fsext: the handler of src/fsext.c by which read, write and close reach a socket.
--   A function `f_body` works on the descriptor and the interface alone; `f` is the public function.
--   Sound: what the layer relies on in an interface (`IsHonest`), the invariant of one descriptor
--   (`IsSound`) and of the whole state (`IsWellFormed`). Keep: the functions and these invariants.
--   Laws: the functions branch by branch, and one call behind another.
--   Tests, Witnesses: a small network, and the theorems applied on it.
--
-- Dns: src/inet/r_comp.c on a list of bytes; a pointer is an offset from the message's start. Expand
-- has `dn_expand` and `__dn_skipname`, whose proofs stand in Expand/Bounds and Expand/Skip. Compress has
-- `dn_comp` and `dn_find`, with what is written for a name (Compress/Wire) and what `dn_expand` makes of
-- it (Compress/RoundTrip). Numbers has `_getshort`, `_getlong`, `__putshort` and `__putlong`.
--
-- Unix: the interface of src/unix/u_*.c, over mailslots. Types has LSCK_SOCKET_UNIX, the constants of
-- src/unix/unix.h and the C library's file functions, which the mailslots of src/unix/mailslot.c (taken
-- from another library) serve: they are the parameter `Files`. Message has the header of a message as
-- bytes. Open: u_socket.c, u_bind.c. Handshake: u_connct.c. Accept: u_accept.c. Pair: u_sockpr.c.
-- Send, Recv: the stream functions of u_send.c and u_recv.c. Dgram: their datagram functions. Close:
-- u_close.c. Names: u_gscknm.c, u_gprnm.c, u_listen.c, u_shtdwn.c, u_sckopt.c and the checks of
-- u_initnt.c. Control: u_select.c, u_fcntl.c, u_ioctl.c and the choice by the type of a socket. The
-- state `Unix` is one descriptor with the data behind `idata`, the static buffer of the receiver,
-- `errno` and the library's state. Stream has the abstract view: `Carries` says which bytes a sequence
-- of messages carries, and `IsMailslot` what both ends rely on. Datagrams follows a datagram from
-- `send_dgram` to `recv_dgram`. Layer/Reach has the layer as a step relation over those
-- public functions that neither create nor close sockets.
--
-- Csock: the interface of src/csock/c_*.c, over the driver SOCK.VXD, which the sources call by registers
-- and which is the parameter `Driver`. Errors: c_errors.c. Descriptors: c_socket.c, c_close.c. Calls:
-- c_bind.c, c_listen.c, c_connct.c, c_shtdwn.c, c_sockpr.c, c_select.c, c_ioctl.c, c_fcntl.c,
-- c_nblkio.c and the checks of c_initnt.c. Names: c_gscknm.c, c_gprnm.c, c_sckopt.c. Transfer:
-- c_send.c, c_recv.c, c_accept.c. Outcomes: how they answer the driver's errors.
-- Table has them as a table of the layer, c_initnt.c, and Honest has that it meets what the layer
-- relies on in an interface.
--
-- Wsock: the interface of src/wsock/w_*.c, over the driver WSOCK.VXD, which the sources call through a
-- buffer of parameters and which is the parameter `Driver`, by command. Errors: w_errors.c. Types: the
-- parameters of wsockvxd.h and callvxd.c. Calls: w_listen.c, w_shtdwn.c, w_close.c, w_bind.c,
-- w_sockpr.c, w_gscknm.c, w_gprnm.c, w_ioctl.c, w_fcntl.c and the checks of w_initnt.c. Select:
-- w_select.c, w_nblkio.c. Transfer: w_send.c, w_recv.c, w_connct.c, w_accept.c. Options: w_sckopt.c,
-- w_socket.c. The loop of `__wsock_select_wait` has fuel; `IsReliable` says what of the driver makes it
-- enough.
--
-- Config: Profile is src/ini.c, with what a line shows (Profile/Shapes) and the sections and keys of a
-- file as the abstract view (Profile/Lookup). Files: src/config.c. Address: src/addr.c. Servers:
-- src/dnsaddr.c. Hosts: src/hstnm.c, over the names in all of these. A file is the list of the texts that
-- `fgets` gives, and Laws has what the functions make of it; on a blank line the code leaves its
-- buffer, and the functions are `none`; MAXGETHOSTNAME and PATH_MAX are arguments.
--
-- Vector: src/readv.c and src/writev.c, over the C library's `malloc`, `read` and `write`; Scatter and
-- Joined see the vectors as one run of bytes. IfIndex: src/if.c.
--
-- Inet: addresses as texts and numbers. Text: src/inet/i_addr.c and src/inet/i_ntoa.c.
-- Network: src/inet/i_net.c. Class: src/inet/i_netof.c, src/inet/i_lnaof.c and src/inet/i_mkaddr.c.
-- Order has the C library's `htonl`. `u_long` has 32 bits, and texts hold no 0 before their end.
--
-- Bounds and fuel: the table has 256 entries, and names 110 bytes with their padding, as in the
-- headers. `expand_fuel` is (eom + 1) ^ 2 + 1 for a message of eom bytes: each pointer raises the
-- count of checked bytes, which stays below eom, and between two pointers a name only moves forward.
-- `__dn_skipname` moves forward in each round, and has one round for each byte that is left.
--
-- The sending loop of a stream has a turn for each byte and one more; the receiving loop has no bound of
-- its own, and its fuel is an argument: a message with bytes ends it in one turn, also one that is not for the
-- socket, since the count of `read` stays in `ret`. The loop of
-- __csock_socket has its 31 descriptors; the waiting for a connection in __csock_accept and in
-- __csock_select_wait is bounded by an argument. A `long` is its 32 bits, MAXINT is 2 ^ 31 - 1.
--
-- What C leaves open is a parameter: the interfaces and the C library's functions, and the contents
-- of local buffers (`buf` of `bind`, `scratch` of `getsockopt`). The stored bytes of `int`s are taken
-- to be four, the low one first. In `__lsck_init` the debug options, its messages and the version
-- strings are left out, since they do not touch sockets. Of the FSEXT handler, ioctl and fstat are left
-- out. In src/unix, __unix_init is left
-- out, and the `bind` that connect and send_dgram call on their own descriptor is an argument. Not
-- modelled: __wsock_init and the loading of WSOCK.VXD; __csock_init; the resolver's queries and
-- databases; the registry; the demos and tools.
pub mod Base
pub mod Layer
pub mod Dns
pub mod Inet
pub mod Unix
pub mod Vector
pub mod IfIndex
pub mod Csock
pub mod Wsock
pub mod Config
