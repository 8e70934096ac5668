-- ===== src/Lib.antt =====
-- ocserv, a VPN server. A privileged main process accepts connections and keeps the bans, the
-- security module (sec-mod) authenticates clients and keeps their entries, and one worker process per
-- client speaks TLS and HTTP to it. They talk in protobuf messages over sockets.
--
-- Base, Base/*: numbers, integers, bytes, and the interface of the hash tables (src/ccan/htable),
--   which is all that is taken of that library. The laws hold as no key is added twice.
-- Ban: src/main-ban.c. The table of banned addresses: each bad connection or password adds points to
--   the score of its address (of its /64 for IPv6), and an address whose score reaches
--   `max_ban_score` is banned for `min_reauth_time`.
-- SecMod: src/sec-mod.h, src/sec-mod-auth.h. The data of the security module.
-- SecMod/Db: src/sec-mod-db.c. The table of client entries by session identifier (SID).
-- SecMod/Group: check_group and check_cert_user_group_status of src/sec-mod-auth.c.
-- SecMod/Auth: the authentication handlers of src/sec-mod-auth.c, the first message in Auth/Init.
-- SecMod/Session: the session handlers of src/sec-mod-auth.c.
-- IpUtil: prefixes, masks and routes of src/ip-util.c. `bit_count` runs on 32 steps, the bits of its
--   argument.
-- Main: the main process's `proc_st` of a worker and its state. Main/Config: the configuration of a
--   client (src/main-sec-mod-cmd.c). Main/Stats: its statistics. Main/Session: what it asks of the
--   security module. Main/Users: the limit on a user's sessions (src/main-auth.c). Main/Login: the login
--   with a cookie (src/main-auth.c, src/main-worker-cmd.c). Main/Commands: the messages of the workers
--   and of the security module. Main/Remove: the beginning and end of a worker (src/main-proc.c), and the end of its connect script
--   (src/main.c), with which Main/Remove/LoggedIn puts the login together.
--   Main/Commands/Bans, Main/Remove/Gaps and Main/Remove/Sessions put it together with the security
--   module.
-- Proxy: src/worker-proxyproto.c, the header of a proxy before the server. The loop over its fields runs
--   on as many turns as there are bytes, of which each turn takes three at least.
-- ProcTable: src/proc-search.c, how the main process finds the worker of an address, of a DTLS session
--   or of a SID. Base/Index is the interface of the tables, where a key may have several entries.
-- Url: src/html.c, on bytes; Url/Html is unescape_html.
-- Reply: parse_reply and match_password_in_reply of src/worker-auth.c, which take the fields of a login from a form
--   or an XML document, and decode them with Url.
-- FwPorts: src/config-ports.c, the parser of the ports that a user is restricted to, on fuel: the length of
--   the text and one more, as each entry takes at least a byte.
-- Worker, Periodic: src/worker-vpn.c, the worker of a client once the VPN is up. Worker is its state,
--   Worker/Mtu the discovery of the MTU, Worker/Packets what it does with a packet of the client,
--   Worker/Loops and Worker/Tun what it does when a channel or the TUN device is ready, Periodic the
--   timeouts and dead peer detection. GnuTLS, the compressors and the TUN device answer as arguments
--   (`World`). A handshake of DTLS has fuel: the MTU falls by a third each turn, so that ten turns are
--   enough from the size of the buffer to the lowest MTU.
-- Str: src/str.c, the buffers of bytes, with their memory as a list; str_replace_str is on fuel, one turn more
--   than there are percent signs, where the values that are put in have none.
-- Plain: src/auth/plain.c, the module of the security module that authenticates with a file of passwords. It fills
--   `AuthMod`, the interface in SecMod; Plain/Client is about the two together. `crypt`, the check of one-time
--   passwords and the content of the file are arguments. Reading is on fuel, a turn for each byte and one more.
-- Resume: src/sec-mod-resume.c, the cache of TLS sessions; `htable_add` and the allocator are arguments.
-- Bandwidth: src/worker-bandwidth.c, the limit on what a worker passes on.
-- IpLease: src/ip-lease.c. IpLease/Ipv4 and IpLease/Ipv6 choose an address for a client in at most 16
--   tries, IpLease/Leases keeps the table of leases. Parsing of addresses, SHA-1, random bytes and
--   pings are an argument (`Env`).
--
-- The definitions have the names of the C functions. A function takes the time, the configuration,
-- the random numbers and the answers of `send_msg` that the C code asks the system for, and gives
-- its result, the messages that it sends and the new state. Authentication and accounting modules
-- are records of functions (`AuthMod`, `AcctMod`) and stand for any module. Texts are their bytes
-- without the final NUL. Unsigned C integers keep their wrap-around; times are natural numbers. The
-- loops recur on lists or on the number of tries that the code starts with; `bit_count` and the
-- loop of Proxy over its fields run on a number of steps that the code does not have, the 32 bits of the
-- argument and the length of the data.
--
-- Not modelled: sockets, TLS, processes, logs, memory that is freed, the parsing of the
-- configuration, the widths of `int` and `unsigned` in src/str.c, where talloc refuses larger sizes
-- before, and the libraries in the tree.
pub mod Ban
pub mod Bandwidth
pub mod Base
pub mod FwPorts
pub mod IpLease
pub mod IpUtil
pub mod Main
pub mod Periodic
pub mod Plain
pub mod ProcTable
pub mod Proxy
pub mod Reply
pub mod Resume
pub mod SecMod
pub mod Str
pub mod Url
pub mod Worker
