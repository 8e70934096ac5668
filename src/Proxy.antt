-- ===== src/Proxy.antt =====
-- src/worker-proxyproto.c: the header that a proxy before the server sends for each connection, as a
-- line of text (version 1) or in binary (version 2). What is read from the socket is a list of bytes.
-- The C library's `inet_pton` and `atoi` (to 16 bits) are arguments. A failure is `none`: the worker
-- then ends, so that what was written until then is not kept.
pub mod Tlvs
pub mod Headers
mod Tests
use ocserv_ppa.Base.{
  ◌>>=◌, ℕ, zero, suc, ◌+◌, ◌*◌, ◌-◌, ◌/◌, ◌%◌, Bool, true, false, ◌&&◌, ◌||◌, not, List, [], ◌∷◌,
  ◌++◌, Option, none, some, ltb, leb, ◌==◌, if◌then◌else◌, length, take, drop, get_or,
}
use ocserv_ppa.Base.Bytes.{bytes_eq}

-- A `sockaddr_storage` and its length. Ports are numbers.
pub record PeerAddr : Type 0 where
  pub family : ℕ
  pub ip : List ℕ
  pub port : ℕ
  pub len : ℕ

-- `cert_auth_ok` and `cert_username` of the worker.
pub record Cert : Type 0 where
  pub auth_ok : Bool
  pub username : List ℕ

-- What the header changes of the worker, and whether it listens on a Unix socket.
pub record ProxyWorker : Type 0 where
  pub remote_addr : PeerAddr
  pub our_addr : PeerAddr
  pub cert : Cert
  pub is_unix : Bool

abbrev pub af_inet : ℕ
af_inet = 2

abbrev pub af_inet6 : ℕ
af_inet6 = 10

-- `sizeof(struct sockaddr_in)` and `sizeof(struct sockaddr_in6)`
abbrev pub inet_len : ℕ
inet_len = 16

abbrev pub inet6_len : ℕ
inet6_len = 28

-- Two bytes in the order of the network.
abbrev pub ntohs : List ℕ → ℕ
ntohs bs = get_or bs 0 0 * 256 + get_or bs 1 0

abbrev pub max_cn : ℕ
max_cn = 63

abbrev pub bit_set : ℕ → ℕ → Bool
bit_set bit n = (n / bit) % 2 == 1

-- `PP2_CLIENT_SSL` and `PP2_CLIENT_CERT_SESS` are set, and `verify` is 0.
pub is_verified : List ℕ → Bool
is_verified ssl =
    (bit_set 1 (get_or ssl 0 0) && bit_set 4 (get_or ssl 0 0))
    && bytes_eq (take 4 (drop 1 ssl)) (0 ∷ 0 ∷ 0 ∷ 0 ∷ [])

-- The loop over the fields (type, length, value); each turn takes 3 bytes at least. A field for TLS
-- holds others, so that only its own 5 bytes are taken. A value that is too short or too long for its
-- type is not skipped.
pub parse_ssl_tlvs_loop : ℕ → Cert → List ℕ → Cert
parse_ssl_tlvs_loop zero c bytes = c
parse_ssl_tlvs_loop (suc n) c bytes =
    let type = get_or bytes 0 0 in
    let len = ntohs (drop 1 bytes) in
    let value = drop 3 bytes in
    let verified = if is_verified value then record c { auth_ok = true } else c in
    let named = record c { username = take len value } in
    let again = parse_ssl_tlvs_loop n c value in
    let after_ssl = parse_ssl_tlvs_loop n verified (drop 5 value) in
    let after_cn = parse_ssl_tlvs_loop n named (drop len value) in
    let after = parse_ssl_tlvs_loop n c (drop len value) in
    if ltb (length bytes) 3
    then c
    else if type == 0x20
    then if ltb len 5 then again else if ltb (length value) 5 then c else after_ssl
    else if type == 0x22 && c.auth_ok
    then if ltb max_cn len then again else if ltb (length value) len then c else after_cn
    else if ltb (length value) len
    then c
    else after

pub parse_ssl_tlvs : Cert → List ℕ → Cert
parse_ssl_tlvs c bytes = parse_ssl_tlvs_loop (length bytes) c bytes

-- `strchr(line, ' ')`: what stands before the first space, and what after.
pub split_space : List ℕ → Option (List ℕ × List ℕ)
split_space [] = none
split_space (b ∷ bs) =
    if b == b' '
    then some ([], bs)
    else elim (split_space bs) [ none ↦ none | some (before, after) ↦ some (b ∷ before, after) ]

module _ (inet_pton : ℕ → List ℕ → Option (List ℕ)) (atoi : List ℕ → ℕ) where
  -- The line after the family: both addresses, then both ports.
  pub parse_v1_addrs : ℕ → ℕ → ProxyWorker → List ℕ → Option ProxyWorker
  parse_v1_addrs family len w line = do
    (src_text, line1) ← split_space line
    src ← inet_pton family src_text
    (dst_text, line2) ← split_space line1
    dst ← inet_pton family dst_text
    (sport_text, line3) ← split_space line2
    some (record w {
      remote_addr = record { family = family; ip = src; port = atoi line2; len = len };
      our_addr = record { family = family; ip = dst; port = atoi line3; len = len };
    })

  pub parse_proxy_proto_header_v1 : ProxyWorker → List ℕ → Option ProxyWorker
  parse_proxy_proto_header_v1 w line =
      if bytes_eq (take 5 line) (b'T' ∷ b'C' ∷ b'P' ∷ b'4' ∷ b' ' ∷ [])
      then parse_v1_addrs af_inet inet_len w (drop 5 line)
      else if bytes_eq (take 5 line) (b'T' ∷ b'C' ∷ b'P' ∷ b'6' ∷ b' ' ∷ [])
      then parse_v1_addrs af_inet6 inet6_len w (drop 5 line)
      else none

-- The bytes after the first 16, one at a time, up to the end of the line; a carriage return is kept as
-- a NUL, and `last` is the byte before.
pub read_line : ℕ → ℕ → List ℕ → List ℕ → Option (List ℕ)
read_line zero last got input = none
read_line (suc n) last got [] = none
read_line (suc n) last got (b ∷ bs) =
    let more = read_line n b (got ++ (b ∷ [])) bs in
    let cr = read_line n 0 (got ++ (0 ∷ [])) bs in
    if b == 13
    then cr
    else if b == 10
    then if last == 0 then some (got ++ (b ∷ [])) else none
    else more

-- A C string
pub until_nul : List ℕ → List ℕ
until_nul [] = []
until_nul (b ∷ bs) = if b == 0 then [] else b ∷ until_nul bs

-- The addresses of version 2, each of `size` bytes, with the ports after both.
abbrev pub v2_addr : ℕ → ℕ → List ℕ → PeerAddr
v2_addr from port bytes = record {
  family = af_inet;
  ip = take 4 (drop from bytes);
  port = ntohs (drop port bytes);
  len = inet_len;
}

-- The family of our own IPv6 address is written before the pointer is set to it, and its length is that
-- of an IPv4 address.
pub v2_addresses : ℕ → ProxyWorker → List ℕ → ProxyWorker × List ℕ
v2_addresses family w bytes =
    if family == 1
    then if ltb (length bytes) 12 then (w, []) else (
      record w { remote_addr = v2_addr 0 8 bytes; our_addr = v2_addr 4 10 bytes },
      drop 12 bytes,
    )
    else if ltb (length bytes) 36
    then (w, [])
    else (
      record w {
        remote_addr = record {
          family = af_inet6;
          ip = take 16 bytes;
          port = ntohs (drop 32 bytes);
          len = inet6_len;
        };
        our_addr = record {
          family = 0;
          ip = take 16 (drop 16 bytes);
          port = ntohs (drop 34 bytes);
          len = inet_len;
        };
      },
      drop 36 bytes,
    )

pub parse_v2 : ProxyWorker → ℕ → ℕ → List ℕ → Option ProxyWorker
parse_v2 w ver_cmd fam_proto bytes =
    let family = fam_proto / 16 in
    let proto = fam_proto % 16 in
    let (w', tlvs) = v2_addresses family w bytes in
    if not (ver_cmd / 16 == 2)
    then some w
    else if not (ver_cmd % 16 == 1) && not (ver_cmd % 16 == 0)
    then none
    else if not (family == 1) && not (family == 2)
    then some w
    else if not (proto == 1) && not (proto == 0)
    then some w
    else some (if w.is_unix then record w' { cert = parse_ssl_tlvs w'.cert tlvs } else w')

abbrev pub proxy_header_v2 : List ℕ
proxy_header_v2 = 13 ∷ 10 ∷ 13 ∷ 10 ∷ 0 ∷ 13 ∷ 10 ∷ 0x51 ∷ 0x55 ∷ 0x49 ∷ 0x54 ∷ 10 ∷ []

abbrev pub proxy_header_v1 : List ℕ
proxy_header_v1 = b'P' ∷ b'R' ∷ b'O' ∷ b'X' ∷ b'Y' ∷ b' ' ∷ []

-- The socket yields `input` and then ends, which makes a read of more bytes fail.
pub parse_proxy_proto_header :
    (ℕ → List ℕ → Option (List ℕ)) → (List ℕ → ℕ) → ProxyWorker → List ℕ → Option ProxyWorker
parse_proxy_proto_header inet_pton atoi w input =
    let hdr = take 16 input in
    let rest = drop 16 input in
    let size = ntohs (drop 14 hdr) in
    if ltb (length input) 16
    then none
    else if bytes_eq (take 6 hdr) proxy_header_v1
    then (do
      line ← read_line 92 (get_or hdr 15 0) hdr rest
      parse_proxy_proto_header_v1 inet_pton atoi w (until_nul (drop 6 line)))
    else if not (bytes_eq (take 12 hdr) proxy_header_v2)
    then none
    else if ltb 520 size || ltb (length rest) size
    then none
    else parse_v2 w (get_or hdr 12 0) (get_or hdr 13 0) (take size rest)
