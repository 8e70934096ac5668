-- ===== src/Proxy/Headers.antt =====
-- What a proxy writes, the server reads.
use ocserv_ppa.Base.{
  ℕ, ◌+◌, ◌*◌, ◌/◌, ◌%◌, ◌≤◌, ◌≡◌, List, [], ◌∷◌, ◌++◌, Option, some, if◌then◌else◌, length, arith,
  length-append, take-append, ◌∙◌,
}
use ocserv_ppa.Base.Bytes.{bytes_eq}
use ocserv_ppa.Proxy.{
  ProxyWorker, af_inet, inet_len, parse_ssl_tlvs, v2_addresses, parse_v2, proxy_header_v2,
  parse_proxy_proto_header,
}

-- The header of a connection over IPv4 with its client's and its server's address and ports (each as two
-- bytes), and further fields.
abbrev pub v2_header : List ℕ → List ℕ → ℕ → ℕ → ℕ → ℕ → List ℕ → List ℕ
v2_header src dst s1 s0 d1 d0 tlvs =
    proxy_header_v2
    ++ (0x21 ∷ 0x11 ∷ (12 + length tlvs) / 256 ∷ (12 + length tlvs) % 256 ∷ [])
    ++ (src ++ (dst ++ (s1 ∷ s0 ∷ d1 ∷ d0 ∷ tlvs)))

parse-payload :
    (inet_pton : ℕ → List ℕ → Option (List ℕ)) (atoi : List ℕ → ℕ) (w : ProxyWorker)
    (ver_cmd fam_proto high low : ℕ) (payload after : List ℕ)
    → high * 256 + low ≡ length payload
    → length payload ≤ 520
    → parse_proxy_proto_header inet_pton atoi w
        (proxy_header_v2 ++ (ver_cmd ∷ fam_proto ∷ high ∷ low ∷ (payload ++ after)))
      ≡ parse_v2 w ver_cmd fam_proto payload
unfolding parse_proxy_proto_header bytes_eq
parse-payload inet_pton atoi w ver_cmd fam_proto high low payload after size h = ground (
  arith,
  size,
  h,
  length-append payload after,
  take-append (high * 256 + low) payload after (omega (arith, size)),
)

parse_v2-ipv4 :
    (w : ProxyWorker) (a1 a2 a3 a4 b1 b2 b3 b4 s1 s0 d1 d0 : ℕ) (tlvs : List ℕ)
    → parse_v2 w 0x21 0x11 (a1 ∷ a2 ∷ a3 ∷ a4 ∷ b1 ∷ b2 ∷ b3 ∷ b4 ∷ s1 ∷ s0 ∷ d1 ∷ d0 ∷ tlvs)
      ≡ some (record {
        remote_addr = record {
          family = af_inet;
          ip = a1 ∷ a2 ∷ a3 ∷ a4 ∷ [];
          port = s1 * 256 + s0;
          len = inet_len;
        };
        our_addr = record {
          family = af_inet;
          ip = b1 ∷ b2 ∷ b3 ∷ b4 ∷ [];
          port = d1 * 256 + d0;
          len = inet_len;
        };
        cert = if w.is_unix then parse_ssl_tlvs w.cert tlvs else w.cert;
        is_unix = w.is_unix;
      })
unfolding parse_v2 v2_addresses
parse_v2-ipv4 w a1 a2 a3 a4 b1 b2 b3 b4 s1 s0 d1 d0 tlvs = ground arith

-- The worker takes over the addresses of a version 2 header for IPv4, and its further fields where it
-- listens on a Unix socket, if they fit into the buffer; what follows the header is not read.
pub parse-v2_header :
    (inet_pton : ℕ → List ℕ → Option (List ℕ)) (atoi : List ℕ → ℕ) (w : ProxyWorker)
    (a1 a2 a3 a4 b1 b2 b3 b4 s1 s0 d1 d0 : ℕ) (tlvs after : List ℕ)
    → 12 + length tlvs ≤ 520
    → let src = a1 ∷ a2 ∷ a3 ∷ a4 ∷ [] in
      let dst = b1 ∷ b2 ∷ b3 ∷ b4 ∷ [] in
      parse_proxy_proto_header inet_pton atoi w (v2_header src dst s1 s0 d1 d0 tlvs ++ after)
      ≡ some (record {
        remote_addr = record { family = af_inet; ip = src; port = s1 * 256 + s0; len = inet_len };
        our_addr = record { family = af_inet; ip = dst; port = d1 * 256 + d0; len = inet_len };
        cert = if w.is_unix then parse_ssl_tlvs w.cert tlvs else w.cert;
        is_unix = w.is_unix;
      })
parse-v2_header inet_pton atoi w a1 a2 a3 a4 b1 b2 b3 b4 s1 s0 d1 d0 tlvs after h =
    let payload = a1 ∷ a2 ∷ a3 ∷ a4 ∷ b1 ∷ b2 ∷ b3 ∷ b4 ∷ s1 ∷ s0 ∷ d1 ∷ d0 ∷ tlvs in
    parse-payload inet_pton atoi w 0x21 0x11 ((12 + length tlvs) / 256) ((12 + length tlvs) % 256)
      payload after (omega arith) (omega (arith, h))
    ∙ parse_v2-ipv4 w a1 a2 a3 a4 b1 b2 b3 b4 s1 s0 d1 d0 tlvs
