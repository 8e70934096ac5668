-- ===== src/Proxy/Tests.antt =====
-- The headers of a proxy at concrete values.
use ocserv_ppa.Base.{ℕ, ◌≡◌, refl, true, false, List, [], ◌∷◌, ◌++◌, none, some, arith}
use ocserv_ppa.Base.Bytes.{bytes_eq}
use ocserv_ppa.Proxy.{
  PeerAddr, Cert, ProxyWorker, is_verified, parse_ssl_tlvs_loop, parse_ssl_tlvs,
  parse_proxy_proto_header, af_inet, inet_len,
}
use ocserv_ppa.Proxy.Headers.{v2_header, parse-v2_header}

abbrev no_cert : Cert
no_cert = record { auth_ok = false; username = [] }

-- A verified certificate, and the name "bo".
abbrev fields : List ℕ
fields = 0x20 ∷ 0 ∷ 5 ∷ 5 ∷ 0 ∷ 0 ∷ 0 ∷ 0 ∷ 0x22 ∷ 0 ∷ 2 ∷ 98 ∷ 111 ∷ []

-- The name is taken.
named : parse_ssl_tlvs no_cert fields ≡ record { auth_ok = true; username = 98 ∷ 111 ∷ [] }
unfolding parse_ssl_tlvs parse_ssl_tlvs_loop is_verified bytes_eq
named = refl

-- Without the certificate it is not.
unnamed : parse_ssl_tlvs no_cert (0x22 ∷ 0 ∷ 2 ∷ 98 ∷ 111 ∷ []) ≡ no_cert
unfolding parse_ssl_tlvs parse_ssl_tlvs_loop
unnamed = refl

abbrev nobody : PeerAddr
nobody = record { family = 0; ip = []; port = 0; len = 0 }

abbrev listening : ProxyWorker
listening = record { remote_addr = nobody; our_addr = nobody; cert = no_cert; is_unix = true }

abbrev client : List ℕ
client = 10 ∷ 0 ∷ 0 ∷ 1 ∷ []

abbrev here : List ℕ
here = 10 ∷ 0 ∷ 0 ∷ 2 ∷ []

parse-v2_header_example :
    parse_proxy_proto_header
      (λ f t. none)
      (λ t. 0)
      listening
      (v2_header client here 1 0 1 187 fields ++ (7 ∷ []))
    ≡ some (record {
      remote_addr = record { family = af_inet; ip = client; port = 256; len = inet_len };
      our_addr = record { family = af_inet; ip = here; port = 443; len = inet_len };
      cert = parse_ssl_tlvs no_cert fields;
      is_unix = true;
    })
parse-v2_header_example =
    parse-v2_header (λ f t. none) (λ t. 0) listening 10 0 0 1 10 0 0 2 1 0 1 187 fields (7 ∷ [])
      (omega arith)
