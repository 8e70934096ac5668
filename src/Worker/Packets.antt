-- ===== src/Worker/Packets.antt =====
-- The packets of a client in src/worker-vpn.c: parse_data, parse_cstp_data and parse_dtls_data. Bytes are numbers
-- below 256. The compressors, GnuTLS and the TUN device answer as arguments.
pub mod Alive
pub mod Idle
pub mod Refused
use ocserv_ppa.Base.{
  ℕ, ◌+◌, ◌-◌, ◌*◌, ◌%◌, ◌^◌, Bool, true, false, ◌&&◌, ◌||◌, not, List, [], ◌∷◌, ◌++◌, Option, none,
  some, ltb, leb, ◌==◌, if◌then◌else◌, length, drop, get_or, take,
}
use ocserv_ppa.Base.Int.{ℤ, pos, negsuc}
use ocserv_ppa.SecMod.Db.{reason_user_disconnect}
use ocserv_ppa.Worker.{
  UdpState, is_active, Worker, Sent, SendRet, is_failure, is_large, data_mtu_of, sub32,
}
use ocserv_ppa.Worker.Mtu.{mtu_not_ok, data_mtu_set}

abbrev pub ac_pkt_data : ℕ
ac_pkt_data = 0

abbrev pub ac_pkt_dpd_out : ℕ
ac_pkt_dpd_out = 3

abbrev pub ac_pkt_dpd_resp : ℕ
ac_pkt_dpd_resp = 4

abbrev pub ac_pkt_disconn : ℕ
ac_pkt_disconn = 5

abbrev pub ac_pkt_keepalive : ℕ
ac_pkt_keepalive = 7

abbrev pub ac_pkt_compressed : ℕ
ac_pkt_compressed = 8

-- How the world answers: sending on the two channels, writing to the TUN device, the MTU of GnuTLS for a size of
-- data, the MTU of a path over IPv6, and the two directions of a compressor, which may fail.
pub record World : Type 0 where
  pub cstp_send : List ℕ → SendRet
  pub dtls_send : Worker → List ℕ → SendRet
  pub tun_write : List ℕ → Bool
  pub get_mtu : ℕ → ℕ
  pub pathmtu : Option ℕ
  pub decompress : ℕ → List ℕ → Option (List ℕ)
  pub compress : ℕ → List ℕ → Option (List ℕ)

-- What a handler did: what it returns and sent, the worker, and the reason for which the worker exits.
pub record Step : Type 0 where
  pub ret : ℤ
  pub sent : List Sent
  pub worker : Worker
  pub over : Option ℕ

abbrev pub going : ℤ → List Sent → Worker → Step
going ret sent w = record { ret = ret; sent = sent; worker = w; over = none }

abbrev pub leaving : List Sent → Worker → ℕ → Step
leaving sent w reason = record { ret = pos 0; sent = sent; worker = w; over = some reason }

-- `ret` of a handler that sent something.
abbrev pub result_of : SendRet → ℤ
result_of r = if is_failure r then negsuc 0 else pos 0

-- The packet with another byte at its head.
abbrev pub with_head : ℕ → ℕ → List ℕ → List ℕ
with_head i head buf = take i buf ++ head ∷ drop (i + 1) buf

-- A probe on the CSTP channel is answered.
unfoldable pub answer_cstp : World → Worker → List ℕ → Step
answer_cstp env w buf =
    let answer = with_head 6 ac_pkt_dpd_resp buf in
    going (result_of (env.cstp_send answer)) (Sent.to_cstp answer ∷ []) w

-- The client probes with larger packets to find the MTU, and the MTU follows it.
unfoldable pub follow_mtu : World → Worker → ℕ → List Sent × Worker
follow_mtu env w size =
    if ltb (data_mtu_of w w.link_mtu) (size - 1)
    then data_mtu_set env.get_mtu w (size - 1)
    else ([], w)

-- A probe on the DTLS channel, of at least a byte, is answered; if it is too large, by a byte.
unfoldable pub answer_dtls : World → Worker → List ℕ → Step
answer_dtls env w buf =
    let answer = with_head 0 ac_pkt_dpd_resp buf in
    let (sent1, w1) = follow_mtu env w (length buf) in
    let r = env.dtls_send w1 answer in
    let (sent2, w2) = mtu_not_ok env.pathmtu w1 in
    let short = take 1 answer in
    if is_large r
    then going (result_of (env.dtls_send w2 short))
        (sent1 ++ Sent.to_dtls answer ∷ (sent2 ++ Sent.to_dtls short ∷ [])) w2
    else going (result_of r) (sent1 ++ Sent.to_dtls answer ∷ []) w1

-- The client's data go to the TUN device.
unfoldable pub write_tun : World → Worker → ℕ → List ℕ → Step
write_tun env w now plain =
    if env.tun_write plain
    then going (pos 0) (Sent.to_tun plain ∷ [])
        (record w { tun_bytes_in = (w.tun_bytes_in + length plain) % 2 ^ 64; last_nc_msg = now })
    else going (negsuc 0) (Sent.to_tun plain ∷ []) w

-- Compressed data need a compressor that was agreed on, and must not be empty.
unfoldable pub write_compressed : World → Worker → ℕ → Option ℕ → List ℕ → Step
write_compressed env w now none plain = going (negsuc 0) [] w
write_compressed env w now (some comp) plain = elim (env.decompress comp plain) [
  | none ↦ going (negsuc 0) [] w
  | some [] ↦ going (negsuc 0) [] w
  | some (b ∷ bs) ↦ write_tun env w now (b ∷ bs)
]

abbrev pub is_quiet : ℕ → Bool
is_quiet head = head == ac_pkt_dpd_resp || head == ac_pkt_keepalive

unfoldable pub parse_data : World → Worker → List ℕ → ℕ → Bool → Step
parse_data env w buf now is_dtls =
    let plain = if is_dtls then drop 1 buf else drop 8 buf in
    let head = if is_dtls then get_or buf 0 0 else get_or buf 6 0 in
    let comp = if is_dtls then w.dtls_selected_comp else w.cstp_selected_comp in
    if is_quiet head
    then going (pos 0) [] w
    else if head == ac_pkt_dpd_out
    then (if is_dtls then answer_dtls env w buf else answer_cstp env w buf)
    else if head == ac_pkt_disconn
    then leaving [] w reason_user_disconnect
    else if head == ac_pkt_compressed
    then write_compressed env w now comp plain
    else if head == ac_pkt_data
    then write_tun env w now plain
    else going (pos 0) [] w

-- "STF", 1, the length in two bytes, the type, and 0
unfoldable pub is_cstp : List ℕ → Bool
is_cstp buf =
    get_or buf 0 0 == b'S'
    && get_or buf 1 0 == b'T'
    && get_or buf 2 0 == b'F'
    && get_or buf 3 0 == 1
    && get_or buf 7 0 == 0

-- The length that the header gives.
abbrev pub cstp_length : List ℕ → ℕ
cstp_length buf = get_or buf 4 0 * 256 + get_or buf 5 0

-- The channel counts as alive, unless the worker exits before.
abbrev pub heard_tcp : ℕ → Step → Step
heard_tcp now s = elim s.over [
  | none ↦ record s { worker = record s.worker { last_msg_tcp = now } }
  | some reason ↦ s
]

abbrev pub heard_udp : ℕ → Step → Step
heard_udp now s = elim s.over [
  | none ↦ record s { worker = record s.worker { last_msg_udp = now } }
  | some reason ↦ s
]

unfoldable pub parse_cstp_data : World → Worker → List ℕ → ℕ → Step
parse_cstp_data env w buf now =
    let w1 =
      if get_or buf 6 0 == ac_pkt_data && is_active w.udp_state
      then record w { udp_state = UdpState.inactive }
      else w in
    if ltb (length buf) 8
    then going (negsuc 0) [] w
    else if not (is_cstp buf)
    then going (negsuc 0) [] w
    else if not (length buf == 8 + cstp_length buf)
    then going (negsuc 0) [] w
    else heard_tcp now (parse_data env w1 buf now false)

unfoldable pub parse_dtls_data : World → Worker → List ℕ → ℕ → Step
parse_dtls_data env w buf now =
    if length buf == 0 then going (negsuc 0) [] w else heard_udp now (parse_data env w buf now true)
