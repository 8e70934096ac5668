-- ===== src/Worker/Tun.antt =====
-- What a worker does with a packet from the TUN device: tun_mainloop of src/worker-vpn.c.
pub mod Framing
use ocserv_ppa.Base.{
  ℕ, ◌+◌, ◌-◌, ◌*◌, ◌/◌, ◌%◌, ◌^◌, Bool, true, false, ◌&&◌, ◌||◌, not, List, [], ◌∷◌, ◌++◌, Option,
  none, some, ltb, leb, ◌==◌, if◌then◌else◌, length,
}
use ocserv_ppa.Base.Int.{pos, negsuc}
use ocserv_ppa.Bandwidth.{Timespec, bandwidth_update}
use ocserv_ppa.Main.Stats.{reason_error}
use ocserv_ppa.Worker.{is_active, Settings, Worker, Sent, SendRet, is_fatal, is_large, data_mtu_of}
use ocserv_ppa.Worker.Mtu.{mtu_not_ok, mtu_ok}
use ocserv_ppa.Worker.Packets.{World, Step, going, leaving, ac_pkt_data, ac_pkt_compressed}
use ocserv_ppa.Worker.Loops.{inactive_from}

-- A packet in a CSTP frame.
unfoldable pub cstp_frame : ℕ → List ℕ → List ℕ
cstp_frame type bytes =
    b'S' ∷ b'T' ∷ b'F' ∷ 1 ∷ (length bytes / 256 % 256) ∷ (length bytes % 256) ∷ type ∷ 0 ∷ bytes

-- A packet in a DTLS record.
abbrev pub dtls_frame : ℕ → List ℕ → List ℕ
dtls_frame type bytes = type ∷ bytes

-- Whether a packet is compressed, and what is sent then: larger packets, where compression makes them smaller.
unfoldable pub pack : Settings → World → Option ℕ → List ℕ → ℕ × List ℕ
pack c env none plain = (ac_pkt_data, plain)
pack c env (some comp) plain =
    if ltb c.no_compress_limit (length plain)
    then elim (env.compress comp plain) [
      | none ↦ (ac_pkt_data, plain)
      | some bytes ↦
          if ltb 0 (length bytes) && ltb (length bytes) (length plain)
          then (ac_pkt_compressed, bytes)
          else (ac_pkt_data, plain)
    ]
    else (ac_pkt_data, plain)

abbrev pub is_same_comp : Option ℕ → Option ℕ → Bool
is_same_comp (some a) (some b) = a == b
is_same_comp x y = false

-- What goes to the CSTP channel: while UDP is active and a compressor of its own is used there, what goes to UDP
-- if both channels use the same, and else the packet as it is.
unfoldable pub pack_cstp : Settings → World → Worker → List ℕ → ℕ × List ℕ
pack_cstp c env w plain =
    let udp =
      is_active w.udp_state
      && (elim w.dtls_selected_comp [ none ↦ false | some comp ↦ true ])
      && ltb c.no_compress_limit (length plain) in
    if not udp
    then pack c env w.cstp_selected_comp plain
    else if is_same_comp w.cstp_selected_comp w.dtls_selected_comp
    then pack c env w.dtls_selected_comp plain
    else (ac_pkt_data, plain)

unfoldable pub pack_dtls : Settings → World → Worker → List ℕ → ℕ × List ℕ
pack_dtls c env w plain =
    if is_active w.udp_state then pack c env w.dtls_selected_comp plain else (ac_pkt_data, plain)

abbrev add_out : Worker → ℕ → Worker
add_out w size = record w { tun_bytes_out = (w.tun_bytes_out + size) % 2 ^ 64 }

unfoldable pub send_cstp : World → ℕ → Worker → ℕ × List ℕ → Step
send_cstp env now w (type, bytes) =
    let frame = cstp_frame type bytes in
    let w1 = add_out w (length bytes) in
    if is_fatal (env.cstp_send frame)
    then leaving (Sent.to_cstp frame ∷ []) w1 reason_error
    else going (pos 0) (Sent.to_cstp frame ∷ []) (record w1 { last_nc_msg = now })

abbrev after : List Sent → Step → Step
after sent s = record s { sent = sent ++ s.sent }

-- Whether a record of the full size went through.
abbrev pub is_full : Worker → SendRet → Bool
is_full w (SendRet.done n) = leb (1 + data_mtu_of w w.link_mtu) n
-- A negative result that is not fatal is compared as an unsigned number.
is_full w (SendRet.failed fatal) = true
is_full w SendRet.large_packet = false

-- On UDP, and again on TCP if the packet is too large for UDP.
unfoldable pub send_dtls : World → ℕ → Worker → ℕ × List ℕ → ℕ × List ℕ → Step
send_dtls env now w (type, bytes) cstp =
    let frame = dtls_frame type bytes in
    let w1 = add_out w (length bytes) in
    let r = env.dtls_send w1 frame in
    let (sent2, w2) = mtu_not_ok env.pathmtu w1 in
    let (sent3, w3) = mtu_ok w1 in
    if is_fatal r
    then leaving (Sent.to_dtls frame ∷ []) w1 reason_error
    else if is_large r
    then after (Sent.to_dtls frame ∷ sent2) (send_cstp env now w2 cstp)
    else if is_full w1 r && w1.try_mtu
    then going (pos 0) (Sent.to_dtls frame ∷ sent3) (record w3 { last_nc_msg = now })
    else going (pos 0) (Sent.to_dtls frame ∷ []) (record w1 { last_nc_msg = now })

-- UDP is left where nothing came on it for long.
unfoldable pub leave_udp : Settings → ℕ → Worker → Worker
leave_udp c now w =
    if ltb 0 c.switch_to_tcp_timeout
      && is_active w.udp_state
      && ltb (w.udp_recv_time + c.switch_to_tcp_timeout) now
    then inactive_from w
    else w

-- A packet that was read from the TUN device.
unfoldable pub tun_packet : Settings → World → Timespec → Worker → List ℕ → Step
tun_packet c env tnow w plain =
    let w1 = leave_udp c tnow.tv_sec w in
    let dtls = pack_dtls c env w1 plain in
    let cstp = pack_cstp c env w1 plain in
    let (may, b) = bandwidth_update w1.b_tx (length dtls.1) tnow in
    let w2 = record w1 { b_tx = b } in
    if not may
    then going (pos 0) [] w2
    else if is_active w2.udp_state
    then send_dtls env tnow.tv_sec w2 dtls cstp
    else send_cstp env tnow.tv_sec w2 cstp

-- What tun_read gives: no packet yet, a failure, or the bytes.
pub data TunRead : Type 0 where
  nothing corrupt : TunRead
  bytes : List ℕ → TunRead

unfoldable pub tun_mainloop : Settings → World → TunRead → Timespec → Worker → Step
tun_mainloop c env TunRead.nothing tnow w = going (pos 0) [] w
tun_mainloop c env TunRead.corrupt tnow w = going (negsuc 0) [] w
tun_mainloop c env (TunRead.bytes []) tnow w = going (pos 0) [] w
tun_mainloop c env (TunRead.bytes (b ∷ bs)) tnow w = tun_packet c env tnow w (b ∷ bs)
