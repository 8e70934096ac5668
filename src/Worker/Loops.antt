-- ===== src/Worker/Loops.antt =====
-- What a worker does when a channel is ready, in src/worker-vpn.c: tls_mainloop and dtls_mainloop.
pub mod Handshake
use ocserv_ppa.Base.{
  ℕ, zero, suc, ◌+◌, ◌-◌, ◌*◌, ◌/◌, ◌%◌, ◌^◌, Bool, true, false, ◌&&◌, ◌||◌, not, List, [], ◌∷◌,
  ◌++◌, Option, none, some, ltb, leb, ◌==◌, if◌then◌else◌, length,
}
use ocserv_ppa.Base.Int.{pos, negsuc, is_neg}
use ocserv_ppa.Bandwidth.{Timespec, bandwidth_update}
use ocserv_ppa.Main.Stats.{reason_error}
use ocserv_ppa.Worker.{
  UdpState, active, inactive, setup, handshake, is_active, Settings, Worker, Sent, SendRet, done,
  large_packet, failed, link_mtu_set,
}
use ocserv_ppa.Worker.Mtu.{mtu_not_ok, mtu_ok, mtu_discovery_init}
use ocserv_ppa.Worker.Packets.{
  World, Step, going, leaving, ac_pkt_data, ac_pkt_compressed, parse_cstp_data, parse_dtls_data,
}

-- What is received: a packet (of no bytes at the end of the stream), a demand for a new handshake with whether
-- that handshake fails for good, a stream that is cut off, a failure for good, or one that passes.
pub data Received : Type 0 where
  packet : List ℕ → Received
  rehandshake : Bool → Received
  premature broken again : Received

abbrev pub udp_switch_time : ℕ
udp_switch_time = 15

abbrev pub inactive_from : Worker → Worker
inactive_from w = record w { udp_state = UdpState.inactive }

-- The packets on TCP that come while UDP was silent for long show that the client left UDP.
unfoldable pub after_cstp : ℕ → Step → Step
after_cstp now s =
    let w = s.worker in
    if is_active w.udp_state && ltb (w.udp_recv_time + udp_switch_time) now
    then record s { worker = inactive_from w }
    else s

abbrev is_going : Step → Bool
is_going s = elim s.over [ none ↦ not (is_neg s.ret) | some reason ↦ false ]

-- A packet of 8 bytes or more on the CSTP channel.
unfoldable pub tls_packet : World → Timespec → Worker → List ℕ → Step
tls_packet env tnow w buf =
    let (may, b) = bandwidth_update w.b_rx (length buf - 8) tnow in
    let w1 = record w { b_rx = b } in
    let s = parse_cstp_data env w1 buf tnow.tv_sec in
    if may then (if is_going s then after_cstp tnow.tv_sec s else s) else going (pos 0) [] w1

-- Whether a new handshake comes too soon after the last one.
abbrev pub is_too_soon : Settings → ℕ → ℕ → Bool
is_too_soon c last now = ltb 0 last && ltb now (last + c.rekey_time / 2)

unfoldable pub tls_mainloop : Settings → World → Received → Timespec → Worker → Step
tls_mainloop c env Received.premature tnow w = going (negsuc 0) [] w
tls_mainloop c env Received.broken tnow w = leaving [] w reason_error
tls_mainloop c env Received.again tnow w = going (pos 0) [] w
tls_mainloop c env (Received.packet buf) tnow w =
    if length buf == 0
    then going (negsuc 0) [] w
    else if ltb (length buf) 8
    then going (pos 0) [] w
    else tls_packet env tnow w buf
tls_mainloop c env (Received.rehandshake fails) tnow w =
    if is_too_soon c w.last_tls_rehandshake tnow.tv_sec
    then going (negsuc 0) [] w
    else if fails
    then leaving [] w reason_error
    else going (pos 0) [] (record w { last_tls_rehandshake = tnow.tv_sec })

-- The time of the last packet, where nothing went wrong.
abbrev received_udp : ℕ → Step → Step
received_udp now s =
    if is_going s
    then record s { ret = pos 0; worker = record s.worker { udp_recv_time = now } }
    else s

-- A packet of a byte or more on the DTLS channel makes it active.
unfoldable pub dtls_packet : World → Timespec → Worker → List ℕ → Step
dtls_packet env tnow w buf =
    let (may, b) = bandwidth_update w.b_rx (length buf - 1) tnow in
    let w1 = record w { b_rx = b; udp_state = UdpState.active } in
    let s = parse_dtls_data env w1 buf tnow.tv_sec in if may then s else going (pos 0) [] w1

unfoldable pub dtls_receive : Settings → World → Received → Timespec → Worker → Step
dtls_receive c env Received.broken tnow w = leaving [] w reason_error
dtls_receive c env Received.premature tnow w = leaving [] w reason_error
dtls_receive c env Received.again tnow w = received_udp tnow.tv_sec (going (pos 0) [] w)
dtls_receive c env (Received.packet buf) tnow w =
    if length buf == 0
    then received_udp tnow.tv_sec (going (pos 0) [] w)
    else received_udp tnow.tv_sec (dtls_packet env tnow w buf)
dtls_receive c env (Received.rehandshake fails) tnow w =
    if is_too_soon c w.last_dtls_rehandshake tnow.tv_sec
    then going (negsuc 0) [] w
    else if fails
    then leaving [] w reason_error
    else received_udp tnow.tv_sec
        (going (pos 0) [] (record w { last_dtls_rehandshake = tnow.tv_sec }))

-- The end of setup_dtls_connection, and the beginning of the discovery of the MTU; `ok` tells whether GnuTLS
-- takes the keys.
unfoldable pub dtls_setup : Bool → Worker → Step
dtls_setup ok w =
    let (sent1, w1) = link_mtu_set (record w { udp_state = UdpState.handshake }) w.adv_link_mtu in
    let w2 = record w1 { dtls_session = true } in
    let (sent2, w3) = mtu_discovery_init w2 w2.link_mtu in
    if ok then going (pos 0) (sent1 ++ sent2) w3 else going (negsuc 0) [] w

-- gnutls_handshake, again with a smaller MTU as long as the packets are too large. `answer` is how the handshake
-- goes with the MTU of the worker. Nothing when the turns run out.
unfoldable pub dtls_handshake :
    (Worker → SendRet) → Option ℕ → ℕ → Worker → Option (List Sent × Worker)
dtls_handshake answer pathmtu zero w = none
dtls_handshake answer pathmtu (suc n) w =
    let (sent, w1) = mtu_not_ok pathmtu w in
    let rest = dtls_handshake answer pathmtu n w1 in
    elim (answer w) [
      | done size ↦ some (Sent.session_info ∷ [], record w { udp_state = UdpState.active })
      | large_packet ↦ elim rest [ none ↦ none | some (more, w2) ↦ some (sent ++ more, w2) ]
      | failed fatal ↦
          if fatal then some ([], record w { udp_state = UdpState.disabled }) else some ([], w)
    ]

-- Nothing where the turns of the handshake run out.
unfoldable pub dtls_mainloop :
    Settings → World → Received → Bool → (Worker → SendRet) → ℕ → Timespec → Worker → Option Step
dtls_mainloop c env received ok answer n tnow w = elim w.udp_state [
  | active ↦ some (dtls_receive c env received tnow w)
  | inactive ↦ some (dtls_receive c env received tnow w)
  | setup ↦ some (dtls_setup ok w)
  | handshake ↦ elim (dtls_handshake answer env.pathmtu n w) [
    | none ↦ none
    | some (sent, w') ↦ some (going (pos 0) sent w')
  ]
  | other ↦ some (going (pos 0) [] w)
]
