-- ===== src/Worker/Tests.antt =====
-- The channels of a worker at concrete values.
use ocserv_ppa.Base.{
  ℕ, ◌≡◌, refl, sym, true, false, none, some, arith, [], ◌∷◌, leb, if◌then◌else◌, is_some,
}
use ocserv_ppa.Bandwidth.{Timespec, bandwidth_update}
use ocserv_ppa.Main.Stats.{reason_idle_timeout}
use ocserv_ppa.Periodic.{Net, periodic_check}
use ocserv_ppa.Worker.{UdpState, Worker, Sent, SendRet, Settings}
use ocserv_ppa.Worker.Examples.{no_limits, silent}
use ocserv_ppa.Worker.Mtu.{mtu_discovery_init, mtu_ok, mtu_not_ok, mtu_not_ok4, disable_mtu_disc}
use ocserv_ppa.Worker.Mtu.Search.{probe, probes, IsSettled, probes-settle}
use ocserv_ppa.Worker.Packets.{World, parse_cstp_data}
use ocserv_ppa.Worker.Packets.Idle.{Packet, receive_all, control-idle}
use ocserv_ppa.Worker.Loops.{dtls_setup, dtls_handshake}
use ocserv_ppa.Worker.Loops.Handshake.{dtls_setup-handshake}
use ocserv_ppa.Worker.Tun.{TunRead, tun_mainloop, pack_cstp, cstp_frame}
use ocserv_ppa.Worker.Tun.Framing.{tun_packet-written}

-- The path has 1000 bytes.
found : (probes 37 1000 (mtu_discovery_init silent 1400).1).link_mtu ≡ 1000
unfolding probes probe mtu_discovery_init mtu_ok mtu_not_ok mtu_not_ok4 disable_mtu_disc
found = refl

-- The path has 810 bytes: the first MTU that is good is the lowest one, and the next try gives up.
given_up : (probes 37 810 (mtu_discovery_init silent 1400).1).link_mtu ≡ 800
unfolding probes probe mtu_discovery_init mtu_ok mtu_not_ok mtu_not_ok4 disable_mtu_disc
given_up = refl

probes-settle_example : IsSettled 1000 (probes 37 1000 (mtu_discovery_init silent 1400).1)
probes-settle_example =
    probes-settle 37 1000 silent (omega arith) refl refl refl refl (omega arith) (omega arith)
      (omega arith) (omega arith)

-- A world in which everything works, on a path of 1000 bytes, and whose compressor keeps what it gets.
abbrev world : World
world = record {
  cstp_send = λ bytes. SendRet.done 0;
  dtls_send = λ w bytes. if leb w.link_mtu 1000 then SendRet.done 0 else SendRet.large_packet;
  tun_write = λ bytes. true;
  get_mtu = λ size. size;
  pathmtu = none;
  decompress = λ comp bytes. some bytes;
  compress = λ comp bytes. some bytes;
}

abbrev net : Net
net = record { udp_fatal = false; tcp_fatal = false; pmtu = none }

abbrev at : ℕ → Timespec
at t = record { tv_sec = t; tv_nsec = 0 }

-- A keepalive on the CSTP channel, and a probe on the DTLS channel.
abbrev keepalive : ℕ → Packet
keepalive t = record {
  is_dtls = false;
  bytes = b'S' ∷ b'T' ∷ b'F' ∷ 1 ∷ 0 ∷ 0 ∷ 7 ∷ 0 ∷ [];
  time = t;
}

abbrev probe_packet : ℕ → Packet
probe_packet t = record { is_dtls = true; bytes = 3 ∷ 0 ∷ 0 ∷ []; time = t }

abbrev idle_limit : Settings
idle_limit = record no_limits { idle_timeout = 200 }

control-idle_example :
    let (sent, w', over) =
      periodic_check idle_limit net
        (at 1300)
        90
        (receive_all world (keepalive 1210 ∷ probe_packet 1250 ∷ []) silent) in
    (w'.terminate ≡ some reason_idle_timeout) × (sent ≡ [])
control-idle_example =
    control-idle world idle_limit net silent (keepalive 1210 ∷ probe_packet 1250 ∷ []) (at 1300) 90
      (refl, (refl, tt)) (omega arith) (omega arith) (omega arith)

dtls_setup-handshake_example :
    is_some (dtls_handshake (λ w. world.dtls_send w []) none 10 (dtls_setup true silent).worker)
    ≡ true
dtls_setup-handshake_example =
    dtls_setup-handshake (λ w. world.dtls_send w []) none 1000 10 silent (λ w h. ground (arith, h))
      refl refl (omega arith) (omega arith) (omega arith) (omega arith)

abbrev on_tcp : Worker
on_tcp = record silent { udp_state = UdpState.disabled; cstp_selected_comp = some 1 }

tun_packet-written_example :
    let packet = pack_cstp no_limits world on_tcp (1 ∷ 2 ∷ []) in
    let frame = cstp_frame packet.0 packet.1 in
    ((tun_mainloop no_limits world (TunRead.bytes (1 ∷ 2 ∷ [])) (at 1300) on_tcp).sent
      ≡ Sent.to_cstp frame ∷ [])
    × ((parse_cstp_data world on_tcp frame 1300).sent ≡ Sent.to_tun (1 ∷ 2 ∷ []) ∷ [])
unfolding bandwidth_update
tun_packet-written_example =
    tun_packet-written no_limits world world on_tcp on_tcp 1 (2 ∷ []) (at 1300) 1300
      (λ k plain bytes e. sym e) refl refl refl (omega arith) (λ frame. refl) refl
