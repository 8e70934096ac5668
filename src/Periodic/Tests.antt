-- ===== src/Periodic/Tests.antt =====
-- The timeouts of a worker at concrete values.
use ocserv_ppa.Base.{◌≡◌, refl, true, false, ◌||◌, none, some, arith, [], ◌∷◌}
use ocserv_ppa.Bandwidth.{Timespec}
use ocserv_ppa.Worker.{Sent, UdpState}
use ocserv_ppa.Worker.Examples.{no_limits, silent}
use ocserv_ppa.Periodic.{
  Net, fuzz, check_stats, check_udp, check_tcp, check_mtu, check_peer, periodic_check,
  reason_dpd_timeout,
}
use ocserv_ppa.Periodic.Alive.{is_ended, periodic_check-dead}

abbrev net : Net
net = record { udp_fatal = false; tcp_fatal = false; pmtu = some 1300 }

abbrev later : Timespec
later = record { tv_sec = 1300; tv_nsec = 0 }

abbrev soon : Timespec
soon = record { tv_sec = 1240; tv_nsec = 0 }

-- After 3 intervals of 90 seconds, both channels are given up.
given_up : periodic_check no_limits net later 90 silent ≡ (
  Sent.dpd_udp ∷ Sent.dpd_tcp ∷ [],
  record silent { udp_state = UdpState.inactive },
  some reason_dpd_timeout,
)
unfolding periodic_check check_peer check_stats check_udp check_tcp check_mtu fuzz
given_up = refl

-- After 2, a client is asked, and the MTU follows that of the path.
asked : periodic_check no_limits net soon 90 silent ≡ (
  Sent.dpd_udp ∷ Sent.dpd_tcp ∷ Sent.data_mtu 1234 ∷ [],
  record silent { link_mtu = 1300; last_periodic_check = 1240 },
  none,
)
unfolding periodic_check check_peer check_stats check_udp check_tcp check_mtu fuzz
asked = refl

periodic_check-dead_example :
    let (sent, w', over) = periodic_check no_limits net later 90 silent in
    is_ended over || is_ended w'.terminate ≡ true
periodic_check-dead_example =
    periodic_check-dead no_limits net later 90 silent (omega arith) (omega arith) (omega arith)
      (omega arith)
