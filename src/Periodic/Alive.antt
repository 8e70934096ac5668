-- ===== src/Periodic/Alive.antt =====
-- When periodic_check ends a worker, and when it does not.
use ocserv_ppa.Base.{
  ℕ, ◌+◌, ◌*◌, ◌^◌, ◌<◌, ◌≤◌, ◌≡◌, ◌⊎◌, Bool, true, false, ◌||◌, Option, none, some, arith, [],
}
use ocserv_ppa.Bandwidth.{Timespec}
use ocserv_ppa.Main.Stats.{reason_idle_timeout}
use ocserv_ppa.Worker.{Settings, Worker}
use ocserv_ppa.Periodic.{
  Net, fuzz, check_stats, check_udp, check_tcp, check_mtu, check_peer, periodic_check,
  periodic_check_time,
}

-- Whether there is a reason to end.
abbrev pub is_ended : Option ℕ → Bool
is_ended none = false
is_ended (some reason) = true

-- The time between two checks is 26 to 34 seconds.
pub fuzz-range :
    (rnd : ℕ) → (26 ≤ fuzz periodic_check_time 5 rnd) × (fuzz periodic_check_time 5 rnd ≤ 34)
unfolding fuzz
fuzz-range rnd = ground arith

check_stats-keeps :
    (c : Settings) (now : ℕ) (w : Worker)
    → ((check_stats c now w).1.last_msg_tcp ≡ w.last_msg_tcp)
      × ((check_stats c now w).1.link_mtu ≡ w.link_mtu)
      × ((check_stats c now w).1.terminate ≡ w.terminate)
unfolding check_stats
check_stats-keeps c now w = ground arith

check_udp-keeps :
    (net : Net) (now dpd : ℕ) (w : Worker)
    → ((check_udp net now dpd w).1.last_msg_tcp ≡ w.last_msg_tcp)
      × ((check_udp net now dpd w).1.link_mtu ≡ w.link_mtu)
      × ((check_udp net now dpd w).1.terminate ≡ w.terminate)
unfolding check_udp
check_udp-keeps net now dpd w = ground arith

check_udp-goes_on :
    (net : Net) (now dpd : ℕ) (w : Worker)
    → net.udp_fatal ≡ false
    → (check_udp net now dpd w).2 ≡ none
unfolding check_udp
check_udp-goes_on net now dpd w safe = ground (arith, safe)

check_mtu-keeps :
    (net : Net) (w : Worker)
    → ((check_mtu net w).1.link_mtu ≤ w.link_mtu) × ((check_mtu net w).1.terminate ≡ w.terminate)
unfolding check_mtu
check_mtu-keeps net w = ground arith

check_tcp-dead :
    (net : Net) (now dpd : ℕ) (w : Worker)
    → 0 < dpd
    → 3 * dpd < 2 ^ 32
    → w.last_msg_tcp + 3 * dpd < now
    → is_ended (check_tcp net now dpd w).1 ≡ true
unfolding check_tcp
check_tcp-dead net now dpd w on small late = ground (arith, on, small, late)

check_tcp-alive :
    (net : Net) (now dpd : ℕ) (w : Worker)
    → 3 * dpd < 2 ^ 32
    → now ≤ w.last_msg_tcp + 2 * dpd
    → check_tcp net now dpd w ≡ ([], none)
unfolding check_tcp
check_tcp-alive net now dpd w small late = ground (arith, small, late)

check_peer-dead :
    (c : Settings) (net : Net) (now dpd : ℕ) (w : Worker)
    → 0 < dpd
    → 3 * dpd < 2 ^ 32
    → w.last_msg_tcp + 3 * dpd < now
    → is_ended (check_peer c net now dpd w).2 ≡ true
unfolding check_peer
check_peer-dead c net now dpd w on small late =
    let w1 = (check_stats c now w).1 in
    let w2 = (check_udp net now dpd w1).1 in
    let stats = check_stats-keeps c now w in
    let udp = check_udp-keeps net now dpd w1 in
    let late2 : w2.last_msg_tcp + 3 * dpd < now = omega (arith, late, stats, udp) in
    ground (arith, check_tcp-dead net now dpd w2 on small late2)

-- A client that was silent on the TCP channel for more than three times its DPD interval is gone after a check
-- that is due, at the latest 34 seconds after the one before: the worker exits, or is to terminate. The
-- interval is not 0, and three times it has 32 bits.
pub periodic_check-dead :
    (c : Settings) (net : Net) (tnow : Timespec) (dpd : ℕ) (w : Worker)
    → 0 < dpd
    → 3 * dpd < 2 ^ 32
    → w.last_periodic_check + 34 ≤ tnow.tv_sec
    → w.last_msg_tcp + 3 * dpd < tnow.tv_sec
    → let (sent, w', over) = periodic_check c net tnow dpd w in
      is_ended over || is_ended w'.terminate ≡ true
unfolding periodic_check
periodic_check-dead c net tnow dpd w on small due late =
    ground
      (arith, fuzz-range tnow.tv_nsec, due, check_peer-dead c net tnow.tv_sec dpd w on small late)

check_peer-alive :
    (c : Settings) (net : Net) (now dpd : ℕ) (w : Worker)
    → net.udp_fatal ≡ false
    → 3 * dpd < 2 ^ 32
    → now ≤ w.last_msg_tcp + 2 * dpd
    → let (sent, w', over) = check_peer c net now dpd w in
      (over ≡ none) × (w'.terminate ≡ w.terminate) × (w'.link_mtu ≤ w.link_mtu)
unfolding check_peer
check_peer-alive c net now dpd w safe small heard =
    let w1 = (check_stats c now w).1 in
    let w2 = (check_udp net now dpd w1).1 in
    let stats = check_stats-keeps c now w in
    let udp = check_udp-keeps net now dpd w1 in
    let heard2 : now ≤ w2.last_msg_tcp + 2 * dpd = omega (arith, heard, stats, udp) in
    ground (
      arith,
      stats,
      udp,
      check_udp-goes_on net now dpd w1 safe,
      check_tcp-alive net now dpd w2 small heard2,
      check_mtu-keeps net w2,
    )

-- A worker goes on, and its MTU does not grow, while its client was heard on the TCP channel in the last two
-- DPD intervals, was not idle for longer than the limit, and has not reached the limit on its session, if
-- GnuTLS does not fail on UDP; a limit of 0 is none.
pub periodic_check-alive :
    (c : Settings) (net : Net) (tnow : Timespec) (dpd : ℕ) (w : Worker)
    → net.udp_fatal ≡ false
    → 3 * dpd < 2 ^ 32
    → tnow.tv_sec ≤ w.last_msg_tcp + 2 * dpd
    → (c.idle_timeout ≡ 0) ⊎ (tnow.tv_sec ≤ w.last_nc_msg + c.idle_timeout)
    → (c.session_timeout_secs ≡ 0) ⊎ (tnow.tv_sec ≤ w.session_start_time + c.session_timeout_secs)
    → let (sent, w', over) = periodic_check c net tnow dpd w in
      (over ≡ none) × (w'.terminate ≡ w.terminate) × (w'.link_mtu ≤ w.link_mtu)
unfolding periodic_check
periodic_check-alive c net tnow dpd w safe small heard busy short =
    ground (arith, busy, short, check_peer-alive c net tnow.tv_sec dpd w safe small heard)

-- A due check of a client that was idle for longer than its limit.
pub periodic_check-idle :
    (c : Settings) (net : Net) (tnow : Timespec) (dpd : ℕ) (w : Worker)
    → 0 < c.idle_timeout
    → w.last_nc_msg + c.idle_timeout < tnow.tv_sec
    → w.last_periodic_check + 34 ≤ tnow.tv_sec
    → let (sent, w', over) = periodic_check c net tnow dpd w in
      (w'.terminate ≡ some reason_idle_timeout) × (sent ≡ []) × (over ≡ none)
unfolding periodic_check
periodic_check-idle c net tnow dpd w on idle due =
    ground (arith, on, idle, due, fuzz-range tnow.tv_nsec)
