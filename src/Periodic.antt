-- ===== src/Periodic.antt =====
-- periodic_check of src/worker-vpn.c: the timeouts of a worker that serves a client. Times are seconds. A
-- difference of times is compared as it is in 64 bits; it is written here as a sum on the other side.
pub mod Alive
mod Tests
use ocserv_ppa.Base.{
  ℕ, ◌+◌, ◌-◌, ◌*◌, ◌%◌, ◌^◌, Bool, true, false, ◌&&◌, ◌||◌, not, List, [], ◌∷◌, ◌++◌, Option, none,
  some, ltb, leb, ◌==◌, if◌then◌else◌,
}
use ocserv_ppa.Bandwidth.{Timespec}
use ocserv_ppa.Worker.{
  UdpState, is_active, is_disabled, Settings, Worker, Sent, link_mtu_set, send_stats_to_secmod,
}
use ocserv_ppa.SecMod.Db.{reason_session_timeout}
use ocserv_ppa.Main.Stats.{reason_idle_timeout, reason_error}

abbrev pub periodic_check_time : ℕ
periodic_check_time = 30

abbrev pub dpd_tries : ℕ
dpd_tries = 2

abbrev pub dpd_max_tries : ℕ
dpd_max_tries = 3

abbrev pub reason_dpd_timeout : ℕ
reason_dpd_timeout = 5

-- How GnuTLS and the kernel answer: whether sending fails for good, and the MTU of the path, where known.
pub record Net : Type 0 where
  pub udp_fatal : Bool
  pub tcp_fatal : Bool
  pub pmtu : Option ℕ

-- FUZZ(x, diff, rnd), with `rnd` cut to an int16_t; the sign of the remainder is that of `rnd`.
pub fuzz : ℕ → ℕ → ℕ → ℕ
fuzz x diff rnd =
    let r = rnd % 2 ^ 16 in
    if ltb diff x then (if ltb r (2 ^ 15) then x + r % diff else x - (2 ^ 16 - r) % diff) else x

-- The step on the statistics.
pub check_stats : Settings → ℕ → Worker → List Sent × Worker
check_stats c now w =
    if ltb 0 c.interim_update_secs
      && leb (w.last_stats_msg + c.interim_update_secs) now
      && w.sid_set
    then send_stats_to_secmod w now 0
    else ([], w)

-- DPD over UDP; the last is the reason for the worker's exit, where it exits. Products have 32 bits.
pub check_udp : Net → ℕ → ℕ → Worker → List Sent × Worker × Option ℕ
check_udp net now dpd w =
    if is_active w.udp_state && ltb (w.last_msg_udp + dpd_tries * dpd % 2 ^ 32) now && ltb 0 dpd
    then if net.udp_fatal
      then (Sent.dpd_udp ∷ [], w, some reason_error)
      else if ltb (w.last_msg_udp + dpd_max_tries * dpd % 2 ^ 32) now
      then (Sent.dpd_udp ∷ [], record w { udp_state = UdpState.inactive }, none)
      else (Sent.dpd_udp ∷ [], w, none)
    else ([], w, none)

-- DPD over TCP
pub check_tcp : Net → ℕ → ℕ → Worker → List Sent × Option ℕ
check_tcp net now dpd w =
    if ltb 0 dpd && ltb (w.last_msg_tcp + dpd_tries * dpd % 2 ^ 32) now
    then if net.tcp_fatal
      then (Sent.dpd_tcp ∷ [], some reason_error)
      else if ltb (w.last_msg_tcp + dpd_max_tries * dpd % 2 ^ 32) now
      then (Sent.dpd_tcp ∷ [], some reason_dpd_timeout)
      else (Sent.dpd_tcp ∷ [], none)
    else ([], none)

-- The MTU follows that of the path down.
pub check_mtu : Net → Worker → List Sent × Worker
check_mtu net w =
    if not w.is_unix && not (is_disabled w.udp_state)
    then elim net.pmtu [
      | none ↦ ([], w)
      | some max ↦ if ltb 0 max && ltb max w.link_mtu then link_mtu_set w max else ([], w)
    ]
    else ([], w)

-- The part after the timeouts, up to `cleanup`.
pub check_peer : Settings → Net → ℕ → ℕ → Worker → List Sent × Worker × Option ℕ
check_peer c net now dpd w =
    let (sent1, w1) = check_stats c now w in
    let (sent2, w2, over) = check_udp net now dpd w1 in
    let (sent3, dead) = check_tcp net now dpd w2 in
    let (sent4, w4) = check_mtu net w2 in
    elim over [
      | some reason ↦ (sent1 ++ sent2, w2, some reason)
      | none ↦ elim dead [
        | some reason ↦ (sent1 ++ sent2 ++ sent3, w2, some reason)
        | none ↦ (sent1 ++ sent2 ++ sent3 ++ sent4, record w4 { last_periodic_check = now }, none)
      ]
    ]

-- The last is the reason that exit_worker_reason gets, where the worker exits at once.
pub periodic_check : Settings → Net → Timespec → ℕ → Worker → List Sent × Worker × Option ℕ
periodic_check c net tnow dpd w =
    let now = tnow.tv_sec in
    if ltb now (w.last_periodic_check + fuzz periodic_check_time 5 tnow.tv_nsec)
    then ([], w, none)
    else if ltb 0 c.idle_timeout && ltb (w.last_nc_msg + c.idle_timeout) now
    then ([], record w { last_periodic_check = now; terminate = some reason_idle_timeout }, none)
    else if ltb 0 c.session_timeout_secs && ltb (w.session_start_time + c.session_timeout_secs) now
    then ([], record w { last_periodic_check = now; terminate = some reason_session_timeout }, none)
    else check_peer c net now dpd w
