-- ===== src/Worker/Packets/Alive.antt =====
-- What the packets of a client mean for the timeouts of its worker.
use ocserv_ppa.Base.{
  ℕ, ◌+◌, ◌*◌, ◌^◌, ◌≤◌, ◌<◌, ◌≡◌, ◌≢◌, ◌⊎◌, false, List, Option, none, some, arith, get_or, ◌∙◌,
  drop, if◌then◌else◌, ◌==◌, ◌&&◌,
}
use ocserv_ppa.Bandwidth.{Timespec}
use ocserv_ppa.Worker.{Worker, Settings, UdpState, is_active}
use ocserv_ppa.Worker.Packets.{
  World, parse_data, write_tun, write_compressed, answer_cstp, parse_cstp_data, ac_pkt_data,
  ac_pkt_disconn,
}
use ocserv_ppa.Worker.Packets.Refused.{IsFrame}
use ocserv_ppa.Periodic.{Net, periodic_check}
use ocserv_ppa.Periodic.Alive.{periodic_check-alive}

write_compressed-keeps :
    (env : World) (w : Worker) (now : ℕ) (comp : Option ℕ) (plain : List ℕ)
    → let s = write_compressed env w now comp plain in
      (s.over ≡ none)
      × (s.worker.terminate ≡ w.terminate)
      × ((s.worker.last_nc_msg ≡ w.last_nc_msg) ⊎ (s.worker.last_nc_msg ≡ now))
      × (s.worker.session_start_time ≡ w.session_start_time)
unfolding write_compressed write_tun
write_compressed-keeps env w now none plain = ground arith
write_compressed-keeps env w now (some comp) plain = ground arith

parse_data-keeps :
    (env : World) (w : Worker) (buf : List ℕ) (now : ℕ)
    → get_or buf 6 0 ≢ ac_pkt_disconn
    → let s = parse_data env w buf now false in
      (s.over ≡ none)
      × (s.worker.terminate ≡ w.terminate)
      × ((s.worker.last_nc_msg ≡ w.last_nc_msg) ⊎ (s.worker.last_nc_msg ≡ now))
      × (s.worker.session_start_time ≡ w.session_start_time)
unfolding parse_data write_tun answer_cstp
parse_data-keeps env w buf now stays =
    ground (arith, stays, write_compressed-keeps env w now w.cstp_selected_comp (drop 8 buf))

parse_cstp_data-heard :
    (env : World) (w : Worker) (buf : List ℕ) (now : ℕ)
    → IsFrame buf
    → get_or buf 6 0 ≢ ac_pkt_disconn
    → let s = parse_cstp_data env w buf now in
      (s.over ≡ none)
      × (s.worker.last_msg_tcp ≡ now)
      × (s.worker.terminate ≡ w.terminate)
      × ((s.worker.last_nc_msg ≡ w.last_nc_msg) ⊎ (s.worker.last_nc_msg ≡ now))
      × (s.worker.session_start_time ≡ w.session_start_time)
unfolding parse_cstp_data
parse_cstp_data-heard env w buf now frame stays =
    let w1 : Worker =
      if get_or buf 6 0 == ac_pkt_data && is_active w.udp_state
      then record w { udp_state = UdpState.inactive }
      else w in
    ground (arith, frame, stays, parse_data-keeps env w1 buf now stays)

-- After a frame from the client that does not end the session, a check within two intervals of the DPD goes on,
-- if the client is not idle for too long and its session not too old, counted without the frame, and GnuTLS
-- does not fail on UDP.
pub heard-goes_on :
    (env : World) (c : Settings) (net : Net) (w : Worker) (buf : List ℕ) (now dpd : ℕ)
    (tnow : Timespec)
    → IsFrame buf
    → get_or buf 6 0 ≢ ac_pkt_disconn
    → net.udp_fatal ≡ false
    → 3 * dpd < 2 ^ 32
    → tnow.tv_sec ≤ now + 2 * dpd
    → w.last_nc_msg ≤ now
    → (c.idle_timeout ≡ 0) ⊎ (tnow.tv_sec ≤ w.last_nc_msg + c.idle_timeout)
    → (c.session_timeout_secs ≡ 0) ⊎ (tnow.tv_sec ≤ w.session_start_time + c.session_timeout_secs)
    → let s = parse_cstp_data env w buf now in
      let (sent, w', over) = periodic_check c net tnow dpd s.worker in
      (s.over ≡ none) × (over ≡ none) × (w'.terminate ≡ w.terminate)
heard-goes_on env c net w buf now dpd tnow frame stays safe small soon before idle limit =
    let s = parse_cstp_data env w buf now in
    let heard = parse_cstp_data-heard env w buf now frame stays in
    let soon' : tnow.tv_sec ≤ s.worker.last_msg_tcp + 2 * dpd = omega (arith, soon, heard) in
    let idle' : (c.idle_timeout ≡ 0) ⊎ (tnow.tv_sec ≤ s.worker.last_nc_msg + c.idle_timeout) =
      ground (arith, idle, heard, before) in
    let limit' : (c.session_timeout_secs ≡ 0)
        ⊎ (tnow.tv_sec ≤ s.worker.session_start_time + c.session_timeout_secs) =
      ground (arith, limit, heard) in
    let (going_on, kept, smaller) =
      periodic_check-alive c net tnow dpd s.worker safe small soon' idle' limit' in
    let (h1, h2, h3, h4, h5) = heard in (h1, going_on, kept ∙ h3)
