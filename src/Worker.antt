-- ===== src/Worker.antt =====
-- What a worker of src/worker-vpn.c keeps of the client that it serves (`worker_st` of src/worker.h), how it
-- sets the MTU of the link, and how it ends. Times are seconds. Logs, alarms and timeouts of sockets are left
-- out; what the worker sends is returned in order.
pub mod Mtu
pub mod Packets
pub mod Loops
pub mod Tun
pub mod Examples
mod Tests
use ocserv_ppa.Base.{
  ℕ, ◌+◌, ◌-◌, ◌*◌, ◌%◌, ◌^◌, Bool, true, false, ◌&&◌, ◌||◌, not, List, [], ◌∷◌, ◌++◌, Option, none,
  some, ltb, leb, ◌==◌, if◌then◌else◌,
}
use ocserv_ppa.Base.Int.{ℤ, pos, negsuc}
use ocserv_ppa.Bandwidth.{Bandwidth}

-- `udp_port_state_t`
pub data UdpState : Type 0 where
  disabled wait_fd setup handshake inactive active : UdpState

abbrev pub is_active : UdpState → Bool
is_active UdpState.active = true
is_active u = false

abbrev pub is_disabled : UdpState → Bool
is_disabled UdpState.disabled = true
is_disabled u = false

-- The settings that apply to the client; those of the virtual host and those of the user.
pub record Settings : Type 0 where
  pub idle_timeout : ℕ
  pub session_timeout_secs : ℕ
  pub interim_update_secs : ℕ
  pub rekey_time : ℕ
  pub switch_to_tcp_timeout : ℕ
  pub no_compress_limit : ℕ
  pub max_ban_score : ℕ
  pub ban_points_wrong_password : ℕ

-- `terminate` holds the reason; `try_mtu` is the one of the virtual host, which the worker has a copy of. The
-- compressors are numbers, the `id` of the code.
pub record Worker : Type 0 where
  pub last_periodic_check : ℕ
  pub last_nc_msg : ℕ
  pub session_start_time : ℕ
  pub last_stats_msg : ℕ
  pub last_msg_udp : ℕ
  pub last_msg_tcp : ℕ
  pub udp_recv_time : ℕ
  pub last_tls_rehandshake : ℕ
  pub last_dtls_rehandshake : ℕ
  pub udp_state : UdpState
  pub link_mtu : ℕ
  pub adv_link_mtu : ℕ
  pub last_good_mtu : ℕ
  pub last_bad_mtu : ℕ
  pub dtls_crypto_overhead : ℕ
  pub dtls_proto_overhead : ℕ
  pub try_mtu : Bool
  pub dtls_session : Bool
  pub is_ipv4 : Bool
  pub has_ipv6 : Bool
  pub tun_bytes_in : ℕ
  pub tun_bytes_out : ℕ
  pub b_rx : Bandwidth
  pub b_tx : Bandwidth
  pub cstp_selected_comp : Option ℕ
  pub dtls_selected_comp : Option ℕ
  pub sid_set : Bool
  pub is_unix : Bool
  pub auth_complete : Bool
  pub ban_points : ℕ
  pub terminate : Option ℕ

-- What a worker sends: statistics with the reason for the end (0 where there is none), probes, the MTU, packets
-- to the client on either channel and to the TUN device, points for the client's address, and the description
-- of the session.
pub data Sent : Type 0 where
  stats_to_secmod : ℕ → Sent
  dpd_udp dpd_tcp session_info : Sent
  data_mtu : ℕ → Sent
  to_dtls to_cstp to_tun : List ℕ → Sent
  ban_ip : ℕ → Sent

-- How GnuTLS answers to sending, or to a handshake.
pub data SendRet : Type 0 where
  done : ℕ → SendRet
  large_packet : SendRet
  failed : Bool → SendRet

-- A failure that is `gnutls_error_is_fatal`.
abbrev pub is_fatal : SendRet → Bool
is_fatal (SendRet.failed fatal) = fatal
is_fatal r = false

-- `ret < 0`
abbrev pub is_failure : SendRet → Bool
is_failure (SendRet.done n) = false
is_failure r = true

abbrev pub is_large : SendRet → Bool
is_large SendRet.large_packet = true
is_large r = false

-- a - b in 32 bits.
abbrev pub sub32 : ℕ → ℕ → ℕ
sub32 a b = (a + (2 ^ 32 - b % 2 ^ 32)) % 2 ^ 32

-- DATA_MTU
abbrev pub data_mtu_of : Worker → ℕ → ℕ
data_mtu_of w mtu = sub32 (sub32 mtu w.dtls_crypto_overhead) w.dtls_proto_overhead

-- MIN_MTU
abbrev pub min_mtu : Worker → ℕ
min_mtu w = if w.has_ipv6 then 1280 else 800

-- The size of `buffer`.
abbrev pub buffer_size : ℕ
buffer_size = 16 * 1024

abbrev pub link_mtu_set : Worker → ℕ → List Sent × Worker
link_mtu_set w mtu =
    if w.link_mtu == mtu || ltb buffer_size mtu
    then ([], w)
    else (Sent.data_mtu (data_mtu_of w mtu) ∷ [], record w { link_mtu = mtu })

abbrev pub send_stats_to_secmod : Worker → ℕ → ℕ → List Sent × Worker
send_stats_to_secmod w now reason =
    (Sent.stats_to_secmod reason ∷ [], record w { last_stats_msg = now })

-- What exit_worker_reason sends.
unfoldable pub exit_worker_reason : Settings → Worker → ℕ → List Sent
exit_worker_reason c w reason =
    (if w.auth_complete then Sent.stats_to_secmod reason ∷ [] else [])
    ++ (if ltb 0 w.ban_points && not (c.max_ban_score == 0) then Sent.ban_ip 0 ∷ [] else [])

-- `reply` is the answer of the main process: whether the client may go on, or nothing if it failed. The last is
-- whether the process exits.
unfoldable pub ws_add_score_to_ip : Settings → Option Bool → Worker → ℕ → List Sent × Worker × Bool
ws_add_score_to_ip c reply w points =
    let w' = record w { ban_points = (w.ban_points + points) % 2 ^ 32 } in
    if c.max_ban_score == 0
    then ([], w, false)
    else if ltb points c.ban_points_wrong_password
    then ([], w', false)
    else (Sent.ban_ip points ∷ [], w', elim reply [ none ↦ false | some ok ↦ not ok ])
