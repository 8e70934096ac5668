-- ===== src/Worker/Examples.antt =====
-- A client of a worker, for the tests.
use ocserv_ppa.Base.{true, false, none}
use ocserv_ppa.Bandwidth.{Bandwidth}
use ocserv_ppa.Worker.{UdpState, Settings, Worker}

abbrev pub no_limits : Settings
no_limits = record {
  idle_timeout = 0;
  session_timeout_secs = 0;
  interim_update_secs = 0;
  rekey_time = 3600;
  switch_to_tcp_timeout = 0;
  no_compress_limit = 256;
  max_ban_score = 50;
  ban_points_wrong_password = 10;
}

abbrev unlimited : Bandwidth
unlimited = record {
  count_start = record { tv_sec = 0; tv_nsec = 0 };
  transferred_bytes = 0;
  allowed_kb = 0;
  allowed_kb_per_count = 0;
  kb_per_sec = 0;
}

-- Connected at 1000, and silent since.
abbrev pub silent : Worker
silent = record {
  last_periodic_check = 1200;
  last_nc_msg = 1000;
  session_start_time = 1000;
  last_stats_msg = 1000;
  last_msg_udp = 1000;
  last_msg_tcp = 1000;
  udp_recv_time = 1000;
  last_tls_rehandshake = 0;
  last_dtls_rehandshake = 0;
  udp_state = UdpState.active;
  link_mtu = 1400;
  adv_link_mtu = 1400;
  last_good_mtu = 1400;
  last_bad_mtu = 1400;
  dtls_crypto_overhead = 38;
  dtls_proto_overhead = 28;
  try_mtu = true;
  dtls_session = true;
  is_ipv4 = true;
  has_ipv6 = false;
  tun_bytes_in = 0;
  tun_bytes_out = 0;
  b_rx = unlimited;
  b_tx = unlimited;
  cstp_selected_comp = none;
  dtls_selected_comp = none;
  sid_set = true;
  is_unix = false;
  auth_complete = true;
  ban_points = 0;
  terminate = none;
}
