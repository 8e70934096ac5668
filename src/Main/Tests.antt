-- ===== src/Main/Tests.antt =====
-- A worker, a client and a virtual host, for the theorems at concrete values.
mod Logins
mod Ends
mod Settings
mod Scripts
use ocserv_ppa.Base.{
  ℕ, ◌≡◌, refl, true, false, List, [], ◌∷◌, Option, none, some, if◌then◌else◌, ◌==◌, replicate,
}
use ocserv_ppa.Base.Int.{pos, negsuc}
use ocserv_ppa.Base.Index.{Index, pair_index}
use ocserv_ppa.Base.Table.{Table, function_table}
use ocserv_ppa.Ban.{BanConfig, BanEntry}
use ocserv_ppa.IpLease.{IpLease}
use ocserv_ppa.SecMod.{AuthStatus}
use ocserv_ppa.SecMod.Tests.{sid}
use ocserv_ppa.ProcTable.{proc_table_init}
use ocserv_ppa.Main.{ProcSt, MainStats, Server}
use ocserv_ppa.Main.Config.{GroupCfg, VhostCfg}
use ocserv_ppa.Main.Session.{SessionReply, Answer, CliStats}
use ocserv_ppa.Main.Login.{LoginEnv}
use ocserv_ppa.Main.Commands.{CmdEnv}
use ocserv_ppa.Main.Remove.{new_proc_st}

abbrev pub B : Table BanEntry
B = function_table BanEntry

abbrev pub L : Table IpLease
L = function_table IpLease

abbrev pub St : Type 0
St = Server pair_index B L

abbrev pub home : List ℕ
home = 10 ∷ 0 ∷ 0 ∷ 1 ∷ []

-- Its text
abbrev pub home_text : List ℕ
home_text = 49 ∷ 48 ∷ []

abbrev pub away_text : List ℕ
away_text = 49 ∷ 49 ∷ []

-- The routes are "r", "o" and "i".
abbrev pub group_cfg : GroupCfg
group_cfg = record {
  no_udp = none;
  routes = none;
  no_routes = none;
  iroutes = [];
  dns = none;
  nbns = none;
  split_dns = none;
  interim_update_secs = none;
  session_timeout_secs = none;
  deny_roaming = none;
  ipv4_net = none;
  ipv4_netmask = none;
  ipv6_net = none;
  ipv6_prefix = none;
  ipv6_subnet_prefix = none;
  cgroup = none;
  xml_config_file = none;
  rx_per_sec = none;
  tx_per_sec = none;
  net_priority = none;
  keepalive = none;
  dpd = none;
  mobile_dpd = none;
  max_same_clients = none;
  tunnel_all_dns = none;
  restrict_user_to_routes = none;
  mtu = none;
  idle_timeout = none;
  mobile_idle_timeout = none;
  fw_ports = [];
}

abbrev pub vhost_cfg : VhostCfg
vhost_cfg = record {
  udp_port = 443;
  routes = (114 ∷ []) ∷ [];
  no_routes = [];
  dns = [];
  nbns = [];
  split_dns = [];
  known_iroutes = (105 ∷ []) ∷ [];
  append_routes = true;
  stats_report_time = 0;
  session_timeout = 0;
  deny_roaming = true;
  ipv4_network = none;
  ipv4_netmask = none;
  ipv6_network = none;
  ipv6_prefix = 64;
  ipv6_subnet_prefix = 128;
  cgroup = none;
  xml_config_file = none;
  rx_per_sec = 0;
  tx_per_sec = 0;
  net_priority = 0;
  keepalive = 300;
  dpd = 90;
  mobile_dpd = 1800;
  max_same_clients = 2;
  tunnel_all_dns = 0;
  restrict_user_to_routes = false;
  mtu = 1400;
  idle_timeout = 0;
  mobile_idle_timeout = 0;
  fw_ports = [];
  stats_reset_time = 0;
}

abbrev pub no_stats : MainStats
no_stats = record {
  session_timeouts = 0;
  session_idle_timeouts = 0;
  session_errors = 0;
  sessions_closed = 3;
  kbytes_in = 10;
  kbytes_out = 10;
  min_mtu = 1200;
  max_mtu = 1500;
  active_clients = 1;
  secmod_client_entries = 0;
  tlsdb_entries = 0;
  last_reset = 0;
  avg_auth_time = 0;
  max_auth_time = 0;
  avg_session_mins = 0;
  max_session_mins = 0;
  auth_failures = 0;
  total_auth_failures = 0;
  total_sessions_closed = 3;
}

abbrev pub worker : ProcSt
worker = new_proc_st 100 1 40 (replicate 32 0) (record { ip = home; port = 4000 })

abbrev pub banned_at_ten : BanConfig
banned_at_ten = record {
  max_ban_score = 10;
  min_reauth_time = 300;
  ban_reset_time = 1200;
  ban_points_connect = 1;
}

abbrev pub server : St
server = record {
  procs = worker ∷ [];
  table = proc_table_init pair_index;
  ban_db = some (λ j. none);
  ban_config = banned_at_ten;
  ip_leases = λ j. none;
  usage_count = λ name. 0;
  scripts = [];
  stats = no_stats;
}

-- A session for "a", which was issued to this address.
abbrev pub reply_to : List ℕ → SessionReply
reply_to ip = record {
  ok = true;
  username = some (97 ∷ []);
  groupname = none;
  config = some group_cfg;
  ipv4_seed = 5;
  vhost = [];
  ip = some ip;
}

-- Everything goes well, for a cookie that was issued to this address.
abbrev pub env_for : List ℕ → LoginEnv L
env_for ip = record {
  find_vhost = λ name. vhost_cfg;
  human = some home_text;
  session_id = some (1 ∷ 2 ∷ []);
  secm = record { sent = pos 0; received = pos 0; msg = reply_to ip };
  open_tun = λ ipv4 ipv6 db. (pos 0, ipv4, ipv6, db);
  script = pos 0;
  script_pid = 50;
  reply_sent = λ ok. pos 0;
  iroutes = pos 0;
}

abbrev pub cmd_env : CmdEnv
cmd_env = record {
  now = 200;
  inet_pton6 = λ text. none;
  inet_pton4 = λ text. some home;
  listen_proxy_proto = false;
  sent = pos 0;
  ioctl = pos 0;
}

abbrev pub stats_answer : Answer CliStats
stats_answer = record {
  sent = pos 0;
  received = pos 0;
  msg = record { bytes_in = 5000; bytes_out = 7000; discon_reason = some 2 };
}
