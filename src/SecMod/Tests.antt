-- ===== src/SecMod/Tests.antt =====
-- A client with a module that accepts one password, for the theorems at concrete values.
mod Certificates
mod Entries
mod Logins
mod Sessions
use ocserv_ppa.Base.{
  ℕ, ◌≡◌, ◌≢◌, refl, true, false, List, [], ◌∷◌, Option, none, some, arith, if◌then◌else◌, ◌==◌,
  replicate, inr,
}
use ocserv_ppa.Base.Int.{pos, negsuc, is_neg}
use ocserv_ppa.Base.Bytes.{bytes_eq}
use ocserv_ppa.Base.Table.{Table, function_table}
use ocserv_ppa.SecMod.{AuthStatus, Stats, AuthMod, Vhost, ClientEntry, SecStats, in_progress}
use ocserv_ppa.SecMod.Db.{
  find_client_entry, new_client_entry, blank_entry, unique_sid, cleanup_client_entries,
  expire_client_entry, is_invalidated, closed_exptime,
}
use ocserv_ppa.SecMod.Db.Sids.{unique_sid-found, new_client_entry-fresh, cleanup-find, expire-find}
use ocserv_ppa.SecMod.Group.{
  check_group, module_group, certificate_group, check_cert_user_group_status, match_certificate,
}
use ocserv_ppa.SecMod.Group.Names.{check_group-certificate, NamedBy}
use ocserv_ppa.SecMod.Auth.{
  handle_sec_auth_res, handle_sec_auth_cont, handle_sec_auth_ban_ip_reply, ask_module, accept_auth,
  send_auth_reply, auth_cont_result,
}
use ocserv_ppa.SecMod.Auth.Safety.{
  handle_sec_auth_res-completed, handle_sec_auth_cont-completed, handle_sec_auth_cont-stray,
  ban_reply_stops_auth,
}
use ocserv_ppa.SecMod.Session.{
  SessionOpenMsg, StatsMsg, StatsReport, handle_secm_session_open_cmd,
  handle_secm_session_close_cmd, handle_sec_auth_stats_cmd, open_entry, acct_open, ipv4_seed,
  sup_config, set_addresses,
}
use ocserv_ppa.SecMod.Session.Open.{
  session_open-granted, session_open-unknown, session_open-cleanup, is_granted,
}
use ocserv_ppa.SecMod.Session.Close.{session_close-find, session_stats-Grown, Grown, closed_entry}

abbrev pub Entry : Type 0
Entry = ClientEntry (Unit {0})

abbrev pub D : Table Entry
D = function_table Entry

-- A module that accepts the password "p".
abbrev pub one_password : AuthMod (Unit {0})
one_password = record {
  allows_retries = true;
  auth_init = λ i. (negsuc 3, some tt);
  auth_msg = λ c. (pos 0, record { msg_str = none; counter = 0 });
  auth_pass = λ c pass. (if bytes_eq pass (112 ∷ []) then pos 0 else negsuc 2, c);
  auth_group = none;
  auth_user = λ c name. name;
}

abbrev pub vhost : Vhost (Unit {0})
vhost = record {
  auth = record { enabled = true; auth_type = 1; amod = some one_password } ∷ [];
  acct = none;
  get_sup_config = none;
  max_ban_score = 80;
  ban_points_wrong_password = 10;
  cert_user_oid = true;
  cert_group_oid = false;
  cookie_timeout = 300;
  persistent_cookies = false;
  predictable_ips = true;
}

abbrev pub sid : List ℕ
sid = replicate 32 7

abbrev pub other_sid : List ℕ
other_sid = replicate 32 8

abbrev pub counters : SecStats
counters = record {
  auth_failures = 0;
  max_auth_time = 0;
  avg_auth_time = 0;
  total_authentications = 0;
}

abbrev pub no_counts : Stats
no_counts = record { bytes_in = 0; bytes_out = 0; uptime = 0 }

abbrev pub client : AuthStatus → Entry
client status = record {
  sid = sid;
  auth_ctx = some tt;
  session_is_open = false;
  in_use = 0;
  tls_auth_ok = true;
  msg_str = none;
  passwd_counter = 0;
  saved_stats = no_counts;
  stats = no_counts;
  status = status;
  created = 100;
  exptime = 500;
  auth_type = 9;
  discon_reason = 0;
  acct_info = record {
    username = 97 ∷ [];
    groupname = [];
    safe_id = [];
    remote_ip = [];
    user_agent = [];
    our_ip = [];
    ipv4 = [];
    ipv6 = [];
    id = 1;
  };
  req_group_name = [];
  cert_group_names = [];
  cert_user_name = 97 ∷ [];
  auth_mod = some one_password;
  vhost = vhost;
}

abbrev pub one_client : AuthStatus → D.Rep
one_client status = λ j. if bytes_eq sid j then some (client status) else none

pub found :
    (status : AuthStatus) → find_client_entry D (one_client status) sid ≡ some (client status)
unfolding bytes_eq
found status = refl
