-- ===== src/Main/Tests/Ends.antt =====
-- The theorems on the end of a worker at concrete values.
use ocserv_ppa.Base.{◌+◌, ◌≡◌, refl, true, false, [], ◌∷◌, ◌++◌, none, some, arith}
use ocserv_ppa.Base.Int.{pos, negsuc}
use ocserv_ppa.Base.Bytes.{bytes_eq}
use ocserv_ppa.SecMod.{AuthStatus}
use ocserv_ppa.SecMod.Db.{find_client_entry, cleanup_client_entries}
use ocserv_ppa.SecMod.Session.{
  SessionOpenMsg, handle_secm_session_open_cmd, open_entry, acct_open, ipv4_seed, sup_config,
  set_addresses,
}
use ocserv_ppa.SecMod.Tests.{Entry, D, sid, client, one_client, found}
use ocserv_ppa.Main.{ProcSt, secm_session_close, kill_pid}
use ocserv_ppa.Main.Session.{session_open, take_session, configure, same_ip, session_close}
use ocserv_ppa.Main.Config.{
  apply_default_config, append_routes, append_iroutes, with_defaults, to_append,
}
use ocserv_ppa.Main.Login.{
  LoginEnv, log_in, handle_auth_cookie_req, handle_cookie_auth_res, handle_script_exit, finish,
}
use ocserv_ppa.Main.Remove.{Flags, remove_proc, forget_proc, close_active, find_script, new_proc_st}
use ocserv_ppa.Main.Remove.Closing.{any, is_close, remove_proc-closes}
use ocserv_ppa.Main.Remove.Gaps.{roaming-leak}
use ocserv_ppa.Main.Tests.{
  L, St, home, home_text, away_text, worker, server, env_for, stats_answer, group_cfg,
}

abbrev killing : Flags
killing = record { kill = true; quit = false }

abbrev open_worker : ProcSt
open_worker = record worker {
  active_sid = true;
  entry = record {
    remote_addr = record { ip = home; port = 4000 };
    dtls_remote_addr = none;
    dtls_session_id = [];
    sid = sid;
  };
}

remove_proc-closes_example :
    any (is_close sid) (kill_pid (some 40) ∷ secm_session_close sid 0 0 100 ∷ []) ≡ true
unfolding new_proc_st remove_proc close_active session_close find_script bytes_eq
remove_proc-closes_example =
    remove_proc-closes 200 killing stats_answer none server open_worker _ _ sid refl

abbrev open_req : SessionOpenMsg
open_req = record { sid = sid; ipv4 = none; ipv6 = none }

-- The cookie was issued to another address.
roaming-leak_example :
    let (ret, replies, db') =
      handle_secm_session_open_cmd D 200
        (pos 0)
        (λ name. 5)
        none
        (one_client AuthStatus.completed)
        open_req in
    let env = env_for away_text in
    (any (is_close sid) ((log_in env server worker sid).1 ++ (kill_pid (some 40) ∷ [])) ≡ false)
    × (e' : Entry) × (find_client_entry D (cleanup_client_entries D 9999 db') sid ≡ some e')
    × (e'.in_use ≡ 0 + 1)
unfolding handle_secm_session_open_cmd open_entry acct_open ipv4_seed sup_config set_addresses
    bytes_eq log_in handle_auth_cookie_req handle_cookie_auth_res finish handle_script_exit
    session_open take_session configure same_ip apply_default_config append_routes append_iroutes
    with_defaults to_append new_proc_st remove_proc close_active find_script
roaming-leak_example =
    roaming-leak D (env_for away_text) server worker (1 ∷ 2 ∷ []) group_cfg 200 killing stats_answer
      none (kill_pid (some 40) ∷ [])
      (forget_proc (log_in (env_for away_text) server worker sid).2
        (log_in (env_for away_text) server worker sid).3)
      200 9999 (pos 0) (λ name. 5) none (one_client AuthStatus.completed) open_req
      (client AuthStatus.completed) sid refl (refl, refl, refl, refl, refl) refl refl
      (found AuthStatus.completed) refl (omega arith) refl refl

-- The routes of the client cannot be set.
abbrev no_routes : LoginEnv L
no_routes = record (env_for home_text) { iroutes = negsuc 0 }

abbrev waiting : ProcSt
waiting = record open_worker { status = AuthStatus.failed; tun = true }

abbrev server1 : St
server1 = record server { scripts = (1, 50) ∷ [] }
