-- ===== src/Main/Tests/Scripts.antt =====
-- A login whose connect script runs on, and then ends well.
use ocserv_ppa.Base.{◌≡◌, refl, true, false, ◌&&◌, [], ◌∷◌, ltb, leb, length}
use ocserv_ppa.Base.Int.{pos}
use ocserv_ppa.Base.Bytes.{bytes_eq}
use ocserv_ppa.Base.Index.{pair_index, count_pairs, del_pair, get_pair}
use ocserv_ppa.SecMod.{AuthStatus, sid_size}
use ocserv_ppa.ProcTable.{proc_search_sid, proc_table_add, proc_table_init}
use ocserv_ppa.Main.{ProcSt, cookie_reply, find_proc}
use ocserv_ppa.Main.Config.{
  apply_default_config, append_routes, append_iroutes, with_defaults, to_append,
}
use ocserv_ppa.Main.Session.{session_open, take_session, configure, same_ip}
use ocserv_ppa.Main.Session.Granted.{GrantedTo}
use ocserv_ppa.Main.Users.{check_multiple_users, count_users, max_clients, sessions}
use ocserv_ppa.Main.Login.{
  LoginEnv, log_in, start_session, handle_auth_cookie_req, handle_cookie_auth_res, replace_old,
  enter, accept_user, connect, handle_script_exit, finish, err_wait_for_script, with_status,
}
use ocserv_ppa.Main.Remove.{new_proc_st, find_script, drop_script, script_child_watcher_cb}
use ocserv_ppa.Main.Remove.LoggedIn.{LogsIn, by_script, WentWell, logs_in-granted}
use ocserv_ppa.Main.Tests.{L, St, home_text, worker, server, env_for, stats_answer}
use ocserv_ppa.SecMod.Tests.{sid}

abbrev waiting : LoginEnv L
waiting = record (env_for home_text) { script = err_wait_for_script }

abbrev waits : St
waits = (log_in waiting server worker sid).2

abbrev left : ProcSt
left = (log_in waiting server worker sid).3

abbrev done : ProcSt
done = with_status AuthStatus.completed left

abbrev ended : St
ended = record waits { scripts = drop_script left.id waits.scripts }

scripted : LogsIn waiting server worker sid done
unfolding log_in handle_auth_cookie_req handle_cookie_auth_res start_session replace_old enter
    accept_user connect handle_script_exit finish check_multiple_users count_users session_open
    take_session configure same_ip bytes_eq apply_default_config append_routes append_iroutes
    with_defaults to_append proc_search_sid proc_table_add proc_table_init find_proc new_proc_st
    pair_index count_pairs del_pair get_pair find_script drop_script script_child_watcher_cb
scripted =
    by_script (env_for home_text) 300 stats_answer (pos 0) 50 waits ended left done
      (cookie_reply left.tun ∷ []) refl refl ((refl, refl, refl), refl, refl) refl refl refl

logs_in-granted_example :
    let s' = (log_in waiting server worker sid).2 in
    let max = max_clients done.config in
    GrantedTo waiting.find_vhost waiting.human waiting.secm done
    × (ltb 0 max && leb max (sessions done.id done.username s'.procs) ≡ false)
    × WentWell waiting server worker sid done scripted
    × (length sid ≡ sid_size)
    × (done.entry.sid ≡ sid)
    × (done.active_sid ≡ true)
logs_in-granted_example = logs_in-granted waiting server worker sid done scripted
