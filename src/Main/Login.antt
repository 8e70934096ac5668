-- ===== src/Main/Login.antt =====
-- How a worker logs a client in with its cookie: handle_auth_cookie_req of src/main-auth.c, and
-- accept_user, handle_cookie_auth_res and handle_script_exit of src/main-worker-cmd.c.
pub mod Opens
pub mod Safety
pub mod Refused
use ocserv_ppa.Base.{
  ℕ, ◌+◌, ◌-◌, Bool, true, false, ◌&&◌, ◌||◌, not, List, [], ◌∷◌, ◌++◌, Option, none, some, ◌==◌,
  if◌then◌else◌, length,
}
use ocserv_ppa.Base.Int.{ℤ, pos, negsuc, is_neg, is_zero, err_bad_command}
use ocserv_ppa.Base.Bytes.{bytes_eq}
use ocserv_ppa.Base.Index.{Index}
use ocserv_ppa.Base.Table.{Table}
use ocserv_ppa.Ban.{BanEntry}
use ocserv_ppa.IpLease.{IpLease}
use ocserv_ppa.SecMod.{AuthStatus, sid_size}
use ocserv_ppa.ProcTable.{ProcEntry, ProcTable, proc_table_add, proc_search_sid}
use ocserv_ppa.Main.{
  ProcSt, Server, MainEffect, cookie_reply, kill_pid, user_connected, put_proc, find_proc,
  is_running,
}
use ocserv_ppa.Main.Config.{VhostCfg}
use ocserv_ppa.Main.Session.{SessionReply, Answer, session_open}
use ocserv_ppa.Main.Users.{check_multiple_users}

abbrev pub err_wait_for_script : ℤ
err_wait_for_script = negsuc 4

abbrev pub is_wait_for_script : ℤ → Bool
is_wait_for_script (pos n) = false
is_wait_for_script (negsuc n) = n == 4

-- AUTH_COOKIE_REQ
abbrev pub auth_cookie_req : ℕ
auth_cookie_req = 4

-- What the system answers while a client logs in: its address as a text, the random DTLS session, the
-- security module, `open_tun` (which leases the addresses and makes the device), the connect script
-- with its `pid`, the routes, and the sending of the worker's reply.
pub record LoginEnv (L : Table IpLease) : Type 0 where
  pub find_vhost : List ℕ → VhostCfg
  pub human : Option (List ℕ)
  pub session_id : Option (List ℕ)
  pub secm : Answer SessionReply
  pub open_tun :
      Option IpLease → Option IpLease → L.Rep → ℤ × Option IpLease × Option IpLease × L.Rep
  pub script : ℤ
  pub script_pid : ℕ
  pub reply_sent : Bool → ℤ
  pub iroutes : ℤ

abbrev pub with_status : AuthStatus → ProcSt → ProcSt
with_status status p = record p { status = status }

abbrev pub is_inactive : AuthStatus → Bool
is_inactive AuthStatus.inactive = true
is_inactive _ = false

-- The keys of a worker.
abbrev pub entry_or : ProcEntry → Option ProcSt → ProcEntry
entry_or d none = d
entry_or d (some q) = q.entry

abbrev pub with_session_id : List ℕ → ProcSt → ProcSt
with_session_id session p = record p { entry = record (p.entry) { dtls_session_id = session } }

abbrev pub with_sid : List ℕ → ProcSt → ProcSt
with_sid cookie p = record p { entry = record (p.entry) { sid = cookie }; active_sid = true }

-- `steal_ip_leases`: the leases of the older worker are the newer one's.
abbrev pub with_leases_of : ProcSt → ProcSt → ProcSt
with_leases_of old p = record p { ipv4 = old.ipv4; ipv6 = old.ipv6 }

-- The older worker has none, and is told to end if it still runs.
abbrev pub robbed : ProcSt → ProcSt
robbed old = record old {
  ipv4 = none;
  ipv6 = none;
  pid_killed = if is_running old.pid then true else old.pid_killed;
}

module _ {L : Table IpLease} (env : LoginEnv L) where
  -- `send_cookie_auth_reply` answers for a session only if there is a device.
  unfoldable pub handle_script_exit : ProcSt → ℤ → ℤ × List MainEffect × ProcSt
  handle_script_exit p code =
      if is_zero code
      then if is_neg (env.reply_sent true) || is_neg env.iroutes
        then (err_bad_command, cookie_reply p.tun ∷ [], p)
        else (pos 0, cookie_reply p.tun ∷ [], with_status AuthStatus.completed p)
      else if is_neg (env.reply_sent false)
      then (err_bad_command, cookie_reply false ∷ [], p)
      else (pos 0, cookie_reply false ∷ [], p)

  -- The reply to the worker is that of the script if one runs.
  unfoldable pub finish : ProcSt → ℤ → ℤ × List MainEffect × ProcSt
  finish p ret =
      let (ret', out, p') = handle_script_exit p ret in
      if is_wait_for_script ret
      then (pos 0, [], p)
      else (ret', out, if is_neg ret' then with_status AuthStatus.failed p' else p')

module _ {I : Index} {B : Table BanEntry} {L : Table IpLease} (env : LoginEnv L) where
  -- An older worker with the same cookie gives way.
  unfoldable pub replace_old :
      Server I B L → ProcSt → Option ProcSt → ℤ × List MainEffect × Server I B L × ProcSt
  replace_old s p none = (pos 0, [], s, p)
  replace_old s p (some old) =
      if not (bytes_eq p.username old.username) then (negsuc 0, [], s, p) else (
        pos 0,
        if is_running old.pid then kill_pid old.pid ∷ [] else [],
        record s { procs = put_proc (robbed old) s.procs },
        with_leases_of old p,
      )

  abbrev pub old_proc : Server I B L → ProcSt → List ℕ → Option ProcSt
  old_proc s p cookie =
      elim (proc_search_sid I s.table (λ id. entry_or p.entry (find_proc id s.procs)) cookie) [
        | none ↦ none
        | some id ↦ find_proc id s.procs
      ]

  -- The session is the worker's from here on.
  unfoldable pub enter : Server I B L → ProcSt → List ℕ → ℤ × Server I B L × ProcSt
  enter s p cookie =
      let p' = with_sid cookie p in
      let (ret, table) = proc_table_add I s.table p.id p'.entry in
      (if is_neg ret then negsuc 0 else pos 0, record s { table = table }, p')

  -- The cookie was answered for by the security module.
  unfoldable pub start_session :
      Server I B L → ProcSt → List ℕ → ℤ × List MainEffect × Server I B L × ProcSt
  start_session s p cookie =
      let (ret, out, s1, p1) = replace_old s p (old_proc s p cookie) in
      let (ret', s2, p2) = enter s1 p1 cookie in
      if is_neg ret then (negsuc 0, out, s1, p1) else (ret', out, s2, p2)

  -- The length of the cookie is that of a SID.
  unfoldable pub handle_auth_cookie_req :
      Server I B L → ProcSt → List ℕ → ℤ × List MainEffect × Server I B L × ProcSt
  handle_auth_cookie_req s p cookie =
      if not (length cookie == sid_size) then (negsuc 0, [], s, p) else elim env.session_id [
        | none ↦ (negsuc 0, [], s, p)
        | some session ↦
            (let (ret, out, s1, p1) =
                session_open env.find_vhost env.human env.secm s (with_session_id session p)
                  cookie in
              let (ret', out', s2, p2) = start_session s1 p1 cookie in
              if is_neg ret then (negsuc 0, out, s1, p1) else (ret', out ++ out', s2, p2))
      ]

  -- `user_connected`. The connect script runs on while its result is `ERR_WAIT_FOR_SCRIPT`.
  unfoldable pub connect : Server I B L → ProcSt → ℤ × List MainEffect × Server I B L × ProcSt
  connect s p = (
    if is_neg env.script then env.script else pos 0,
    user_connected ∷ [],
    if is_wait_for_script env.script
        then record s { scripts = (p.id, env.script_pid) ∷ s.scripts }
        else s,
    p,
  )

  unfoldable pub accept_user :
      Server I B L → ProcSt → ℕ → ℤ × List MainEffect × Server I B L × ProcSt
  accept_user s p cmd =
      let limit = check_multiple_users s.procs p in
      let (ret, ipv4, ipv6, leases) = env.open_tun p.ipv4 p.ipv6 s.ip_leases in
      let s1 = record s { ip_leases = leases } in
      let p1 = record p { ipv4 = ipv4; ipv6 = ipv6 } in
      if is_neg limit
      then (limit, [], s, p)
      else if is_neg ret
      then (negsuc 0, [], s1, p1)
      else if not (cmd == auth_cookie_req)
      then (err_bad_command, [], s1, record p1 { tun = true })
      else connect s1 (record p1 { tun = true })

  unfoldable pub handle_cookie_auth_res :
      Server I B L → ProcSt → ℕ → ℤ → ℤ × List MainEffect × Server I B L × ProcSt
  handle_cookie_auth_res s p cmd result =
      let (ret, out, s1, p1) = accept_user s p cmd in
      let accepted =
        with_status (if is_neg ret then AuthStatus.failed else AuthStatus.completed) p1 in
      let (ret', out', p2) = finish env accepted ret in
      let failed =
        finish env (with_status AuthStatus.failed p)
          (if is_neg result then result else err_bad_command) in
      if is_zero result then (ret', out ++ out', s1, p2) else (failed.0, failed.1, s, failed.2)

  -- The whole of AUTH_COOKIE_REQ for a worker that has not asked before.
  unfoldable pub log_in :
      Server I B L → ProcSt → List ℕ → ℤ × List MainEffect × Server I B L × ProcSt
  log_in s p cookie =
      let (result, out, s1, p1) = handle_auth_cookie_req s p cookie in
      let (ret, out', s2, p2) = handle_cookie_auth_res s1 p1 auth_cookie_req result in
      (ret, out ++ out', s2, p2)
