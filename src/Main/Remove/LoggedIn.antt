-- ===== src/Main/Remove/LoggedIn.antt =====
-- Who gets logged in by a cookie, at once or when the connect script has ended.
use ocserv_ppa.Base.{
  ℕ, ◌≡◌, ◌⊎◌, inl, inr, true, false, ◌&&◌, List, none, some, if◌then◌else◌, length, arith, refl,
  ltb, leb, ◌∙◌, ap, Option-cases, Bool-cases,
}
use ocserv_ppa.Base.Int.{ℤ, pos, is_neg, is_zero}
use ocserv_ppa.Base.Index.{Index}
use ocserv_ppa.Base.Table.{Table}
use ocserv_ppa.Ban.{BanEntry}
use ocserv_ppa.IpLease.{IpLease}
use ocserv_ppa.SecMod.{AuthStatus, is_completed, sid_size}
use ocserv_ppa.Main.{ProcSt, Server, MainEffect}
use ocserv_ppa.Main.Session.{Answer, CliStats, session_open, take_session, configure}
use ocserv_ppa.Main.Session.Granted.{SameUser, GrantedTo, GrantedTo-same}
use ocserv_ppa.Main.Users.{
  check_multiple_users, max_clients, sessions, check_multiple_users-sessions,
}
use ocserv_ppa.Main.Login.{
  LoginEnv, auth_cookie_req, with_session_id, with_status, replace_old, enter, start_session,
  handle_auth_cookie_req, connect, accept_user, handle_script_exit, finish, handle_cookie_auth_res,
  log_in,
}
use ocserv_ppa.Main.Login.Safety.{
  log_in-completed, handle_auth_cookie_req-GrantedTo, handle_cookie_auth_res-zero,
}
use ocserv_ppa.Main.Remove.{find_script, script_child_watcher_cb}

-- The worker is still that of the same user and session.
abbrev pub IsStill : ProcSt → ProcSt → Type 0
IsStill p q = SameUser p q × (q.entry.sid ≡ p.entry.sid) × (q.active_sid ≡ p.active_sid)

IsStill-trans : (p q r : ProcSt) → IsStill p q → IsStill q r → IsStill p r
IsStill-trans p q r ((id, name, config), sid, active) ((id', name', config'), sid', active') =
    ((id' ∙ id, name' ∙ name, config' ∙ config), sid' ∙ sid, active' ∙ active)

finish-IsStill :
    {L : Table IpLease} (env : LoginEnv L) (p : ProcSt) (ret : ℤ) → IsStill p (finish env p ret).2
unfolding finish handle_script_exit
finish-IsStill env p ret = ground arith

script_exit-completed :
    {L : Table IpLease} (env : LoginEnv L) (p : ProcSt) (code : ℤ)
    → is_completed p.status ≡ false
    → let (ret, out, q) = handle_script_exit env p code in
      is_completed q.status ≡ true
      → (code ≡ pos 0)
        × (is_neg env.iroutes ≡ false)
        × (is_neg (env.reply_sent true) ≡ false)
        × IsStill p q
unfolding handle_script_exit
script_exit-completed env p code before done = ground (arith, before, done)

module _ {I : Index} {B : Table BanEntry} {L : Table IpLease} where
  -- How a worker gets logged in: while its message is handled, or when the connect script that this has started
  -- ends, whatever happened in between that leaves the worker its user and session.
  pub data LogsIn (env : LoginEnv L) (s : Server I B L) (p : ProcSt) (cookie : List ℕ)
      : ProcSt → Type 0 where
    at_once :
        is_completed (log_in env s p cookie).3.status ≡ true
        → LogsIn env s p cookie (log_in env s p cookie).3
    by_script :
        (env' : LoginEnv L) (now : ℕ) (answer : Answer CliStats) (code : ℤ) (pid : ℕ)
        (s1 s2 : Server I B L) (q1 q : ProcSt) (effects : List MainEffect)
        → find_script p.id s.scripts ≡ none
        → find_script p.id (log_in env s p cookie).2.scripts ≡ some pid
        → IsStill (log_in env s p cookie).3 q1
        → is_completed q1.status ≡ false
        → script_child_watcher_cb env' now answer code s1 q1 ≡ some (effects, s2, some q)
        → is_completed q.status ≡ true
        → LogsIn env s p cookie q

  -- The script did not fail, and the routes and the reply to the worker went out.
  abbrev pub WentWell :
      (env : LoginEnv L) (s : Server I B L) (p : ProcSt) (cookie : List ℕ) (q : ProcSt)
      → LogsIn env s p cookie q
      → Type 0
  WentWell env s p cookie q (at_once done) =
      (is_neg env.script ≡ false)
      × (is_neg env.iroutes ≡ false)
      × (is_neg (env.reply_sent true) ≡ false)
  WentWell env s p cookie q
        (by_script env' now answer code pid s1 s2 q1 q' effects fresh waits still before e done) =
      (code ≡ pos 0) × (is_neg env'.iroutes ≡ false) × (is_neg (env'.reply_sent true) ≡ false)

  session_open-scripts :
      (env : LoginEnv L) (s : Server I B L) (p : ProcSt) (cookie : List ℕ)
      → (session_open env.find_vhost env.human env.secm s p cookie).2.scripts ≡ s.scripts
  unfolding session_open take_session configure
  session_open-scripts env s p cookie = ground arith

  start_session-scripts :
      (env : LoginEnv L) (s : Server I B L) (p : ProcSt) (cookie : List ℕ)
      → (start_session env s p cookie).2.scripts ≡ s.scripts
  unfolding start_session replace_old enter
  start_session-scripts env s p cookie = ground arith

  auth_cookie-scripts :
      (env : LoginEnv L) (s : Server I B L) (p : ProcSt) (cookie : List ℕ)
      → (handle_auth_cookie_req env s p cookie).2.scripts ≡ s.scripts
  unfolding handle_auth_cookie_req
  auth_cookie-scripts env s p cookie = elim (Option-cases env.session_id) [
    | inl e ↦ ground (arith, e)
    | inr (session, e) ↦
        (let p0 = with_session_id session p in
          let (ret, out, s1, p1) = session_open env.find_vhost env.human env.secm s p0 cookie in
          ground (
            arith,
            e,
            session_open-scripts env s p0 cookie,
            start_session-scripts env s1 p1 cookie,
          ))
  ]

  -- The script was started for an accepted user.
  accept_user-waits :
      (env : LoginEnv L) (s : Server I B L) (p : ProcSt) (cmd : ℕ)
      → ((accept_user env s p cmd).2.scripts ≡ s.scripts)
        ⊎ (let (ret, out, s', q) = accept_user env s p cmd in
            (is_neg (check_multiple_users s.procs p) ≡ false) × (s'.procs ≡ s.procs) × IsStill p q)
  unfolding accept_user connect
  accept_user-waits env s p cmd = ground arith

  auth_res-waits :
      (env : LoginEnv L) (s : Server I B L) (p : ProcSt) (cmd : ℕ) (result : ℤ)
      → ((handle_cookie_auth_res env s p cmd result).2.scripts ≡ s.scripts)
        ⊎ (let (ret, out, s', q) = handle_cookie_auth_res env s p cmd result in
            (is_neg result ≡ false)
            × (is_neg (check_multiple_users s.procs p) ≡ false)
            × (s'.procs ≡ s.procs)
            × IsStill p q)
  unfolding handle_cookie_auth_res
  auth_res-waits env s p cmd result = elim (Bool-cases (is_zero result)) [
    | inr nonzero ↦ inl (rw nonzero refl)
    | inl zero ↦
        (let (ret, out, s1, p1) = accept_user env s p cmd in
          let accepted =
            with_status (if is_neg ret then AuthStatus.failed else AuthStatus.completed) p1 in
          let (left, server) = handle_cookie_auth_res-zero env s p cmd result zero in
          let still = finish-IsStill env accepted ret in
          elim (accept_user-waits env s p cmd) [
            | inl same ↦ inl (rw server same)
            | inr (limit, procs, same) ↦ inr (
              ground (arith, zero),
              limit,
              rw server procs,
              rw left (IsStill-trans p p1 (finish env accepted ret).2 same still),
            )
          ])
  ]

  -- What the script's end leaves is what handle_script_exit leaves.
  watcher-kept :
      (env : LoginEnv L) (now : ℕ) (answer : Answer CliStats) (code : ℤ) (s s2 : Server I B L)
      (p q : ProcSt) (effects : List MainEffect)
      → script_child_watcher_cb env now answer code s p ≡ some (effects, s2, some q)
      → (handle_script_exit env p code).2 ≡ q
  unfolding script_child_watcher_cb
  watcher-kept env now answer code s s2 p q effects e = ground (arith, e)

  -- A worker that waits for its script was accepted.
  log_in-waits :
      (env : LoginEnv L) (s : Server I B L) (p : ProcSt) (cookie : List ℕ) (pid : ℕ)
      → find_script p.id s.scripts ≡ none
      → find_script p.id (log_in env s p cookie).2.scripts ≡ some pid
      → let (ret, out, s', q) = log_in env s p cookie in
        let max = max_clients q.config in
        GrantedTo env.find_vhost env.human env.secm q
        × (ltb 0 max && leb max (sessions q.id q.username s'.procs) ≡ false)
        × (length cookie ≡ sid_size)
        × (q.entry.sid ≡ cookie)
        × (q.active_sid ≡ true)
  unfolding log_in
  log_in-waits env s p cookie pid fresh waits =
      let (result, out, s1, p1) = handle_auth_cookie_req env s p cookie in
      let q = (handle_cookie_auth_res env s1 p1 auth_cookie_req result).3 in
      elim (auth_res-waits env s1 p1 auth_cookie_req result) [
        | inl same ↦
            (let gone = ap (find_script p.id) (same ∙ auth_cookie-scripts env s p cookie) in
              absurd (cc (gone, fresh, waits)))
        | inr (ok, limit, procs, (user, sid, active)) ↦
            (let (sized, granted, sid', active') =
                handle_auth_cookie_req-GrantedTo env s p cookie ok in
              let max = max_clients p1.config in
              let below : ltb 0 max && leb max (sessions p1.id p1.username s1.procs) ≡ false =
                ground (arith, limit, check_multiple_users-sessions s1.procs p1) in
              let (id, name, config) = user in
              (
                GrantedTo-same env.find_vhost env.human env.secm p1 q user granted,
                rw (id, name, config, procs) below,
                sized,
                sid ∙ sid',
                active ∙ active',
              ))
      ]

  -- A worker is logged in by a cookie, at once or when the connect script ends, only where all of this holds: the
  -- security module granted the session, to this user, with this configuration and, if the client may not roam, for
  -- its address; the user had fewer other sessions than its limit, if it has one, when the cookie was handled; the
  -- connect script did not fail, where one was started, and the routes and the reply to the worker went out. It then
  -- has the cookie for its SID, and the mark that makes its end close the session. (While the script runs, the worker
  -- keeps its user, its configuration, its SID and its mark, and is not logged in otherwise.)
  pub logs_in-granted :
      (env : LoginEnv L) (s : Server I B L) (p : ProcSt) (cookie : List ℕ) (q : ProcSt)
      → (login : LogsIn env s p cookie q)
      → let s' = (log_in env s p cookie).2 in
        let max = max_clients q.config in
        GrantedTo env.find_vhost env.human env.secm q
        × (ltb 0 max && leb max (sessions q.id q.username s'.procs) ≡ false)
        × WentWell env s p cookie q login
        × (length cookie ≡ sid_size)
        × (q.entry.sid ≡ cookie)
        × (q.active_sid ≡ true)
  logs_in-granted env s p cookie q (at_once done) =
      let (granted, limit, script, routed, replied, sized, sid, active) =
        log_in-completed env s p cookie done in
      (granted, limit, (script, routed, replied), sized, sid, active)
  logs_in-granted env s p cookie q
        (by_script env' now answer code pid s1 s2 q1 q' effects fresh waits still before e done) =
      let q0 = (log_in env s p cookie).3 in
      let max = max_clients q0.config in
      let (granted, limit, sized, sid, active) = log_in-waits env s p cookie pid fresh waits in
      let kept = watcher-kept env' now answer code s1 s2 q1 q' effects e in
      let (well, routed, replied, still') =
        script_exit-completed env' q1 code before (rw kept done) in
      let (user, sid', active') = IsStill-trans q0 q1 q' still (rw kept at still') in
      let (id, name, config) = user in
      (
        GrantedTo-same env.find_vhost env.human env.secm q0 q' user granted,
        rw (id, name, config) limit,
        (well, routed, replied),
        sized,
        sid' ∙ sid,
        active' ∙ active,
      )
