-- ===== src/Main/Login/Safety.antt =====
-- Who gets logged in.
use ocserv_ppa.Base.{
  ℕ, ◌≡◌, true, false, ◌&&◌, List, none, some, if◌then◌else◌, length, arith, refl, ltb, leb, ap,
  ◌∙◌, Option-cases, Bool-cases, inl, inr,
}
use ocserv_ppa.Base.Int.{ℤ, pos, negsuc, is_neg, is_zero, err_bad_command}
use ocserv_ppa.Base.Index.{Index}
use ocserv_ppa.Base.Table.{Table}
use ocserv_ppa.Ban.{BanEntry}
use ocserv_ppa.IpLease.{IpLease}
use ocserv_ppa.SecMod.{AuthStatus, is_completed, sid_size}
use ocserv_ppa.ProcTable.{ProcEntry}
use ocserv_ppa.Main.{ProcSt, Server}
use ocserv_ppa.Main.Session.{session_open}
use ocserv_ppa.Main.Session.Granted.{SameUser, GrantedTo, GrantedTo-same, session_open-GrantedTo}
use ocserv_ppa.Main.Users.{
  check_multiple_users, max_clients, sessions, check_multiple_users-sessions,
}
use ocserv_ppa.Main.Login.{
  LoginEnv, auth_cookie_req, with_session_id, with_status, replace_old, enter, start_session,
  handle_auth_cookie_req, connect, accept_user, handle_script_exit, finish, handle_cookie_auth_res,
  log_in,
}

module _ {L : Table IpLease} (env : LoginEnv L) where
  finish-completed :
      (p : ProcSt) (ret : ℤ)
      → is_completed p.status ≡ false
      → is_completed (finish env p ret).2.status ≡ true
      → ret ≡ pos 0
  unfolding finish handle_script_exit
  finish-completed p ret a h = ground (arith, a, h)

  finish-replied :
      (p : ProcSt) (ret : ℤ)
      → ret ≡ pos 0
      → is_completed (finish env p ret).2.status ≡ true
      → let q = (finish env p ret).2 in
        (is_neg (env.reply_sent true) ≡ false)
        × (is_neg env.iroutes ≡ false)
        × SameUser p q
        × (q.entry ≡ p.entry)
        × (q.active_sid ≡ p.active_sid)
  unfolding finish handle_script_exit
  finish-replied p ret e h = ground (arith, e, h)

  finish-accepted :
      (p : ProcSt) (ret : ℤ)
      → let accepted =
          with_status (if is_neg ret then AuthStatus.failed else AuthStatus.completed) p in
        is_completed (finish env accepted ret).2.status ≡ true → is_neg ret ≡ false
  finish-accepted p (pos n) h = refl
  finish-accepted p (negsuc n) h =
      ground (arith, finish-completed (with_status AuthStatus.failed p) (negsuc n) refl h)

  finish-failed :
      (p : ProcSt) (result : ℤ)
      → is_zero result ≡ false
      → let failed = if is_neg result then result else err_bad_command in
        is_completed (finish env (with_status AuthStatus.failed p) failed).2.status ≡ false
  finish-failed p result h =
      let failed = if is_neg result then result else err_bad_command in
      ground (arith, h, finish-completed (with_status AuthStatus.failed p) failed refl)

module _ {I : Index} {B : Table BanEntry} {L : Table IpLease} where
  module _ (env : LoginEnv L) where
    start_session-same :
        (s : Server I B L) (p : ProcSt) (cookie : List ℕ)
        → is_neg (start_session env s p cookie).0 ≡ false
        → let q = (start_session env s p cookie).3 in
          SameUser p q × (q.entry.sid ≡ cookie) × (q.active_sid ≡ true)
    unfolding start_session replace_old enter
    start_session-same s p cookie h = ground (arith, h)

    handle_auth_cookie_req-steps :
        (s : Server I B L) (p : ProcSt) (cookie session : List ℕ)
        → env.session_id ≡ some session
        → is_neg (handle_auth_cookie_req env s p cookie).0 ≡ false
        → let (ret, out, s1, p1) =
            session_open env.find_vhost env.human env.secm s (with_session_id session p) cookie in
          (is_neg ret ≡ false)
          × (is_neg (start_session env s1 p1 cookie).0 ≡ false)
          × ((handle_auth_cookie_req env s p cookie).3 ≡ (start_session env s1 p1 cookie).3)
    unfolding handle_auth_cookie_req
    handle_auth_cookie_req-steps s p cookie session e h = ground (arith, e, h)

    handle_auth_cookie_req-session :
        (s : Server I B L) (p : ProcSt) (cookie : List ℕ)
        → env.session_id ≡ none
        → is_neg (handle_auth_cookie_req env s p cookie).0 ≡ true
    unfolding handle_auth_cookie_req
    handle_auth_cookie_req-session s p cookie e = ground (arith, e)

    -- What the security module granted stays so for the worker.
    pub handle_auth_cookie_req-GrantedTo :
        (s : Server I B L) (p : ProcSt) (cookie : List ℕ)
        → is_neg (handle_auth_cookie_req env s p cookie).0 ≡ false
        → let q = (handle_auth_cookie_req env s p cookie).3 in
          (length cookie ≡ sid_size)
          × GrantedTo env.find_vhost env.human env.secm q
          × (q.entry.sid ≡ cookie)
          × (q.active_sid ≡ true)
    handle_auth_cookie_req-GrantedTo s p cookie h = elim (Option-cases env.session_id) [
      | inl e ↦ absurd (ground (arith, h, handle_auth_cookie_req-session s p cookie e))
      | inr (session, e) ↦
          (let p0 = with_session_id session p in
            let (ret, out, s1, p1) = session_open env.find_vhost env.human env.secm s p0 cookie in
            let (opened, started, left) = handle_auth_cookie_req-steps s p cookie session e h in
            let (sized, granted) =
              session_open-GrantedTo env.find_vhost env.human env.secm s p0 cookie opened in
            let (same, sid, active) = start_session-same s1 p1 cookie started in
            rw left (
              sized,
              GrantedTo-same env.find_vhost env.human env.secm p1 (start_session env s1 p1 cookie).3
                  same granted,
              sid,
              active,
            ))
    ]

    accept_user-accepted :
        (s : Server I B L) (p : ProcSt) (cmd : ℕ)
        → is_neg (accept_user env s p cmd).0 ≡ false
        → let (ret, out, s', q) = accept_user env s p cmd in
          SameUser p q
          × (q.entry ≡ p.entry)
          × (q.active_sid ≡ p.active_sid)
          × (is_neg (check_multiple_users s.procs p) ≡ false)
          × (s'.procs ≡ s.procs)
          × (is_neg env.script ≡ false)
          × (ret ≡ pos 0)
    unfolding accept_user connect
    accept_user-accepted s p cmd h = ground (arith, h)

    pub handle_cookie_auth_res-zero :
        (s : Server I B L) (p : ProcSt) (cmd : ℕ) (result : ℤ)
        → is_zero result ≡ true
        → let (ret, out, s1, p1) = accept_user env s p cmd in
          let accepted =
            with_status (if is_neg ret then AuthStatus.failed else AuthStatus.completed) p1 in
          ((handle_cookie_auth_res env s p cmd result).3 ≡ (finish env accepted ret).2)
          × ((handle_cookie_auth_res env s p cmd result).2 ≡ s1)
    unfolding handle_cookie_auth_res
    handle_cookie_auth_res-zero s p cmd result zero = ground (arith, zero)

    handle_cookie_auth_res-completed :
        (s : Server I B L) (p : ProcSt) (cmd : ℕ) (result : ℤ)
        → is_completed (handle_cookie_auth_res env s p cmd result).3.status ≡ true
        → let (ret, out, s', q) = handle_cookie_auth_res env s p cmd result in
          (is_neg result ≡ false)
          × (is_neg (check_multiple_users s.procs p) ≡ false)
          × (is_neg env.script ≡ false)
          × (is_neg (env.reply_sent true) ≡ false)
          × (is_neg env.iroutes ≡ false)
          × (s'.procs ≡ s.procs)
          × SameUser p q
          × (q.entry.sid ≡ p.entry.sid)
          × (q.active_sid ≡ p.active_sid)
    unfolding handle_cookie_auth_res
    handle_cookie_auth_res-completed s p cmd result h = elim (Bool-cases (is_zero result)) [
      | inr nonzero ↦ absurd (ground (arith, h, nonzero, finish-failed env p result nonzero))
      | inl zero ↦
          (let (ret, out, s1, p1) = accept_user env s p cmd in
            let accepted =
              with_status (if is_neg ret then AuthStatus.failed else AuthStatus.completed) p1 in
            let done : is_completed (finish env accepted ret).2.status ≡ true =
              ground (arith, h, zero) in
            let (same, entry, active, limit, procs, script, none_waits) =
              accept_user-accepted s p cmd (finish-accepted env p1 ret done) in
            let (replied, routed, same', entry', active') =
              finish-replied env accepted ret none_waits done in
            let (left, server) = handle_cookie_auth_res-zero s p cmd result zero in
            let (id', name', config') = same' in
            let (id, name, config) = same in
            rw (left, server)
              (
                ground (arith, zero),
                limit,
                script,
                replied,
                routed,
                procs,
                (id' ∙ id, name' ∙ name, config' ∙ config),
                ap (λ (e : ProcEntry). e.sid) (entry' ∙ entry),
                active' ∙ active,
              ))
    ]

    -- A worker is logged in by a cookie only where all of this holds: the
    -- security module granted the session, to this user, with this configuration and, if the client
    -- may not roam, for its address; the user has fewer other sessions than its limit, if it has one;
    -- the connect script did not fail, and the routes and the reply to the worker went out. It then
    -- has the cookie for its SID, and the mark that makes its end close the session.
    pub log_in-completed :
        (s : Server I B L) (p : ProcSt) (cookie : List ℕ)
        → is_completed (log_in env s p cookie).3.status ≡ true
        → let (ret, out, s', q) = log_in env s p cookie in
          let max = max_clients q.config in
          GrantedTo env.find_vhost env.human env.secm q
          × (ltb 0 max && leb max (sessions q.id q.username s'.procs) ≡ false)
          × (is_neg env.script ≡ false)
          × (is_neg env.iroutes ≡ false)
          × (is_neg (env.reply_sent true) ≡ false)
          × (length cookie ≡ sid_size)
          × (q.entry.sid ≡ cookie)
          × (q.active_sid ≡ true)
    unfolding log_in
    log_in-completed s p cookie h =
        let (result, out, s1, p1) = handle_auth_cookie_req env s p cookie in
        let (ok, limit, script, replied, routed, procs, same, sid, active) =
          handle_cookie_auth_res-completed s1 p1 auth_cookie_req result h in
        let (sized, granted, sid', active') = handle_auth_cookie_req-GrantedTo s p cookie ok in
        let q = (log_in env s p cookie).3 in
        let max = max_clients p1.config in
        let below : ltb 0 max && leb max (sessions p1.id p1.username s1.procs) ≡ false =
          ground (arith, limit, check_multiple_users-sessions s1.procs p1) in
        let (id, name, config) = same in
        (
          GrantedTo-same env.find_vhost env.human env.secm p1 q same granted,
          rw (id, name, config, procs) below,
          script,
          routed,
          replied,
          sized,
          sid ∙ sid',
          active ∙ active',
        )
