-- ===== src/Main/Login/Opens.antt =====
-- How often a worker that logs in asks the security module for a session.
use ocserv_ppa.Base.{
  ℕ, ◌+◌, ◌≡◌, ◌≤◌, Bool, true, false, List, [], ◌∷◌, ◌++◌, Option, if◌then◌else◌, arith,
  Option-cases, inl, inr,
}
use ocserv_ppa.Base.Int.{ℤ, is_neg, err_bad_command}
use ocserv_ppa.Base.Index.{Index}
use ocserv_ppa.Base.Table.{Table}
use ocserv_ppa.Ban.{BanEntry}
use ocserv_ppa.IpLease.{IpLease}
use ocserv_ppa.SecMod.{AuthStatus}
use ocserv_ppa.Main.{ProcSt, Server, MainEffect, secm_session_open}
use ocserv_ppa.Main.Session.{SessionReply, Answer, session_open}
use ocserv_ppa.Main.Login.{
  LoginEnv, is_inactive, auth_cookie_req, with_session_id, with_status, replace_old, enter,
  start_session, handle_auth_cookie_req, connect, accept_user, handle_script_exit, finish,
  handle_cookie_auth_res, log_in,
}

abbrev pub is_open : MainEffect → Bool
is_open (secm_session_open cookie) = true
is_open e = false

-- The sessions that are asked for.
unfoldable pub opens : List MainEffect → ℕ
opens [] = 0
opens (e ∷ es) = (if is_open e then 1 else 0) + opens es

pub opens-append : (xs ys : List MainEffect) → opens (xs ++ ys) ≡ opens xs + opens ys
unfolding opens
opens-append [] ys = omega arith
opens-append (x ∷ xs) ys = ground (arith, opens-append xs ys)

module _ {L : Table IpLease} (env : LoginEnv L) where
  finish-opens :
      (p : ProcSt) (ret : ℤ)
      → is_inactive p.status ≡ false
      → (opens (finish env p ret).1 ≡ 0) × (is_inactive (finish env p ret).2.status ≡ false)
  unfolding finish handle_script_exit opens
  finish-opens p ret a = ground (arith, a)

module _ {I : Index} {B : Table BanEntry} {L : Table IpLease} (env : LoginEnv L) where
  start_session-opens :
      (s : Server I B L) (p : ProcSt) (cookie : List ℕ) → opens (start_session env s p cookie).1 ≡ 0
  unfolding start_session replace_old enter opens
  start_session-opens s p cookie = ground arith

  session_open-opens :
      (answer : Answer SessionReply) (human : Option (List ℕ)) (s : Server I B L) (p : ProcSt)
      (cookie : List ℕ)
      → opens (session_open env.find_vhost human answer s p cookie).1 ≤ 1
  unfolding session_open opens
  session_open-opens answer human s p cookie = ground arith

  auth_cookie-opens :
      (s : Server I B L) (p : ProcSt) (cookie : List ℕ)
      → opens (handle_auth_cookie_req env s p cookie).1 ≤ 1
  unfolding handle_auth_cookie_req opens
  auth_cookie-opens s p cookie = elim (Option-cases env.session_id) [
    | inl e ↦ ground (arith, e)
    | inr (session, e) ↦
        (let p0 = with_session_id session p in
          let (ret, out, s1, p1) = session_open env.find_vhost env.human env.secm s p0 cookie in
          ground (
            arith,
            e,
            start_session-opens s1 p1 cookie,
            session_open-opens env.secm env.human s p0 cookie,
            opens-append out (start_session env s1 p1 cookie).1,
          ))
  ]

  accept_user-opens :
      (s : Server I B L) (p : ProcSt) (cmd : ℕ) → opens (accept_user env s p cmd).1 ≡ 0
  unfolding accept_user connect opens
  accept_user-opens s p cmd = ground arith

  cookie_auth_res-opens :
      (s : Server I B L) (p : ProcSt) (cmd : ℕ) (result : ℤ)
      → let (ret, out, s', q) = handle_cookie_auth_res env s p cmd result in
        (opens out ≡ 0) × (is_inactive q.status ≡ false)
  unfolding handle_cookie_auth_res
  cookie_auth_res-opens s p cmd result =
      let (ret, out, s1, p1) = accept_user env s p cmd in
      let accepted =
        with_status (if is_neg ret then AuthStatus.failed else AuthStatus.completed) p1 in
      let failed = if is_neg result then result else err_bad_command in
      ground (
        arith,
        accept_user-opens s p cmd,
        opens-append out (finish env accepted ret).1,
        finish-opens env accepted ret,
        finish-opens env (with_status AuthStatus.failed p) failed,
      )

  -- A login asks for a session once at most, and cannot be tried again.
  pub log_in-opens :
      (s : Server I B L) (p : ProcSt) (cookie : List ℕ)
      → let (ret, out, s', q) = log_in env s p cookie in
        (opens out ≤ 1) × (is_inactive q.status ≡ false)
  unfolding log_in
  log_in-opens s p cookie =
      let (result, out, s1, p1) = handle_auth_cookie_req env s p cookie in
      let (ret, out', s2, p2) = handle_cookie_auth_res env s1 p1 auth_cookie_req result in
      ground (
        arith,
        auth_cookie-opens s p cookie,
        cookie_auth_res-opens s1 p1 auth_cookie_req result,
        opens-append out out',
      )
