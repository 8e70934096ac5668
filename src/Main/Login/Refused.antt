-- ===== src/Main/Login/Refused.antt =====
-- A cookie that gets no session.
use ocserv_ppa.Base.{ℕ, ◌≡◌, true, false, ◌||◌, List, [], ◌∷◌, ◌++◌, some, length, arith}
use ocserv_ppa.Base.Int.{pos, is_neg}
use ocserv_ppa.Base.Index.{Index}
use ocserv_ppa.Base.Table.{Table}
use ocserv_ppa.Ban.{BanEntry}
use ocserv_ppa.IpLease.{IpLease}
use ocserv_ppa.SecMod.{sid_size}
use ocserv_ppa.Main.{ProcSt, Server, cookie_reply}
use ocserv_ppa.Main.Session.{session_open}
use ocserv_ppa.Main.Login.{
  LoginEnv, log_in, handle_auth_cookie_req, handle_cookie_auth_res, finish, handle_script_exit,
  with_session_id,
}

module _ {I : Index} {B : Table BanEntry} {L : Table IpLease} (env : LoginEnv L) where
  -- Without a session the worker goes on as it is, and the client is told.
  pub log_in-refused :
      (s : Server I B L) (p : ProcSt) (cookie session : List ℕ)
      → env.session_id ≡ some session
      → let (ret, out, s1, p1) =
          session_open env.find_vhost env.human env.secm s (with_session_id session p) cookie in
        is_neg ret ≡ true
        → length cookie ≡ sid_size
        → let (ret', out', s', q) = log_in env s p cookie in
          (q.active_sid ≡ p1.active_sid) × (out' ≡ out ++ (cookie_reply false ∷ []))
  unfolding log_in handle_auth_cookie_req handle_cookie_auth_res finish handle_script_exit
  log_in-refused s p cookie session e refused sized = ground (arith, e, refused, sized)

pub handle_script_exit-failed :
    {L : Table IpLease} (env : LoginEnv L) (p : ProcSt)
    → is_neg (env.reply_sent true) || is_neg env.iroutes ≡ true
    → let (ret, out, q) = handle_script_exit env p (pos 0) in
      (is_neg ret ≡ true) × (out ≡ cookie_reply p.tun ∷ []) × (q ≡ p)
unfolding handle_script_exit
handle_script_exit-failed env p failed = ground (arith, failed)
