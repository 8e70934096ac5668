-- ===== src/Main/Commands/Once.antt =====
-- A worker logs in once.
use ocserv_ppa.Base.{
  ℕ, ◌+◌, ◌≡◌, ◌≤◌, Bool, true, false, List, [], ◌∷◌, ◌++◌, Option, none, some, if◌then◌else◌,
  arith, refl,
}
use ocserv_ppa.Base.Index.{Index}
use ocserv_ppa.Base.Table.{Table}
use ocserv_ppa.Ban.{BanEntry}
use ocserv_ppa.IpLease.{IpLease}
use ocserv_ppa.SecMod.{is_completed}
use ocserv_ppa.ProcTable.{Sockaddr}
use ocserv_ppa.Main.{ProcSt, Server, MainEffect}
use ocserv_ppa.Main.Login.{LoginEnv, is_inactive, log_in}
use ocserv_ppa.Main.Login.Opens.{opens, opens-append, log_in-opens}
use ocserv_ppa.Main.Commands.{
  CmdEnv, SessionInfoMsg, WorkerMsg, ban_ip, tun_mtu, session_info, auth_cookie, malformed,
  terminated, with_mtu, proxy_address, handle_session_info, handle_ban_ip, handle_worker_commands,
  host_update, new_info,
}

-- What is left to ask: one session, before a login.
abbrev pub left : ProcSt → ℕ
left p = if is_inactive p.status then 1 else 0

host_update-opens :
    (name : Option (List ℕ)) (updated : Bool) → opens (host_update name updated).0 ≡ 0
unfolding opens
host_update-opens none updated = refl
host_update-opens (some name) updated = ground arith

with_mtu-status :
    (env : CmdEnv) (p : ProcSt) (mtu : ℕ)
    → let (out, q) = with_mtu env p mtu in (opens out ≡ 0) × (q.status ≡ p.status)
unfolding with_mtu opens
with_mtu-status env p mtu = ground arith

module _ {I : Index} {B : Table BanEntry} {L : Table IpLease} (env : CmdEnv) where
  proxy_address-status :
      (s : Server I B L) (p : ProcSt) (addr : Option Sockaddr)
      → let (out, s', q) = proxy_address env s p addr in (opens out ≡ 0) × (q.status ≡ p.status)
  unfolding proxy_address opens
  proxy_address-status s p none = (refl, refl)
  proxy_address-status s p (some addr) = ground arith

  session_info-status :
      (s : Server I B L) (p : ProcSt) (m : SessionInfoMsg)
      → let (ret, out, s', q) = handle_session_info env s p m in
        (opens out ≡ 0) × (q.status ≡ p.status)
  unfolding handle_session_info opens
  session_info-status s p m =
      let (out, updated) = host_update m.hostname p.host_updated in
      let p1 = record p { info = new_info m p.info; host_updated = updated } in
      let (out', s', q) = proxy_address env s p1 m.remote_addr in
      ground (
        arith,
        host_update-opens m.hostname p.host_updated,
        proxy_address-status s p1 m.remote_addr,
        opens-append out out',
      )

  -- What a message asks for is no longer left.
  handle_worker_commands-left :
      (login : LoginEnv L) (s : Server I B L) (p : ProcSt) (m : WorkerMsg)
      → let (ret, out, s', q) = handle_worker_commands env login s p m in
        opens out + left q ≤ left p
  unfolding handle_worker_commands handle_ban_ip opens
  handle_worker_commands-left login s p (ban_ip ip score) = ground arith
  handle_worker_commands-left login s p (tun_mtu mtu) = ground (arith, with_mtu-status env p mtu)
  handle_worker_commands-left login s p (session_info m) = ground (arith, session_info-status s p m)
  handle_worker_commands-left login s p (auth_cookie cookie) =
      ground (arith, log_in-opens login s p cookie)
  handle_worker_commands-left login s p malformed = ground arith
  handle_worker_commands-left login s p terminated = ground arith

  -- A worker is logged in after a message only if it was before, or the message is a cookie, the first
  -- that the worker sends, and the login succeeds.
  pub handle_worker_commands-completed :
      (login : LoginEnv L) (s : Server I B L) (p : ProcSt) (m : WorkerMsg)
      → is_completed p.status ≡ false
      → is_completed (handle_worker_commands env login s p m).3.status ≡ true
      → (cookie : List ℕ) × (m ≡ auth_cookie cookie)
        × (is_inactive p.status ≡ true)
        × (is_completed (log_in login s p cookie).3.status ≡ true)
  unfolding handle_worker_commands handle_ban_ip
  handle_worker_commands-completed login s p (ban_ip ip score) before after =
      absurd (ground (arith, before, after))
  handle_worker_commands-completed login s p (tun_mtu mtu) before after =
      absurd (ground (arith, before, after, with_mtu-status env p mtu))
  handle_worker_commands-completed login s p (session_info m) before after =
      absurd (ground (arith, before, after, session_info-status s p m))
  handle_worker_commands-completed login s p (auth_cookie cookie) before after =
      let (first, done) : (is_inactive p.status ≡ true)
          × (is_completed (log_in login s p cookie).3.status ≡ true) =
        ground (arith, before, after) in
      (cookie, refl, first, done)
  handle_worker_commands-completed login s p malformed before after =
      absurd (ground (arith, before, after))
  handle_worker_commands-completed login s p terminated before after =
      absurd (ground (arith, before, after))

  -- The messages of a worker in their order, with what the system answers to each, and what goes out.
  pub run : List (LoginEnv L × WorkerMsg) → Server I B L → ProcSt → List MainEffect
  run [] s p = []
  run ((login, m) ∷ ms) s p =
      let (ret, out, s', q) = handle_worker_commands env login s p m in out ++ run ms s' q

  run-left :
      (ms : List (LoginEnv L × WorkerMsg)) (s : Server I B L) (p : ProcSt)
      → opens (run ms s p) ≤ left p
  unfolding run opens
  run-left [] s p = ground arith
  run-left ((login, m) ∷ ms) s p =
      let (ret, out, s', q) = handle_worker_commands env login s p m in
      omega (
        arith,
        handle_worker_commands-left login s p m,
        run-left ms s' q,
        opens-append out (run ms s' q),
      )

  -- Whatever messages a worker sends, the security module is asked for one session at most on its
  -- behalf, and for none after the worker has asked for a login.
  pub run-opens :
      (ms : List (LoginEnv L × WorkerMsg)) (s : Server I B L) (p : ProcSt)
      → (opens (run ms s p) ≤ 1) × (opens (run ms s p) ≤ (if is_inactive p.status then 1 else 0))
  run-opens ms s p = ground (arith, run-left ms s p)
