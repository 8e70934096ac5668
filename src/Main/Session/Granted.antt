-- ===== src/Main/Session/Granted.antt =====
-- What the main process takes from the answer of the security module to a cookie.
use ocserv_ppa.Base.{
  ℕ, ◌≡◌, true, false, ◌&&◌, not, List, [], ◌∷◌, Option, some, ◌==◌, length, arith, Option-cases,
  inl, inr,
}
use ocserv_ppa.Base.Int.{is_neg}
use ocserv_ppa.Base.Index.{Index}
use ocserv_ppa.Base.Table.{Table}
use ocserv_ppa.Ban.{BanEntry}
use ocserv_ppa.IpLease.{IpLease}
use ocserv_ppa.SecMod.{sid_size, strlcpy, max_username_size}
use ocserv_ppa.Main.{secm_session_open, ProcSt, Server}
use ocserv_ppa.Main.Config.{GroupCfg, VhostCfg, apply_default_config}
use ocserv_ppa.Main.Session.{
  SessionReply, Answer, session_open, take_session, configure, same_ip, is_set,
}

-- The worker is still that of the same user and configuration.
abbrev pub SameUser : ProcSt → ProcSt → Type 0
SameUser p q = (q.id ≡ p.id) × (q.username ≡ p.username) × (q.config ≡ p.config)

-- The security module's answer grants a session to a user of this name, with this configuration, and
-- to this address unless the client may roam.
abbrev pub GrantedTo : (List ℕ → VhostCfg) → Option (List ℕ) → Answer SessionReply → ProcSt → Type 0
GrantedTo find_vhost human answer q =
    (is_neg answer.sent ≡ false)
    × (is_neg answer.received ≡ false)
    × (answer.msg.ok ≡ true)
    × (username : List ℕ) × (answer.msg.username ≡ some username)
    × (q.username ≡ strlcpy max_username_size username)
    × (gc : GroupCfg) × (answer.msg.config ≡ some gc)
    × (q.config ≡ some (apply_default_config (find_vhost answer.msg.vhost) gc))
    × (is_set (apply_default_config (find_vhost answer.msg.vhost) gc).deny_roaming
          && not (same_ip answer.msg.ip human)
        ≡ false)

-- It is granted to whoever has this name and configuration.
pub GrantedTo-same :
    (find_vhost : List ℕ → VhostCfg) (human : Option (List ℕ)) (answer : Answer SessionReply)
    (p q : ProcSt)
    → SameUser p q
    → GrantedTo find_vhost human answer p
    → GrantedTo find_vhost human answer q
GrantedTo-same find_vhost human answer p q (id, name, config) granted = rw (name, config) granted

module _ {I : Index} {B : Table BanEntry} {L : Table IpLease} where
  pub session_open-GrantedTo :
      (find_vhost : List ℕ → VhostCfg) (human : Option (List ℕ)) (answer : Answer SessionReply)
      (s : Server I B L) (p : ProcSt) (cookie : List ℕ)
      → is_neg (session_open find_vhost human answer s p cookie).0 ≡ false
      → let q = (session_open find_vhost human answer s p cookie).3 in
        (length cookie ≡ sid_size) × GrantedTo find_vhost human answer q
  unfolding session_open take_session configure
  session_open-GrantedTo find_vhost human answer s p cookie h =
      let m = answer.msg in
      elim (Option-cases m.username) [
        | inl e ↦ absurd (ground (arith, h, e))
        | inr (username, eu) ↦ elim (Option-cases m.config) [
          | inl e ↦ absurd (ground (arith, h, eu, e))
          | inr (gc, eg) ↦
              (let q = (session_open find_vhost human answer s p cookie).3 in
                let whole : (length cookie ≡ sid_size)
                    × (is_neg answer.sent ≡ false)
                    × (is_neg answer.received ≡ false)
                    × (m.ok ≡ true)
                    × (q.username ≡ strlcpy max_username_size username)
                    × (q.config ≡ some (apply_default_config (find_vhost m.vhost) gc))
                    × (is_set (apply_default_config (find_vhost m.vhost) gc).deny_roaming
                          && not (same_ip m.ip human)
                        ≡ false) =
                  ground (arith, h, eu, eg) in
                let (sized, sent, received, ok, name, config, roams) = whole in
                (sized, (sent, received, ok, username, eu, name, gc, eg, config, roams)))
        ]
      ]

  -- What of the worker `session_open` leaves, and that it sends no more than the cookie.
  pub session_open-keeps :
      (find_vhost : List ℕ → VhostCfg) (human : Option (List ℕ)) (answer : Answer SessionReply)
      (s : Server I B L) (p : ProcSt) (cookie : List ℕ)
      → let (ret, out, s', q) = session_open find_vhost human answer s p cookie in
        (q.active_sid ≡ p.active_sid)
        × (q.id ≡ p.id)
        × (s'.scripts ≡ s.scripts)
        × (s'.procs ≡ s.procs)
  unfolding session_open take_session configure
  session_open-keeps find_vhost human answer s p cookie = ground arith

  pub session_open-roams :
      (find_vhost : List ℕ → VhostCfg) (human : Option (List ℕ)) (answer : Answer SessionReply)
      (s : Server I B L) (p : ProcSt) (cookie : List ℕ) (gc : GroupCfg)
      → answer.msg.config ≡ some gc
      → is_set (apply_default_config (find_vhost answer.msg.vhost) gc).deny_roaming ≡ true
      → same_ip answer.msg.ip human ≡ false
      → (length cookie == sid_size) && not (is_neg answer.sent) ≡ true
      → let (ret, out, s', q) = session_open find_vhost human answer s p cookie in
        (is_neg ret ≡ true) × (out ≡ secm_session_open cookie ∷ [])
  unfolding session_open take_session configure
  session_open-roams find_vhost human answer s p cookie gc e deny moved sized =
      ground (arith, e, deny, moved, sized)
