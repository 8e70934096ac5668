-- ===== src/Main/Remove/Gaps.antt =====
-- What a worker leaves behind: a session that the security module granted and the main process then
-- refuses, and a connect script whose success is not followed by a login.
use ocserv_ppa.Base.{
  ℕ, ◌+◌, ◌≡◌, ◌^◌, ◌<◌, true, false, ◌&&◌, ◌||◌, not, List, [], ◌∷◌, ◌++◌, Option, none, some,
  ◌==◌, length, arith, ◌∙◌, ap, Option-cases, inl, inr,
}
use ocserv_ppa.Base.Int.{ℤ, pos, is_neg}
use ocserv_ppa.Base.Index.{Index}
use ocserv_ppa.Base.Table.{Table}
use ocserv_ppa.Ban.{BanEntry}
use ocserv_ppa.IpLease.{IpLease}
use ocserv_ppa.SecMod.{is_completed, sid_size, ClientEntry}
use ocserv_ppa.SecMod.Db.{find_client_entry, cleanup_client_entries}
use ocserv_ppa.SecMod.Session.{SessionOpenMsg, handle_secm_session_open_cmd}
use ocserv_ppa.SecMod.Session.Open.{is_granted, session_open-cleanup}
use ocserv_ppa.Main.{ProcSt, Server, MainEffect, secm_session_open, cookie_reply}
use ocserv_ppa.Main.Config.{GroupCfg, apply_default_config}
use ocserv_ppa.Main.Session.{Answer, CliStats, same_ip, is_set}
use ocserv_ppa.Main.Session.Granted.{session_open-keeps, session_open-roams}
use ocserv_ppa.Main.Login.{LoginEnv, log_in, with_session_id}
use ocserv_ppa.Main.Login.Refused.{log_in-refused, handle_script_exit-failed}
use ocserv_ppa.Main.Remove.{Flags, find_script, drop_script, remove_proc, script_child_watcher_cb}
use ocserv_ppa.Main.Remove.Closing.{is_close, is_down, any, remove_proc-closes, remove_proc-down}

-- A worker whose session was granted, and that is refused since its client may not roam.
abbrev pub IsRoaming : {L : Table IpLease} → LoginEnv L → List ℕ → GroupCfg → Type 0
IsRoaming env cookie gc =
    (env.secm.msg.config ≡ some gc)
    × (is_set (apply_default_config (env.find_vhost env.secm.msg.vhost) gc).deny_roaming ≡ true)
    × (same_ip env.secm.msg.ip env.human ≡ false)
    × (length cookie ≡ sid_size)
    × (is_neg env.secm.sent ≡ false)

module _ {I : Index} {B : Table BanEntry} {L : Table IpLease} (env : LoginEnv L) where
  log_in-roaming :
      (s : Server I B L) (p : ProcSt) (cookie session : List ℕ) (gc : GroupCfg)
      → env.session_id ≡ some session
      → IsRoaming env cookie gc
      → let (ret, out, s', q) = log_in env s p cookie in
        (q.active_sid ≡ p.active_sid) × (out ≡ secm_session_open cookie ∷ (cookie_reply false ∷ []))
  log_in-roaming s p cookie session gc e (config, deny, moved, sized, sent) =
      let p0 = with_session_id session p in
      let whole : (length cookie == sid_size) && not (is_neg env.secm.sent) ≡ true =
        ground (arith, sized, sent) in
      let (refused, out) =
        session_open-roams env.find_vhost env.human env.secm s p0 cookie gc config deny moved
          whole in
      let (active, same, scripts, procs) =
        session_open-keeps env.find_vhost env.human env.secm s p0 cookie in
      let (active', out') = log_in-refused env s p cookie session e refused sized in
      (active' ∙ active, out' ∙ ap (λ es. es ++ (cookie_reply false ∷ [])) out)

module _ {I : Index} {B : Table BanEntry} {L : Table IpLease} {Ctx : Type 0}
    (D : Table (ClientEntry Ctx)) where
  -- The security module grants a session, and counts a user of its entry, for a client that comes from
  -- another address; the main process refuses it if the client may not roam. Then, when the worker
  -- ends, no message tells the security module, and the entry stays in use: no cleanup drops it,
  -- however late. (The counter of users does not wrap.)
  pub roaming-leak :
      (env : LoginEnv L) (s : Server I B L) (p : ProcSt) (session : List ℕ) (gc : GroupCfg)
      (now : ℕ) (flags : Flags) (answer : Answer CliStats) (exited : Option ℕ)
      (effects : List MainEffect) (left : Server I B L) (opened later : ℕ) (sent : ℤ)
      (hash_any : List ℕ → ℕ) (random : Option ℕ) (db : D.Rep) (req : SessionOpenMsg)
      (entry : ClientEntry Ctx) (sid : List ℕ)
      → env.session_id ≡ some session
      → IsRoaming env req.sid gc
      → p.active_sid ≡ false
      → remove_proc now flags answer exited (log_in env s p req.sid).2 (log_in env s p req.sid).3
        ≡ some (effects, left)
      → find_client_entry D db req.sid ≡ some entry
      → entry.sid ≡ req.sid
      → entry.in_use + 1 < 2 ^ 32
      → is_neg sent ≡ false
      → is_granted (handle_secm_session_open_cmd D opened sent hash_any random db req).1 ≡ true
      → let (ret, replies, db') =
          handle_secm_session_open_cmd D opened sent hash_any random db req in
        (any (is_close sid) ((log_in env s p req.sid).1 ++ effects) ≡ false)
        × (e' : ClientEntry Ctx) × (find_client_entry D (cleanup_client_entries D later db') req.sid
            ≡ some e')
        × (e'.in_use ≡ entry.in_use + 1)
  roaming-leak env s p session gc now flags answer exited effects left opened later sent hash_any
        random db req entry sid has_session roaming inactive removed found own small ok granted =
      let (active, out) = log_in-roaming env s p req.sid session gc has_session roaming in
      let (ret, sent_out, s', q) = log_in env s p req.sid in
      let silent = remove_proc-closes now flags answer exited s' q effects left sid removed in
      let none_closed : any (is_close sid) effects ≡ false =
        ground (arith, silent, active, inactive) in
      let (config, deny, moved, sized, went) = roaming in
      let (e', left', used) =
        session_open-cleanup D opened sent hash_any random later db req entry sized found own small
          ok granted in
      (rw out none_closed, e', left', used)

module _ {I : Index} {B : Table BanEntry} {L : Table IpLease} where
  script_child-failed :
      (env : LoginEnv L) (now : ℕ) (answer : Answer CliStats) (s : Server I B L) (p : ProcSt)
      (effects : List MainEffect) (left : Server I B L) (kept : Option ProcSt)
      → is_neg (env.reply_sent true) || is_neg env.iroutes ≡ true
      → script_child_watcher_cb env now answer (pos 0) s p ≡ some (effects, left, kept)
      → let s1 = record s { scripts = drop_script p.id s.scripts } in
        (down : List MainEffect) × (remove_proc now
            (record { kill = true; quit = false })
            answer
            none
            s1
            p
          ≡ some (down, left))
        × (effects ≡ (cookie_reply p.tun ∷ []) ++ down)
  unfolding script_child_watcher_cb
  script_child-failed env now answer s p effects left kept failed e =
      let s1 = record s { scripts = drop_script p.id s.scripts } in
      let flags : Flags = record { kill = true; quit = false } in
      let (refused, out, same) = handle_script_exit-failed env p failed in
      elim (Option-cases (remove_proc now flags answer none s1 p)) [
        | inl n ↦ absurd (ground (arith, e, refused, out, same, n))
        | inr ((down, left'), r) ↦
            (let (same_left, all) : (left ≡ left') × (effects ≡ (cookie_reply p.tun ∷ []) ++ down) =
                ground (arith, e, refused, out, same, r) in
              (down, rw same_left r, all))
      ]

  -- Where the one connect script of a worker that is not logged in has ended well, but the routes of the client or the reply to its worker fail,
  -- the worker is removed and the disconnect script does not run.
  pub script_exit-no_down :
      (env : LoginEnv L) (now : ℕ) (answer : Answer CliStats) (s : Server I B L) (p : ProcSt)
      (effects : List MainEffect) (left : Server I B L) (kept : Option ProcSt)
      → is_completed p.status ≡ false
      → find_script p.id (drop_script p.id s.scripts) ≡ none
      → is_neg (env.reply_sent true) || is_neg env.iroutes ≡ true
      → script_child_watcher_cb env now answer (pos 0) s p ≡ some (effects, left, kept)
      → any is_down effects ≡ false
  script_exit-no_down env now answer s p effects left kept waiting script failed e =
      let s1 = record s { scripts = drop_script p.id s.scripts } in
      let flags : Flags = record { kill = true; quit = false } in
      let (down, removed, all) =
        script_child-failed env now answer s p effects left kept failed e in
      rw all (
        ground
          (arith, waiting, script, remove_proc-down now flags answer none s1 p down left removed))
