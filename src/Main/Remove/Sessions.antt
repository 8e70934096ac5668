-- ===== src/Main/Remove/Sessions.antt =====
-- The sessions that the security module counts, over the life of a worker.
use ocserv_ppa.Base.{
  ℕ, ◌-◌, ◌≡◌, Bool, true, false, List, [], ◌∷◌, ◌++◌, Option, none, some, leb, if◌then◌else◌,
  length, arith, refl, ◌∙◌, ap,
}
use ocserv_ppa.Base.Int.{ℤ, is_neg}
use ocserv_ppa.Base.Index.{Index}
use ocserv_ppa.Base.Table.{Table}
use ocserv_ppa.Ban.{BanEntry}
use ocserv_ppa.IpLease.{IpLease}
use ocserv_ppa.SecMod.{AuthStatus, sid_size, ClientEntry}
use ocserv_ppa.SecMod.Db.{find_client_entry, is_invalidated, closed_exptime}
use ocserv_ppa.SecMod.Session.{
  SessionOpenMsg, StatsReport, handle_secm_session_open_cmd, handle_secm_session_close_cmd,
}
use ocserv_ppa.SecMod.Session.Close.{closed_entry, session_close-find}
use ocserv_ppa.Main.{ProcSt, Server, MainEffect, secm_session_open, secm_session_close}
use ocserv_ppa.Main.Session.{Answer, CliStats, session_close}
use ocserv_ppa.Main.Remove.{
  Flags, kill_running, take_down, is_connected, find_script, close_active, remove_proc,
}
use ocserv_ppa.Main.Remove.Closing.{removal-effects}

-- What the main process counted of a session, as the message has it.
abbrev pub counts : ℕ → ℕ → ℕ → StatsReport
counts rx tx uptime = record { bytes_in = some rx; bytes_out = some tx; uptime = some uptime }

abbrev pub open_msg : List ℕ → SessionOpenMsg
open_msg sid = record { sid = sid; ipv4 = none; ipv6 = none }

module _ {Ctx : Type 0} (D : Table (ClientEntry Ctx)) (now : ℕ) (sent : ℤ) (hash_any : List ℕ → ℕ)
    (random : Option ℕ) where
  -- The security module handles the messages of the main process in their order.
  pub handle_all : List MainEffect → D.Rep → D.Rep
  handle_all [] db = db
  handle_all (secm_session_open sid ∷ es) db =
      handle_all es (handle_secm_session_open_cmd D now sent hash_any random db (open_msg sid)).2
  handle_all (secm_session_close sid rx tx uptime ∷ es) db =
      handle_all es (handle_secm_session_close_cmd D now sent db sid (counts rx tx uptime)).2
  handle_all (e ∷ es) db = handle_all es db

  handle_all-killed :
      (flags : Flags) (pid : Option ℕ) (es : List MainEffect) (db : D.Rep)
      → handle_all (kill_running flags pid ++ es) db ≡ handle_all es db
  unfolding handle_all
  handle_all-killed flags none es db = refl
  handle_all-killed flags (some pid) es db = ground arith

  handle_all-down :
      (script : Option ℕ) (connected : Bool) (db : D.Rep)
      → handle_all (take_down script connected) db ≡ db
  unfolding handle_all
  handle_all-down none connected db = ground arith
  handle_all-down (some pid) connected db = ground arith

  module _ {I : Index} {B : Table BanEntry} {L : Table IpLease} where
    close_active-effects :
        (flags : Flags) (answer : Answer CliStats) (s : Server I B L) (p : ProcSt)
        → p.active_sid ≡ true
        → flags.quit ≡ false
        → (close_active now flags answer s p).1
          ≡ secm_session_close p.entry.sid p.bytes_in p.bytes_out (now - p.conn_time) ∷ []
    unfolding close_active session_close
    close_active-effects flags answer s p active stays = ground (arith, active, stays)

    handle_all-removal :
        (flags : Flags) (answer : Answer CliStats) (exited : Option ℕ) (s : Server I B L)
        (p : ProcSt) (effects : List MainEffect) (left : Server I B L) (db : D.Rep)
        → remove_proc now flags answer exited s p ≡ some (effects, left)
        → p.active_sid ≡ true
        → flags.quit ≡ false
        → handle_all effects db
          ≡ (handle_secm_session_close_cmd D now sent db p.entry.sid
              (counts p.bytes_in p.bytes_out (now - p.conn_time))).2
    unfolding handle_all
    handle_all-removal flags answer exited s p effects left db removed active stays =
        let script = find_script p.id s.scripts in
        let connected = is_connected script exited p.status in
        let report = counts p.bytes_in p.bytes_out (now - p.conn_time) in
        rw
          (
            removal-effects now flags answer exited s p effects left removed,
            close_active-effects flags answer s p active stays,
          )
          (handle_all-killed flags p.pid _ db
            ∙ handle_all-down script connected
                (handle_secm_session_close_cmd D now sent db p.entry.sid report).2)

    -- When a worker with a session ends, other than at the end of the server, the security module
    -- counts a user less of its entry, with what it reported: the entry of other users stays, and that
    -- of the last one goes at once or gets a new time of expiry.
    pub remove_proc-releases :
        (flags : Flags) (answer : Answer CliStats) (exited : Option ℕ) (s : Server I B L)
        (p : ProcSt) (effects : List MainEffect) (left : Server I B L) (db : D.Rep)
        (e : ClientEntry Ctx)
        → remove_proc now flags answer exited s p ≡ some (effects, left)
        → p.active_sid ≡ true
        → flags.quit ≡ false
        → length p.entry.sid ≡ sid_size
        → find_client_entry D db p.entry.sid ≡ some e
        → e.sid ≡ p.entry.sid
        → e.status ≡ AuthStatus.completed
        → is_neg sent ≡ false
        → let e' = closed_entry e (counts p.bytes_in p.bytes_out (now - p.conn_time)) in
          find_client_entry D (handle_all effects db) p.entry.sid ≡ (
            if leb e.in_use 1
            then (if is_invalidated e'
                then none
                else some (record e' { in_use = 0; exptime = closed_exptime now e' }))
            else some (record e' { in_use = e.in_use - 1 }))
    remove_proc-releases flags answer exited s p effects left db e removed active stays sized found
          own done ok =
        let report = counts p.bytes_in p.bytes_out (now - p.conn_time) in
        let closed =
          session_close-find D now sent db p.entry.sid report e sized found own done ok in
        ap (λ d. find_client_entry D d p.entry.sid)
          (handle_all-removal flags answer exited s p effects left db removed active stays)
        ∙ closed.1
