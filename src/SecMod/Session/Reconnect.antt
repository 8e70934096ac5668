-- ===== src/SecMod/Session/Reconnect.antt =====
-- How long a client whose session ended may come back with its cookie.
use ocserv_ppa.Base.{
  is_some, ℕ, ◌<◌, ◌≤◌, ◌≡◌, ◌⊎◌, inr, true, false, ◌&&◌, ◌||◌, not, List, Option, none, some,
  arith, leb, if◌then◌else◌, length,
}
use ocserv_ppa.Base.Int.{ℤ, is_neg}
use ocserv_ppa.Base.Table.{Table}
use ocserv_ppa.SecMod.{AuthStatus, ClientEntry, is_completed, is_expired, sid_size}
use ocserv_ppa.SecMod.Db.{find_client_entry, cleanup_client_entries, is_invalidated, closed_exptime}
use ocserv_ppa.SecMod.Db.Sids.{cleanup-find, cleanup-none}
use ocserv_ppa.SecMod.Session.{
  SessionOpenMsg, StatsReport, set_addresses, acct_open, ipv4_seed, sup_config,
  handle_secm_session_open_cmd, handle_secm_session_close_cmd,
}
use ocserv_ppa.SecMod.Session.Open.{is_granted, session_open-granted, session_open-unknown}
use ocserv_ppa.SecMod.Session.Close.{closed_entry, session_close-find}

-- The entry that stays after the last session ended.
abbrev pub waiting_entry : {Ctx : Type 0} → ℕ → ClientEntry Ctx → StatsReport → ClientEntry Ctx
waiting_entry now e report = record (closed_entry e report) {
  in_use = 0;
  exptime = closed_exptime now (closed_entry e report);
}

module _ {Ctx : Type 0} where
  waiting_entry-live :
      (now later : ℕ) (e : ClientEntry Ctx) (report : StatsReport)
      → e.status ≡ AuthStatus.completed
      → later < closed_exptime now (closed_entry e report)
      → (is_completed (waiting_entry now e report).status ≡ true)
        × (is_expired later (waiting_entry now e report) ≡ false)
  waiting_entry-live now later e report done early = ground arith

module _ {Ctx : Type 0} (D : Table (ClientEntry Ctx)) (now : ℕ) (sent : ℤ) where
  -- The entry after the last session ended and the cleanup ran.
  close-cleanup :
      (later : ℕ) (db : D.Rep) (sid : List ℕ) (report : StatsReport) (e : ClientEntry Ctx)
      → length sid ≡ sid_size
      → find_client_entry D db sid ≡ some e
      → e.sid ≡ sid
      → e.status ≡ AuthStatus.completed
      → is_neg sent ≡ false
      → e.in_use ≤ 1
      → let db' = (handle_secm_session_close_cmd D now sent db sid report).2 in
        find_client_entry D (cleanup_client_entries D later db') sid ≡ (
          if is_invalidated (closed_entry e report)
            || leb (closed_exptime now (closed_entry e report)) later
          then none
          else some (waiting_entry now e report))
  close-cleanup later db sid report e sized found own done ok last =
      let db' = (handle_secm_session_close_cmd D now sent db sid report).2 in
      ground (
        arith,
        session_close-find D now sent db sid report e sized found own done ok,
        cleanup-none D later db' sid,
        cleanup-find D later db' sid (waiting_entry now e report),
      )

  -- A client whose last session was closed (and the reply sent), and whose entry did not go at
  -- once, may come back until the time of expiry that the entry got then, though the cleanup ran:
  -- its session is granted unless the accounting module objects, there is no seed for its
  -- addresses, or its additional configuration cannot be read.
  pub reconnect-granted :
      (later : ℕ) (hash_any : List ℕ → ℕ) (random : Option ℕ) (db : D.Rep) (report : StatsReport)
      (req : SessionOpenMsg) (e : ClientEntry Ctx)
      → length req.sid ≡ sid_size
      → find_client_entry D db req.sid ≡ some e
      → e.sid ≡ req.sid
      → e.status ≡ AuthStatus.completed
      → is_neg sent ≡ false
      → e.in_use ≤ 1
      → is_invalidated (closed_entry e report) ≡ false
      → later < closed_exptime now (closed_entry e report)
      → let db' = (handle_secm_session_close_cmd D now sent db req.sid report).2 in
        let e1 = set_addresses req.ipv4 req.ipv6 (waiting_entry now e report) in
        is_granted
          (handle_secm_session_open_cmd D later sent hash_any random
            (cleanup_client_entries D later db')
            req).1
        ≡ (not (is_neg (acct_open e1))
            && is_some (ipv4_seed hash_any random e1)
            && not (is_neg (sup_config e1)))
  reconnect-granted later hash_any random db report req e sized found own done ok last valid early =
      let db' = (handle_secm_session_close_cmd D now sent db req.sid report).2 in
      let w = waiting_entry now e report in
      let (completed, live) = waiting_entry-live now later e report done early in
      let left : find_client_entry D (cleanup_client_entries D later db') req.sid ≡ some w =
        ground (arith, close-cleanup later db req.sid report e sized found own done ok last) in
      ground (
        arith,
        session_open-granted D later sent hash_any random (cleanup_client_entries D later db') req w
            sized left,
        completed,
        live,
      )

  -- After the last session of a client was closed (and the reply sent) and the cleanup ran, no
  -- session is granted any more where the entry went at once or its time of expiry has come.
  pub reconnect-refused :
      (later : ℕ) (hash_any : List ℕ → ℕ) (random : Option ℕ) (db : D.Rep) (report : StatsReport)
      (req : SessionOpenMsg) (e : ClientEntry Ctx)
      → length req.sid ≡ sid_size
      → find_client_entry D db req.sid ≡ some e
      → e.sid ≡ req.sid
      → e.status ≡ AuthStatus.completed
      → is_neg sent ≡ false
      → e.in_use ≤ 1
      → (is_invalidated (closed_entry e report) ≡ true)
        ⊎ (closed_exptime now (closed_entry e report) ≤ later)
      → let db' = (handle_secm_session_close_cmd D now sent db req.sid report).2 in
        is_granted
          (handle_secm_session_open_cmd D later sent hash_any random
            (cleanup_client_entries D later db')
            req).1
        ≡ false
  reconnect-refused later hash_any random db report req e sized found own done ok last gone =
      let db' = (handle_secm_session_close_cmd D now sent db req.sid report).2 in
      let left : find_client_entry D (cleanup_client_entries D later db') req.sid ≡ none =
        ground (arith, close-cleanup later db req.sid report e sized found own done ok last) in
      (session_open-unknown D later sent hash_any random (cleanup_client_entries D later db') req
        (inr left)).0
