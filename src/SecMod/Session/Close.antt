-- ===== src/SecMod/Session/Close.antt =====
-- Statistics of a session, and its end.
use ocserv_ppa.Base.{
  ℕ, ◌-◌, ◌≤◌, ◌≡◌, false, List, Option, none, some, arith, leb, if◌then◌else◌, length,
}
use ocserv_ppa.Base.Int.{ℤ, pos, is_neg}
use ocserv_ppa.Base.Bytes.{bytes_eq_refl}
use ocserv_ppa.Base.Table.{Table}
use ocserv_ppa.SecMod.{AuthStatus, Stats, ClientEntry, sid_size}
use ocserv_ppa.SecMod.Db.{find_client_entry, no_stats, is_invalidated, closed_exptime}
use ocserv_ppa.SecMod.Db.Sids.{expire-find}
use ocserv_ppa.SecMod.Session.{
  StatsReport, StatsMsg, grow, grow_stats, stats_add_to, set_addresses, update_entry,
  handle_secm_session_close_cmd, handle_sec_auth_stats_cmd,
}

-- At least what was reported, where something was.
abbrev pub Reached : Option ℕ → ℕ → Type 0
Reached none n = Unit {0}
Reached (some r) n = r ≤ n

-- `b` counts no less than `a` and than the report.
pub record Grown (a : Stats) (r : StatsReport) (b : Stats) : Type 0 where
  pub bytes_in_grows : a.bytes_in ≤ b.bytes_in
  pub bytes_out_grows : a.bytes_out ≤ b.bytes_out
  pub uptime_grows : a.uptime ≤ b.uptime
  pub bytes_in_reached : Reached r.bytes_in b.bytes_in
  pub bytes_out_reached : Reached r.bytes_out b.bytes_out
  pub uptime_reached : Reached r.uptime b.uptime

grow-le : (kept : ℕ) (new : Option ℕ) → (kept ≤ grow kept new) × Reached new (grow kept new)
grow-le kept none = omega arith
grow-le kept (some n) = ground arith

pub grow_stats-Grown : (a : Stats) (r : StatsReport) → Grown a r (grow_stats a r)
unfolding grow_stats
grow_stats-Grown a r = record {
  bytes_in_grows = (grow-le a.bytes_in r.bytes_in).0;
  bytes_out_grows = (grow-le a.bytes_out r.bytes_out).0;
  uptime_grows = (grow-le a.uptime r.uptime).0;
  bytes_in_reached = (grow-le a.bytes_in r.bytes_in).1;
  bytes_out_reached = (grow-le a.bytes_out r.bytes_out).1;
  uptime_reached = (grow-le a.uptime r.uptime).1;
}

-- The entry whose session ended: the counts of the session are added to the saved ones.
abbrev pub closed_entry : {Ctx : Type 0} → ClientEntry Ctx → StatsReport → ClientEntry Ctx
closed_entry e report = record e {
  stats = no_stats;
  saved_stats = stats_add_to e.saved_stats (grow_stats e.stats report);
}

module _ {Ctx : Type 0} where
  update_entry-keeps :
      (req : StatsMsg) (pid : ℕ) (e : ClientEntry Ctx)
      → let e' = update_entry req pid e in
        (e'.stats ≡ grow_stats e.stats req.counts)
        × (e'.saved_stats ≡ e.saved_stats)
        × (e'.status ≡ e.status)
        × (e'.in_use ≡ e.in_use)
  unfolding update_entry set_addresses
  update_entry-keeps req pid e = ground arith

module _ {Ctx : Type 0} (D : Table (ClientEntry Ctx)) (now : ℕ) (sent : ℤ) where
  -- Closing the session of an authenticated client, where the reply is sent, adds the largest
  -- counts that were seen to the saved ones and takes one user off: other users keep the entry;
  -- without any it goes at once or gets a new time of expiry.
  pub session_close-find :
      (db : D.Rep) (sid : List ℕ) (report : StatsReport) (e : ClientEntry Ctx)
      → length sid ≡ sid_size
      → find_client_entry D db sid ≡ some e
      → e.sid ≡ sid
      → e.status ≡ AuthStatus.completed
      → is_neg sent ≡ false
      → let (ret, effects, db') = handle_secm_session_close_cmd D now sent db sid report in
        let e' = closed_entry e report in
        (ret ≡ pos 0)
        × (find_client_entry D db' sid ≡ (
            if leb e.in_use 1
            then (if is_invalidated e'
                then none
                else some (record e' { in_use = 0; exptime = closed_exptime now e' }))
            else some (record e' { in_use = e.in_use - 1 })))
  unfolding handle_secm_session_close_cmd
  session_close-find db sid report e sized found own done ok =
      ground (arith, expire-find D now db (closed_entry e report) e)

  -- A report for the entry of an authenticated client only lets its counts grow, to those reported
  -- at least, and leaves what was saved of earlier sessions, the status and the users.
  pub session_stats-Grown :
      (db : D.Rep) (req : StatsMsg) (pid : ℕ) (e : ClientEntry Ctx)
      → length req.sid ≡ sid_size
      → find_client_entry D db req.sid ≡ some e
      → e.sid ≡ req.sid
      → e.status ≡ AuthStatus.completed
      → let (ret, effects, db') = handle_sec_auth_stats_cmd D now sent db req pid in
        (e' : ClientEntry Ctx) × (find_client_entry D db' req.sid ≡ some e')
        × Grown e.stats req.counts e'.stats
        × (e'.saved_stats ≡ e.saved_stats)
        × (e'.status ≡ e.status)
        × (e'.in_use ≡ e.in_use)
  unfolding handle_sec_auth_stats_cmd
  session_stats-Grown db req pid e sized found own done =
      let kept = update_entry-keeps req pid e in
      (
        update_entry req pid e,
        ground (arith, D.get-put e.sid req.sid (update_entry req pid e) db, bytes_eq_refl req.sid),
        rw kept.0 (grow_stats-Grown e.stats req.counts),
        kept.1,
        kept.2,
        kept.3,
      )
