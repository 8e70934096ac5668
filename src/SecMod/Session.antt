-- ===== src/SecMod/Session.antt =====
-- Sessions of authenticated clients (src/sec-mod-auth.c): opening, statistics and closing. A handler
-- gives its result, what it sends and the table that it leaves. `sent` is the answer of `send_msg`
-- for the reply.
pub mod Open
pub mod Close
pub mod Reconnect
use ocserv_ppa.Base.{
  ℕ, ◌+◌, ◌%◌, ◌^◌, Bool, true, false, ◌&&◌, ◌||◌, not, List, [], ◌∷◌, Option, none, some, ltb, leb,
  ◌==◌, if◌then◌else◌, length,
}
use ocserv_ppa.Base.Int.{ℤ, pos, negsuc, is_neg, err_bad_command}
use ocserv_ppa.Base.Table.{Table}
use ocserv_ppa.SecMod.{
  AuthStatus, copy_field, is_completed, Stats, AcctInfo, AcctMod, Vhost, ClientEntry, Effect,
  session_reply_ok, session_reply_failed, cli_stats, acct_stats, is_expired, strlcpy, sid_size,
  max_ip_str, auth_slack_time,
}
use ocserv_ppa.SecMod.Db.{find_client_entry, expire_client_entry, no_stats}

-- `stats_add_to`: `uint64_t` sums of the bytes.
unfoldable pub stats_add_to : Stats → Stats → Stats
stats_add_to a b = record {
  bytes_out = (a.bytes_out + b.bytes_out) % 2 ^ 64;
  bytes_in = (a.bytes_in + b.bytes_in) % 2 ^ 64;
  uptime = a.uptime + b.uptime;
}

-- A value of the worker replaces the one kept only if it is larger.
abbrev pub grow : ℕ → Option ℕ → ℕ
grow kept none = kept
grow kept (some new) = if ltb kept new then new else kept

-- The counts in a message that may leave them out.
pub record StatsReport : Type 0 where
  pub bytes_in : Option ℕ
  pub bytes_out : Option ℕ
  pub uptime : Option ℕ

unfoldable pub grow_stats : Stats → StatsReport → Stats
grow_stats s r = record {
  bytes_in = grow s.bytes_in r.bytes_in;
  bytes_out = grow s.bytes_out r.bytes_out;
  uptime = grow s.uptime r.uptime;
}

-- `SecmSessionOpenMsg`
pub record SessionOpenMsg : Type 0 where
  pub sid : List ℕ
  pub ipv4 : Option (List ℕ)
  pub ipv6 : Option (List ℕ)

-- The parts of `CliStatsMsg` that are no counts.
pub record StatsMsg : Type 0 where
  pub sid : List ℕ
  pub counts : StatsReport
  pub discon_reason : Option ℕ
  pub remote_ip : Option (List ℕ)
  pub ipv4 : Option (List ℕ)
  pub ipv6 : Option (List ℕ)

-- The result of `send_failed_session_open_reply`.
abbrev pub failed_reply : ℤ → ℤ
failed_reply sent = if is_neg sent then err_bad_command else sent

-- The reason of a disconnection that is reported.
abbrev pub new_reason : ℕ → Option ℕ → ℕ
new_reason old none = old
new_reason old (some r) = if r == 0 then old else r

abbrev pub has_session_stats : Option AcctMod → Bool
has_session_stats none = false
has_session_stats (some acct) = acct.session_stats

module _ {Ctx : Type 0} where
  -- The addresses that the worker leased.
  unfoldable pub set_addresses :
      Option (List ℕ) → Option (List ℕ) → ClientEntry Ctx → ClientEntry Ctx
  set_addresses ipv4 ipv6 e = record e {
    acct_info = record (e.acct_info) {
      ipv4 = copy_field max_ip_str ipv4 e.acct_info.ipv4;
      ipv6 = copy_field max_ip_str ipv6 e.acct_info.ipv6;
    };
  }

  abbrev pub with_remote_ip : Option (List ℕ) → ClientEntry Ctx → ClientEntry Ctx
  with_remote_ip remote_ip e = record e {
    acct_info = record (e.acct_info) {
      remote_ip = copy_field max_ip_str remote_ip e.acct_info.remote_ip;
    };
  }

  abbrev pub with_report : StatsMsg → ℕ → ClientEntry Ctx → ClientEntry Ctx
  with_report req pid e = record e {
    stats = grow_stats e.stats req.counts;
    discon_reason = new_reason e.discon_reason req.discon_reason;
    acct_info = record (e.acct_info) { id = pid };
  }

  -- The entry after a report; the addresses are only kept for an accounting module.
  pub update_entry : StatsMsg → ℕ → ClientEntry Ctx → ClientEntry Ctx
  update_entry req pid e =
      if has_session_stats e.vhost.acct
      then with_remote_ip req.remote_ip (set_addresses req.ipv4 req.ipv6 (with_report req pid e))
      else with_report req pid e

  -- The answer of the accounting module to a session that is not open yet.
  unfoldable pub acct_open : ClientEntry Ctx → ℤ
  acct_open e = if e.session_is_open then pos 0 else elim e.vhost.acct [
    | none ↦ pos 0
    | some acct ↦ elim acct.open_session [
      | none ↦ pos 0
      | some open_session ↦ open_session e.auth_type e.acct_info e.sid
    ]
  ]

  -- The seed of the client's addresses: a hash of its name, or random.
  unfoldable pub ipv4_seed : (List ℕ → ℕ) → Option ℕ → ClientEntry Ctx → Option ℕ
  ipv4_seed hash_any random e =
      if e.vhost.predictable_ips then some (hash_any e.acct_info.username) else random

  -- The additional configuration of the client.
  unfoldable pub sup_config : ClientEntry Ctx → ℤ
  sup_config e = elim e.vhost.get_sup_config [ none ↦ pos 0 | some get ↦ get e.acct_info ]

  -- The session of an authenticated client is opened.
  unfoldable pub open_entry :
      ℕ → ℤ → (List ℕ → ℕ) → Option ℕ → ClientEntry Ctx → ℤ × List Effect × ClientEntry Ctx
  open_entry now sent hash_any random e =
      if is_neg (acct_open e)
      then (failed_reply sent, session_reply_failed ∷ [], record e { status = AuthStatus.failed })
      else elim (ipv4_seed hash_any random e) [
        | none ↦ (negsuc 0, [], record e { session_is_open = true })
        | some seed ↦
            if is_neg (sup_config e)
            then (failed_reply sent, session_reply_failed ∷ [], record e { session_is_open = true })
            else (let reply = session_reply_ok e.acct_info e.tls_auth_ok seed e.sid ∷ [] in
                if is_neg sent
                then (err_bad_command, reply, record e { session_is_open = true })
                else (
                  pos 0,
                  reply,
                  record e {
                    session_is_open = true;
                    exptime = now + e.vhost.cookie_timeout + auth_slack_time;
                    in_use = (e.in_use + 1) % 2 ^ 32;
                  },
                ))
      ]

module _ {Ctx : Type 0} (D : Table (ClientEntry Ctx)) (now : ℕ) (sent : ℤ) where
  -- `send_failed_session_open_reply`
  pub send_failed_session_open_reply : D.Rep → ℤ × List Effect × D.Rep
  send_failed_session_open_reply db = (failed_reply sent, session_reply_failed ∷ [], db)

  unfoldable pub handle_secm_session_open_cmd :
      (List ℕ → ℕ) → Option ℕ → D.Rep → SessionOpenMsg → ℤ × List Effect × D.Rep
  handle_secm_session_open_cmd hash_any random db req =
      if not (length req.sid == sid_size)
      then send_failed_session_open_reply db
      else elim (find_client_entry D db req.sid) [
        | none ↦ send_failed_session_open_reply db
        | some e ↦
            if not (is_completed e.status)
            then send_failed_session_open_reply db
            else if is_expired now e
            then send_failed_session_open_reply
                (D.put e.sid (record e { status = AuthStatus.failed }) db)
            else (let (ret, effects, e') =
                  open_entry now sent hash_any random (set_addresses req.ipv4 req.ipv6 e) in
                (ret, effects, D.put e.sid e' db))
      ]

  -- `status < PS_AUTH_COMPLETED` is every status but the last.
  pub handle_secm_session_close_cmd : D.Rep → List ℕ → StatsReport → ℤ × List Effect × D.Rep
  handle_secm_session_close_cmd db sid report =
      if not (length sid == sid_size)
      then (err_bad_command, [], db)
      else elim (find_client_entry D db sid) [
        | none ↦ (sent, cli_stats 0 0 none ∷ [], db)
        | some e ↦
            if not (is_completed e.status)
            then (sent, cli_stats 0 0 none ∷ [], db)
            else (let stats = grow_stats e.stats report in
                let reply = cli_stats stats.bytes_in stats.bytes_out (some e.discon_reason) in
                if is_neg sent
                then (err_bad_command, reply ∷ [], D.put e.sid (record e { stats = stats }) db)
                else (let e' = record e {
                  stats = no_stats;
                  saved_stats = stats_add_to e.saved_stats stats;
                } in
                    let (effects, db') = expire_client_entry D now e' db in
                    (pos 0, reply ∷ effects, db')))
      ]

  -- The statistics of an authenticated client; they go to the accounting module if it wants them.
  pub handle_sec_auth_stats_cmd : D.Rep → StatsMsg → ℕ → ℤ × List Effect × D.Rep
  handle_sec_auth_stats_cmd db req pid =
      if not (length req.sid == sid_size)
      then (negsuc 0, [], db)
      else elim (find_client_entry D db req.sid) [
        | none ↦ (negsuc 0, [], db)
        | some e ↦ if not (is_completed e.status) then (negsuc 0, [], db) else (
          pos 0,
          (if has_session_stats e.vhost.acct
              then acct_stats (stats_add_to (grow_stats e.stats req.counts) e.saved_stats) ∷ []
              else []),
          D.put e.sid (update_entry req pid e) db,
        )
      ]
