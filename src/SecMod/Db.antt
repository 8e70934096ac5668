-- ===== src/SecMod/Db.antt =====
-- src/sec-mod-db.c: the table of client entries, by session identifier (SID). Functions that free an
-- entry give the effects of `sec_auth_user_deinit` (src/sec-mod-auth.c).
pub mod Sids
use ocserv_ppa.Base.{
  ◌>>=◌, ℕ, zero, suc, ◌+◌, ◌-◌, Bool, true, false, ◌&&◌, ◌||◌, not, List, [], ◌∷◌, Option, none,
  some, ltb, leb, ◌==◌, if◌then◌else◌,
}
use ocserv_ppa.Base.Table.{Table}
use ocserv_ppa.SecMod.{
  AuthStatus, inactive, Stats, AcctInfo, AcctMod, Vhost, ClientEntry, Effect, acct_close, strlcpy,
  max_ip_str, auth_slack_time, is_expired,
}

abbrev pub no_stats : Stats
no_stats = record { bytes_in = 0; bytes_out = 0; uptime = 0 }

abbrev pub reason_user_disconnect : ℕ
reason_user_disconnect = 2

abbrev pub reason_server_disconnect : ℕ
reason_server_disconnect = 3

abbrev pub reason_session_timeout : ℕ
reason_session_timeout = 7

-- `close_session` of the accounting module, where the module has it.
abbrev pub has_close : Option AcctMod → Bool
has_close none = false
has_close (some m) = m.close_session

module _ {Ctx : Type 0} where
  -- The entry as `talloc_zero` and the assignments of `new_client_entry` make it.
  unfoldable pub blank_entry : Vhost Ctx → List ℕ → ℕ → List ℕ → List ℕ → ℕ → ClientEntry Ctx
  blank_entry vhost ip pid sid safe_id now = record {
    sid = sid;
    auth_ctx = none;
    session_is_open = false;
    in_use = 0;
    tls_auth_ok = false;
    msg_str = none;
    passwd_counter = 0;
    saved_stats = no_stats;
    stats = no_stats;
    status = inactive;
    created = now;
    exptime = now + vhost.cookie_timeout + auth_slack_time;
    auth_type = 0;
    discon_reason = 0;
    acct_info = record {
      username = [];
      groupname = [];
      safe_id = safe_id;
      remote_ip = strlcpy max_ip_str ip;
      user_agent = [];
      our_ip = [];
      ipv4 = [];
      ipv6 = [];
      id = pid;
    };
    req_group_name = [];
    cert_group_names = [];
    cert_user_name = [];
    auth_mod = none;
    vhost = vhost;
  }

  -- The session of an entry that goes is closed with the accounting module.
  pub sec_auth_user_deinit : ClientEntry Ctx → List Effect
  sec_auth_user_deinit e =
      if has_close e.vhost.acct && e.session_is_open
      then acct_close e.saved_stats e.discon_reason ∷ []
      else []

  -- Whether an entry that nobody uses any more is dropped at once.
  unfoldable pub is_invalidated : ClientEntry Ctx → Bool
  is_invalidated e =
      not e.vhost.persistent_cookies
      && (e.discon_reason == reason_server_disconnect
          || e.discon_reason == reason_session_timeout
          || (e.session_is_open && e.discon_reason == reason_user_disconnect))

  -- The time of expiry of an entry that stays.
  unfoldable pub closed_exptime : ℕ → ClientEntry Ctx → ℕ
  closed_exptime now e =
      if e.discon_reason == reason_user_disconnect
      then (if not e.vhost.persistent_cookies || leb e.exptime (now + auth_slack_time)
          then now + auth_slack_time
          else e.exptime)
      else now + e.vhost.cookie_timeout + auth_slack_time

module _ {Ctx : Type 0} (D : Table (ClientEntry Ctx)) where
  abbrev pub find_client_entry : D.Rep → List ℕ → Option (ClientEntry Ctx)
  find_client_entry db sid = D.get sid db

  -- The SIDs come from `gnutls_rnd`, the i-th call first; `none` is its failure. `left` is one more
  -- than `retries`, which starts at 3: five SIDs are tried at most.
  unfoldable pub unique_sid : (ℕ → Option (List ℕ)) → D.Rep → ℕ → ℕ → Option (List ℕ)
  unique_sid rnd db i zero = elim (rnd i) [
    | none ↦ none
    | some sid ↦ elim (find_client_entry db sid) [ none ↦ some sid | some te ↦ none ]
  ]
  unique_sid rnd db i (suc left) = elim (rnd i) [
    | none ↦ none
    | some sid ↦ elim (find_client_entry db sid) [
      | none ↦ some sid
      | some te ↦ unique_sid rnd db (i + 1) left
    ]
  ]

  -- `none` where no entry is made: the random numbers fail, no SID is free, or memory runs out.
  unfoldable pub new_client_entry :
      (ℕ → Option (List ℕ))
      → (List ℕ → List ℕ)
      → ℕ
      → Vhost Ctx
      → List ℕ
      → ℕ
      → D.Rep
      → Option (ClientEntry Ctx × D.Rep)
  new_client_entry rnd calc_safe_id now vhost ip pid db = do
    sid ← unique_sid rnd db 0 4
    let e = blank_entry vhost ip pid sid (calc_safe_id sid) now
    db' ← D.add sid e db
    some (e, db')

  pub del_client_entry : ClientEntry Ctx → D.Rep → List Effect × D.Rep
  del_client_entry e db = (sec_auth_user_deinit e, D.del e.sid db)

  -- Entries in use stay, whatever their time of expiry. What `sec_auth_user_deinit` sends for each
  -- entry that goes is left out here.
  pub cleanup_client_entries : ℕ → D.Rep → D.Rep
  cleanup_client_entries now db = D.sweep (is_expired now) db

  -- One user less. `e` is the entry as the caller left it.
  pub expire_client_entry : ℕ → ClientEntry Ctx → D.Rep → List Effect × D.Rep
  expire_client_entry now e db =
      let in_use = e.in_use - 1 in
      if in_use == 0
      then (if is_invalidated e
          then del_client_entry (record e { in_use = in_use }) db
          else ([], D.put e.sid (record e { in_use = in_use; exptime = closed_exptime now e }) db))
      else ([], D.put e.sid (record e { in_use = in_use }) db)
