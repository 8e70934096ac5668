-- ===== src/SecMod/Session/Open.antt =====
-- Which clients get a session.
use ocserv_ppa.Base.{
  is_some, ℕ, ◌+◌, ◌%◌, ◌^◌, ◌<◌, ◌≡◌, ◌≢◌, ◌⊎◌, sym, ap, ◌∙◌, Bool, true, false, ◌&&◌, not, List,
  [], ◌∷◌, Option, none, some, arith, leb, ◌==◌, if◌then◌else◌, length,
}
use ocserv_ppa.Base.Int.{ℤ, is_neg}
use ocserv_ppa.Base.Bytes.{bytes_eq_refl}
use ocserv_ppa.Base.Table.{Table}
use ocserv_ppa.SecMod.{ClientEntry, Effect, session_reply_ok, is_completed, is_expired, sid_size}
use ocserv_ppa.SecMod.Db.{find_client_entry, cleanup_client_entries}
use ocserv_ppa.SecMod.Db.Sids.{cleanup-find}
use ocserv_ppa.SecMod.Session.{
  SessionOpenMsg, set_addresses, acct_open, ipv4_seed, sup_config, open_entry,
  handle_secm_session_open_cmd, send_failed_session_open_reply,
}

-- A session is granted by the reply of the security module.
abbrev pub is_granted : List Effect → Bool
is_granted [] = false
is_granted (session_reply_ok info tls seed sid ∷ es) = true
is_granted (e ∷ es) = is_granted es

module _ {Ctx : Type 0} (now : ℕ) (sent : ℤ) (hash_any : List ℕ → ℕ) (random : Option ℕ) where
  open_entry-granted :
      (e : ClientEntry Ctx)
      → is_granted (open_entry now sent hash_any random e).1 ≡ (
          not (is_neg (acct_open e))
          && is_some (ipv4_seed hash_any random e)
          && not (is_neg (sup_config e)))
  unfolding open_entry
  open_entry-granted e = ground arith

  open_entry-sid : (e : ClientEntry Ctx) → (open_entry now sent hash_any random e).2.sid ≡ e.sid
  unfolding open_entry
  open_entry-sid e = ground arith

  open_entry-status :
      (e : ClientEntry Ctx)
      → is_granted (open_entry now sent hash_any random e).1 ≡ true
      → (open_entry now sent hash_any random e).2.status ≡ e.status
  unfolding open_entry
  open_entry-status e granted = ground arith

  open_entry-in_use :
      (e : ClientEntry Ctx)
      → is_neg sent ≡ false
      → is_granted (open_entry now sent hash_any random e).1 ≡ true
      → (open_entry now sent hash_any random e).2.in_use ≡ (e.in_use + 1) % 2 ^ 32
  unfolding open_entry
  open_entry-in_use e ok granted = ground arith

module _ {Ctx : Type 0} where
  counted :
      (req : SessionOpenMsg) (e : ClientEntry Ctx) (n : ℕ)
      → n ≡ ((set_addresses req.ipv4 req.ipv6 e).in_use + 1) % 2 ^ 32
      → e.in_use + 1 < 2 ^ 32
      → n ≡ e.in_use + 1
  unfolding set_addresses
  counted req e n h small = omega arith

  -- An entry in use is not expired.
  kept :
      (later : ℕ) (e : ClientEntry Ctx) (o : Option (ClientEntry Ctx))
      → o ≡ (if leb e.exptime later && e.in_use == 0 then none else some e)
      → 0 < e.in_use
      → o ≡ some e
  kept later e o h used = ground arith

module _ {Ctx : Type 0} (D : Table (ClientEntry Ctx)) (now : ℕ) (sent : ℤ) (hash_any : List ℕ → ℕ)
    (random : Option ℕ) where
  pub session_open-granted :
      (db : D.Rep) (req : SessionOpenMsg) (e : ClientEntry Ctx)
      → length req.sid ≡ sid_size
      → find_client_entry D db req.sid ≡ some e
      → let e1 = set_addresses req.ipv4 req.ipv6 e in
        is_granted (handle_secm_session_open_cmd D now sent hash_any random db req).1 ≡ (
          is_completed e.status
          && not (is_expired now e)
          && (not (is_neg (acct_open e1))
              && is_some (ipv4_seed hash_any random e1)
              && not (is_neg (sup_config e1))))
  unfolding handle_secm_session_open_cmd send_failed_session_open_reply
  session_open-granted db req e sized found =
      ground
        (arith, open_entry-granted now sent hash_any random (set_addresses req.ipv4 req.ipv6 e))

  -- No session is granted for a SID of another length or of no entry, and the table stays.
  pub session_open-unknown :
      (db : D.Rep) (req : SessionOpenMsg)
      → (length req.sid ≢ sid_size) ⊎ (find_client_entry D db req.sid ≡ none)
      → let (ret, effects, db') = handle_secm_session_open_cmd D now sent hash_any random db req in
        (is_granted effects ≡ false) × (db' ≡ db)
  unfolding handle_secm_session_open_cmd send_failed_session_open_reply
  session_open-unknown db req unknown = ground arith

  session_open-find :
      (db : D.Rep) (req : SessionOpenMsg) (e : ClientEntry Ctx)
      → length req.sid ≡ sid_size
      → find_client_entry D db req.sid ≡ some e
      → e.sid ≡ req.sid
      → is_completed e.status && not (is_expired now e) ≡ true
      → let (ret, effects, db') = handle_secm_session_open_cmd D now sent hash_any random db req in
        let o = open_entry now sent hash_any random (set_addresses req.ipv4 req.ipv6 e) in
        (ret ≡ o.0) × (effects ≡ o.1) × (find_client_entry D db' req.sid ≡ some o.2)
  unfolding handle_secm_session_open_cmd set_addresses
  session_open-find db req e sized found own live = ground (
    arith,
    D.get-put (set_addresses req.ipv4 req.ipv6 e).sid req.sid
        (open_entry now sent hash_any random (set_addresses req.ipv4 req.ipv6 e)).2 db,
    bytes_eq_refl req.sid,
  )

  -- A granted session, whose reply is sent, leaves the entry of an authenticated client with a user more.
  pub session_open-counted :
      (db : D.Rep) (req : SessionOpenMsg) (e : ClientEntry Ctx)
      → length req.sid ≡ sid_size
      → find_client_entry D db req.sid ≡ some e
      → e.sid ≡ req.sid
      → e.in_use + 1 < 2 ^ 32
      → is_neg sent ≡ false
      → is_granted (handle_secm_session_open_cmd D now sent hash_any random db req).1 ≡ true
      → let (ret, effects, db') = handle_secm_session_open_cmd D now sent hash_any random db req in
        (e' : ClientEntry Ctx) × (find_client_entry D db' req.sid ≡ some e')
        × (e'.sid ≡ req.sid)
        × (is_completed e'.status ≡ true)
        × (e'.in_use ≡ e.in_use + 1)
  unfolding set_addresses
  session_open-counted db req e sized found own small ok granted =
      let e1 = set_addresses req.ipv4 req.ipv6 e in
      let e2 = (open_entry now sent hash_any random e1).2 in
      let whole = session_open-granted db req e sized found in
      let live : is_completed e.status && not (is_expired now e) ≡ true =
        ground (arith, whole, granted) in
      let (ret, effects, left) = session_open-find db req e sized found own live in
      let out : is_granted (open_entry now sent hash_any random e1).1 ≡ true =
        sym (ap is_granted effects) ∙ granted in
      let used = open_entry-in_use now sent hash_any random e1 ok out in
      let count : e2.in_use ≡ e.in_use + 1 = counted req e e2.in_use used small in
      let status = open_entry-status now sent hash_any random e1 out in
      (
        e2,
        left,
        open_entry-sid now sent hash_any random e1 ∙ own,
        rw status (ground (arith, live)),
        count,
      )

  -- After a session is granted, and the reply sent, the entry counts one user more and is safe from
  -- the cleanup, however late that runs. (The counter of users does not wrap.)
  pub session_open-cleanup :
      (later : ℕ) (db : D.Rep) (req : SessionOpenMsg) (e : ClientEntry Ctx)
      → length req.sid ≡ sid_size
      → find_client_entry D db req.sid ≡ some e
      → e.sid ≡ req.sid
      → e.in_use + 1 < 2 ^ 32
      → is_neg sent ≡ false
      → is_granted (handle_secm_session_open_cmd D now sent hash_any random db req).1 ≡ true
      → let (ret, effects, db') = handle_secm_session_open_cmd D now sent hash_any random db req in
        (e' : ClientEntry Ctx) × (find_client_entry D (cleanup_client_entries D later db') req.sid
          ≡ some e')
        × (e'.in_use ≡ e.in_use + 1)
  session_open-cleanup later db req e sized found own small ok granted =
      let e1 = set_addresses req.ipv4 req.ipv6 e in
      let e2 = (open_entry now sent hash_any random e1).2 in
      let whole = session_open-granted db req e sized found in
      let live : is_completed e.status && not (is_expired now e) ≡ true = ground (arith, whole) in
      let (ret, effects, left) = session_open-find db req e sized found own live in
      let used =
        open_entry-in_use now sent hash_any random e1 ok (sym (ap is_granted effects) ∙ granted) in
      let count : e2.in_use ≡ e.in_use + 1 = counted req e e2.in_use used small in
      let db' = (handle_secm_session_open_cmd D now sent hash_any random db req).2 in
      (
        e2,
        kept later e2 (find_client_entry D (cleanup_client_entries D later db') req.sid)
            (cleanup-find D later db' req.sid e2 left) (omega (arith, count)),
        count,
      )
