-- ===== src/SecMod/Db/Sids.antt =====
-- SIDs are unique, and which entries the cleanup and the end of a session take out.
use ocserv_ppa.Base.{
  ℕ, zero, suc, ◌+◌, ◌-◌, ◌<◌, ◌≤◌, ◌≡◌, inl, inr, ◌&&◌, List, Option, none, some, arith,
  if◌then◌else◌, Option-cases, leb, ◌==◌,
}
use native.Mathlib.Decide.{ℕ_discrete}
use ocserv_ppa.Base.Bytes.{bytes_eq, bytes_eq_refl}
use ocserv_ppa.Base.Table.{Table}
use ocserv_ppa.SecMod.{ClientEntry, Vhost, inactive, is_expired}
use ocserv_ppa.SecMod.Db.{
  find_client_entry, unique_sid, new_client_entry, blank_entry, del_client_entry,
  cleanup_client_entries, expire_client_entry, is_invalidated, closed_exptime,
}

module _ {Ctx : Type 0} (D : Table (ClientEntry Ctx)) where
  -- A SID that is given out is that of no entry.
  unique_sid-free :
      (rnd : ℕ → Option (List ℕ)) (db : D.Rep) (i left : ℕ) (sid : List ℕ)
      → unique_sid D rnd db i left ≡ some sid
      → find_client_entry D db sid ≡ none
  unfolding unique_sid
  unique_sid-free rnd db i zero sid h = ground arith
  unique_sid-free rnd db i (suc left) sid h =
      ground (arith, unique_sid-free rnd db (i + 1) left sid)

  unique_sid-first :
      (rnd : ℕ → Option (List ℕ)) (db : D.Rep) (i left : ℕ) (sid : List ℕ)
      → rnd i ≡ some sid
      → find_client_entry D db sid ≡ none
      → unique_sid D rnd db i left ≡ some sid
  unfolding unique_sid
  unique_sid-first rnd db i zero sid r f = ground arith
  unique_sid-first rnd db i (suc left) sid r f = ground arith

  -- Where one of the SIDs that are tried is free and random numbers are to be had up to it, there
  -- is a result.
  pub unique_sid-found :
      (rnd : ℕ → Option (List ℕ)) (db : D.Rep) (i left k : ℕ) (sid : List ℕ)
      → i ≤ k
      → k ≤ i + left
      → rnd k ≡ some sid
      → find_client_entry D db sid ≡ none
      → ((m : ℕ) → i ≤ m → m < k → (s : List ℕ) × (rnd m ≡ some s))
      → (s : List ℕ) × (unique_sid D rnd db i left ≡ some s)
  unfolding unique_sid
  unique_sid-found rnd db i zero k sid lo hi r f before =
      let e : k ≡ i = omega arith in (sid, unique_sid-first rnd db i zero sid (rw e at r) f)
  unique_sid-found rnd db i (suc left) k sid lo hi r f before = elim (ℕ_discrete i k) [
    | yes e ↦ (sid, unique_sid-first rnd db i (suc left) sid (rw (← e) at r) f)
    | no ne ↦
        let (s, drawn) = before i (omega arith) (omega arith) in
        elim (Option-cases (find_client_entry D db s)) [
          | inl free ↦ (s, unique_sid-first rnd db i (suc left) s drawn free)
          | inr (te, taken) ↦
              let (s', found) =
                unique_sid-found rnd db (i + 1) left k sid (omega arith) (omega arith) r f
                  (λ m a b. before m (omega arith) b) in
              (s', ground (arith, drawn, taken, found))
        ]
  ]

  -- A new client gets a SID that no entry had and an entry that is not authenticated, and the other
  -- entries stay as they were.
  pub new_client_entry-fresh :
      (rnd : ℕ → Option (List ℕ)) (calc_safe_id : List ℕ → List ℕ) (now : ℕ) (vhost : Vhost Ctx)
      (ip : List ℕ) (pid : ℕ) (db db' : D.Rep) (e : ClientEntry Ctx) (j : List ℕ)
      → new_client_entry D rnd calc_safe_id now vhost ip pid db ≡ some (e, db')
      → (find_client_entry D db e.sid ≡ none)
        × (e.status ≡ inactive)
        × (find_client_entry D db' j
            ≡ (if bytes_eq e.sid j then some e else find_client_entry D db j))
  unfolding new_client_entry blank_entry
  new_client_entry-fresh rnd calc_safe_id now vhost ip pid db db' e j h =
      elim (Option-cases (unique_sid D rnd db 0 4)) [
        | inl e' ↦ ground (arith, e')
        | inr (sid, e') ↦ ground (
          arith,
          e',
          unique_sid-free rnd db 0 4 sid e',
          D.get-add sid j (blank_entry vhost ip pid sid (calc_safe_id sid) now) db db',
        )
      ]

  -- The cleanup drops the expired entries that nobody uses, and no other.
  pub cleanup-find :
      (now : ℕ) (db : D.Rep) (j : List ℕ) (e : ClientEntry Ctx)
      → find_client_entry D db j ≡ some e
      → find_client_entry D (cleanup_client_entries D now db) j
        ≡ (if leb e.exptime now && e.in_use == 0 then none else some e)
  unfolding cleanup_client_entries
  cleanup-find now db j e h = rw (D.get-sweep j (is_expired now) db, h)

  pub cleanup-none :
      (later : ℕ) (db : D.Rep) (sid : List ℕ)
      → find_client_entry D db sid ≡ none
      → find_client_entry D (cleanup_client_entries D later db) sid ≡ none
  unfolding cleanup_client_entries
  cleanup-none later db sid h = rw (D.get-sweep sid (is_expired later) db, h)

  -- At the end of a session, an entry with other users stays with one user less; the last user's
  -- entry goes at once where its cookie is not to be used again, and else gets a new time of
  -- expiry.
  pub expire-find :
      (now : ℕ) (db : D.Rep) (e old : ClientEntry Ctx)
      → find_client_entry D db e.sid ≡ some old
      → find_client_entry D (expire_client_entry D now e db).1 e.sid ≡ (
          if leb e.in_use 1
          then (if is_invalidated e
              then none
              else some (record e { in_use = 0; exptime = closed_exptime now e }))
          else some (record e { in_use = e.in_use - 1 }))
  unfolding expire_client_entry del_client_entry
  expire-find now db e old h = ground (
    arith,
    bytes_eq_refl e.sid,
    D.get-del e.sid e.sid db,
    D.get-put e.sid e.sid (record e { in_use = e.in_use - 1 }) db,
    D.get-put e.sid e.sid (record e { in_use = e.in_use - 1; exptime = closed_exptime now e }) db,
  )
