-- ===== src/ProcTable/Search.antt =====
-- What the searches of src/proc-search.c find in the tables.
use ocserv_ppa.Base.{
  ℕ, ◌≡◌, ◌<◌, ◌≢◌, Bool, true, false, ◌&&◌, if◌then◌else◌, Option-cases, inl, inr, List, ◌∷◌,
  Option, none, some, arith,
}
use ocserv_ppa.Base.Bytes.{bytes_eq, bytes_eq_refl}
use ocserv_ppa.Base.Index.{Index}
use ocserv_ppa.ProcTable.{proc_search_single_ip, proc_search_dtls_id, proc_search_sid, local_ip_cmp}
use ocserv_ppa.ProcTable.Reach.{World, Reach, Reach-IsHeld}

module _ (I : Index) where
  -- What a search promises, of a set of workers and whatever the tables: a worker of the set that
  -- passes a test, and none only if no worker of the set passes it.
  pub IsSearch : (ℕ → Bool) → (ℕ → Bool) → Option ℕ → Type 0
  IsSearch added test none = (id : ℕ) → added id && test id ≡ false
  IsSearch added test (some id) = (added id ≡ true) × (test id ≡ true)

  get-IsSearch :
      (added test : ℕ → Bool) (k : List ℕ) (t : I.Rep)
      → ((id : ℕ) → I.count k id t ≡ (if added id && test id then 1 else 0))
      → IsSearch added test (I.get k test t)
  unfolding IsSearch
  get-IsSearch added test k t h = elim (Option-cases (I.get k test t)) [
    | inl e ↦ rw e (λ id. ground (arith, h id, I.get-none k test t id e))
    | inr (id, e) ↦ rw e (ground (arith, h id, I.get-some k test t id e))
  ]

  -- After any calls, the search by SID promises this of the workers that were added: the table
  -- refines their set.
  pub proc_search_sid-IsSearch :
      (w : World I) (sid : List ℕ)
      → Reach I w
      → IsSearch w.added
          (λ id. bytes_eq (w.entry id).sid sid)
          (proc_search_sid I w.table w.entry sid)
  unfolding proc_search_sid
  proc_search_sid-IsSearch w sid r =
      get-IsSearch w.added _ sid w.table.db_sid (λ id. (Reach-IsHeld I r id sid).3)

  pub proc_search_dtls_id-IsSearch :
      (w : World I) (session : List ℕ)
      → Reach I w
      → IsSearch w.added
          (λ id. bytes_eq (w.entry id).dtls_session_id session)
          (proc_search_dtls_id I w.table w.entry session)
  unfolding proc_search_dtls_id
  proc_search_dtls_id-IsSearch w session r =
      get-IsSearch w.added _ session w.table.db_dtls_id (λ id. (Reach-IsHeld I r id session).2)

  -- After any calls, a worker found by an address was added, and the address is that of its client or
  -- of its DTLS channel.
  pub proc_search_single_ip-found :
      (w : World I) (ip : List ℕ) (id : ℕ)
      → Reach I w
      → proc_search_single_ip I w.table w.entry ip ≡ some id
      → (w.added id ≡ true) × (local_ip_cmp (w.entry id) ip ≡ true)
  unfolding proc_search_single_ip
  proc_search_single_ip-found w ip id r e =
      let test = λ (j : ℕ). local_ip_cmp (w.entry j) ip in
      ground (
        arith,
        e,
        I.get-some ip test w.table.db_dtls_ip id,
        I.get-some ip test w.table.db_ip id,
        Reach-IsHeld I r id ip,
      )

  -- A worker that is in the table of addresses under its client's is found, or another one is: also
  -- where several have this address.
  pub proc_search_single_ip-not_none :
      (w : World I) (b : ℕ) (bs : List ℕ) (id : ℕ)
      → (w.entry id).remote_addr.ip ≡ b ∷ bs
      → 0 < I.count (b ∷ bs) id w.table.db_ip
      → proc_search_single_ip I w.table w.entry (b ∷ bs) ≢ none
  unfolding proc_search_single_ip
  proc_search_single_ip-not_none w b bs id e c n =
      let test = λ (j : ℕ). local_ip_cmp (w.entry j) (b ∷ bs) in
      let here : bytes_eq (w.entry id).remote_addr.ip (b ∷ bs) ≡ true =
        rw e (bytes_eq_refl (b ∷ bs)) in
      ground (arith, n, c, here, I.get-none (b ∷ bs) test w.table.db_ip id)
