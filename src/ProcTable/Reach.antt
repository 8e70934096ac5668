-- ===== src/ProcTable/Reach.antt =====
-- The tables of src/proc-search.c as the main process comes to have them: any sequence of its calls, for
-- any workers, from `proc_table_init` on.
use ocserv_ppa.Base.{
  ℕ, ◌≡◌, Bool, true, false, List, Option, ◌==◌, if◌then◌else◌, arith, Bool-cases, ==_iff, ==_refl,
  inl, inr,
}
use ocserv_ppa.Base.Int.{is_zero}
use ocserv_ppa.Base.Index.{Index}
use ocserv_ppa.ProcTable.{
  Sockaddr, ProcEntry, ProcTable, proc_table_init, proc_table_add, proc_table_update_ip,
  proc_table_update_dtls_ip, proc_table_del,
}
use ocserv_ppa.ProcTable.Frame.{
  proc_table_add-other, proc_table_update_ip-other, proc_table_update_dtls_ip-other,
  proc_table_del-other,
}
use ocserv_ppa.ProcTable.Clean.{
  Holds, proc_table_add-Holds, proc_table_update_ip-Holds, proc_table_update_dtls_ip-Holds,
  proc_table_del-Holds,
}

-- A field of worker `id`, written over.
abbrev pub set {ℓ} : {A : Type ℓ} → (ℕ → A) → ℕ → A → ℕ → A
set f id a j = if j == id then a else f j

-- What holds of worker `id` by the new field and of the others by the old holds of each.
set-elim {ℓ κ} :
    {A : Type ℓ} (P : ℕ → A → Type κ) (f : ℕ → A) (id : ℕ) (a : A) (j : ℕ)
    → P id a
    → ((j == id) ≡ false → P j (f j))
    → P j (set f id a j)
set-elim P f id a j here there = elim (Bool-cases (j == id)) [
  | inl e ↦ rw ((==_iff j id).0 e, ==_refl id) here
  | inr n ↦ rw n (there n)
]

module _ (I : Index) where
  -- The tables, the entry of each worker, and the workers that were added.
  pub record World : Type 0 where
    pub table : ProcTable I
    pub entry : ℕ → ProcEntry
    pub added : ℕ → Bool

  abbrev pub after_add : World → ℕ → World
  after_add w id =
      let (ret, t) = proc_table_add I w.table id (w.entry id) in
      record w { table = t; added = set w.added id (is_zero ret) }

  abbrev pub after_update_ip : World → ℕ → Sockaddr → World
  after_update_ip w id addr =
      let (ret, p, t) = proc_table_update_ip I w.table id (w.entry id) addr in
      record w { table = t; entry = set w.entry id p }

  abbrev pub after_update_dtls_ip : World → ℕ → Option Sockaddr → World
  after_update_dtls_ip w id addr =
      let (ret, p, t) = proc_table_update_dtls_ip I w.table id (w.entry id) addr in
      record w { table = t; entry = set w.entry id p }

  abbrev pub after_del : World → ℕ → World
  after_del w id = record w {
    table = proc_table_del I w.table id (w.entry id);
    added = set w.added id false;
  }

  -- A call of the main process. Before it is added a worker gets its SID and DTLS session
  -- (`handle_auth_cookie_req`); it is added once; only a worker that was found by a search gets
  -- a DTLS address (`forward_udp_to_owner`); and it is deleted when it is freed (`remove_proc`).
  pub data Call : World → World → Type 0 where
    fill :
        (w : World) (id : ℕ) (p : ProcEntry)
        → w.added id ≡ false
        → Call w (record w { entry = set w.entry id p })
    add : (w : World) (id : ℕ) → w.added id ≡ false → Call w (after_add w id)
    update_ip : (w : World) (id : ℕ) (addr : Sockaddr) → Call w (after_update_ip w id addr)
    update_dtls_ip :
        (w : World) (id : ℕ) (addr : Option Sockaddr)
        → w.added id ≡ true
        → Call w (after_update_dtls_ip w id addr)
    del : (w : World) (id : ℕ) → Call w (after_del w id)

  -- The worlds after any number of calls.
  pub data Reach : World → Type 0 where
    init :
        (entry : ℕ → ProcEntry)
        → Reach (record { table = proc_table_init I; entry = entry; added = λ id. false })
    after : (w w' : World) → Reach w → Call w w' → Reach w'

  abbrev pub IsHeld : World → ℕ → Type 0
  IsHeld w j = Holds I w.table j (w.entry j) (w.added j)

  -- A worker that the tables do not hold can be given any entry.
  refill :
      (t : ProcTable I) (id : ℕ) (p q : ProcEntry) (added : Bool)
      → added ≡ false
      → Holds I t id p added
      → Holds I t id q added
  refill t id p q added a h k = ground (arith, a, h k)

  -- Of each worker a call keeps what the tables hold.
  Call-IsHeld : {w w' : World} → Call w w' → ((j : ℕ) → IsHeld w j) → (j : ℕ) → IsHeld w' j
  Call-IsHeld (fill w id p a) h j =
      set-elim (λ j p. Holds I w.table j p (w.added j)) w.entry id p j
        (refill w.table id (w.entry id) p (w.added id) a (h id)) (λ n. h j)
  Call-IsHeld (add w id a) h j =
      let t = (proc_table_add I w.table id (w.entry id)).1 in
      set-elim (λ j b. Holds I t j (w.entry j) b) w.added id _ j
        (proc_table_add-Holds I w.table id (w.entry id) (w.added id) a (h id))
        (λ n. proc_table_add-other I w.table id j (w.entry id) (w.entry j) (w.added j) n (h j))
  Call-IsHeld (update_ip w id addr) h j =
      let t = (proc_table_update_ip I w.table id (w.entry id) addr).2 in
      set-elim (λ j p. Holds I t j p (w.added j)) w.entry id _ j
        (proc_table_update_ip-Holds I w.table id (w.entry id) (w.added id) addr (h id))
        (λ n.
          proc_table_update_ip-other I w.table id j (w.entry id) (w.entry j) (w.added j) addr n
            (h j))
  Call-IsHeld (update_dtls_ip w id addr a) h j =
      let t = (proc_table_update_dtls_ip I w.table id (w.entry id) addr).2 in
      set-elim (λ j p. Holds I t j p (w.added j)) w.entry id _ j
        (proc_table_update_dtls_ip-Holds I w.table id (w.entry id) (w.added id) addr a (h id))
        (λ n.
          proc_table_update_dtls_ip-other I w.table id j (w.entry id) (w.entry j) (w.added j) addr n
            (h j))
  Call-IsHeld (del w id) h j =
      let t = proc_table_del I w.table id (w.entry id) in
      set-elim (λ j b. Holds I t j (w.entry j) b) w.added id _ j
        (proc_table_del-Holds I w.table id (w.entry id) (w.entry id) (w.added id) (h id))
        (λ n. proc_table_del-other I w.table id j (w.entry id) (w.entry j) (w.added j) n (h j))

  -- After any number of calls the tables hold each worker that was added, and nothing of the others:
  -- by SID and by DTLS session once and under its own, by an address at most once and under its own.
  pub Reach-IsHeld : {w : World} → Reach w → (j : ℕ) → IsHeld w j
  unfolding proc_table_init
  Reach-IsHeld (init entry) j = λ k. ground (arith, I.count-empty k j)
  Reach-IsHeld (after w w' r c) j = Call-IsHeld c (Reach-IsHeld r) j

  -- After any number of calls, of which the last one for a worker deleted it or none added it, no table
  -- has a pointer to it under any key.
  pub Reach-no_dangling :
      {w : World} (id : ℕ)
      → Reach w
      → w.added id ≡ false
      → (k : List ℕ)
      → (I.count k id w.table.db_ip ≡ 0)
        × (I.count k id w.table.db_dtls_ip ≡ 0)
        × (I.count k id w.table.db_dtls_id ≡ 0)
        × (I.count k id w.table.db_sid ≡ 0)
  Reach-no_dangling id r a k = ground (arith, a, Reach-IsHeld r id k)
