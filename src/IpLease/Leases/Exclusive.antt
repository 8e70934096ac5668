-- ===== src/IpLease/Leases/Exclusive.antt =====
-- What new leases have to do with those in the table, and what giving leases back does to it.
use ocserv_ppa.Base.{
  ℕ, ◌≡◌, ◌≢◌, ◌⊎◌, ◌∙◌, refl, Bool, true, false, ◌&&◌, List, Option, none, some, arith,
  if◌then◌else◌, Option-cases, Bool-cases, inl, inr,
}
use ocserv_ppa.Base.Int.{ℤ, is_neg}
use ocserv_ppa.Base.Bytes.{bytes_eq, bytes_eq_sound, bytes_eq_refl}
use ocserv_ppa.Base.Table.{Table}
use ocserv_ppa.IpLease.{IpLease, Proc, Env}
use ocserv_ppa.IpLease.Ipv4.{get_ipv4_lease}
use ocserv_ppa.IpLease.Ipv4.Valid.{get_ipv4_lease-free}
use ocserv_ppa.IpLease.Ipv6.{get_ipv6_lease}
use ocserv_ppa.IpLease.Ipv6.Valid.{get_ipv6_lease-free}
use ocserv_ppa.IpLease.Leases.{
  register_lease, take_lease, get_ipv4, get_ipv6, get_ip_leases, remove_ip_lease, remove_ip_leases,
}

module _ (D : Table IpLease) where
  -- A lease that nobody has.
  abbrev Free : D.Rep → Option IpLease → Type 0
  Free db o = (l : IpLease) → o ≡ some l → (D.get l.sig db ≡ none) × (l.registered ≡ false)

  -- What `get_ip_leases` may do to the table and to one of the two leases: other leases stay, a new
  -- lease is not one of them, it is in the table if it has a destructor, and to take it out again
  -- gives back the table.
  record Taken (db : D.Rep) (o : Option IpLease) (db' : D.Rep) : Type 0 where
    keeps : (l : IpLease) → D.get l.sig db ≡ some l → D.get l.sig db' ≡ some l
    new : (l n : IpLease) → D.get l.sig db ≡ some l → o ≡ some n → l.sig ≢ n.sig
    held : (n : IpLease) → o ≡ some n → n.registered ≡ true → D.get n.sig db' ≡ some n
    undo : (j : List ℕ) → D.get j (remove_ip_lease D db' o) ≡ D.get j db

  untouched-Taken : (db : D.Rep) (o : Option IpLease) → Free db o → Taken db o db
  unfolding remove_ip_lease
  untouched-Taken db none free = record {
    keeps = λ l h. h;
    new = λ l n h e. ground arith;
    held = λ n e r. ground arith;
    undo = λ j. refl;
  }
  untouched-Taken db (some k) free = record {
    keeps = λ l h. h;
    new = λ l n h e. ground (arith, free n e);
    held = λ n e r. ground (arith, free n e);
    undo = λ j. ground (arith, free k refl);
  }

  added-undo :
      (db db' : D.Rep) (k : IpLease) (j : List ℕ)
      → k.registered ≡ true
      → D.get k.sig db ≡ none
      → D.add k.sig k db ≡ some db'
      → D.get j (remove_ip_lease D db' (some k)) ≡ D.get j db
  unfolding remove_ip_lease
  added-undo db db' k j r free e =
      ground
        (arith, D.get-del k.sig j db', D.get-add k.sig j k db db' free e, bytes_eq_sound k.sig j)

  added-Taken :
      (db db' : D.Rep) (k : IpLease)
      → k.registered ≡ true
      → D.get k.sig db ≡ none
      → D.add k.sig k db ≡ some db'
      → Taken db (some k) db'
  added-Taken db db' k r free e = record {
    keeps =
        λ l h. ground (arith, D.get-add k.sig l.sig k db db' free e, bytes_eq_sound k.sig l.sig);
    new = λ l n h e'. ground arith;
    held = λ n e' r'. ground (arith, D.get-add k.sig k.sig k db db' free e, bytes_eq_refl k.sig);
    undo = λ j. added-undo db db' k j r free e;
  }

  register_lease-cases :
      (db : D.Rep) (l : IpLease)
      → let r = register_lease D db (some l) in
        let k = record l { registered = true } in
        (r.1 ≡ some l) × (r.2 ≡ db) ⊎ (r.1 ≡ some k) × (D.add l.sig k db ≡ some r.2)
  unfolding register_lease
  register_lease-cases db l =
      elim (Option-cases (D.add l.sig (record l { registered = true }) db)) [
        | inl full ↦ ground (arith, full)
        | inr (db', added) ↦ ground (arith, added)
      ]

  register_lease-Taken :
      (db : D.Rep) (o : Option IpLease)
      → Free db o
      → Taken db (register_lease D db o).1 (register_lease D db o).2
  unfolding register_lease
  register_lease-Taken db none free = untouched-Taken db none free
  register_lease-Taken db (some l) free = elim (register_lease-cases db l) [
    | inl (same, same') ↦ rw (same, same') (untouched-Taken db (some l) free)
    | inr (same, added) ↦ rw same (
        added-Taken db (register_lease D db (some l)).2 (record l { registered = true }) refl
          (free l refl).0 added)
  ]

  take_lease-Taken :
      (db : D.Rep) (r : ℤ × Option IpLease)
      → Free db r.1
      → Taken db (take_lease D db r).1 (take_lease D db r).2
  unfolding take_lease
  take_lease-Taken db (ret, o) free = elim (Bool-cases (is_neg ret)) [
    | inl failed ↦ rw failed (untouched-Taken db o free)
    | inr ok ↦ rw ok (register_lease-Taken db o free)
  ]

  get_ipv4-none :
      (db : D.Rep) (env : Env) (p : Proc)
      → p.ipv4 ≡ none
      → get_ipv4 D db env p ≡ take_lease D db (get_ipv4_lease D db env p)
  unfolding get_ipv4
  get_ipv4-none db env p e = ground arith

  get_ipv6-none :
      (db : D.Rep) (env : Env) (p : Proc)
      → p.ipv6 ≡ none
      → get_ipv6 D db env p ≡ take_lease D db (get_ipv6_lease D db env p)
  unfolding get_ipv6
  get_ipv6-none db env p e = ground arith

  get_ipv4-Taken :
      (db : D.Rep) (env : Env) (p : Proc)
      → p.ipv4 ≡ none
      → Taken db (get_ipv4 D db env p).1 (get_ipv4 D db env p).2
  get_ipv4-Taken db env p e =
      rw (get_ipv4-none db env p e)
        (take_lease-Taken db (get_ipv4_lease D db env p) (get_ipv4_lease-free D db env p))

  get_ipv6-Taken :
      (db : D.Rep) (env : Env) (p : Proc)
      → p.ipv6 ≡ none
      → Taken db (get_ipv6 D db env p).1 (get_ipv6 D db env p).2
  get_ipv6-Taken db env p e =
      rw (get_ipv6-none db env p e)
        (take_lease-Taken db (get_ipv6_lease D db env p) (get_ipv6_lease-free D db env p))

  abbrev hits : Option IpLease → List ℕ → Bool
  hits none j = false
  hits (some l) j = l.registered && bytes_eq l.sig j

  remove-find :
      (db : D.Rep) (o : Option IpLease) (j : List ℕ)
      → D.get j (remove_ip_lease D db o) ≡ (if hits o j then none else D.get j db)
  unfolding remove_ip_lease
  remove-find db none j = refl
  remove-find db (some l) j = ground (arith, D.get-del l.sig j db)

  remove-both :
      (db : D.Rep) (p : Proc) (j : List ℕ)
      → D.get j (remove_ip_leases D db p).1
        ≡ (if hits p.ipv4 j then none else D.get j (remove_ip_lease D db p.ipv6))
  unfolding remove_ip_leases
  remove-both db p j = ground (
    arith,
    remove-find (remove_ip_lease D db p.ipv4) p.ipv6 j,
    remove-find db p.ipv4 j,
    remove-find db p.ipv6 j,
  )

  -- The client after the half for IPv4.
  abbrev half : D.Rep → Env → Proc → Proc
  half db env p = record p { ipv4 = (get_ipv4 D db env p).1 }

  get_ip_leases-cases :
      (db : D.Rep) (env : Env) (p : Proc)
      → let (ret, p', db') = get_ip_leases D db env p in
        let db1 = (get_ipv4 D db env p).2 in
        let p1 = half db env p in
        (p'.ipv4 ≡ p1.ipv4)
        × (((p'.ipv6 ≡ p.ipv6) × (db' ≡ db1))
            ⊎ ((p'.ipv6 ≡ (get_ipv6 D db1 env p1).1) × (db' ≡ (get_ipv6 D db1 env p1).2)))
  unfolding get_ip_leases
  get_ip_leases-cases db env p = ground arith

  -- The two halves of the work on a client without leases.
  halves :
      (db : D.Rep) (env : Env) (p : Proc)
      → p.ipv4 ≡ none
      → p.ipv6 ≡ none
      → let (ret, p', db') = get_ip_leases D db env p in
        let db1 = (get_ipv4 D db env p).2 in Taken db p'.ipv4 db1 × Taken db1 p'.ipv6 db'
  halves db env p none4 none6 =
      let db1 = (get_ipv4 D db env p).2 in
      let (same4, rest) = get_ip_leases-cases db env p in
      (
        rw same4 (get_ipv4-Taken db env p none4),
        elim rest [
          | inl (same6, same) ↦
              rw (same6 ∙ none6, same) (untouched-Taken db1 none (λ l e. ground arith))
          | inr (same6, same) ↦ rw (same6, same) (get_ipv6-Taken db1 env (half db env p) none6)
        ],
      )

  -- A client that has no lease yet is never given one that is in the table, with the same address
  -- or network, and the lease in the table stays there.
  pub get_ip_leases-exclusive :
      (db : D.Rep) (env : Env) (p : Proc) (l n : IpLease)
      → p.ipv4 ≡ none
      → p.ipv6 ≡ none
      → D.get l.sig db ≡ some l
      → ((get_ip_leases D db env p).1.ipv4 ≡ some n) ⊎ ((get_ip_leases D db env p).1.ipv6 ≡ some n)
      → let (ret, p', db') = get_ip_leases D db env p in
        (D.get l.sig db' ≡ some l) × (l.sig ≢ n.sig)
  get_ip_leases-exclusive db env p l n none4 none6 found given =
      let (t4, t6) = halves db env p none4 none6 in
      let found1 = t4.keeps l found in
      (t6.keeps l found1, elim given [ inl e ↦ t4.new l n found e | inr e ↦ t6.new l n found1 e ])

  -- A lease with a destructor that a client without leases is given is in the table afterwards,
  -- under its address or network.
  pub get_ip_leases-held :
      (db : D.Rep) (env : Env) (p : Proc) (n : IpLease)
      → p.ipv4 ≡ none
      → p.ipv6 ≡ none
      → n.registered ≡ true
      → ((get_ip_leases D db env p).1.ipv4 ≡ some n) ⊎ ((get_ip_leases D db env p).1.ipv6 ≡ some n)
      → let (ret, p', db') = get_ip_leases D db env p in D.get n.sig db' ≡ some n
  get_ip_leases-held db env p n none4 none6 r given =
      let (t4, t6) = halves db env p none4 none6 in
      elim given [ inl e ↦ t6.keeps n (t4.held n e r) | inr e ↦ t6.held n e r ]

  -- When a client that had no leases gives back what `get_ip_leases` gave it, every lookup in the
  -- table gives what it gave before, whether both leases were to be had or not.
  pub remove-get_ip_leases :
      (db : D.Rep) (env : Env) (p : Proc) (j : List ℕ)
      → p.ipv4 ≡ none
      → p.ipv6 ≡ none
      → let (ret, p', db') = get_ip_leases D db env p in
        D.get j (remove_ip_leases D db' p').1 ≡ D.get j db
  remove-get_ip_leases db env p j none4 none6 =
      let (ret, p', db') = get_ip_leases D db env p in
      let db1 = (get_ipv4 D db env p).2 in
      let (t4, t6) = halves db env p none4 none6 in
      ground (arith, remove-both db' p' j, t6.undo j, remove-find db1 p'.ipv4 j, t4.undo j)
