-- ===== src/IpLease/Leases.antt =====
-- get_ip_leases, remove_ip_leases and steal_ip_leases of src/ip-lease.c.
pub mod Exclusive
use ocserv_ppa.Base.{ℕ, Bool, true, false, List, Option, none, some, if◌then◌else◌}
use ocserv_ppa.Base.Int.{ℤ, pos, negsuc, is_neg}
use ocserv_ppa.Base.Table.{Table}
use ocserv_ppa.IpLease.{IpLease, Proc, Env}
use ocserv_ppa.IpLease.Ipv4.{get_ipv4_lease}
use ocserv_ppa.IpLease.Ipv6.{get_ipv6_lease}

module _ (D : Table IpLease) where
  -- A lease that goes into the table, and gets the destructor. A lease with no table stays as it is;
  -- one that the table has no room for stays without a destructor.
  unfoldable pub register_lease : D.Rep → Option IpLease → ℤ × Option IpLease × D.Rep
  register_lease db none = (pos 0, none, db)
  register_lease db (some l) =
      if l.in_db
      then elim (D.add l.sig (record l { registered = true }) db) [
        | none ↦ (negsuc 0, some l, db)
        | some db' ↦ (pos 0, some (record l { registered = true }), db')
      ]
      else (pos 0, some l, db)

  -- What a look for a lease comes to.
  unfoldable pub take_lease : D.Rep → ℤ × Option IpLease → ℤ × Option IpLease × D.Rep
  take_lease db (ret, o) = if is_neg ret then (ret, o, db) else register_lease db o

  -- The half of `get_ip_leases` for IPv4: the result, `proc->ipv4` and the table.
  unfoldable pub get_ipv4 : D.Rep → Env → Proc → ℤ × Option IpLease × D.Rep
  get_ipv4 db env p = elim p.ipv4 [
    | some l ↦ (pos 0, some l, db)
    | none ↦ take_lease db (get_ipv4_lease D db env p)
  ]

  unfoldable pub get_ipv6 : D.Rep → Env → Proc → ℤ × Option IpLease × D.Rep
  get_ipv6 db env p = elim p.ipv6 [
    | some l ↦ (pos 0, some l, db)
    | none ↦ take_lease db (get_ipv6_lease D db env p)
  ]

  abbrev has_none : Option IpLease → Option IpLease → Bool
  has_none none none = true
  has_none a b = false

  unfoldable pub get_ip_leases : D.Rep → Env → Proc → ℤ × Proc × D.Rep
  get_ip_leases db env p =
      let (ret, ipv4, db1) = get_ipv4 db env p in
      let p1 = record p { ipv4 = ipv4 } in
      let (ret', ipv6, db2) = get_ipv6 db1 env p1 in
      let p2 = record p1 { ipv6 = ipv6 } in
      if is_neg ret
      then (ret, p1, db1)
      else if is_neg ret'
      then (ret', p2, db2)
      else if has_none ipv4 ipv6
      then (negsuc 0, p2, db2)
      else (pos 0, p2, db2)

  -- `talloc_free` with the destructor `unref_ip_lease`.
  pub remove_ip_lease : D.Rep → Option IpLease → D.Rep
  remove_ip_lease db none = db
  remove_ip_lease db (some l) = if l.registered then D.del l.sig db else db

  pub remove_ip_leases : D.Rep → Proc → Proc × D.Rep
  remove_ip_leases db p =
      (record p { ipv4 = none; ipv6 = none }, remove_ip_lease (remove_ip_lease db p.ipv4) p.ipv6)

  -- The leases move to another client; both processes afterwards, the giver first.
  pub steal_ip_leases : Proc → Proc → Proc × Proc
  steal_ip_leases p thief =
      (record p { ipv4 = none; ipv6 = none }, record thief { ipv4 = p.ipv4; ipv6 = p.ipv6 })
