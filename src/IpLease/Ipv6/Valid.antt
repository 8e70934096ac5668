-- ===== src/IpLease/Ipv6/Valid.antt =====
-- Which IPv6 networks are leased.
use ocserv_ppa.Base.{
  ℕ, zero, suc, ◌≡◌, refl, Bool, true, false, List, Option, none, some, arith, Option-cases, inl,
  inr,
}
use ocserv_ppa.Base.Int.{ℤ}
use ocserv_ppa.Base.Bytes.{bytes_eq}
use ocserv_ppa.Base.Table.{Table}
use ocserv_ppa.Base.Masks.{and_bytes}
use ocserv_ppa.IpUtil.{ipv6_prefix_to_mask}
use ocserv_ppa.IpLease.{IpLease, Proc, Env, max_ip_tries, host_in, ip_lease_exists}
use ocserv_ppa.IpLease.Ipv6.{
  next_rnd6, ipv6_config, is_ipv6_ok, pick_ipv6, explicit_ipv6_lease, ipv6_lease_in, get_ipv6_lease,
  blank_ipv6, finish_ipv6, finish_lease, ipv6_lease_from,
}

-- A lease that may be given out: its network is in nobody's lease, and is not the server's; it is
-- the network of the address.
pub record Usable6 (D : Table IpLease) (db : D.Rep) (network subnet_mask : List ℕ) (l : IpLease)
    : Type 0 where
  pub sig_eq : l.sig ≡ and_bytes l.rip subnet_mask
  pub free : D.get l.sig db ≡ none
  pub not_network : bytes_eq l.sig network ≡ false
  pub not_registered : l.registered ≡ false

module _ (D : Table IpLease) where
  is_ipv6_ok-free :
      (db : D.Rep) (net subnet : List ℕ)
      → is_ipv6_ok D db net subnet ≡ true
      → (D.get subnet db ≡ none) × (bytes_eq subnet net ≡ false)
  unfolding is_ipv6_ok ip_lease_exists
  is_ipv6_ok-free db net subnet h = ground arith

  blank-Usable6 :
      (db : D.Rep) (network subnet_mask ip : List ℕ) (in_db : Bool) (l : IpLease)
      → is_ipv6_ok D db network (and_bytes ip subnet_mask) ≡ true
      → blank_ipv6 (and_bytes ip subnet_mask) ip in_db ≡ l
      → Usable6 D db network subnet_mask l
  unfolding blank_ipv6
  blank-Usable6 db network subnet_mask ip in_db l ok h =
      ground (arith, is_ipv6_ok-free db network (and_bytes ip subnet_mask))

  pick_ipv6-Usable6 :
      (db : D.Rep) (env : Env) (seed network mask subnet_mask : List ℕ) (left : ℕ) (l : IpLease)
      → (pick_ipv6 D db env seed network mask subnet_mask left).1 ≡ some l
      → Usable6 D db network subnet_mask l
  unfolding pick_ipv6 blank_ipv6
  pick_ipv6-Usable6 db env seed network mask subnet_mask zero l h = ground arith
  pick_ipv6-Usable6 db env seed network mask subnet_mask (suc left) l h =
      let ip = host_in network mask (next_rnd6 env seed (suc left)) in
      ground (
        arith,
        is_ipv6_ok-free db network (and_bytes ip subnet_mask),
        pick_ipv6-Usable6 db env seed network mask subnet_mask left l,
      )

  explicit_ipv6-Usable6 :
      (db : D.Rep) (network subnet_mask ip : List ℕ) (l : IpLease)
      → (explicit_ipv6_lease D db network subnet_mask ip).1 ≡ some l
      → Usable6 D db network subnet_mask l
  unfolding explicit_ipv6_lease blank_ipv6
  explicit_ipv6-Usable6 db network subnet_mask ip l h =
      ground (arith, is_ipv6_ok-free db network (and_bytes ip subnet_mask))

  lease_in-Usable6 :
      (db : D.Rep) (env : Env) (p : Proc) (network mask subnet_mask : List ℕ) (l : IpLease)
      → (ipv6_lease_in D db env p network mask subnet_mask).1 ≡ some l
      → Usable6 D db network subnet_mask l
  unfolding ipv6_lease_in
  lease_in-Usable6 db env p network mask subnet_mask l h =
      elim (Option-cases p.config.explicit_ipv6) [
        | inl picked ↦ ground (
          arith,
          picked,
          pick_ipv6-Usable6 db env p.ipv4_seed network mask subnet_mask max_ip_tries l,
        )
        | inr (text, given) ↦ elim (Option-cases (env.inet_pton6 text)) [
          | inl wrong ↦ ground (arith, given, wrong)
          | inr (ip, read) ↦
              ground (arith, given, read, explicit_ipv6-Usable6 db network subnet_mask ip l)
        ]
      ]

  finish-Usable6 :
      (db : D.Rep) (network subnet_mask : List ℕ) (subnet_prefix : ℕ) (o : ℤ × Option IpLease)
      (l : IpLease)
      → (finish_lease network subnet_prefix o).1 ≡ some l
      → ((k : IpLease) → o.1 ≡ some k → Usable6 D db network subnet_mask k)
      → Usable6 D db network subnet_mask l
  unfolding finish_lease finish_ipv6
  finish-Usable6 db network subnet_mask subnet_prefix (ret, none) l h usable = ground arith
  finish-Usable6 db network subnet_mask subnet_prefix (ret, some k) l h usable =
      ground (arith, usable k refl)

  -- In a network that was read, the network of a client is leased only if no lease in the table has
  -- it and it is not the server's.
  pub get_ipv6_lease-Usable6 :
      (db : D.Rep) (env : Env) (p : Proc) (n a mask subnet_mask : List ℕ) (l : IpLease)
      → (ipv6_config p).0 ≡ some n
      → ipv6_prefix_to_mask (ipv6_config p).1 ≡ some mask
      → ipv6_prefix_to_mask (ipv6_config p).2 ≡ some subnet_mask
      → env.inet_pton6 n ≡ some a
      → (get_ipv6_lease D db env p).1 ≡ some l
      → Usable6 D db (and_bytes a mask) subnet_mask l
  unfolding get_ipv6_lease ipv6_lease_from
  get_ipv6_lease-Usable6 db env p n a mask subnet_mask l e1 e2 e3 e4 h =
      finish-Usable6 db (and_bytes a mask) subnet_mask (ipv6_config p).2
        (ipv6_lease_in D db env p (and_bytes a mask) mask subnet_mask) l (ground arith)
        (lease_in-Usable6 db env p (and_bytes a mask) mask subnet_mask)

  lease_from-free :
      (db : D.Rep) (env : Env) (p : Proc) (n : List ℕ) (prefix subnet_prefix : ℕ) (l : IpLease)
      → (ipv6_lease_from D db env p n prefix subnet_prefix).1 ≡ some l
      → (D.get l.sig db ≡ none) × (l.registered ≡ false)
  unfolding ipv6_lease_from
  lease_from-free db env p n prefix subnet_prefix l h =
      elim (Option-cases (ipv6_prefix_to_mask prefix)) [
        | inl wrong ↦ ground (arith, wrong)
        | inr (mask, e1) ↦ elim (Option-cases (ipv6_prefix_to_mask subnet_prefix)) [
          | inl wrong ↦ ground (arith, wrong, e1)
          | inr (subnet_mask, e2) ↦ elim (Option-cases (env.inet_pton6 n)) [
            | inl wrong ↦ ground (arith, wrong, e1, e2)
            | inr (a, e3) ↦
                let usable =
                  finish-Usable6 db (and_bytes a mask) subnet_mask subnet_prefix
                    (ipv6_lease_in D db env p (and_bytes a mask) mask subnet_mask) l
                    (ground (arith, e1, e2, e3))
                    (lease_in-Usable6 db env p (and_bytes a mask) mask subnet_mask) in
                (usable.free, usable.not_registered)
          ]
        ]
      ]

  pub get_ipv6_lease-free :
      (db : D.Rep) (env : Env) (p : Proc) (l : IpLease)
      → (get_ipv6_lease D db env p).1 ≡ some l
      → (D.get l.sig db ≡ none) × (l.registered ≡ false)
  unfolding get_ipv6_lease
  get_ipv6_lease-free db env p l h = elim (Option-cases (ipv6_config p).0) [
    | inl missing ↦ ground (arith, missing)
    | inr (n, e) ↦
        ground (arith, e, lease_from-free db env p n (ipv6_config p).1 (ipv6_config p).2 l)
  ]
