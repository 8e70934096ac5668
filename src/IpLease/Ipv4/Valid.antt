-- ===== src/IpLease/Ipv4/Valid.antt =====
-- Which IPv4 addresses are leased.
use ocserv_ppa.Base.{
  ℕ, zero, suc, ◌≡◌, true, false, List, [], none, some, arith, Option-cases, inl, inr,
}
use ocserv_ppa.Base.Bytes.{bytes_eq}
use ocserv_ppa.Base.Table.{Table}
use ocserv_ppa.Base.Masks.{and_bytes}
use ocserv_ppa.IpLease.{IpLease, Proc, Env, max_ip_tries, host_in, broadcast, ip_lease_exists}
use ocserv_ppa.IpLease.Ipv4.{
  next_rnd4, ipv4_config, is_ipv4_ok, pick_ipv4, explicit_ipv4_lease, ipv4_lease_in, get_ipv4_lease,
}

-- A lease that may be given out: its address is in nobody's lease, and is not the address of the
-- network, the broadcast address or the server's.
pub record Usable4 (D : Table IpLease) (db : D.Rep) (network mask : List ℕ) (l : IpLease)
    : Type 0 where
  pub sig_eq : l.sig ≡ l.rip
  pub free : D.get l.sig db ≡ none
  pub not_network : bytes_eq l.rip network ≡ false
  pub not_broadcast : bytes_eq l.rip (broadcast network mask) ≡ false
  pub not_lip : bytes_eq l.lip l.rip ≡ false
  pub not_registered : l.registered ≡ false

module _ (D : Table IpLease) where
  is_ipv4_ok-free :
      (db : D.Rep) (ip net mask : List ℕ)
      → is_ipv4_ok D db ip net mask ≡ true
      → (D.get ip db ≡ none)
        × (bytes_eq ip net ≡ false)
        × (bytes_eq ip (broadcast net mask) ≡ false)
  unfolding is_ipv4_ok ip_lease_exists
  is_ipv4_ok-free db ip net mask h = ground arith

  pick_ipv4-Usable4 :
      (db : D.Rep) (env : Env) (seed network mask : List ℕ) (left : ℕ) (prev : List ℕ) (l : IpLease)
      → (pick_ipv4 D db env seed network mask left prev).1 ≡ some l
      → Usable4 D db network mask l
  unfolding pick_ipv4
  pick_ipv4-Usable4 db env seed network mask zero prev l h = ground arith
  pick_ipv4-Usable4 db env seed network mask (suc left) prev l h =
      let ip = host_in network mask (next_rnd4 env seed (suc left) prev) in
      ground (
        arith,
        is_ipv4_ok-free db ip network mask,
        pick_ipv4-Usable4 db env seed network mask left ip l,
      )

  explicit_ipv4-Usable4 :
      (db : D.Rep) (network mask ip : List ℕ) (l : IpLease)
      → (explicit_ipv4_lease D db network mask ip).1 ≡ some l
      → Usable4 D db network mask l
  unfolding explicit_ipv4_lease
  explicit_ipv4-Usable4 db network mask ip l h = ground (arith, is_ipv4_ok-free db ip network mask)

  lease_in-Usable4 :
      (db : D.Rep) (env : Env) (p : Proc) (network mask : List ℕ) (l : IpLease)
      → (ipv4_lease_in D db env p network mask).1 ≡ some l
      → Usable4 D db network mask l
  unfolding ipv4_lease_in
  lease_in-Usable4 db env p network mask l h = elim (Option-cases p.config.explicit_ipv4) [
    | inl picked ↦
        ground (arith, picked, pick_ipv4-Usable4 db env p.ipv4_seed network mask max_ip_tries [] l)
    | inr (text, given) ↦ elim (Option-cases (env.inet_pton4 text)) [
      | inl wrong ↦ ground (arith, given, wrong)
      | inr (ip, read) ↦ ground (arith, given, read, explicit_ipv4-Usable4 db network mask ip l)
    ]
  ]

  get_ipv4_lease-cases :
      (db : D.Rep) (env : Env) (p : Proc) (l : IpLease)
      → (get_ipv4_lease D db env p).1 ≡ some l
      → (a : List ℕ) × (mask : List ℕ) × ((ipv4_lease_in D db env p (and_bytes a mask) mask).1
          ≡ some l)
  unfolding get_ipv4_lease
  get_ipv4_lease-cases db env p l h = elim (Option-cases (ipv4_config p).0) [
    | inl missing ↦ ground (arith, missing)
    | inr (n, e1) ↦ elim (Option-cases (ipv4_config p).1) [
      | inl missing ↦ ground (arith, missing, e1)
      | inr (m, e2) ↦ elim (Option-cases (env.inet_pton4 n)) [
        | inl wrong ↦ ground (arith, e1, e2, wrong)
        | inr (a, e3) ↦ elim (Option-cases (env.inet_pton4 m)) [
          | inl wrong ↦ ground (arith, e1, e2, e3, wrong)
          | inr (mask, e4) ↦ (a, mask, ground (arith, e1, e2, e3, e4))
        ]
      ]
    ]
  ]

  pub get_ipv4_lease-in :
      (db : D.Rep) (env : Env) (p : Proc) (n m a mask : List ℕ)
      → (ipv4_config p).0 ≡ some n
      → (ipv4_config p).1 ≡ some m
      → env.inet_pton4 n ≡ some a
      → env.inet_pton4 m ≡ some mask
      → get_ipv4_lease D db env p ≡ ipv4_lease_in D db env p (and_bytes a mask) mask
  unfolding get_ipv4_lease
  get_ipv4_lease-in db env p n m a mask e1 e2 e3 e4 = ground arith

  -- In a network that was read, an address is leased only if no lease in the table has it, and it
  -- is not the address of the network, the broadcast address or the server's own.
  pub get_ipv4_lease-Usable4 :
      (db : D.Rep) (env : Env) (p : Proc) (n m a mask : List ℕ) (l : IpLease)
      → (ipv4_config p).0 ≡ some n
      → (ipv4_config p).1 ≡ some m
      → env.inet_pton4 n ≡ some a
      → env.inet_pton4 m ≡ some mask
      → (get_ipv4_lease D db env p).1 ≡ some l
      → Usable4 D db (and_bytes a mask) mask l
  get_ipv4_lease-Usable4 db env p n m a mask l e1 e2 e3 e4 h =
      lease_in-Usable4 db env p (and_bytes a mask) mask l
        (rw (get_ipv4_lease-in db env p n m a mask e1 e2 e3 e4) at h)

  pub get_ipv4_lease-free :
      (db : D.Rep) (env : Env) (p : Proc) (l : IpLease)
      → (get_ipv4_lease D db env p).1 ≡ some l
      → (D.get l.sig db ≡ none) × (l.registered ≡ false)
  get_ipv4_lease-free db env p l h =
      let (a, mask, picked) = get_ipv4_lease-cases db env p l h in
      let usable = lease_in-Usable4 db env p (and_bytes a mask) mask l picked in
      (usable.free, usable.not_registered)
