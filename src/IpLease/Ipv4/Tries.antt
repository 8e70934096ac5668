-- ===== src/IpLease/Ipv4/Tries.antt =====
-- When a client gets an address, and which one.
use ocserv_ppa.Base.{
  ℕ, zero, suc, ◌≡◌, refl, Bool, true, false, ◌&&◌, not, List, [], none, some, arith, Bool-cases,
  inl, inr,
}
use ocserv_ppa.Base.Int.{pos}
use ocserv_ppa.Base.Bytes.{bytes_eq}
use ocserv_ppa.Base.Table.{Table}
use ocserv_ppa.Base.Masks.{and_bytes}
use ocserv_ppa.IpLease.{IpLease, Proc, Env, max_ip_tries, set_last_bit, host_in}
use ocserv_ppa.IpLease.Ipv4.{
  next_rnd4, ipv4_config, is_ipv4_ok, pick_ipv4, ipv4_lease_in, get_ipv4_lease,
}
use ocserv_ppa.IpLease.Ipv4.Valid.{get_ipv4_lease-in}

module _ (D : Table IpLease) where
  -- A try that succeeds.
  unfoldable pub is_good : D.Rep → Env → List ℕ → List ℕ → ℕ → List ℕ → Bool
  is_good db env network mask left ip =
      is_ipv4_ok D db ip network mask
      && not (bytes_eq (set_last_bit 3 network) ip)
      && env.silent4 left ip

  -- Whether the k-th try from now on succeeds, where the tries before it fail.
  unfoldable pub good_try : D.Rep → Env → List ℕ → List ℕ → List ℕ → ℕ → List ℕ → ℕ → Bool
  good_try db env seed network mask zero prev k = false
  good_try db env seed network mask (suc left) prev zero =
      is_good db env network mask (suc left)
        (host_in network mask (next_rnd4 env seed (suc left) prev))
  good_try db env seed network mask (suc left) prev (suc k) =
      good_try db env seed network mask left
        (host_in network mask (next_rnd4 env seed (suc left) prev)) k

  pick_ipv4-good :
      (db : D.Rep) (env : Env) (seed network mask : List ℕ) (left : ℕ) (prev : List ℕ)
      → is_good db env network mask
          (suc left)
          (host_in network mask (next_rnd4 env seed (suc left) prev))
        ≡ true
      → (l : IpLease) × (pick_ipv4 D db env seed network mask (suc left) prev ≡ (pos 0, some l))
        × (l.rip ≡ host_in network mask (next_rnd4 env seed (suc left) prev))
        × (l.in_db ≡ true)
  unfolding pick_ipv4 is_good
  pick_ipv4-good db env seed network mask left prev good =
      let ip = host_in network mask (next_rnd4 env seed (suc left) prev) in
      (
        record {
          sig = ip;
          rip = ip;
          lip = set_last_bit 3 network;
          prefix = 0;
          in_db = true;
          registered = false;
        },
        ground arith,
        refl,
        refl,
      )

  pick_ipv4-bad :
      (db : D.Rep) (env : Env) (seed network mask : List ℕ) (left : ℕ) (prev : List ℕ)
      → is_good db env network mask
          (suc left)
          (host_in network mask (next_rnd4 env seed (suc left) prev))
        ≡ false
      → pick_ipv4 D db env seed network mask (suc left) prev
        ≡ pick_ipv4 D db env seed network mask left
            (host_in network mask (next_rnd4 env seed (suc left) prev))
  unfolding pick_ipv4 is_good
  pick_ipv4-bad db env seed network mask left prev bad = ground arith

  pick_ipv4-found :
      (db : D.Rep) (env : Env) (seed network mask : List ℕ) (left : ℕ) (prev : List ℕ) (k : ℕ)
      → good_try db env seed network mask left prev k ≡ true
      → (l : IpLease) × (pick_ipv4 D db env seed network mask left prev ≡ (pos 0, some l))
  unfolding good_try
  pick_ipv4-found db env seed network mask zero prev k good = absurd (ground arith)
  pick_ipv4-found db env seed network mask (suc left) prev zero good =
      let (l, e, rip, listed) = pick_ipv4-good db env seed network mask left prev good in (l, e)
  pick_ipv4-found db env seed network mask (suc left) prev (suc k) good =
      let ip = host_in network mask (next_rnd4 env seed (suc left) prev) in
      elim (Bool-cases (is_good db env network mask (suc left) ip)) [
        | inl now ↦
            (let (l, e, rip, listed) = pick_ipv4-good db env seed network mask left prev now in
              (l, e))
        | inr later ↦
            rw (pick_ipv4-bad db env seed network mask left prev later)
              (pick_ipv4-found db env seed network mask left ip k good)
      ]

  -- A client without an address of its own in the configuration gets one as soon as one of the 16
  -- tries has an address that is to be had and answers no ping. (The configuration can be read, and
  -- there is memory.)
  pub get_ipv4_lease-found :
      (db : D.Rep) (env : Env) (p : Proc) (n m a mask : List ℕ) (k : ℕ)
      → env.mem ≡ true
      → p.config.explicit_ipv4 ≡ none
      → (ipv4_config p).0 ≡ some n
      → (ipv4_config p).1 ≡ some m
      → env.inet_pton4 n ≡ some a
      → env.inet_pton4 m ≡ some mask
      → good_try db env p.ipv4_seed (and_bytes a mask) mask max_ip_tries [] k ≡ true
      → (l : IpLease) × (get_ipv4_lease D db env p ≡ (pos 0, some l))
  unfolding ipv4_lease_in
  get_ipv4_lease-found db env p n m a mask k e0 e e1 e2 e3 e4 good =
      let (l, found) =
        pick_ipv4-found db env p.ipv4_seed (and_bytes a mask) mask max_ip_tries [] k good in
      (l, ground (arith, found, get_ipv4_lease-in D db env p n m a mask e1 e2 e3 e4))

  -- A client without an address of its own in the configuration gets the address that its seed
  -- leads to in the network, where that is to be had and answers no ping. (The configuration can be
  -- read, and there is memory.)
  pub get_ipv4_lease-seed :
      (db : D.Rep) (env : Env) (p : Proc) (n m a mask : List ℕ)
      → env.mem ≡ true
      → p.config.explicit_ipv4 ≡ none
      → (ipv4_config p).0 ≡ some n
      → (ipv4_config p).1 ≡ some m
      → env.inet_pton4 n ≡ some a
      → env.inet_pton4 m ≡ some mask
      → is_good db env
          (and_bytes a mask)
          mask
          max_ip_tries
          (host_in (and_bytes a mask) mask p.ipv4_seed)
        ≡ true
      → (l : IpLease) × (get_ipv4_lease D db env p ≡ (pos 0, some l))
        × (l.rip ≡ host_in (and_bytes a mask) mask p.ipv4_seed)
  unfolding ipv4_lease_in next_rnd4
  get_ipv4_lease-seed db env p n m a mask e0 e e1 e2 e3 e4 good =
      let (l, found, rip, listed) =
        pick_ipv4-good db env p.ipv4_seed (and_bytes a mask) mask 15 [] good in
      (l, ground (arith, found, get_ipv4_lease-in D db env p n m a mask e1 e2 e3 e4), rip)
