-- ===== src/IpLease/Ipv4/Network.antt =====
-- Addresses that are chosen at random lie in the network.
use ocserv_ppa.Base.{
  ℕ, zero, suc, ◌-◌, ◌≡◌, List, [], ◌∷◌, none, some, arith, ◌==◌, ltb, Bool-cases, inl, inr, length,
  take, length-take,
}
use ocserv_ppa.Base.Table.{Table}
use ocserv_ppa.Base.Masks.{and_bytes, IsBytes, masked_bytes}
use ocserv_ppa.IpLease.{IpLease, Proc, Env, max_ip_tries, fixed_ips, ip_from_seed, host_in}
use ocserv_ppa.IpLease.Ipv4.{next_rnd4, ipv4_config, pick_ipv4, ipv4_lease_in, get_ipv4_lease}
use ocserv_ppa.IpLease.Ipv4.Valid.{get_ipv4_lease-in}

-- `b` is so many bytes.
pub record SizedBytes (size : ℕ) (b : List ℕ) : Type 0 where
  pub sized : length b ≡ size
  pub bytes : IsBytes b

-- SHA-1 gives 20 bytes, and the random numbers are as many bytes as were asked for.
pub record Sized4 (env : Env) : Type 0 where
  pub sha1_sized : (b : List ℕ) → SizedBytes 20 (env.sha1 b)
  pub random4_sized : (i : ℕ) → SizedBytes 4 (env.random4 i)

take-IsBytes : (n : ℕ) (b : List ℕ) → IsBytes b → IsBytes (take n b)
take-IsBytes zero b h = tt
take-IsBytes (suc n) [] h = tt
take-IsBytes (suc n) (x ∷ b) (hx, h) = (hx, take-IsBytes n b h)

ip_from_seed-SizedBytes :
    (env : Env) (seed : List ℕ) → Sized4 env → SizedBytes 4 (ip_from_seed env seed 4)
unfolding ip_from_seed
ip_from_seed-SizedBytes env seed s =
    let digest = s.sha1_sized seed in
    record {
      sized = omega (arith, length-take 4 (env.sha1 seed), digest.sized);
      bytes = take-IsBytes 4 (env.sha1 seed) digest.bytes;
    }

next_rnd4-SizedBytes :
    (env : Env) (seed : List ℕ) (left : ℕ) (prev : List ℕ)
    → Sized4 env
    → SizedBytes 4 seed
    → SizedBytes 4 (next_rnd4 env seed left prev)
unfolding next_rnd4
next_rnd4-SizedBytes env seed left prev s h = elim (Bool-cases (left == max_ip_tries)) [
  | inl first ↦ rw first h
  | inr later ↦ rw later (elim (Bool-cases (ltb left (max_ip_tries - fixed_ips))) [
    | inl random ↦ rw random (s.random4_sized left)
    | inr fixed ↦ rw fixed (ip_from_seed-SizedBytes env prev s)
  ])
]

module _ (D : Table IpLease) where
  pick_ipv4-network :
      (db : D.Rep) (env : Env) (seed a mask : List ℕ) (left : ℕ) (prev : List ℕ) (l : IpLease)
      → Sized4 env
      → SizedBytes 4 seed
      → SizedBytes 4 a
      → SizedBytes 4 mask
      → (pick_ipv4 D db env seed (and_bytes a mask) mask left prev).1 ≡ some l
      → and_bytes l.rip mask ≡ and_bytes a mask
  unfolding pick_ipv4 host_in
  pick_ipv4-network db env seed a mask zero prev l s hs ha hm h = ground arith
  pick_ipv4-network db env seed a mask (suc left) prev l s hs ha hm h =
      let rnd = next_rnd4 env seed (suc left) prev in
      let ip = host_in (and_bytes a mask) mask rnd in
      let hr = next_rnd4-SizedBytes env seed (suc left) prev s hs in
      let inside : and_bytes ip mask ≡ and_bytes a mask =
        masked_bytes rnd a mask (omega (arith, hr.sized, hm.sized))
          (omega (arith, ha.sized, hm.sized)) hr.bytes ha.bytes hm.bytes in
      ground (arith, inside, pick_ipv4-network db env seed a mask left ip l s hs ha hm)

  -- A client without an address of its own in the configuration gets an address of the network of
  -- the configuration. (The addresses in it, the seed and the random bytes are 4 bytes, and SHA-1
  -- gives 20.)
  pub get_ipv4_lease-network :
      (db : D.Rep) (env : Env) (p : Proc) (n m a mask : List ℕ) (l : IpLease)
      → Sized4 env
      → SizedBytes 4 p.ipv4_seed
      → SizedBytes 4 a
      → SizedBytes 4 mask
      → p.config.explicit_ipv4 ≡ none
      → (ipv4_config p).0 ≡ some n
      → (ipv4_config p).1 ≡ some m
      → env.inet_pton4 n ≡ some a
      → env.inet_pton4 m ≡ some mask
      → (get_ipv4_lease D db env p).1 ≡ some l
      → and_bytes l.rip mask ≡ and_bytes a mask
  unfolding ipv4_lease_in
  get_ipv4_lease-network db env p n m a mask l s hs ha hm e0 e1 e2 e3 e4 h = ground (
    arith,
    get_ipv4_lease-in D db env p n m a mask e1 e2 e3 e4,
    pick_ipv4-network db env p.ipv4_seed a mask max_ip_tries [] l s hs ha hm,
  )
