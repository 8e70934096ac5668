-- ===== src/IpLease/Ipv6.antt =====
-- get_ipv6_lease of src/ip-lease.c.
pub mod Valid
pub mod Tries
use ocserv_ppa.Base.{
  ℕ, zero, suc, ◌-◌, Bool, true, false, ◌&&◌, ◌||◌, not, List, [], ◌∷◌, ◌++◌, Option, none, some,
  ltb, ◌==◌, if◌then◌else◌, drop, replicate,
}
use ocserv_ppa.Base.Int.{ℤ, pos, negsuc, err_mem, err_no_ip}
use ocserv_ppa.Base.Bytes.{bytes_eq}
use ocserv_ppa.Base.Table.{Table}
use ocserv_ppa.Base.Masks.{and_bytes}
use ocserv_ppa.IpUtil.{ipv6_prefix_to_mask}
use ocserv_ppa.IpLease.{
  IpLease, Proc, Env, max_ip_tries, fixed_ips, ip_from_seed, set_last_bit, host_in, ip_lease_exists,
}

-- `rnd` is zero at the start of each try. The random bytes go to the place of an IPv4 address, four
-- bytes before that of an IPv6 address.
unfoldable pub next_rnd6 : Env → List ℕ → ℕ → List ℕ
next_rnd6 env seed max_loops =
    if max_loops == max_ip_tries
    then ip_from_seed env seed 16
    else if ltb max_loops (max_ip_tries - fixed_ips)
    then drop 4 (env.random6 max_loops) ++ replicate 4 0
    else ip_from_seed env (replicate 16 0) 16

unfoldable pub ipv6_config : Proc → Option (List ℕ) × ℕ × ℕ
ipv6_config p = elim p.config.ipv6_net [
  | none ↦ (p.network.ipv6, p.network.ipv6_prefix, p.network.ipv6_subnet_prefix)
  | some net ↦
      if p.config.ipv6_subnet_prefix == 0
      then (p.network.ipv6, p.network.ipv6_prefix, p.network.ipv6_subnet_prefix)
      else (some net, p.config.ipv6_prefix, p.config.ipv6_subnet_prefix)
]

-- A lease as `talloc_zero` makes it, with the client's network.
unfoldable pub blank_ipv6 : List ℕ → List ℕ → Bool → IpLease
blank_ipv6 sig rip in_db = record {
  sig = sig;
  rip = rip;
  lip = [];
  prefix = 0;
  in_db = in_db;
  registered = false;
}

-- The end of `get_ipv6_lease`.
unfoldable pub finish_ipv6 : List ℕ → ℕ → IpLease → IpLease
finish_ipv6 network subnet_prefix l = record l {
  lip = set_last_bit 15 network;
  prefix = subnet_prefix;
}

unfoldable pub finish_lease : List ℕ → ℕ → ℤ × Option IpLease → ℤ × Option IpLease
finish_lease network subnet_prefix (ret, none) = (ret, none)
finish_lease network subnet_prefix (ret, some l) = (ret, some (finish_ipv6 network subnet_prefix l))

module _ (D : Table IpLease) where
  unfoldable pub is_ipv6_ok : D.Rep → List ℕ → List ℕ → Bool
  is_ipv6_ok db net subnet = not (bytes_eq subnet net) && not (ip_lease_exists D db subnet)

  -- The loop over the tries: the natural number is `max_loops`. The prefix of the lease is still that
  -- of `talloc_zero` when it is compared with 128.
  unfoldable pub pick_ipv6 :
      D.Rep → Env → List ℕ → List ℕ → List ℕ → List ℕ → ℕ → ℤ × Option IpLease
  pick_ipv6 db env seed network mask subnet_mask zero = (err_no_ip, none)
  pick_ipv6 db env seed network mask subnet_mask (suc left) =
      let ip = host_in network mask (next_rnd6 env seed (suc left)) in
      let l = blank_ipv6 (and_bytes ip subnet_mask) ip true in
      let rest = pick_ipv6 db env seed network mask subnet_mask left in
      if not (is_ipv6_ok db network l.sig)
      then rest
      else if not (l.prefix == 128) || env.silent6 (suc left) ip
      then (pos 0, some l)
      else rest

  unfoldable pub explicit_ipv6_lease : D.Rep → List ℕ → List ℕ → List ℕ → ℤ × Option IpLease
  explicit_ipv6_lease db network subnet_mask ip =
      let l = blank_ipv6 (and_bytes ip subnet_mask) ip false in
      if not (is_ipv6_ok db network l.sig) then (err_no_ip, none) else (pos 0, some l)

  -- The lease in the network that was read, before the end of the function.
  unfoldable pub ipv6_lease_in : D.Rep → Env → Proc → List ℕ → List ℕ → List ℕ → ℤ × Option IpLease
  ipv6_lease_in db env p network mask subnet_mask = elim p.config.explicit_ipv6 [
    | none ↦
        if env.mem
        then pick_ipv6 db env p.ipv4_seed network mask subnet_mask max_ip_tries
        else (err_mem, none)
    | some text ↦ elim (env.inet_pton6 text) [
      | none ↦ (negsuc 0, none)
      | some ip ↦ if env.mem then explicit_ipv6_lease db network subnet_mask ip else (err_mem, none)
    ]
  ]

  -- From the network of the configuration and its prefixes.
  unfoldable pub ipv6_lease_from : D.Rep → Env → Proc → List ℕ → ℕ → ℕ → ℤ × Option IpLease
  ipv6_lease_from db env p net prefix subnet_prefix = elim (ipv6_prefix_to_mask prefix) [
    | none ↦ (negsuc 0, none)
    | some mask ↦ elim (ipv6_prefix_to_mask subnet_prefix) [
      | none ↦ (negsuc 0, none)
      | some subnet_mask ↦ elim (env.inet_pton6 net) [
        | none ↦ (negsuc 0, none)
        | some a ↦
            finish_lease (and_bytes a mask) subnet_prefix
              (ipv6_lease_in db env p (and_bytes a mask) mask subnet_mask)
      ]
    ]
  ]

  -- The result, and what `proc->ipv6` is afterwards.
  unfoldable pub get_ipv6_lease : D.Rep → Env → Proc → ℤ × Option IpLease
  get_ipv6_lease db env p =
      let (c_network, prefix, subnet_prefix) = ipv6_config p in
      elim c_network [
        | none ↦ (pos 0, none)
        | some net ↦
            if prefix == 0 || subnet_prefix == 0
            then (pos 0, none)
            else ipv6_lease_from db env p net prefix subnet_prefix
      ]
