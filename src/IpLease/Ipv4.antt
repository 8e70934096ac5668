-- ===== src/IpLease/Ipv4.antt =====
-- get_ipv4_lease of src/ip-lease.c.
pub mod Valid
pub mod Network
pub mod Tries
use ocserv_ppa.Base.{
  ℕ, zero, suc, ◌-◌, Bool, true, false, ◌&&◌, ◌||◌, not, List, [], ◌∷◌, Option, none, some, ltb,
  ◌==◌, if◌then◌else◌,
}
use ocserv_ppa.Base.Int.{ℤ, pos, negsuc, err_mem, err_no_ip}
use ocserv_ppa.Base.Bytes.{bytes_eq}
use ocserv_ppa.Base.Table.{Table}
use ocserv_ppa.Base.Masks.{and_bytes}
use ocserv_ppa.IpLease.{
  IpLease, Proc, Env, max_ip_tries, fixed_ips, ip_from_seed, set_last_bit, host_in, broadcast,
  ip_lease_exists,
}

-- The bytes that are masked next; `prev` is the address of the last try.
unfoldable pub next_rnd4 : Env → List ℕ → ℕ → List ℕ → List ℕ
next_rnd4 env seed max_loops prev =
    if max_loops == max_ip_tries
    then seed
    else if ltb max_loops (max_ip_tries - fixed_ips)
    then env.random4 max_loops
    else ip_from_seed env prev 4

-- The network and the mask of the client: its own, or those of the virtual host.
unfoldable pub ipv4_config : Proc → Option (List ℕ) × Option (List ℕ)
ipv4_config p = elim p.config.ipv4_net [
  | none ↦ (p.network.ipv4, p.network.ipv4_netmask)
  | some net ↦ elim p.config.ipv4_netmask [
    | none ↦ (p.network.ipv4, p.network.ipv4_netmask)
    | some mask ↦ (some net, some mask)
  ]
]

module _ (D : Table IpLease) where
  unfoldable pub is_ipv4_ok : D.Rep → List ℕ → List ℕ → List ℕ → Bool
  is_ipv4_ok db ip net mask =
      not (ip_lease_exists D db ip || bytes_eq ip net || bytes_eq ip (broadcast net mask))

  -- The loop over the tries: the first argument is `max_loops`.
  unfoldable pub pick_ipv4 :
      D.Rep → Env → List ℕ → List ℕ → List ℕ → ℕ → List ℕ → ℤ × Option IpLease
  pick_ipv4 db env seed network mask zero prev = (err_no_ip, none)
  pick_ipv4 db env seed network mask (suc left) prev =
      let ip = host_in network mask (next_rnd4 env seed (suc left) prev) in
      let lip = set_last_bit 3 network in
      let rest = pick_ipv4 db env seed network mask left ip in
      if not (is_ipv4_ok db ip network mask)
      then rest
      else if bytes_eq lip ip
      then rest
      else if env.silent4 (suc left) ip
      then (
        pos 0,
        some (record {
          sig = ip;
          rip = ip;
          lip = lip;
          prefix = 0;
          in_db = true;
          registered = false;
        }),
      )
      else rest

  unfoldable pub explicit_ipv4_lease : D.Rep → List ℕ → List ℕ → List ℕ → ℤ × Option IpLease
  explicit_ipv4_lease db network mask ip =
      let lip = set_last_bit 3 network in
      if not (is_ipv4_ok db ip network mask) || bytes_eq lip ip then (err_no_ip, none) else (
        pos 0,
        some (record {
          sig = ip;
          rip = ip;
          lip = lip;
          prefix = 0;
          in_db = false;
          registered = false;
        }),
      )

  -- The lease in the network that was read.
  unfoldable pub ipv4_lease_in : D.Rep → Env → Proc → List ℕ → List ℕ → ℤ × Option IpLease
  ipv4_lease_in db env p network mask = elim p.config.explicit_ipv4 [
    | none ↦
        if env.mem
        then pick_ipv4 db env p.ipv4_seed network mask max_ip_tries []
        else (err_mem, none)
    | some text ↦ elim (env.inet_pton4 text) [
      | none ↦ (negsuc 0, none)
      | some ip ↦ if env.mem then explicit_ipv4_lease db network mask ip else (err_mem, none)
    ]
  ]

  -- The result, and what `proc->ipv4` is afterwards.
  unfoldable pub get_ipv4_lease : D.Rep → Env → Proc → ℤ × Option IpLease
  get_ipv4_lease db env p =
      let (c_network, c_netmask) = ipv4_config p in
      elim c_network [
        | none ↦ (pos 0, none)
        | some net ↦ elim c_netmask [
          | none ↦ (pos 0, none)
          | some m ↦ elim (env.inet_pton4 net) [
            | none ↦ (negsuc 0, none)
            | some network ↦ elim (env.inet_pton4 m) [
              | none ↦ (negsuc 0, none)
              | some mask ↦ ipv4_lease_in db env p (and_bytes network mask) mask
            ]
          ]
        ]
      ]
