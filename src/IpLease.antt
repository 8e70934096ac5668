-- ===== src/IpLease.antt =====
-- src/ip-lease.c: the main process leases addresses to the clients from the networks of the
-- configuration, and keeps the leases in a table by their `sig`: the address for IPv4, the network of
-- the client for IPv6. An address is its bytes, 4 or 16 of them, which stand for `rip_len` too.
pub mod Ipv4
pub mod Ipv6
pub mod Leases
mod Tests
use ocserv_ppa.Base.{
  ℕ, zero, suc, ◌-◌, Bool, true, false, ◌&&◌, ◌||◌, not, List, [], ◌∷◌, ◌++◌, Option, none, some,
  ltb, ◌==◌, if◌then◌else◌, take, drop, replicate,
}
use Prim.Native.Nat.{bit_or}
use ocserv_ppa.Base.Int.{ℤ, pos, negsuc, is_neg, err_mem, err_no_ip}
use ocserv_ppa.Base.Bytes.{bytes_eq}
use ocserv_ppa.Base.Table.{Table}
use ocserv_ppa.Base.Masks.{and_bytes, or_bytes, not_bytes}
use ocserv_ppa.IpUtil.{ipv6_prefix_to_mask}

-- `ip_lease_st`. `in_db` is `db != NULL`; `registered` says that the lease has the destructor that
-- takes it out of the table.
pub record IpLease : Type 0 where
  pub sig : List ℕ
  pub rip : List ℕ
  pub lip : List ℕ
  pub prefix : ℕ
  pub in_db : Bool
  pub registered : Bool

-- The fields of the client's configuration and of that of the virtual host that are read.
pub record ProcConfig : Type 0 where
  pub ipv4_net : Option (List ℕ)
  pub ipv4_netmask : Option (List ℕ)
  pub explicit_ipv4 : Option (List ℕ)
  pub ipv6_net : Option (List ℕ)
  pub ipv6_prefix : ℕ
  pub ipv6_subnet_prefix : ℕ
  pub explicit_ipv6 : Option (List ℕ)

pub record NetworkConfig : Type 0 where
  pub ipv4 : Option (List ℕ)
  pub ipv4_netmask : Option (List ℕ)
  pub ipv6 : Option (List ℕ)
  pub ipv6_prefix : ℕ
  pub ipv6_subnet_prefix : ℕ

-- `proc_st`: the leases of a client.
pub record Proc : Type 0 where
  pub config : ProcConfig
  pub network : NetworkConfig
  pub ipv4_seed : List ℕ
  pub ipv4 : Option IpLease
  pub ipv6 : Option IpLease

-- What the code asks of the system: the parser of addresses, SHA-1, random bytes (by the number of
-- tries that are left), whether an address is free of answers to a ping, and whether there is memory
-- for a lease.
pub record Env : Type 0 where
  pub inet_pton4 : List ℕ → Option (List ℕ)
  pub inet_pton6 : List ℕ → Option (List ℕ)
  pub sha1 : List ℕ → List ℕ
  pub random4 : ℕ → List ℕ
  pub random6 : ℕ → List ℕ
  pub silent4 : ℕ → List ℕ → Bool
  pub silent6 : ℕ → List ℕ → Bool
  pub mem : Bool

abbrev pub max_ip_tries : ℕ
max_ip_tries = 16

abbrev pub fixed_ips : ℕ
fixed_ips = 5

unfoldable pub ip_from_seed : Env → List ℕ → ℕ → List ℕ
ip_from_seed env seed size = take size (env.sha1 seed)

-- `SA_IN_U8_P(&lip)[i] |= 1`
unfoldable pub set_last_bit : ℕ → List ℕ → List ℕ
set_last_bit i [] = []
set_last_bit zero (x ∷ xs) = bit_or x 1 ∷ xs
set_last_bit (suc i) (x ∷ xs) = x ∷ set_last_bit i xs

-- The host bits of `rnd` in the network.
unfoldable pub host_in : List ℕ → List ℕ → List ℕ → List ℕ
host_in network mask rnd = or_bytes (and_bytes rnd (not_bytes mask)) network

unfoldable pub broadcast : List ℕ → List ℕ → List ℕ
broadcast network mask = or_bytes network (not_bytes mask)

module _ (D : Table IpLease) where
  unfoldable pub ip_lease_exists : D.Rep → List ℕ → Bool
  ip_lease_exists db sig = elim (D.get sig db) [ none ↦ false | some l ↦ true ]
