-- ===== src/IpLease/Tests.antt =====
-- The theorems on leases at a concrete network.
use ocserv_ppa.Base.{
  ℕ, ◌≡◌, ◌≢◌, refl, true, false, List, [], ◌∷◌, none, some, replicate, if◌then◌else◌, inl, ap,
}
use ocserv_ppa.Base.Int.{pos}
use ocserv_ppa.Base.Bytes.{bytes_eq}
use ocserv_ppa.Base.Table.{Table, function_table}
use ocserv_ppa.IpUtil.{ipv6_prefix_to_mask, prefix_bytes}
use ocserv_ppa.IpLease.{
  IpLease, Proc, Env, host_in, broadcast, set_last_bit, ip_lease_exists, ip_from_seed,
}
use ocserv_ppa.IpLease.Ipv4.{
  get_ipv4_lease, ipv4_lease_in, ipv4_config, pick_ipv4, is_ipv4_ok, next_rnd4,
}
use ocserv_ppa.IpLease.Ipv4.Valid.{Usable4, get_ipv4_lease-Usable4}
use ocserv_ppa.IpLease.Ipv4.Tries.{is_good, good_try, get_ipv4_lease-found}
use ocserv_ppa.IpLease.Ipv6.{
  get_ipv6_lease, next_rnd6, ipv6_lease_in, ipv6_config, pick_ipv6, is_ipv6_ok, blank_ipv6,
  finish_ipv6, finish_lease, ipv6_lease_from,
}
use ocserv_ppa.IpLease.Leases.{
  get_ip_leases, get_ipv4, get_ipv6, take_lease, register_lease, remove_ip_leases,
}
use ocserv_ppa.IpLease.Leases.Exclusive.{get_ip_leases-exclusive, remove-get_ip_leases}

abbrev D : Table IpLease
D = function_table IpLease

abbrev net : List ℕ
net = 192 ∷ 168 ∷ 1 ∷ 0 ∷ []

abbrev mask : List ℕ
mask = 255 ∷ 255 ∷ 255 ∷ 0 ∷ []

abbrev seed : List ℕ
seed = 1 ∷ 2 ∷ 3 ∷ 77 ∷ []

abbrev address : List ℕ
address = 192 ∷ 168 ∷ 1 ∷ 77 ∷ []

-- Texts are read as the bytes that they are; nobody answers a ping.
abbrev env : Env
env = record {
  inet_pton4 = some;
  inet_pton6 = some;
  sha1 = λ b. replicate 20 9;
  random4 = λ i. replicate 4 5;
  random6 = λ i. replicate 16 5;
  silent4 = λ i ip. true;
  silent6 = λ i ip. true;
  mem = true;
}

abbrev net6 : List ℕ
net6 = 0xfd ∷ replicate 15 0

abbrev client : Proc
client = record {
  config = record {
    ipv4_net = none;
    ipv4_netmask = none;
    explicit_ipv4 = none;
    ipv6_net = none;
    ipv6_prefix = 0;
    ipv6_subnet_prefix = 0;
    explicit_ipv6 = none;
  };
  network = record {
    ipv4 = some net;
    ipv4_netmask = some mask;
    ipv6 = some net6;
    ipv6_prefix = 48;
    ipv6_subnet_prefix = 64;
  };
  ipv4_seed = seed;
  ipv4 = none;
  ipv6 = none;
}

abbrev lease : List ℕ → IpLease
lease ip = record {
  sig = ip;
  rip = ip;
  lip = 192 ∷ 168 ∷ 1 ∷ 1 ∷ [];
  prefix = 0;
  in_db = true;
  registered = false;
}

abbrev other : List ℕ
other = 192 ∷ 168 ∷ 1 ∷ 78 ∷ []

abbrev one_lease : D.Rep
one_lease = λ j. if bytes_eq other j then some (lease other) else none

given : get_ipv4_lease D one_lease env client ≡ (pos 0, some (lease address))
unfolding get_ipv4_lease ipv4_lease_in ipv4_config pick_ipv4 is_ipv4_ok next_rnd4 ip_lease_exists
    host_in broadcast set_last_bit bytes_eq
given = refl

get_ipv4_lease-Usable4_example : Usable4 D one_lease net mask (lease address)
unfolding ipv4_config
get_ipv4_lease-Usable4_example =
    get_ipv4_lease-Usable4 D one_lease env client net mask net mask (lease address) refl refl refl
      refl (ap (λ r. r.1) given)

get_ipv4_lease-found_example :
    (l : IpLease) × (get_ipv4_lease D one_lease env client ≡ (pos 0, some l))
unfolding ipv4_config is_good good_try is_ipv4_ok next_rnd4 ip_lease_exists host_in broadcast
    set_last_bit bytes_eq
get_ipv4_lease-found_example =
    get_ipv4_lease-found D one_lease env client net mask net mask 0 refl refl refl refl refl refl
      refl

-- The SHA-1 of the seed in the network fd00::/48.
abbrev address6 : List ℕ
address6 = 0xfd ∷ 0 ∷ 0 ∷ 0 ∷ 0 ∷ 0 ∷ replicate 10 9

abbrev subnet6 : List ℕ
subnet6 = 0xfd ∷ 0 ∷ 0 ∷ 0 ∷ 0 ∷ 0 ∷ 9 ∷ 9 ∷ replicate 8 0

abbrev lease6 : IpLease
lease6 = record {
  sig = subnet6;
  rip = address6;
  lip = 0xfd ∷ 0 ∷ 0 ∷ 0 ∷ 0 ∷ 0 ∷ 0 ∷ 0 ∷ 0 ∷ 0 ∷ 0 ∷ 0 ∷ 0 ∷ 0 ∷ 0 ∷ 1 ∷ [];
  prefix = 64;
  in_db = true;
  registered = false;
}

given6 : get_ipv6_lease D one_lease env client ≡ (pos 0, some lease6)
unfolding get_ipv6_lease ipv6_lease_in ipv6_config pick_ipv6 is_ipv6_ok next_rnd6 ip_lease_exists
    host_in set_last_bit bytes_eq blank_ipv6 finish_ipv6 finish_lease ipv6_lease_from
    ipv6_prefix_to_mask prefix_bytes ip_from_seed
given6 = refl

abbrev registered : IpLease → IpLease
registered l = record l { registered = true }

taken4 : (get_ip_leases D one_lease env client).1.ipv4 ≡ some (registered (lease address))
unfolding get_ipv4_lease ipv4_lease_in ipv4_config pick_ipv4 is_ipv4_ok next_rnd4 ip_lease_exists
    host_in broadcast set_last_bit bytes_eq get_ipv6_lease ipv6_lease_in ipv6_config pick_ipv6
    is_ipv6_ok next_rnd6 blank_ipv6 finish_ipv6 finish_lease ipv6_lease_from ipv6_prefix_to_mask
    prefix_bytes ip_from_seed get_ip_leases get_ipv4 get_ipv6 take_lease register_lease
taken4 = refl

get_ip_leases-exclusive_example :
    let (ret, p', db') = get_ip_leases D one_lease env client in
    (D.get other db' ≡ some (lease other)) × (other ≢ address)
unfolding bytes_eq
get_ip_leases-exclusive_example =
    get_ip_leases-exclusive D one_lease env client (lease other) (registered (lease address)) refl
      refl refl (inl taken4)

remove-get_ip_leases_example :
    let (ret, p', db') = get_ip_leases D one_lease env client in
    D.get address (remove_ip_leases D db' p').1 ≡ none
unfolding bytes_eq
remove-get_ip_leases_example = remove-get_ip_leases D one_lease env client address refl refl
