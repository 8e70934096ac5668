-- ===== src/Ban/Network.antt =====
-- An IPv6 /64 is one address to the bans.
use ocserv_ppa.Base.{
  ℕ, ◌≡◌, refl, Option, none, some, List, ◌++◌, arith, length, take, replicate, length-append,
  length-take, take-append,
}
use ocserv_ppa.Base.Table.{Table}
use ocserv_ppa.Ban.{
  BanConfig, BanEntry, valid_size, massage_ipv6_address, add_ip_to_ban_list, check_if_banned,
  remove_ip_from_ban_list,
}

length-masked : (ip : List ℕ) → length ip ≡ 16 → length (take 8 ip ++ replicate 8 0) ≡ 16
length-masked ip h = omega (arith, length-append (take 8 ip) (replicate 8 0), length-take 8 ip)

pub length-massage : (ip : List ℕ) → length (massage_ipv6_address ip) ≡ length ip
unfolding massage_ipv6_address
length-massage ip = ground (arith, length-masked ip)

pub valid_size-massage : (ip : List ℕ) → valid_size (massage_ipv6_address ip) ≡ valid_size ip
valid_size-massage ip = rw (length-massage ip)

masked-masked : (ip : List ℕ) → length ip ≡ 16 → take 8 (take 8 ip ++ replicate 8 0) ≡ take 8 ip
masked-masked ip h = take-append 8 (take 8 ip) (replicate 8 0) (omega (arith, length-take 8 ip))

pub massage-massage :
    (ip : List ℕ) → massage_ipv6_address (massage_ipv6_address ip) ≡ massage_ipv6_address ip
unfolding massage_ipv6_address
massage-massage ip = ground (arith, length-masked ip, masked-masked ip)

-- Two IPv6 addresses of one /64 have the same entry.
pub massage_same_network :
    (ip ip' : List ℕ)
    → length ip ≡ 16
    → length ip' ≡ 16
    → take 8 ip ≡ take 8 ip'
    → massage_ipv6_address ip ≡ massage_ipv6_address ip'
unfolding massage_ipv6_address
massage_same_network ip ip' h h' e = ground arith

module _ (D : Table BanEntry) (c : BanConfig) where
  -- All hosts of an IPv6 /64 share one entry: adding points for one of them, checking one and
  -- unbanning one does what it does for another.
  pub add_same_network :
      (now now' : ℕ) (m : Option D.Rep) (ip ip' : List ℕ) (points : ℕ)
      → length ip ≡ 16
      → length ip' ≡ 16
      → take 8 ip ≡ take 8 ip'
      → (add_ip_to_ban_list D c now m ip points ≡ add_ip_to_ban_list D c now m ip' points)
        × (check_if_banned D c now now' m ip ≡ check_if_banned D c now now' m ip')
        × (remove_ip_from_ban_list D m ip ≡ remove_ip_from_ban_list D m ip')
  unfolding add_ip_to_ban_list check_if_banned remove_ip_from_ban_list
  add_same_network now now' none ip ip' points h h' e = (refl, refl, refl)
  add_same_network now now' (some db) ip ip' points h h' e =
      rw (massage_same_network ip ip' h h' e, h, h') (refl, refl, refl)
