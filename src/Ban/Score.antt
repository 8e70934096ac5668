-- ===== src/Ban/Score.antt =====
-- How scores grow, when a client is banned, and for how long.
use ocserv_ppa.Base.{
  ℕ, ◌+◌, ◌^◌, ◌<◌, ◌≤◌, ◌≡◌, refl, ◌≢◌, true, false, List, Option, none, some, arith,
  if◌then◌else◌,
}
use ocserv_ppa.Base.Bytes.{bytes_eq, bytes_eq_refl}
use ocserv_ppa.Base.Table.{Table}
use ocserv_ppa.Ban.{
  BanConfig, BanEntry, reset_score, add_score, valid_size, is_banned, massage_ipv6_address,
  current_entry, with_entry, add_ip_to_ban_list, get_entry, check_if_banned,
}
use ocserv_ppa.Ban.Network.{massage-massage, valid_size-massage}
use ocserv_ppa.Ban.Lookup.{get-add_ip_to_ban_list}

module _ (D : Table BanEntry) (c : BanConfig) where
  -- The host part of an address does not matter.
  pub add_ip_to_ban_list-massage :
      (now : ℕ) (m : Option D.Rep) (ip : List ℕ) (points : ℕ)
      → add_ip_to_ban_list D c now m (massage_ipv6_address ip) points
        ≡ add_ip_to_ban_list D c now m ip points
  unfolding add_ip_to_ban_list
  add_ip_to_ban_list-massage now none ip points = refl
  add_ip_to_ban_list-massage now (some db) ip points = simp (massage-massage, valid_size-massage)

  check_if_banned-enabled :
      (now now' : ℕ) (ip : List ℕ) (db : D.Rep)
      → c.max_ban_score ≢ 0
      → valid_size ip ≡ true
      → let m = (add_ip_to_ban_list D c now (some db) ip c.ban_points_connect).1 in
        check_if_banned D c now now' (some db) ip
        ≡ (is_banned c now' (get_entry D m (massage_ipv6_address ip)), m)
  unfolding check_if_banned
  check_if_banned-enabled now now' ip db on sized =
      rw (add_ip_to_ban_list-massage now (some db) ip c.ban_points_connect) (ground arith)

  -- A check adds the points of the connection, and judges the entry as they leave it.
  pub check_if_banned-verdict :
      (now now' : ℕ) (ip j : List ℕ) (db db' : D.Rep)
      → c.max_ban_score ≢ 0
      → valid_size ip ≡ true
      → with_entry D c now (massage_ipv6_address ip) db ≡ some db'
      → let key = massage_ipv6_address ip in
        let e = add_score c now c.ban_points_connect (current_entry c now (D.get key db)) in
        let (banned, m) = check_if_banned D c now now' (some db) ip in
        (banned ≡ is_banned c now' (some e))
        × (get_entry D m j ≡ (if bytes_eq key j then some e else D.get j db))
  check_if_banned-verdict now now' ip j db db' on sized room =
      rw (check_if_banned-enabled now now' ip db on sized) (
        ground (
          arith,
          get-add_ip_to_ban_list D c now ip (massage_ipv6_address ip) c.ban_points_connect db db' on
              sized room,
          bytes_eq_refl (massage_ipv6_address ip),
        ),
        (get-add_ip_to_ban_list D c now ip j c.ban_points_connect db db' on sized room).1,
      )

  -- Where bans are on, a client whose score reached the maximum and still counts is refused by a
  -- check until its ban expires; the check adds the points of the connection and does not move the
  -- time of expiry. (The score with them is below 2^32.)
  pub check_if_banned-holds :
      (now now' : ℕ) (ip : List ℕ) (db : D.Rep) (e : BanEntry)
      → c.max_ban_score ≢ 0
      → valid_size ip ≡ true
      → D.get (massage_ipv6_address ip) db ≡ some e
      → c.max_ban_score ≤ e.score
      → e.score + c.ban_points_connect < 2 ^ 32
      → now ≤ e.last_reset + c.ban_reset_time
      → now' ≤ e.expires
      → let (banned, m) = check_if_banned D c now now' (some db) ip in
        (banned ≡ true)
        × (get_entry D m (massage_ipv6_address ip)
            ≡ some (record e { score = e.score + c.ban_points_connect }))
  unfolding with_entry is_banned current_entry add_score reset_score
  check_if_banned-holds now now' ip db e on sized found over room window early = ground (
    arith,
    check_if_banned-verdict now now' ip (massage_ipv6_address ip) db db on sized,
    bytes_eq_refl (massage_ipv6_address ip),
  )

  -- Where bans are on, a client whose score reached the maximum is let in when its ban has expired,
  -- though its score still counts.
  pub check_if_banned-expired :
      (now now' : ℕ) (ip : List ℕ) (db : D.Rep) (e : BanEntry)
      → c.max_ban_score ≢ 0
      → valid_size ip ≡ true
      → D.get (massage_ipv6_address ip) db ≡ some e
      → c.max_ban_score ≤ e.score
      → now ≤ e.last_reset + c.ban_reset_time
      → e.expires < now'
      → (check_if_banned D c now now' (some db) ip).0 ≡ false
  unfolding with_entry is_banned current_entry add_score reset_score
  check_if_banned-expired now now' ip db e on sized found over window late =
      ground (arith, check_if_banned-verdict now now' ip (massage_ipv6_address ip) db db on sized)
