-- ===== src/Ban/Cleanup.antt =====
-- Entries that are taken out: by the administrator, and by the periodic cleanup.
use ocserv_ppa.Base.{
  ℕ, ◌+◌, ◌<◌, ◌≤◌, ◌≡◌, refl, ◌≢◌, ◌⊎◌, true, false, List, Option, none, some, arith,
  if◌then◌else◌,
}
use ocserv_ppa.Base.Bytes.{bytes_eq, bytes_eq_refl}
use ocserv_ppa.Base.Table.{Table, unless_some, over_some}
use ocserv_ppa.Ban.{
  BanConfig, BanEntry, reset_score, add_score, valid_size, is_banned, is_stale,
  massage_ipv6_address, current_entry, with_entry, get_entry, check_if_banned,
  remove_ip_from_ban_list, remove_key_from_ban_list, cleanup_banned_entries,
}
use ocserv_ppa.Ban.Score.{check_if_banned-verdict}

module _ (D : Table BanEntry) (c : BanConfig) where
  -- An entry that the cleanup may drop starts again from nothing at the next attempt.
  add_score-stale :
      (now later points : ℕ) (o : Option BanEntry)
      → now ≤ later
      → c.max_ban_score ≢ 0
      → add_score c later points (current_entry c later (unless_some (is_stale c now) o))
        ≡ add_score c later points (current_entry c later o)
  unfolding add_score current_entry reset_score
  add_score-stale now later points none h on = refl
  add_score-stale now later points (some e) h on = ground arith

  -- The cleanup is invisible to later connections: whether it ran or not, a check of an address
  -- gives the same verdict and leaves the same entry for it. (Bans are on, and both tables have
  -- room for a new entry.)
  pub check-cleanup :
      (now later later' : ℕ) (ip : List ℕ) (db d1 d2 : D.Rep)
      → now ≤ later
      → c.max_ban_score ≢ 0
      → valid_size ip ≡ true
      → with_entry D c later (massage_ipv6_address ip) db ≡ some d1
      → with_entry D c later (massage_ipv6_address ip) (D.sweep (is_stale c now) db) ≡ some d2
      → let (banned, m) = check_if_banned D c later later' (some db) ip in
        let (banned', m') =
          check_if_banned D c later later' (cleanup_banned_entries D c now (some db)) ip in
        (banned' ≡ banned)
        × (get_entry D m' (massage_ipv6_address ip) ≡ get_entry D m (massage_ipv6_address ip))
  unfolding cleanup_banned_entries
  check-cleanup now later later' ip db d1 d2 h on sized room1 room2 = ground (
    arith,
    check_if_banned-verdict D c later later' ip (massage_ipv6_address ip) db d1 on sized room1,
    check_if_banned-verdict D c later later' ip (massage_ipv6_address ip)
        (D.sweep (is_stale c now) db) d2 on sized room2,
    D.get-sweep (massage_ipv6_address ip) (is_stale c now) db,
    add_score-stale now later c.ban_points_connect (D.get (massage_ipv6_address ip) db) h on,
    bytes_eq_refl (massage_ipv6_address ip),
  )

  -- The cleanup keeps every entry whose ban has not expired or whose score still counts, as it is.
  pub cleanup_keeps :
      (now : ℕ) (key : List ℕ) (db : D.Rep) (e : BanEntry)
      → D.get key db ≡ some e
      → (now < e.expires) ⊎ (now ≤ e.last_reset + c.ban_reset_time)
      → get_entry D (cleanup_banned_entries D c now (some db)) key ≡ some e
  unfolding cleanup_banned_entries
  cleanup_keeps now key db e found live = ground (arith, D.get-sweep key (is_stale c now) db)

  -- A removed entry counts for nothing until points are added again.
  get-remove :
      (ip j : List ℕ) (db : D.Rep) (e : BanEntry)
      → valid_size ip ≡ true
      → D.get (massage_ipv6_address ip) db ≡ some e
      → (d : D.Rep) × (remove_ip_from_ban_list D (some db) ip ≡ (true, some d))
        × (D.get j d ≡ (
            if bytes_eq (massage_ipv6_address ip) j
            then over_some (record e { score = 0; expires = 0 }) (D.get j db)
            else D.get j db))
  unfolding remove_ip_from_ban_list remove_key_from_ban_list
  get-remove ip j db e sized found = (
    D.put (massage_ipv6_address ip) (record e { score = 0; expires = 0 }) db,
    ground arith,
    D.get-put (massage_ipv6_address ip) j (record e { score = 0; expires = 0 }) db,
  )

  check-removed :
      (now now' : ℕ) (ip : List ℕ) (d : D.Rep) (e : BanEntry)
      → c.max_ban_score ≢ 0
      → valid_size ip ≡ true
      → D.get (massage_ipv6_address ip) d ≡ some e
      → e.score ≡ 0
      → c.ban_points_connect < c.max_ban_score
      → (check_if_banned D c now now' (some d) ip).0 ≡ false
  unfolding with_entry is_banned current_entry add_score reset_score
  check-removed now now' ip d e on sized found zeroed low =
      ground (arith, check_if_banned-verdict D c now now' ip (massage_ipv6_address ip) d d on sized)

  -- A known address that the administrator unbans is let in by the next check, where bans are on
  -- and one connection alone is not worth a ban.
  pub remove-check :
      (now now' : ℕ) (ip : List ℕ) (db : D.Rep) (e : BanEntry)
      → c.max_ban_score ≢ 0
      → valid_size ip ≡ true
      → D.get (massage_ipv6_address ip) db ≡ some e
      → c.ban_points_connect < c.max_ban_score
      → let (found, m) = remove_ip_from_ban_list D (some db) ip in
        (found ≡ true) × ((check_if_banned D c now now' m ip).0 ≡ false)
  remove-check now now' ip db e on sized found low =
      let (d, removed, left) = get-remove ip (massage_ipv6_address ip) db e sized found in
      rw removed (
        refl,
        check-removed now now' ip d (record e { score = 0; expires = 0 }) on sized
            (rw (left, bytes_eq_refl (massage_ipv6_address ip), found)) refl low,
      )
