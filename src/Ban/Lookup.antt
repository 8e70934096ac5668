-- ===== src/Ban/Lookup.antt =====
-- What add_ip_to_ban_list leaves in the table.
use ocserv_ppa.Base.{
  ℕ, ◌≡◌, refl, ◌≢◌, true, List, Option, none, some, arith, if◌then◌else◌, inl, inr, Option-cases,
}
use ocserv_ppa.Base.Bytes.{bytes_eq, bytes_eq_refl, bytes_eq_sound}
use ocserv_ppa.Base.Table.{Table}
use ocserv_ppa.Ban.{
  BanConfig, BanEntry, new_entry, add_score, ban_result, valid_size, massage_ipv6_address,
  score_entry, current_entry, with_entry, add_ip_to_ban_list, add_key_to_ban_list, get_entry,
}

abbrev pub found_or_new : ℕ → Option BanEntry → BanEntry
found_or_new now none = new_entry now
found_or_new now (some e) = e

module _ (D : Table BanEntry) (c : BanConfig) where
  -- After the entry is looked up or added, the table holds it, and nothing else has changed.
  pub get-with_entry :
      (now : ℕ) (key j : List ℕ) (db db' : D.Rep)
      → with_entry D c now key db ≡ some db'
      → D.get j db'
        ≡ (if bytes_eq key j then some (found_or_new now (D.get key db)) else D.get j db)
  unfolding with_entry
  get-with_entry now key j db db' h = elim (Option-cases (D.get key db)) [
    | inl e ↦ ground (arith, e, D.get-add key j (new_entry now) db db', bytes_eq_sound key j)
    | inr (v, e) ↦ ground (arith, e, bytes_eq_sound key j)
  ]

  pub get-score_entry :
      (now : ℕ) (key j : List ℕ) (points : ℕ) (e old : BanEntry) (db : D.Rep)
      → D.get key db ≡ some old
      → D.get j (score_entry D c now key points e db).1
        ≡ (if bytes_eq key j then some (add_score c now points e) else D.get j db)
  unfolding score_entry
  get-score_entry now key j points e old db h =
      ground (arith, D.get-put key j (add_score c now points e) db, bytes_eq_sound key j)

  pub add_ip_to_ban_list-enabled :
      (now : ℕ) (ip : List ℕ) (points : ℕ) (db db' : D.Rep)
      → c.max_ban_score ≢ 0
      → valid_size ip ≡ true
      → with_entry D c now (massage_ipv6_address ip) db ≡ some db'
      → let key = massage_ipv6_address ip in
        let e = current_entry c now (D.get key db) in
        add_ip_to_ban_list D c now (some db) ip points
        ≡ (ban_result c (add_score c now points e), some (score_entry D c now key points e db').1)
  unfolding add_ip_to_ban_list add_key_to_ban_list score_entry
  add_ip_to_ban_list-enabled now ip points db db' on sized room = ground arith

  -- The key's entry is the current one with the points; the other entries stay.
  pub get-add_ip_to_ban_list :
      (now : ℕ) (ip j : List ℕ) (points : ℕ) (db db' : D.Rep)
      → c.max_ban_score ≢ 0
      → valid_size ip ≡ true
      → with_entry D c now (massage_ipv6_address ip) db ≡ some db'
      → let key = massage_ipv6_address ip in
        let e = add_score c now points (current_entry c now (D.get key db)) in
        let (r, m) = add_ip_to_ban_list D c now (some db) ip points in
        (r ≡ ban_result c e) × (get_entry D m j ≡ (if bytes_eq key j then some e else D.get j db))
  get-add_ip_to_ban_list now ip j points db db' on sized room =
      rw (add_ip_to_ban_list-enabled now ip points db db' on sized room) (
        refl,
        ground (
          arith,
          get-with_entry now key j db db' room,
          get-score_entry now key j points e (found_or_new now (D.get key db)) db' found,
        ),
      )
    where
      key : List ℕ
      key = massage_ipv6_address ip

      e : BanEntry
      e = current_entry c now (D.get key db)

      found : D.get key db' ≡ some (found_or_new now (D.get key db))
      found = rw (get-with_entry now key key db db' room, bytes_eq_refl key)
