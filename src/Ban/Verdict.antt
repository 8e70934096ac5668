-- ===== src/Ban/Verdict.antt =====
-- What it takes for add_str_ip_to_ban_list to say that an address is banned.
use ocserv_ppa.Base.{
  ℕ, ◌≡◌, ◌≤◌, true, false, List, Option, none, some, arith, ◌==◌, if◌then◌else◌, inl, inr,
  Option-cases,
}
use ocserv_ppa.Base.Int.{is_neg}
use ocserv_ppa.Base.Bytes.{bytes_eq_refl}
use ocserv_ppa.Base.Table.{Table}
use ocserv_ppa.Ban.{
  BanConfig, BanEntry, add_score, ban_result, contains, current_entry, valid_size,
  massage_ipv6_address, with_entry, add_key_to_ban_list, add_ip_to_ban_list, add_str_ip_to_ban_list,
  get_entry,
}
use ocserv_ppa.Ban.Lookup.{get-add_ip_to_ban_list}

-- The C library's parser for the family of the address.
abbrev pub parse_ip :
    (List ℕ → Option (List ℕ)) → (List ℕ → Option (List ℕ)) → List ℕ → Option (List ℕ)
parse_ip pton6 pton4 ip = if contains b':' ip then pton6 ip else pton4 ip

module _ (D : Table BanEntry) (c : BanConfig) where
  add_ip-enabled :
      (now : ℕ) (db : D.Rep) (ip : List ℕ) (points : ℕ)
      → is_neg (add_ip_to_ban_list D c now (some db) ip points).0 ≡ true
      → (c.max_ban_score == 0 ≡ false) × (valid_size ip ≡ true)
  unfolding add_ip_to_ban_list
  add_ip-enabled now db ip points h = ground (arith, h)

  add_ip-room :
      (now : ℕ) (db : D.Rep) (ip : List ℕ) (points : ℕ)
      → with_entry D c now (massage_ipv6_address ip) db ≡ none
      → is_neg (add_ip_to_ban_list D c now (some db) ip points).0 ≡ false
  unfolding add_ip_to_ban_list add_key_to_ban_list
  add_ip-room now db ip points h = ground (arith, h)

  ban_result-score : (e : BanEntry) → is_neg (ban_result c e) ≡ true → c.max_ban_score ≤ e.score
  unfolding ban_result
  ban_result-score e h = ground (arith, h)

  add_ip-banned :
      (now : ℕ) (db : D.Rep) (ip : List ℕ) (points : ℕ)
      → is_neg (add_ip_to_ban_list D c now (some db) ip points).0 ≡ true
      → (e : BanEntry) × (get_entry D
            (add_ip_to_ban_list D c now (some db) ip points).1
            (massage_ipv6_address ip)
          ≡ some e)
        × (c.max_ban_score ≤ e.score)
  add_ip-banned now db ip points h =
      let key = massage_ipv6_address ip in
      elim (Option-cases (with_entry D c now key db)) [
        | inl none_left ↦ absurd (ground (arith, h, add_ip-room now db ip points none_left))
        | inr (db', room) ↦
            (let (on, sized) = add_ip-enabled now db ip points h in
              let e = add_score c now points (current_entry c now (D.get key db)) in
              let (r, found) =
                get-add_ip_to_ban_list D c now ip key points db db' (ground (arith, on)) sized
                  room in
              (e, ground (arith, found, bytes_eq_refl key), ban_result-score e (rw (← r) h)))
      ]

  -- Where an address is said to be banned, its text is that of an address, whose entry in the table
  -- has the score for it.
  pub add_str_ip-banned :
      (pton6 pton4 : List ℕ → Option (List ℕ)) (now : ℕ) (db : Option D.Rep) (ip : List ℕ)
      (points : ℕ)
      → is_neg (add_str_ip_to_ban_list D c pton6 pton4 now db ip points).0 ≡ true
      → (addr : List ℕ) × (e : BanEntry) × (parse_ip pton6 pton4 ip ≡ some addr)
        × (get_entry D
              (add_str_ip_to_ban_list D c pton6 pton4 now db ip points).1
              (massage_ipv6_address addr)
            ≡ some e)
        × (c.max_ban_score ≤ e.score)
  unfolding add_str_ip_to_ban_list
  add_str_ip-banned pton6 pton4 now none ip points h = absurd (ground (arith, h))
  add_str_ip-banned pton6 pton4 now (some db) ip points h =
      elim (Option-cases (parse_ip pton6 pton4 ip)) [
        | inl e ↦ absurd (ground (arith, h, e))
        | inr (addr, parsed) ↦
            (let banned : is_neg (add_ip_to_ban_list D c now (some db) addr points).0 ≡ true =
                ground (arith, h, parsed) in
              let (e, found, score) = add_ip-banned now db addr points banned in
              (addr, e, parsed, ground (arith, h, parsed, found), score))
      ]
