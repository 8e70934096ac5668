-- ===== src/Ban/Attempts.antt =====
-- A series of attempts from one address.
use ocserv_ppa.Base.{
  ℕ, ◌+◌, ◌^◌, ◌<◌, ◌≤◌, ◌≡◌, refl, ◌≢◌, true, List, [], ◌∷◌, Option, some, arith, All,
}
use ocserv_ppa.Base.Bytes.{bytes_eq_refl}
use ocserv_ppa.Base.Table.{Table}
use ocserv_ppa.Ban.{
  BanConfig, BanEntry, reset_score, add_score, valid_size, massage_ipv6_address, current_entry,
  with_entry, score_entry, add_ip_to_ban_list, get_entry,
}
use ocserv_ppa.Ban.Lookup.{get-score_entry, add_ip_to_ban_list-enabled}

-- Attempts are times and points, the first one first.
abbrev pub total_points : List (ℕ × ℕ) → ℕ
total_points [] = 0
total_points ((now, points) ∷ ps) = points + total_points ps

module _ (D : Table BanEntry) (c : BanConfig) where
  pub attempts : List ℕ → Option D.Rep → List (ℕ × ℕ) → Option D.Rep
  attempts ip m [] = m
  attempts ip m ((now, points) ∷ ps) = attempts ip (add_ip_to_ban_list D c now m ip points).1 ps

  one_attempt :
      (now : ℕ) (ip : List ℕ) (points : ℕ) (db : D.Rep) (e : BanEntry)
      → c.max_ban_score ≢ 0
      → valid_size ip ≡ true
      → D.get (massage_ipv6_address ip) db ≡ some e
      → now ≤ e.last_reset + c.ban_reset_time
      → (d : D.Rep) × ((add_ip_to_ban_list D c now (some db) ip points).1 ≡ some d)
        × (D.get (massage_ipv6_address ip) d ≡ some (add_score c now points e))
  unfolding with_entry current_entry reset_score
  one_attempt now ip points db e on sized found window = (
    (score_entry D c now key points e db).1,
    ground (arith, add_ip_to_ban_list-enabled D c now ip points db db on sized (ground arith)),
    rw (get-score_entry D c now key key points e e db found, bytes_eq_refl key),
  )
    where
      key : List ℕ
      key = massage_ipv6_address ip

  -- Where bans are on, every attempt of a known address within the reset time of its entry counts:
  -- the score is the old one and the sum of the points, and the start of the count stays. (The sum
  -- is below 2^32.)
  pub score-attempts :
      (ip : List ℕ) (db : D.Rep) (e : BanEntry) (ps : List (ℕ × ℕ))
      → c.max_ban_score ≢ 0
      → valid_size ip ≡ true
      → D.get (massage_ipv6_address ip) db ≡ some e
      → All (λ a. a.0 ≤ e.last_reset + c.ban_reset_time) ps
      → e.score + total_points ps < 2 ^ 32
      → (e' : BanEntry) × (get_entry D (attempts ip (some db) ps) (massage_ipv6_address ip)
          ≡ some e')
        × (e'.score ≡ e.score + total_points ps)
        × (e'.last_reset ≡ e.last_reset)
  unfolding attempts add_score
  score-attempts ip db e [] on sized found window small = (e, found, omega arith, refl)
  score-attempts ip db e ((now, points) ∷ ps) on sized found window small =
      let (d, added, found') = one_attempt now ip points db e on sized found window.0 in
      let (e', left, sum, start) =
        score-attempts ip d (add_score c now points e) ps on sized found' window.1 (omega arith) in
      rw added (e', left, omega arith, start)
