-- ===== src/Ban.antt =====
-- src/main-ban.c: the scores of client addresses, and the bans that follow from them. An address is
-- its bytes (4 or 16 of them); the table's key is the address with an IPv6 host part cleared. Times
-- are seconds and do not wrap; `score` is an `unsigned` of 32 bits. Every function takes what
-- `time(0)` returns as an argument, one for each call. A NULL address is the empty one. An entry that
-- cannot be allocated and one that the table refuses both leave the table as it was.
pub mod Lookup
pub mod Verdict
mod Tests
pub mod Attempts
pub mod Cleanup
pub mod Network
pub mod Score
use ocserv_ppa.Base.{
  ℕ, ◌+◌, ◌%◌, ◌^◌, ◌++◌, Bool, true, false, ◌&&◌, ◌||◌, not, List, [], ◌∷◌, Option, none, some,
  ltb, leb, ◌==◌, if◌then◌else◌, length, take, replicate,
}
use ocserv_ppa.Base.Int.{ℤ, pos, negsuc}
use ocserv_ppa.Base.Table.{Table}

-- The fields of `struct cfg_st` that the bans read.
pub record BanConfig : Type 0 where
  pub max_ban_score : ℕ
  pub min_reauth_time : ℕ
  pub ban_reset_time : ℕ
  pub ban_points_connect : ℕ

-- `ban_entry_st`; its `ip` is the key.
pub record BanEntry : Type 0 where
  pub score : ℕ
  pub last_reset : ℕ
  pub expires : ℕ

-- An IPv6 /64 counts as a single address.
unfoldable pub massage_ipv6_address : List ℕ → List ℕ
massage_ipv6_address ip = if length ip == 16 then take 8 ip ++ replicate 8 0 else ip

abbrev pub valid_size : List ℕ → Bool
valid_size ip = length ip == 4 || length ip == 16

-- A new entry, as `talloc_zero` and the assignment to `last_reset` leave it.
abbrev pub new_entry : ℕ → BanEntry
new_entry now = record { score = 0; last_reset = now; expires = 0 }

module _ (c : BanConfig) where
  -- An old score is forgotten.
  unfoldable pub reset_score : ℕ → BanEntry → BanEntry
  reset_score now e =
      if ltb (e.last_reset + c.ban_reset_time) now
      then record e { score = 0; last_reset = now }
      else e

  -- A client that is banned already keeps its expiration time.
  unfoldable pub add_score : ℕ → ℕ → BanEntry → BanEntry
  add_score now points e = record e {
    expires = if ltb e.score c.max_ban_score then now + c.min_reauth_time else e.expires;
    score = (e.score + points) % 2 ^ 32;
  }

  -- -1 for an address that is banned now.
  unfoldable pub ban_result : BanEntry → ℤ
  ban_result e = if ltb 0 c.max_ban_score && leb c.max_ban_score e.score then negsuc 0 else pos 0

  -- The entry that counts from now on: a new one for an address that is not in the table.
  unfoldable pub current_entry : ℕ → Option BanEntry → BanEntry
  current_entry now none = new_entry now
  current_entry now (some e) = reset_score now e

  -- The verdict on the entry of a client that connects.
  pub is_banned : ℕ → Option BanEntry → Bool
  is_banned now none = false
  is_banned now (some e) = not (ltb e.expires now) && leb c.max_ban_score e.score

  -- An entry goes when its ban is over and its score has run out.
  abbrev pub is_stale : ℕ → BanEntry → Bool
  is_stale now e = leb e.expires now && ltb (e.last_reset + c.ban_reset_time) now

-- `strchr` finds the byte.
unfoldable pub contains : ℕ → List ℕ → Bool
contains b [] = false
contains b (x ∷ xs) = x == b || contains b xs

-- `htable_get` on the server's table.
abbrev pub get_entry : (D : Table BanEntry) → Option D.Rep → List ℕ → Option BanEntry
get_entry D none key = none
get_entry D (some db) key = D.get key db

module _ (D : Table BanEntry) (c : BanConfig) where
  -- The entry in the table is written over by the one with the new score.
  unfoldable pub score_entry : ℕ → List ℕ → ℕ → BanEntry → D.Rep → ℤ × D.Rep
  score_entry now key points e db =
      let e' = add_score c now points e in (ban_result c e', D.put key e' db)

  -- A new address is added first, which may fail.
  unfoldable pub with_entry : ℕ → List ℕ → D.Rep → Option D.Rep
  with_entry now key db = elim (D.get key db) [
    | none ↦ D.add key (new_entry now) db
    | some e ↦ some db
  ]

  unfoldable pub add_key_to_ban_list : ℕ → List ℕ → ℕ → D.Rep → ℤ × Option D.Rep
  add_key_to_ban_list now key points db = elim (with_entry now key db) [
    | none ↦ (pos 0, some db)
    | some db' ↦
        (let (r, d) = score_entry now key points (current_entry c now (D.get key db)) db' in
          (r, some d))
  ]

  unfoldable pub add_ip_to_ban_list : ℕ → Option D.Rep → List ℕ → ℕ → ℤ × Option D.Rep
  add_ip_to_ban_list now none ip points = (pos 0, none)
  add_ip_to_ban_list now (some db) ip points =
      if c.max_ban_score == 0 || not (valid_size ip)
      then (pos 0, some db)
      else add_key_to_ban_list now (massage_ipv6_address ip) points db

  -- `inet_pton` for the two families, of the C library.
  unfoldable pub add_str_ip_to_ban_list :
      (List ℕ → Option (List ℕ))
      → (List ℕ → Option (List ℕ))
      → ℕ
      → Option D.Rep
      → List ℕ
      → ℕ
      → ℤ × Option D.Rep
  add_str_ip_to_ban_list pton6 pton4 now none ip points = (pos 0, none)
  add_str_ip_to_ban_list pton6 pton4 now (some db) ip points =
      if c.max_ban_score == 0 || length ip == 0
      then (pos 0, some db)
      else elim (if contains b':' ip then pton6 ip else pton4 ip) [
        | none ↦ (pos 0, some db)
        | some addr ↦ add_ip_to_ban_list now (some db) addr points
      ]

  -- The points of the connection are added first. `now` and `now'` are the two readings of the clock.
  pub check_if_banned : ℕ → ℕ → Option D.Rep → List ℕ → Bool × Option D.Rep
  check_if_banned now now' none ip = (false, none)
  check_if_banned now now' (some db) ip =
      let key = massage_ipv6_address ip in
      if c.max_ban_score == 0 || not (valid_size ip)
      then (false, some db)
      else (let (r, m) = add_ip_to_ban_list now (some db) key c.ban_points_connect in
          (is_banned c now' (get_entry D m key), m))

  pub cleanup_banned_entries : ℕ → Option D.Rep → Option D.Rep
  cleanup_banned_entries now none = none
  cleanup_banned_entries now (some db) = some (D.sweep (is_stale c now) db)

module _ (D : Table BanEntry) where
  remove_key_from_ban_list : List ℕ → D.Rep → Bool × Option D.Rep
  remove_key_from_ban_list key db = elim (D.get key db) [
    | none ↦ (false, some db)
    | some e ↦ (true, some (D.put key (record e { score = 0; expires = 0 }) db))
  ]

  -- The result says whether there was an entry.
  pub remove_ip_from_ban_list : Option D.Rep → List ℕ → Bool × Option D.Rep
  remove_ip_from_ban_list none ip = (false, none)
  remove_ip_from_ban_list (some db) ip =
      if valid_size ip
      then remove_key_from_ban_list (massage_ipv6_address ip) db
      else (false, some db)
