-- ===== src/Ban/Tests.antt =====
-- The theorems on bans at a concrete table.
use ocserv_ppa.Base.{ℕ, ◌≡◌, refl, true, List, [], ◌∷◌, none, some, arith, if◌then◌else◌}
use ocserv_ppa.Base.Int.{negsuc}
use ocserv_ppa.Base.Bytes.{bytes_eq}
use ocserv_ppa.Base.Table.{Table, function_table}
use ocserv_ppa.Ban.{
  BanConfig, BanEntry, add_ip_to_ban_list, add_key_to_ban_list, add_score, ban_result, with_entry,
  score_entry, current_entry, reset_score, check_if_banned, massage_ipv6_address, get_entry,
}
use ocserv_ppa.Ban.Score.{check_if_banned-holds}

abbrev D : Table BanEntry
D = function_table BanEntry

abbrev config : BanConfig
config = record {
  max_ban_score = 80;
  min_reauth_time = 300;
  ban_reset_time = 1200;
  ban_points_connect = 1;
}

abbrev client : List ℕ
client = 192 ∷ 168 ∷ 0 ∷ 1 ∷ []

abbrev banned_entry : BanEntry
banned_entry = record { score = 80; last_reset = 1000; expires = 1400 }

abbrev one_banned : D.Rep
one_banned = λ j. if bytes_eq client j then some banned_entry else none

found_client : D.get (massage_ipv6_address client) one_banned ≡ some banned_entry
unfolding massage_ipv6_address bytes_eq
found_client = refl

check_if_banned-holds_example :
    let (banned, m) = check_if_banned D config 1100 1100 (some one_banned) client in
    (banned ≡ true)
    × (get_entry D m (massage_ipv6_address client)
        ≡ some (record { score = 81; last_reset = 1000; expires = 1400 }))
check_if_banned-holds_example =
    check_if_banned-holds D config 1100 1100 client one_banned banned_entry (omega arith) refl
      found_client (omega arith) (omega arith) (omega arith) (omega arith)

abbrev host1 : List ℕ
host1 = 0x20 ∷ 1 ∷ 0xd ∷ 0xb8 ∷ 0 ∷ 0 ∷ 0 ∷ 1 ∷ 0 ∷ 0 ∷ 0 ∷ 0 ∷ 0 ∷ 0 ∷ 0 ∷ 1 ∷ []

abbrev host2 : List ℕ
host2 = 0x20 ∷ 1 ∷ 0xd ∷ 0xb8 ∷ 0 ∷ 0 ∷ 0 ∷ 1 ∷ 0xff ∷ 0 ∷ 0 ∷ 0 ∷ 0 ∷ 0 ∷ 0 ∷ 9 ∷ []

-- Two wrong passwords of 40 points ban a new client.
bans_new_client :
    (add_ip_to_ban_list D config 20
      (add_ip_to_ban_list D config 10 (some (λ j. none)) client 40).1
      client
      40).0
    ≡ negsuc 0
unfolding add_ip_to_ban_list add_key_to_ban_list with_entry score_entry current_entry reset_score
    add_score ban_result massage_ipv6_address bytes_eq
bans_new_client = refl
