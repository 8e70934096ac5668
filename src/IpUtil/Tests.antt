-- ===== src/IpUtil/Tests.antt =====
-- The theorems on routes at concrete texts.
use ocserv_ppa.Base.{ℕ, ◌+◌, ◌-◌, List, [], ◌∷◌, some, drop, get_or}
use ocserv_ppa.IpUtil.{Libc}

-- Texts of addresses are a dot and the bytes; numbers have one digit.
abbrev libc : Libc
libc = record {
  inet_ntop4 = λ m. some (46 ∷ m);
  inet_pton4 = λ t. some (drop 1 t);
  atoi = λ t. get_or t 0 0 - 48;
  print_int = λ n. (n + 48) ∷ [];
}

-- "10.0"
abbrev address : List ℕ
address = 49 ∷ 48 ∷ 46 ∷ 48 ∷ []

-- "8"
abbrev eight : List ℕ
eight = 56 ∷ []
