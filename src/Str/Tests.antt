-- ===== src/Str/Tests.antt =====
-- Buffers at concrete values.
use ocserv_ppa.Base.{ℕ, ◌≡◌, refl, Bool, List, [], ◌∷◌, none, some, ltb}
use ocserv_ppa.Base.Bytes.{bytes_eq}
use ocserv_ppa.Str.{
  Str, text, write_at, to_front, resize, put, str_append_size, str_append_data, str_append_str,
  StrRepTab, find_pattern, find_percent, replace_at, str_replace_from, str_replace_str,
  trim_trailing_whitespace,
}
use ocserv_ppa.Str.Pass.{expand}

-- An allocator that gives up to a megabyte.
abbrev alloc : ℕ → Bool
alloc n = ltb n 1000000

-- "u=%{U}"
abbrev greeting : Str
greeting = record {
  memory = b'u' ∷ b'=' ∷ b'%' ∷ b'{' ∷ b'U' ∷ b'}' ∷ 0 ∷ 0 ∷ 0 ∷ 0 ∷ [];
  unused = 0;
  max_length = 9;
  length = 6;
}

abbrev user : List ℕ → StrRepTab
user name = record { pattern = b'%' ∷ b'{' ∷ b'U' ∷ b'}' ∷ []; rep_val = name }

-- The user is "bo".
greeted :
    expand (user (b'b' ∷ b'o' ∷ []) ∷ []) 0 (text greeting) ≡ some (b'u' ∷ b'=' ∷ b'b' ∷ b'o' ∷ [])
unfolding expand find_pattern bytes_eq
greeted = refl

-- The user is "%{U}": the turns run out.
endless : str_replace_str alloc 0 (user (b'%' ∷ b'{' ∷ b'U' ∷ b'}' ∷ []) ∷ []) 20 greeting ≡ none
unfolding str_replace_str str_replace_from find_pattern find_percent bytes_eq replace_at
    str_append_str str_append_data str_append_size put resize to_front write_at
endless = refl

trimmed : trim_trailing_whitespace (32 ∷ 65 ∷ 32 ∷ 9 ∷ []) ≡ 32 ∷ 65 ∷ []
unfolding trim_trailing_whitespace
trimmed = refl
