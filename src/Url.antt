-- ===== src/Url.antt =====
-- escape_url and unescape_url of src/html.c, on bytes. `char` is signed, so that a byte from 128 on is a
-- negative number. What `sscanf` makes of two bytes for "%02x" is an argument. After a percent sign
-- at the end the C code reads the final NUL and the byte after it, which is 0 here.
pub mod RoundTrip
pub mod Html
pub mod Entities
mod Tests
use ocserv_ppa.Base.{
  ℕ, zero, suc, ◌+◌, ◌-◌, ◌/◌, ◌%◌, Bool, true, false, ◌&&◌, ◌||◌, not, List, [], ◌∷◌, ◌++◌, Option,
  none, some, ltb, leb, ◌==◌, if◌then◌else◌, get_or,
}

-- A byte in front of the rest, if there is one.
abbrev pub cons_byte : ℕ → Option (List ℕ) → Option (List ℕ)
cons_byte b none = none
cons_byte b (some bs) = some (b ∷ bs)

-- `skip` bytes of those that come were read already.
unfoldable pub unescape_from : (ℕ → ℕ → Option ℕ) → ℕ → List ℕ → Option (List ℕ)
unescape_from sscanf skip [] = some []
unescape_from sscanf (suc skip) (b ∷ bs) = unescape_from sscanf skip bs
unescape_from sscanf zero (b ∷ bs) =
    let escaped = unescape_from sscanf 2 bs in
    let rest = unescape_from sscanf 0 bs in
    if b == b'%'
    then elim (sscanf (get_or bs 0 0) (get_or bs 1 0)) [
      | none ↦ none
      | some u ↦ cons_byte (u % 256) escaped
    ]
    else cons_byte (if b == b'+' then b' ' else b) rest

unfoldable pub unescape_url : (ℕ → ℕ → Option ℕ) → List ℕ → Option (List ℕ)
unescape_url sscanf url = unescape_from sscanf 0 url

-- A digit of "%X"
abbrev pub hex_digit : ℕ → ℕ
hex_digit n = if ltb n 10 then n + b'0' else n - 10 + b'A'

-- `c_isalnum`
abbrev pub is_alnum : ℕ → Bool
is_alnum b =
    (leb b'0' b && leb b b'9') || ((leb b'A' b && leb b b'Z') || (leb b'a' b && leb b b'z'))

abbrev pub is_plain : ℕ → Bool
is_plain b = is_alnum b || ((b == b'-' || b == b'_') || (b == b'.' || b == b'~'))

-- "%%%02X", cut to three bytes: a negative number begins with FF.
abbrev pub percent : ℕ → List ℕ
percent b =
    b'%' ∷ (if ltb b 128 then hex_digit (b / 16) ∷ hex_digit (b % 16) ∷ [] else b'F' ∷ b'F' ∷ [])

unfoldable pub escape_byte : ℕ → List ℕ
escape_byte b = if is_plain b then b ∷ [] else if b == b' ' then b'+' ∷ [] else percent b

unfoldable pub escape_url : List ℕ → List ℕ
escape_url [] = []
escape_url (b ∷ bs) = escape_byte b ++ escape_url bs
