-- ===== src/Url/RoundTrip.antt =====
-- What escape_url writes, unescape_url reads.
use ocserv_ppa.Base.{
  ℕ, ◌+◌, ◌*◌, ◌/◌, ◌%◌, ◌≤◌, ◌<◌, ◌≡◌, refl, true, false, List, [], ◌∷◌, ◌++◌, Option, some, ◌==◌,
  length, length-append, All, arith, Bool-cases, inl, inr, ap, ◌∙◌,
}
use ocserv_ppa.Url.{
  unescape_from, unescape_url, hex_digit, is_plain, cons_byte, escape_byte, escape_url,
}

-- A text in ASCII.
abbrev pub IsAscii : List ℕ → Type 0
IsAscii xs = All (λ x. x < 128) xs

-- `sscanf` reads what `snprintf` writes: two digits of a hexadecimal number.
abbrev pub ReadsHex : (ℕ → ℕ → Option ℕ) → ℕ → Type 0
ReadsHex sscanf b = sscanf (hex_digit (b / 16)) (hex_digit (b % 16)) ≡ some b

unescape_from-plain :
    (sscanf : ℕ → ℕ → Option ℕ) (b : ℕ) (rest : List ℕ)
    → is_plain b ≡ true
    → unescape_from sscanf 0 (b ∷ rest) ≡ cons_byte b (unescape_from sscanf 0 rest)
unfolding unescape_from
unescape_from-plain sscanf b rest plain = ground (arith, plain)

unescape_from-percent :
    (sscanf : ℕ → ℕ → Option ℕ) (h l b : ℕ) (rest : List ℕ)
    → b < 128
    → sscanf h l ≡ some b
    → unescape_from sscanf 0 (b'%' ∷ h ∷ l ∷ rest) ≡ cons_byte b (unescape_from sscanf 0 rest)
unfolding unescape_from
unescape_from-percent sscanf h l b rest small hex =
    let same : b % 256 ≡ b = omega (arith, small) in rw hex (rw same refl)

unescape_from-plus :
    (sscanf : ℕ → ℕ → Option ℕ) (rest : List ℕ)
    → unescape_from sscanf 0 (b'+' ∷ rest) ≡ cons_byte b' ' (unescape_from sscanf 0 rest)
unfolding unescape_from
unescape_from-plus sscanf rest = refl

escape_byte-plain : (b : ℕ) → is_plain b ≡ true → escape_byte b ≡ b ∷ []
unfolding escape_byte
escape_byte-plain b plain = rw plain refl

escape_byte-percent :
    (b : ℕ)
    → is_plain b ≡ false
    → b == b' ' ≡ false
    → b < 128
    → escape_byte b ≡ b'%' ∷ hex_digit (b / 16) ∷ hex_digit (b % 16) ∷ []
unfolding escape_byte
escape_byte-percent b plain space small = ground (arith, plain, space, small)

escape_byte-space : (b : ℕ) → b == b' ' ≡ true → (b ≡ b' ') × (escape_byte b ≡ b'+' ∷ [])
unfolding escape_byte
escape_byte-space b space = ground (arith, space)

unescape_from-byte :
    (sscanf : ℕ → ℕ → Option ℕ) (b : ℕ) (rest : List ℕ)
    → b < 128
    → ReadsHex sscanf b
    → unescape_from sscanf 0 (escape_byte b ++ rest) ≡ cons_byte b (unescape_from sscanf 0 rest)
unescape_from-byte sscanf b rest small hex = elim (Bool-cases (is_plain b)) [
  | inl plain ↦ rw (escape_byte-plain b plain) (unescape_from-plain sscanf b rest plain)
  | inr plain ↦ elim (Bool-cases (b == b' ')) [
    | inl space ↦
        (let (is_space, plus) = escape_byte-space b space in
          rw plus (rw is_space (unescape_from-plus sscanf rest)))
    | inr space ↦
        rw (escape_byte-percent b plain space small)
          (unescape_from-percent sscanf (hex_digit (b / 16)) (hex_digit (b % 16)) b rest small hex)
  ]
]

-- A text in ASCII that is escaped and unescaped is as it was.
pub unescape_url-escape_url :
    (sscanf : ℕ → ℕ → Option ℕ) (url : List ℕ)
    → ((b : ℕ) → b < 128 → ReadsHex sscanf b)
    → IsAscii url
    → unescape_url sscanf (escape_url url) ≡ some url
unfolding unescape_url escape_url unescape_from
unescape_url-escape_url sscanf [] hex ascii = refl
unescape_url-escape_url sscanf (b ∷ bs) hex (small, ascii) =
    unescape_from-byte sscanf b (escape_url bs) small (hex b small)
    ∙ ap (cons_byte b) (unescape_url-escape_url sscanf bs hex ascii)

-- The buffer of `escape_url` has room for three bytes of each, and for the final NUL.
pub escape_url-room : (url : List ℕ) → length (escape_url url) + 1 ≤ 3 * length url + 1
unfolding escape_url escape_byte
escape_url-room [] = omega arith
escape_url-room (b ∷ bs) =
    ground (arith, escape_url-room bs, length-append (escape_byte b) (escape_url bs))

-- Bytes that are not in ASCII are all escaped alike, so that no one can tell which they were.
pub escape_byte-lost : (a b : ℕ) → 128 ≤ a → 128 ≤ b → escape_byte a ≡ escape_byte b
unfolding escape_byte
escape_byte-lost a b p q = ground arith
