-- ===== src/Reply.antt =====
-- src/worker-auth.c: the fields of what a client sends to log in, as a form or as XML. A field's name is a constant
-- in lower case. Memory is taken to be there, and a result is none where the code returns -1. A value is decoded by
-- itself: the byte after it is an `&`, a `<` or the final NUL, which ends an escape like the NUL after a text.
pub mod Form
pub mod Xml
mod Tests
use ocserv_ppa.Base.{
  ℕ, zero, suc, ◌+◌, Bool, true, false, ◌&&◌, List, [], ◌∷◌, ◌++◌, Option, none, some, ◌==◌,
  if◌then◌else◌, length, take, drop,
}
use ocserv_ppa.Base.Bytes.{before_byte}
use ocserv_ppa.Base.Int.{ℤ}
use ocserv_ppa.FwPorts.{has_prefix, after_byte}
use ocserv_ppa.Url.{unescape_url}
use ocserv_ppa.Url.Html.{unescape_html}

-- `strcasestr`: the text from the first place of the needle on.
unfoldable pub strcasestr : List ℕ → List ℕ → Option (List ℕ)
strcasestr needle [] = none
strcasestr needle (b ∷ bs) =
    let rest = strcasestr needle bs in if has_prefix needle (b ∷ bs) then some (b ∷ bs) else rest

abbrev pub begins_with : List ℕ → List ℕ → Bool
begins_with [] text = true
begins_with (x ∷ xs) [] = false
begins_with (x ∷ xs) (y ∷ ys) = y == x && begins_with xs ys

-- `memmem`, whether the bytes are there.
unfoldable pub memmem : List ℕ → List ℕ → Bool
memmem bytes [] = false
memmem bytes (b ∷ bs) =
    let rest = memmem bytes bs in if begins_with bytes (b ∷ bs) then true else rest

-- What is before the place where the value ends.
unfoldable pub value_until : (List ℕ → Bool) → List ℕ → List ℕ
value_until ends [] = []
value_until ends (b ∷ bs) = let more = b ∷ value_until ends bs in if ends (b ∷ bs) then [] else more

abbrev pub is_ampersand : List ℕ → Bool
is_ampersand text = begins_with (b'&' ∷ []) text

-- "<?xml"
abbrev pub is_xml : List ℕ → Bool
is_xml body = memmem (b'<' ∷ b'?' ∷ b'x' ∷ b'm' ∷ b'l' ∷ []) body

-- "password"
abbrev pub password : List ℕ
password = b'p' ∷ b'a' ∷ b's' ∷ b's' ∷ b'w' ∷ b'o' ∷ b'r' ∷ b'd' ∷ []

-- Where the password's field is: "<password" comes before "_password>".
abbrev pub password_tag : List ℕ → Option (List ℕ)
password_tag text = elim (strcasestr (b'<' ∷ password) text) [
  | some found ↦ some found
  | none ↦ strcasestr (b'_' ∷ (password ++ b'>' ∷ [])) text
]

-- The text behind the first such byte, if there is one.
abbrev pub behind : ℕ → Option (List ℕ) → Option (List ℕ)
behind c none = none
behind c (some text) = after_byte c text

-- A text whose length is not kept ends at its first NUL.
abbrev pub c_string : Option (List ℕ) → Option (List ℕ)
c_string none = none
c_string (some value) = some (before_byte 0 value)

module _ (strtol : ℕ → List ℕ → ℤ × ℕ) (wcrtomb : ℤ → Option (List ℕ))
    (sscanf : ℕ → ℕ → Option ℕ) where
  -- The value, without its escapes.
  unfoldable pub decode : Bool → List ℕ → Option (List ℕ)
  decode xml [] = some []
  decode xml (b ∷ bs) =
      c_string (if xml then unescape_html strtol wcrtomb (b ∷ bs) else unescape_url sscanf (b ∷ bs))

  -- The value that begins there, if it does.
  unfoldable pub decode_found : Bool → (List ℕ → Bool) → Option (List ℕ) → Option (List ℕ)
  decode_found xml ends none = none
  decode_found xml ends (some value) = decode xml (value_until ends value)

  -- The value of a field; a body that is empty is like none.
  unfoldable pub parse_reply : List ℕ → List ℕ → Option (List ℕ) → Option (List ℕ)
  parse_reply [] field xml_field = none
  parse_reply (b ∷ bs) field xml_field =
      let text = before_byte 0 (b ∷ bs) in
      let name : List ℕ = elim xml_field [ none ↦ field | some x ↦ x ] in
      let opening = take 63 (b'<' ∷ (name ++ b'>' ∷ [])) in
      let closing = take 63 (b'<' ∷ b'/' ∷ (name ++ b'>' ∷ [])) in
      let equals = take 63 (field ++ b'=' ∷ []) in
      if is_xml (b ∷ bs)
      then elim (strcasestr opening text) [
        | none ↦ none
        | some found ↦ decode true (value_until (has_prefix closing) (drop (length opening) found))
      ]
      else elim (strcasestr equals text) [
        | none ↦ none
        | some found ↦ decode false (value_until is_ampersand (drop (length equals) found))
      ]

  -- The value of the password.
  unfoldable pub match_password_in_reply : List ℕ → Option (List ℕ)
  match_password_in_reply [] = none
  match_password_in_reply (b ∷ bs) =
      let text = before_byte 0 (b ∷ bs) in
      if is_xml (b ∷ bs)
      then decode_found true (begins_with (b'<' ∷ b'/' ∷ [])) (behind b'>' (password_tag text))
      else decode_found false is_ampersand (behind b'=' (strcasestr password text))
