-- ===== src/Url/Tests.antt =====
-- Escaping at concrete values.
use ocserv_ppa.Base.{
  ℕ, ◌+◌, ◌*◌, ◌-◌, ◌≤◌, ◌≡◌, refl, Bool, ◌&&◌, ◌||◌, List, [], ◌∷◌, Option, none, some, ltb, leb,
  ◌==◌, if◌then◌else◌, length, arith,
}
use ocserv_ppa.Base.Int.{ℤ, pos, negsuc}
use ocserv_ppa.FwPorts.{has_prefix, lower}
use ocserv_ppa.Url.{escape_url, escape_byte}
use ocserv_ppa.Url.Html.{
  find_entity, char_ref, html_step, unescape_html_from, unescape_html, html_written,
}
use ocserv_ppa.Url.Entities.{unescape_html-room}

-- "a b/" and "a+b%2F"
escape_url-slash :
    escape_url (b'a' ∷ b' ' ∷ b'b' ∷ b'/' ∷ []) ≡ b'a' ∷ b'+' ∷ b'b' ∷ b'%' ∷ b'2' ∷ b'F' ∷ []
unfolding escape_url escape_byte
escape_url-slash = refl

abbrev is_digit : ℕ → ℕ → Bool
is_digit base c =
    (leb b'0' c && leb c b'9') || (base == 16 && (leb b'a' (lower c) && leb (lower c) b'f'))

abbrev digit : ℕ → ℕ
digit c = if leb c b'9' then c - b'0' else lower c - b'a' + 10

abbrev number : ℕ → ℕ → List ℕ → ℕ
number base value [] = value
number base value (c ∷ cs) =
    let rest = number base (value * base + digit c) cs in if is_digit base c then rest else value

abbrev digits : ℕ → List ℕ → ℕ
digits base [] = 0
digits base (c ∷ cs) = let rest = digits base cs + 1 in if is_digit base c then rest else 0

-- A number without a sign.
abbrev strtol : ℕ → List ℕ → ℤ × ℕ
strtol base s = (pos (number base 0 s), digits base s)

-- In the C locale
abbrev wcrtomb : ℤ → Option (List ℕ)
wcrtomb (pos n) = if ltb n 128 then some (n ∷ []) else none
wcrtomb (negsuc n) = none

-- "&LT;&#65;&#x4a;&#7 &amp;" and "<AJ&#7 &"
abbrev text : List ℕ
text =
    b'&' ∷ b'L' ∷ b'T' ∷ b';' ∷ b'&' ∷ b'#' ∷ b'6' ∷ b'5' ∷ b';' ∷ b'&' ∷ b'#' ∷ b'x' ∷ b'4' ∷ b'a'
    ∷ b';' ∷ b'&' ∷ b'#' ∷ b'7' ∷ b' ' ∷ b'&' ∷ b'a' ∷ b'm' ∷ b'p' ∷ b';' ∷ []

abbrev unescaped : List ℕ
unescaped = b'<' ∷ b'A' ∷ b'J' ∷ b'&' ∷ b'#' ∷ b'7' ∷ b' ' ∷ b'&' ∷ []

unescape_html-text : unescape_html strtol wcrtomb text ≡ some unescaped
unfolding unescape_html unescape_html_from html_step char_ref find_entity has_prefix
unescape_html-text = refl

-- A number that is no character of the locale is an error: "&#200;"
unescape_html-wide :
    unescape_html strtol wcrtomb (b'&' ∷ b'#' ∷ b'2' ∷ b'0' ∷ b'0' ∷ b';' ∷ []) ≡ none
unfolding unescape_html unescape_html_from html_step char_ref find_entity has_prefix
unescape_html-wide = refl

unescape_html-room_example : length (html_written strtol wcrtomb text) ≤ length text
unescape_html-room_example = unescape_html-room strtol wcrtomb text (omega arith)
