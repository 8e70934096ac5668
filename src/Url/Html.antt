-- ===== src/Url/Html.antt =====
-- unescape_html of src/html.c. `strtol`, which tells the number and how many bytes it has, and `wcrtomb`, which
-- makes bytes of a wide character, converted from the number, are arguments. The text has no NUL, and one after it.
use ocserv_ppa.Base.{
  ℕ, zero, suc, ◌+◌, ◌-◌, ◌%◌, ◌^◌, Bool, true, false, ◌&&◌, List, [], ◌∷◌, ◌++◌, Option, none,
  some, ltb, ◌==◌, if◌then◌else◌, get_or, drop, length,
}
use ocserv_ppa.Base.Int.{ℤ, pos, negsuc}
use ocserv_ppa.FwPorts.{has_prefix}

-- The names in their order, with the byte that each stands for.
abbrev pub entities : List (List ℕ × ℕ)
entities =
    (b'&' ∷ b'l' ∷ b't' ∷ b';' ∷ [], b'<')
    ∷ (b'&' ∷ b'g' ∷ b't' ∷ b';' ∷ [], b'>')
    ∷ (b'&' ∷ b'n' ∷ b'b' ∷ b's' ∷ b'p' ∷ b';' ∷ [], b' ')
    ∷ (b'&' ∷ b'q' ∷ b'u' ∷ b'o' ∷ b't' ∷ b';' ∷ [], 34)
    ∷ (b'&' ∷ b'a' ∷ b'm' ∷ b'p' ∷ b';' ∷ [], b'&')
    ∷ (b'&' ∷ b'a' ∷ b'p' ∷ b'o' ∷ b's' ∷ b';' ∷ [], 39)
    ∷ []

-- The byte of the first name that the text begins with, and the length of the name.
unfoldable pub find_entity : List (List ℕ × ℕ) → List ℕ → Option (ℕ × ℕ)
find_entity [] s = none
find_entity ((name, b) ∷ more) s =
    let rest = find_entity more s in if has_prefix name s then some (b, length name) else rest

-- Not greater than `WCHAR_MAX`
abbrev pub is_wchar : ℤ → Bool
is_wchar (pos n) = ltb n (2 ^ 31)
is_wchar (negsuc n) = true

module _ (strtol : ℕ → List ℕ → ℤ × ℕ) (wcrtomb : ℤ → Option (List ℕ)) where
  -- The number after "&#" and the bytes of the whole reference.
  unfoldable pub char_ref : List ℕ → Option (ℤ × ℕ)
  char_ref s =
      let is_hex = get_or s 2 0 == b'x' in
      let start = if is_hex then 3 else 2 in
      let (val, used) = strtol (if is_hex then 16 else 10) (drop start s) in
      if get_or (drop start s) used 0 == b';' && is_wchar val
      then some (val, start + used + 1)
      else none

  -- What one turn writes, and how many bytes it reads if it does not fail.
  unfoldable pub html_step : ℕ → ℕ → List ℕ → List ℕ × Option ℕ
  html_step room b bs =
      let as_is : List ℕ × Option ℕ = (b ∷ [], some 1) in
      let named : List ℕ × Option ℕ = elim (find_entity entities (b ∷ bs)) [
        | some (c, n) ↦ (c ∷ [], some n)
        | none ↦
            if get_or bs 0 0 == b'#'
            then elim (char_ref (b ∷ bs)) [
              | none ↦ as_is
              | some (val, used) ↦ elim (wcrtomb val) [
                | none ↦ ([], none)
                | some out ↦ if ltb (length out) room then (out, some used) else ([], none)
              ]
            ]
            else as_is
      ] in
      if ltb room 1 then ([], none) else if b == b'&' then named else as_is

  abbrev pub prepend : List ℕ → List ℕ × Bool → List ℕ × Bool
  prepend out (rest, ok) = (out ++ rest, ok)

  -- What is written, and whether it does not fail. `skip` bytes of those that come were read already, and `at` bytes
  -- are written; `len - at` is unsigned.
  unfoldable pub unescape_html_from : ℕ → ℕ → ℕ → List ℕ → List ℕ × Bool
  unescape_html_from len skip at [] = ([], true)
  unescape_html_from len (suc skip) at (b ∷ bs) = unescape_html_from len skip at bs
  unescape_html_from len zero at (b ∷ bs) =
      let (out, next) = html_step ((len + 2 ^ 32 - at) % 2 ^ 32) b bs in
      elim next [
        | none ↦ (out, false)
        | some used ↦ prepend out (unescape_html_from len (used - 1) (at + length out) bs)
      ]

  -- What is written to the buffer, without the final NUL.
  abbrev pub html_written : List ℕ → List ℕ
  html_written html = (unescape_html_from (length html) 0 0 html).0

  unfoldable pub unescape_html : List ℕ → Option (List ℕ)
  unescape_html html =
      let (out, ok) = unescape_html_from (length html) 0 0 html in if ok then some out else none
