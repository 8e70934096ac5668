-- ===== src/Url/Entities.antt =====
-- What unescape_html reads, and how much it writes.
use ocserv_ppa.Base.{
  ℕ, zero, suc, ◌+◌, ◌-◌, ◌%◌, ◌^◌, ◌≤◌, ◌<◌, ◌≡◌, refl, ap, ◌∙◌, true, false, List, [], ◌∷◌, ◌++◌,
  Option, none, some, arith, ltb, ◌==◌, if◌then◌else◌, length, length-append, Bool-cases, inl, inr,
  Option-cases, subst,
}
use ocserv_ppa.Base.Int.{ℤ}
use ocserv_ppa.FwPorts.{has_prefix}
use ocserv_ppa.Url.Html.{
  find_entity, html_step, prepend, unescape_html_from, unescape_html, html_written,
}

-- A byte as a client writes it in XML.
unfoldable pub escape_html_byte : ℕ → List ℕ
escape_html_byte b =
    if b == b'&'
    then b'&' ∷ b'a' ∷ b'm' ∷ b'p' ∷ b';' ∷ []
    else if b == b'<'
    then b'&' ∷ b'l' ∷ b't' ∷ b';' ∷ []
    else if b == b'>'
    then b'&' ∷ b'g' ∷ b't' ∷ b';' ∷ []
    else if b == 34
    then b'&' ∷ b'q' ∷ b'u' ∷ b'o' ∷ b't' ∷ b';' ∷ []
    else if b == 39
    then b'&' ∷ b'a' ∷ b'p' ∷ b'o' ∷ b's' ∷ b';' ∷ []
    else b ∷ []

unfoldable pub escape_html : List ℕ → List ℕ
escape_html [] = []
escape_html (b ∷ bs) = escape_html_byte b ++ escape_html bs

module _ (strtol : ℕ → List ℕ → ℤ × ℕ) (wcrtomb : ℤ → Option (List ℕ)) where
  html_step-room : (room b : ℕ) (bs : List ℕ) → length (html_step strtol wcrtomb room b bs).0 ≤ room
  unfolding html_step
  html_step-room room b bs = ground arith

  -- The room that is left, as the code computes it.
  abbrev left : ℕ → ℕ → ℕ
  left len at = (len + 2 ^ 32 - at) % 2 ^ 32

  from-none :
      (len at b : ℕ) (bs : List ℕ)
      → (html_step strtol wcrtomb (left len at) b bs).1 ≡ none
      → unescape_html_from strtol wcrtomb len 0 at (b ∷ bs)
        ≡ ((html_step strtol wcrtomb (left len at) b bs).0, false)
  unfolding unescape_html_from
  from-none len at b bs h = ground (arith, h)

  from-some :
      (len at b : ℕ) (bs : List ℕ) (used : ℕ)
      → (html_step strtol wcrtomb (left len at) b bs).1 ≡ some used
      → let out = (html_step strtol wcrtomb (left len at) b bs).0 in
        unescape_html_from strtol wcrtomb len 0 at (b ∷ bs)
        ≡ prepend strtol wcrtomb out
            (unescape_html_from strtol wcrtomb len (used - 1) (at + length out) bs)
  unfolding unescape_html_from
  from-some len at b bs used h = ground (arith, h)

  unescape_html_from-room :
      (len skip at : ℕ) (s : List ℕ)
      → len < 2 ^ 32
      → at ≤ len
      → at + length (unescape_html_from strtol wcrtomb len skip at s).0 ≤ len
  unfolding unescape_html_from
  unescape_html_from-room len skip at [] small fits = omega (arith, fits)
  unescape_html_from-room len (suc skip) at (b ∷ bs) small fits =
      unescape_html_from-room len skip at bs small fits
  unescape_html_from-room len zero at (b ∷ bs) small fits =
      let step = html_step strtol wcrtomb (left len at) b bs in
      let room = html_step-room (left len at) b bs in
      elim (Option-cases step.1) [
        | inl stops ↦ rw (from-none len at b bs stops) (omega (arith, room, small, fits))
        | inr (used, goes_on) ↦
            (let inside : at + length step.0 ≤ len = omega (arith, room, small, fits) in
              let rest = unescape_html_from strtol wcrtomb len (used - 1) (at + length step.0) bs in
              let more =
                unescape_html_from-room len (used - 1) (at + length step.0) bs small inside in
              rw (from-some len at b bs used goes_on)
                (omega (arith, more, length-append step.0 rest.0)))
      ]

  -- Whatever the text, and whether or not it comes to its end without a failure, no more bytes are written than the
  -- text has; the buffer has room for one more, the final NUL. (The text has less than 2 ^ 32 bytes.)
  pub unescape_html-room :
      (html : List ℕ)
      → length html < 2 ^ 32
      → length (html_written strtol wcrtomb html) ≤ length html
  unescape_html-room html small =
      omega (arith, unescape_html_from-room (length html) 0 0 html small (omega arith))

  -- A turn in which there is room is the one for an empty text.
  from-turn :
      (len at b : ℕ) (bs out : List ℕ) (used : ℕ)
      → at < len
      → len < 2 ^ 32
      → ((room : ℕ) → ltb room 1 ≡ false → html_step strtol wcrtomb room b bs ≡ (out, some used))
      → unescape_html_from strtol wcrtomb len 0 at (b ∷ bs)
        ≡ prepend strtol wcrtomb out
            (unescape_html_from strtol wcrtomb len (used - 1) (at + length out) bs)
  from-turn len at b bs out used fits small step =
      let room : ltb (left len at) 1 ≡ false = ground (arith, fits, small) in
      let eq = step (left len at) room in
      rw eq at (from-some len at b bs used (ap (λ (r : List ℕ × Option ℕ). r.1) eq))

  -- That the escaped byte is read in one turn.
  abbrev IsTurn : ℕ → ℕ → List ℕ → ℕ → Type 0
  IsTurn len at rest b =
      unescape_html_from strtol wcrtomb len 0 at (escape_html_byte b ++ rest)
      ≡ prepend strtol wcrtomb (b ∷ []) (unescape_html_from strtol wcrtomb len 0 (at + 1) rest)

  read_plain :
      (len at b : ℕ) (rest : List ℕ)
      → at < len
      → len < 2 ^ 32
      → b == b'&' ≡ false
      → escape_html_byte b ≡ b ∷ []
      → IsTurn len at rest b
  unfolding unescape_html_from html_step
  read_plain len at b rest fits small other plain =
      rw plain (from-turn len at b rest (b ∷ []) 1 fits small (λ room h. rw h (rw other refl)))

  read_amp : (len at : ℕ) (rest : List ℕ) → at < len → len < 2 ^ 32 → IsTurn len at rest b'&'
  unfolding unescape_html_from html_step find_entity has_prefix escape_html_byte
  read_amp len at rest fits small =
      from-turn len at b'&' (b'a' ∷ b'm' ∷ b'p' ∷ b';' ∷ rest) (b'&' ∷ []) 5 fits small
        (λ room h. rw h refl)

  read_lt : (len at : ℕ) (rest : List ℕ) → at < len → len < 2 ^ 32 → IsTurn len at rest b'<'
  unfolding unescape_html_from html_step find_entity has_prefix escape_html_byte
  read_lt len at rest fits small =
      from-turn len at b'&' (b'l' ∷ b't' ∷ b';' ∷ rest) (b'<' ∷ []) 4 fits small
        (λ room h. rw h refl)

  read_gt : (len at : ℕ) (rest : List ℕ) → at < len → len < 2 ^ 32 → IsTurn len at rest b'>'
  unfolding unescape_html_from html_step find_entity has_prefix escape_html_byte
  read_gt len at rest fits small =
      from-turn len at b'&' (b'g' ∷ b't' ∷ b';' ∷ rest) (b'>' ∷ []) 4 fits small
        (λ room h. rw h refl)

  read_quot : (len at : ℕ) (rest : List ℕ) → at < len → len < 2 ^ 32 → IsTurn len at rest 34
  unfolding unescape_html_from html_step find_entity has_prefix escape_html_byte
  read_quot len at rest fits small =
      from-turn len at b'&' (b'q' ∷ b'u' ∷ b'o' ∷ b't' ∷ b';' ∷ rest) (34 ∷ []) 6 fits small
        (λ room h. rw h refl)

  read_apos : (len at : ℕ) (rest : List ℕ) → at < len → len < 2 ^ 32 → IsTurn len at rest 39
  unfolding unescape_html_from html_step find_entity has_prefix escape_html_byte
  read_apos len at rest fits small =
      from-turn len at b'&' (b'a' ∷ b'p' ∷ b'o' ∷ b's' ∷ b';' ∷ rest) (39 ∷ []) 6 fits small
        (λ room h. rw h refl)

  is_byte : {b c : ℕ} → b == c ≡ true → c ≡ b
  is_byte h = ground (arith, h)

  step-escape : (len at b : ℕ) (rest : List ℕ) → at < len → len < 2 ^ 32 → IsTurn len at rest b
  unfolding escape_html_byte
  step-escape len at b rest fits small = elim (Bool-cases (b == b'&')) [
    | inl same ↦ subst (IsTurn len at rest) (is_byte same) (read_amp len at rest fits small)
    | inr not_amp ↦ elim (Bool-cases (b == b'<')) [
      | inl same ↦ subst (IsTurn len at rest) (is_byte same) (read_lt len at rest fits small)
      | inr not_lt ↦ elim (Bool-cases (b == b'>')) [
        | inl same ↦ subst (IsTurn len at rest) (is_byte same) (read_gt len at rest fits small)
        | inr not_gt ↦ elim (Bool-cases (b == 34)) [
          | inl same ↦ subst (IsTurn len at rest) (is_byte same) (read_quot len at rest fits small)
          | inr not_quot ↦ elim (Bool-cases (b == 39)) [
            | inl same ↦
                subst (IsTurn len at rest) (is_byte same) (read_apos len at rest fits small)
            | inr not_apos ↦
                read_plain len at b rest fits small not_amp
                  (ground (arith, not_amp, not_lt, not_gt, not_quot, not_apos))
          ]
        ]
      ]
    ]
  ]

  escape_html_byte-size : (b : ℕ) → 1 ≤ length (escape_html_byte b)
  unfolding escape_html_byte
  escape_html_byte-size b = ground arith

  unescape_html_from-escape_html :
      (len at : ℕ) (text : List ℕ)
      → at + length (escape_html text) ≤ len
      → len < 2 ^ 32
      → unescape_html_from strtol wcrtomb len 0 at (escape_html text) ≡ (text, true)
  unfolding escape_html unescape_html_from
  unescape_html_from-escape_html len at [] fits small = refl
  unescape_html_from-escape_html len at (b ∷ bs) fits small =
      let sizes = length-append (escape_html_byte b) (escape_html bs) in
      let here : at < len = omega (arith, fits, sizes, escape_html_byte-size b) in
      let next : at + 1 + length (escape_html bs) ≤ len =
        omega (arith, fits, sizes, escape_html_byte-size b) in
      step-escape len at b (escape_html bs) here small
      ∙ ap (prepend strtol wcrtomb (b ∷ []))
          (unescape_html_from-escape_html len (at + 1) bs next small)

  -- A text that is escaped for XML is read as it was.
  pub unescape_html-escape_html :
      (text : List ℕ)
      → length (escape_html text) < 2 ^ 32
      → unescape_html strtol wcrtomb (escape_html text) ≡ some text
  unfolding unescape_html
  unescape_html-escape_html text small =
      let read =
        unescape_html_from-escape_html (length (escape_html text)) 0 text (omega arith) small in
      rw read refl
