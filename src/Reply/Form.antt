-- ===== src/Reply/Form.antt =====
-- A form with a user and a password, as a client sends it to src/worker-auth.c.
use ocserv_ppa.Base.{
  ℕ, ◌<◌, ◌≡◌, refl, ap, ◌∙◌, Bool, true, false, not, ◌&&◌, List, [], ◌∷◌, ◌++◌, Option, none, some,
  arith, ◌==◌, All, All-append, Bool-cases, inl, inr,
}
use ocserv_ppa.Base.Bytes.{before_byte}
use ocserv_ppa.Base.Int.{ℤ}
use ocserv_ppa.FwPorts.{has_prefix, after_byte}
use ocserv_ppa.Url.{escape_byte, escape_url, unescape_url, unescape_from}
use ocserv_ppa.Url.RoundTrip.{IsAscii, ReadsHex, unescape_url-escape_url}
use ocserv_ppa.Reply.{
  c_string, strcasestr, memmem, value_until, is_ampersand, is_xml, password, decode, decode_found,
  parse_reply, match_password_in_reply, behind,
}

-- Bytes that end no field, begin no XML and are no NUL.
abbrev pub is_safe : ℕ → Bool
is_safe b = (not (b == b'&') && not (b == b'=')) && (not (b == b'<') && not (b == 0))

abbrev Safe : ℕ → Type 0
Safe b = is_safe b ≡ true

abbrev IsSafe : List ℕ → Type 0
IsSafe xs = All Safe xs

abbrev pub NonNul : ℕ → Type 0
NonNul b = b == 0 ≡ false

pub nonnul-before_byte : (xs : List ℕ) → All NonNul xs → before_byte 0 xs ≡ xs
unfolding before_byte
nonnul-before_byte [] h = refl
nonnul-before_byte (x ∷ xs) (h, more) = rw h (ap (x ∷◌) (nonnul-before_byte xs more))

-- A text for the code, without XML.
abbrev Plain : ℕ → Type 0
Plain b = not (b == b'<') && not (b == 0) ≡ true

abbrev IsText : List ℕ → Type 0
IsText xs = All Plain xs

escape_byte-IsSafe : (b : ℕ) → b < 128 → IsSafe (escape_byte b)
unfolding escape_byte
escape_byte-IsSafe b small = ground (arith, small)

escape_url-IsSafe : (url : List ℕ) → IsAscii url → IsSafe (escape_url url)
unfolding escape_url
escape_url-IsSafe [] ascii = tt
escape_url-IsSafe (b ∷ bs) (small, ascii) =
    All-append Safe (escape_byte b) (escape_url bs) (escape_byte-IsSafe b small)
      (escape_url-IsSafe bs ascii)

safe-IsText : (xs : List ℕ) → IsSafe xs → IsText xs
safe-IsText [] safe = tt
safe-IsText (x ∷ xs) (safe, more) = (ground (arith, safe), safe-IsText xs more)

text-before_byte : (xs : List ℕ) → IsText xs → before_byte 0 xs ≡ xs
unfolding before_byte
text-before_byte [] text = refl
text-before_byte (x ∷ xs) (text, more) =
    let other : x == 0 ≡ false = ground (arith, text) in
    rw other (ap (x ∷◌) (text-before_byte xs more))

text-is_xml : (xs : List ℕ) → IsText xs → is_xml xs ≡ false
unfolding memmem
text-is_xml [] text = refl
text-is_xml (x ∷ xs) (text, more) =
    let other : x == b'<' ≡ false = ground (arith, text) in rw other (text-is_xml xs more)

value_until-safe : (xs : List ℕ) → IsSafe xs → value_until is_ampersand xs ≡ xs
unfolding value_until
value_until-safe [] safe = refl
value_until-safe (x ∷ xs) (safe, more) =
    let other : x == b'&' ≡ false = ground (arith, safe) in
    rw other (ap (x ∷◌) (value_until-safe xs more))

value_until-ampersand :
    (xs rest : List ℕ) → IsSafe xs → value_until is_ampersand (xs ++ b'&' ∷ rest) ≡ xs
unfolding value_until
value_until-ampersand [] rest safe = refl
value_until-ampersand (x ∷ xs) rest (safe, more) =
    let other : x == b'&' ≡ false = ground (arith, safe) in
    rw other (ap (x ∷◌) (value_until-ampersand xs rest more))

-- The password's field, with what comes before it.
abbrev password_field : List ℕ → List ℕ
password_field rest = b'&' ∷ (password ++ b'=' ∷ rest)

after_byte-field :
    (xs rest : List ℕ) → IsSafe xs → after_byte b'=' (xs ++ password_field rest) ≡ some rest
unfolding after_byte
after_byte-field [] rest safe = refl
after_byte-field (x ∷ xs) rest (safe, more) =
    let other : x == b'=' ≡ false = ground (arith, safe) in rw other (after_byte-field xs rest more)

-- Where "password" is in the user's name as well, what is behind the next `=` is still the password.
behind-password :
    (xs rest : List ℕ)
    → IsSafe xs
    → behind b'=' (strcasestr password (xs ++ password_field rest)) ≡ some rest
unfolding strcasestr has_prefix after_byte
behind-password [] rest safe = refl
behind-password (x ∷ xs) rest (safe, more) =
    elim (Bool-cases (has_prefix password (x ∷ (xs ++ password_field rest)))) [
      | inl here ↦ rw here (after_byte-field (x ∷ xs) rest (safe, more))
      | inr later ↦ rw later (behind-password xs rest more)
    ]

-- "username"
abbrev pub user_name : List ℕ
user_name = b'u' ∷ b's' ∷ b'e' ∷ b'r' ∷ b'n' ∷ b'a' ∷ b'm' ∷ b'e' ∷ []

-- "username=...&password=..."
abbrev pub print_form : List ℕ → List ℕ → List ℕ
print_form user pass = user_name ++ b'=' ∷ (escape_url user ++ password_field (escape_url pass))

print_form-IsText :
    (user pass : List ℕ) → IsAscii user → IsAscii pass → IsText (print_form user pass)
print_form-IsText user pass ascii ascii' =
    let safe = safe-IsText (escape_url user) (escape_url-IsSafe user ascii) in
    let safe' = safe-IsText (escape_url pass) (escape_url-IsSafe pass ascii') in
    let rest = escape_url user ++ password_field (escape_url pass) in
    let field : IsText (password_field (escape_url pass)) =
      All-append Plain (b'&' ∷ (password ++ b'=' ∷ [])) (escape_url pass)
        (refl, (refl, (refl, (refl, (refl, (refl, (refl, (refl, (refl, (refl, tt)))))))))) safe' in
    let whole : IsText rest =
      All-append Plain (escape_url user) (password_field (escape_url pass)) safe field in
    All-append Plain (user_name ++ b'=' ∷ []) rest
      (refl, (refl, (refl, (refl, (refl, (refl, (refl, (refl, (refl, tt))))))))) whole

module _ (strtol : ℕ → List ℕ → ℤ × ℕ) (wcrtomb : ℤ → Option (List ℕ))
    (sscanf : ℕ → ℕ → Option ℕ) where
  decode-url :
      (xs : List ℕ) → decode strtol wcrtomb sscanf false xs ≡ c_string (unescape_url sscanf xs)
  unfolding decode unescape_url unescape_from before_byte
  decode-url [] = refl
  decode-url (x ∷ xs) = refl

  decode-escape_url :
      (url : List ℕ)
      → ((b : ℕ) → b < 128 → ReadsHex sscanf b)
      → IsAscii url
      → All NonNul url
      → decode strtol wcrtomb sscanf false (escape_url url) ≡ some url
  decode-escape_url url hex ascii nonnul =
      decode-url (escape_url url)
      ∙ ap c_string (unescape_url-escape_url sscanf url hex ascii)
      ∙ ap some (nonnul-before_byte url nonnul)

  parse_reply-form :
      (user pass : List ℕ)
      → IsText (print_form user pass)
      → IsSafe (escape_url user)
      → parse_reply strtol wcrtomb sscanf (print_form user pass) user_name none
        ≡ decode strtol wcrtomb sscanf false (escape_url user)
  unfolding parse_reply strcasestr has_prefix
  parse_reply-form user pass text safe = rw (text-is_xml (print_form user pass) text) (
      rw (text-before_byte (print_form user pass) text) (
        ap (decode strtol wcrtomb sscanf false)
          (value_until-ampersand (escape_url user) (password ++ b'=' ∷ escape_url pass) safe)))

  password-form :
      (user pass : List ℕ)
      → IsText (print_form user pass)
      → IsSafe (escape_url user)
      → IsSafe (escape_url pass)
      → match_password_in_reply strtol wcrtomb sscanf (print_form user pass)
        ≡ decode strtol wcrtomb sscanf false (escape_url pass)
  unfolding match_password_in_reply decode_found strcasestr has_prefix
  password-form user pass text safe safe' = rw (text-is_xml (print_form user pass) text) (
      rw (text-before_byte (print_form user pass) text) (
        ap (decode_found strtol wcrtomb sscanf false is_ampersand)
          (behind-password (escape_url user) (escape_url pass) safe)
        ∙ ap (decode strtol wcrtomb sscanf false) (value_until-safe (escape_url pass) safe')))

  -- From a form with the user's name and the password, each escaped, the server takes just this name and this
  -- password, whatever bytes in ASCII but NUL they have: also where the name has an `&`, a `<?xml` or the word
  -- "password" in it.
  pub parse_reply-print_form :
      (user pass : List ℕ)
      → ((b : ℕ) → b < 128 → ReadsHex sscanf b)
      → IsAscii user
      → IsAscii pass
      → All NonNul user
      → All NonNul pass
      → (parse_reply strtol wcrtomb sscanf (print_form user pass) user_name none ≡ some user)
        × (match_password_in_reply strtol wcrtomb sscanf (print_form user pass) ≡ some pass)
  parse_reply-print_form user pass hex ascii ascii' nonnul nonnul' =
      let text = print_form-IsText user pass ascii ascii' in
      let safe = escape_url-IsSafe user ascii in
      let safe' = escape_url-IsSafe pass ascii' in
      (
        parse_reply-form user pass text safe ∙ decode-escape_url user hex ascii nonnul,
        password-form user pass text safe safe' ∙ decode-escape_url pass hex ascii' nonnul',
      )
