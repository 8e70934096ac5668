-- ===== src/Reply/Xml.antt =====
-- A client's XML document with a user and a password, as src/worker-auth.c reads it.
use ocserv_ppa.Base.{
  ℕ, ◌^◌, ◌<◌, ◌≡◌, refl, ap, ◌∙◌, true, false, List, [], ◌∷◌, ◌++◌, Option, none, some, arith,
  ◌==◌, All, All-append, length,
}
use ocserv_ppa.Base.Bytes.{before_byte}
use ocserv_ppa.Base.Int.{ℤ}
use ocserv_ppa.FwPorts.{lower, has_prefix, after_byte}
use ocserv_ppa.Url.Html.{unescape_html, unescape_html_from}
use ocserv_ppa.Url.Entities.{escape_html_byte, escape_html, unescape_html-escape_html}
use ocserv_ppa.Reply.{
  c_string, strcasestr, begins_with, memmem, value_until, password, decode, decode_found,
  parse_reply, match_password_in_reply, password_tag, behind,
}
use ocserv_ppa.Reply.Form.{user_name, NonNul, nonnul-before_byte}

-- <?xml version="1.0" encoding="UTF-8"?><config-auth client="vpn" type="auth-reply"><auth>
abbrev pub xml_header : List ℕ
xml_header =
    b'<' ∷ b'?' ∷ b'x' ∷ b'm' ∷ b'l' ∷ b' ' ∷ b'v' ∷ b'e' ∷ b'r' ∷ b's' ∷ b'i' ∷ b'o' ∷ b'n' ∷ b'='
    ∷ 34 ∷ b'1' ∷ b'.' ∷ b'0' ∷ 34 ∷ b' ' ∷ b'e' ∷ b'n' ∷ b'c' ∷ b'o' ∷ b'd' ∷ b'i' ∷ b'n' ∷ b'g'
    ∷ b'=' ∷ 34 ∷ b'U' ∷ b'T' ∷ b'F' ∷ b'-' ∷ b'8' ∷ 34 ∷ b'?' ∷ b'>' ∷ b'<' ∷ b'c' ∷ b'o' ∷ b'n'
    ∷ b'f' ∷ b'i' ∷ b'g' ∷ b'-' ∷ b'a' ∷ b'u' ∷ b't' ∷ b'h' ∷ b' ' ∷ b'c' ∷ b'l' ∷ b'i' ∷ b'e'
    ∷ b'n' ∷ b't' ∷ b'=' ∷ 34 ∷ b'v' ∷ b'p' ∷ b'n' ∷ 34 ∷ b' ' ∷ b't' ∷ b'y' ∷ b'p' ∷ b'e' ∷ b'='
    ∷ 34 ∷ b'a' ∷ b'u' ∷ b't' ∷ b'h' ∷ b'-' ∷ b'r' ∷ b'e' ∷ b'p' ∷ b'l' ∷ b'y' ∷ 34 ∷ b'>' ∷ b'<'
    ∷ b'a' ∷ b'u' ∷ b't' ∷ b'h' ∷ b'>' ∷ []

-- "</username><password>", and what follows.
abbrev xml_between : List ℕ → List ℕ
xml_between rest = b'<' ∷ b'/' ∷ (user_name ++ b'>' ∷ b'<' ∷ (password ++ b'>' ∷ rest))

-- "</password>", and what follows.
abbrev xml_end : List ℕ → List ℕ
xml_end rest = b'<' ∷ b'/' ∷ (password ++ b'>' ∷ rest)

-- "<username>...</username><password>...</password>" behind the header, and what follows.
abbrev pub print_xml : List ℕ → List ℕ → List ℕ → List ℕ
print_xml user pass rest =
    xml_header
    ++ b'<'
      ∷ (user_name ++ b'>' ∷ (escape_html user ++ xml_between (escape_html pass ++ xml_end rest)))

abbrev Untagged : ℕ → Type 0
Untagged b = (b == b'<' ≡ false) × (b == b'>' ≡ false) × (b == 0 ≡ false)

-- No byte that begins or ends a tag, and no NUL.
abbrev IsUntagged : List ℕ → Type 0
IsUntagged xs = All Untagged xs

escape_html_byte-IsUntagged : (b : ℕ) → b == 0 ≡ false → IsUntagged (escape_html_byte b)
unfolding escape_html_byte
escape_html_byte-IsUntagged b h = ground (arith, h)

escape_html-IsUntagged : (text : List ℕ) → All NonNul text → IsUntagged (escape_html text)
unfolding escape_html
escape_html-IsUntagged [] h = tt
escape_html-IsUntagged (b ∷ bs) (h, more) =
    All-append Untagged (escape_html_byte b) (escape_html bs) (escape_html_byte-IsUntagged b h)
      (escape_html-IsUntagged bs more)

untagged-before_byte :
    (xs ys : List ℕ) → IsUntagged xs → before_byte 0 (xs ++ ys) ≡ xs ++ before_byte 0 ys
unfolding before_byte
untagged-before_byte [] ys h = refl
untagged-before_byte (x ∷ xs) ys ((opens, closes, h), more) =
    rw h (ap (x ∷◌) (untagged-before_byte xs ys more))

lower-tag : (x : ℕ) → x == b'<' ≡ false → lower x == b'<' ≡ false
lower-tag x h = ground (arith, h)

-- The value ends at the tag that closes it.
value_until-user :
    (xs rest : List ℕ)
    → IsUntagged xs
    → value_until (has_prefix (b'<' ∷ b'/' ∷ (user_name ++ b'>' ∷ []))) (xs ++ xml_between rest)
      ≡ xs
unfolding value_until has_prefix
value_until-user [] rest h = refl
value_until-user (x ∷ xs) rest ((opens, closes, h), more) =
    rw (lower-tag x opens) (ap (x ∷◌) (value_until-user xs rest more))

value_until-password :
    (xs rest : List ℕ)
    → IsUntagged xs
    → value_until (begins_with (b'<' ∷ b'/' ∷ [])) (xs ++ xml_end rest) ≡ xs
unfolding value_until
value_until-password [] rest h = refl
value_until-password (x ∷ xs) rest ((opens, closes, h), more) =
    rw opens (ap (x ∷◌) (value_until-password xs rest more))

-- The password's tag is not looked for inside of the user's name.
strcasestr-untagged :
    (xs rest : List ℕ)
    → IsUntagged xs
    → strcasestr (b'<' ∷ password) (xs ++ rest) ≡ strcasestr (b'<' ∷ password) rest
unfolding strcasestr has_prefix
strcasestr-untagged [] rest h = refl
strcasestr-untagged (x ∷ xs) rest ((opens, closes, h), more) =
    rw (lower-tag x opens) (strcasestr-untagged xs rest more)

print_xml-text :
    (user pass rest : List ℕ)
    → IsUntagged (escape_html user)
    → IsUntagged (escape_html pass)
    → All NonNul rest
    → before_byte 0 (print_xml user pass rest) ≡ print_xml user pass rest
unfolding before_byte
print_xml-text user pass rest safe safe' ends =
    rw
      (untagged-before_byte (escape_html user) (xml_between (escape_html pass ++ xml_end rest))
        safe)
      (rw (untagged-before_byte (escape_html pass) (xml_end rest) safe')
        (rw (nonnul-before_byte rest ends) refl))

password_tag-found :
    (text found : List ℕ)
    → strcasestr (b'<' ∷ password) text ≡ some found
    → password_tag text ≡ some found
password_tag-found text found h = ground (arith, h)

behind-tag :
    (user pass rest : List ℕ)
    → IsUntagged (escape_html user)
    → behind b'>' (password_tag (print_xml user pass rest))
      ≡ some (escape_html pass ++ xml_end rest)
unfolding strcasestr has_prefix after_byte
behind-tag user pass rest safe =
    let value = escape_html pass ++ xml_end rest in
    ap (behind b'>') (
      password_tag-found (print_xml user pass rest) (b'<' ∷ (password ++ b'>' ∷ value))
        (strcasestr-untagged (escape_html user) (xml_between value) safe))

module _ (strtol : ℕ → List ℕ → ℤ × ℕ) (wcrtomb : ℤ → Option (List ℕ))
    (sscanf : ℕ → ℕ → Option ℕ) where
  decode-html :
      (xs : List ℕ)
      → decode strtol wcrtomb sscanf true xs ≡ c_string (unescape_html strtol wcrtomb xs)
  unfolding decode unescape_html unescape_html_from before_byte
  decode-html [] = refl
  decode-html (x ∷ xs) = refl

  decode-escape_html :
      (text : List ℕ)
      → All NonNul text
      → length (escape_html text) < 2 ^ 32
      → decode strtol wcrtomb sscanf true (escape_html text) ≡ some text
  decode-escape_html text nonnul small =
      decode-html (escape_html text)
      ∙ ap c_string (unescape_html-escape_html strtol wcrtomb text small)
      ∙ ap some (nonnul-before_byte text nonnul)

  parse_reply-xml :
      (user pass rest : List ℕ)
      → IsUntagged (escape_html user)
      → before_byte 0 (print_xml user pass rest) ≡ print_xml user pass rest
      → parse_reply strtol wcrtomb sscanf (print_xml user pass rest) user_name none
        ≡ decode strtol wcrtomb sscanf true (escape_html user)
  unfolding parse_reply memmem strcasestr has_prefix
  parse_reply-xml user pass rest safe text = rw text (
      ap (decode strtol wcrtomb sscanf true)
        (value_until-user (escape_html user) (escape_html pass ++ xml_end rest) safe))

  password-xml :
      (user pass rest : List ℕ)
      → IsUntagged (escape_html user)
      → IsUntagged (escape_html pass)
      → before_byte 0 (print_xml user pass rest) ≡ print_xml user pass rest
      → match_password_in_reply strtol wcrtomb sscanf (print_xml user pass rest)
        ≡ decode strtol wcrtomb sscanf true (escape_html pass)
  unfolding match_password_in_reply decode_found memmem
  password-xml user pass rest safe safe' text = rw text (
      ap (decode_found strtol wcrtomb sscanf true (begins_with (b'<' ∷ b'/' ∷ [])))
        (behind-tag user pass rest safe)
      ∙ ap (decode strtol wcrtomb sscanf true) (value_until-password (escape_html pass) rest safe'))

  -- From the XML document of a client with the user's name and the password, each escaped, the server takes just
  -- this name and this password, whatever comes behind them, and whatever bytes but NUL they have: also where a tag
  -- is in the name. (Each has less than 2 ^ 32 bytes as it is sent.)
  pub parse_reply-print_xml :
      (user pass rest : List ℕ)
      → All NonNul user
      → All NonNul pass
      → All NonNul rest
      → length (escape_html user) < 2 ^ 32
      → length (escape_html pass) < 2 ^ 32
      → (parse_reply strtol wcrtomb sscanf (print_xml user pass rest) user_name none ≡ some user)
        × (match_password_in_reply strtol wcrtomb sscanf (print_xml user pass rest) ≡ some pass)
  parse_reply-print_xml user pass rest h h' ends small small' =
      let safe = escape_html-IsUntagged user h in
      let safe' = escape_html-IsUntagged pass h' in
      let text = print_xml-text user pass rest safe safe' ends in
      (
        parse_reply-xml user pass rest safe text ∙ decode-escape_html user h small,
        password-xml user pass rest safe safe' text ∙ decode-escape_html pass h' small',
      )
