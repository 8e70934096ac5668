-- ===== src/Reply/Tests.antt =====
-- The fields of concrete messages.
use ocserv_ppa.Base.{
  ℕ, ◌+◌, ◌*◌, ◌-◌, ◌^◌, ◌<◌, ◌≡◌, refl, List, [], ◌∷◌, Option, none, some, leb, if◌then◌else◌,
  arith, length,
}
use ocserv_ppa.Base.Int.{ℤ, pos}
use ocserv_ppa.Url.RoundTrip.{ReadsHex}
use ocserv_ppa.Url.Entities.{escape_html, escape_html_byte}
use ocserv_ppa.Reply.{parse_reply, match_password_in_reply}
use ocserv_ppa.Reply.Form.{print_form, user_name, parse_reply-print_form}
use ocserv_ppa.Reply.Xml.{print_xml, parse_reply-print_xml}

-- The value of a digit that "%02X" writes.
abbrev digit_value : ℕ → ℕ
digit_value c = if leb c b'9' then c - b'0' else c - b'A' + 10

abbrev sscanf : ℕ → ℕ → Option ℕ
sscanf h l = some (digit_value h * 16 + digit_value l)

reads_hex : (b : ℕ) → b < 128 → ReadsHex sscanf b
reads_hex b small = ground (arith, small)

abbrev strtol : ℕ → List ℕ → ℤ × ℕ
strtol base s = (pos 0, 0)

abbrev wcrtomb : ℤ → Option (List ℕ)
wcrtomb n = none

-- "password&"
abbrev user : List ℕ
user = b'p' ∷ b'a' ∷ b's' ∷ b's' ∷ b'w' ∷ b'o' ∷ b'r' ∷ b'd' ∷ b'&' ∷ []

-- "<p>"
abbrev pass : List ℕ
pass = b'<' ∷ b'p' ∷ b'>' ∷ []

parse_reply-print_form_example :
    (parse_reply strtol wcrtomb sscanf (print_form user pass) user_name none ≡ some user)
    × (match_password_in_reply strtol wcrtomb sscanf (print_form user pass) ≡ some pass)
parse_reply-print_form_example =
    parse_reply-print_form strtol wcrtomb sscanf user pass reads_hex
      (
        omega arith,
        (
          omega arith,
          (
            omega arith,
            (
              omega arith,
              (omega arith, (omega arith, (omega arith, (omega arith, (omega arith, tt))))),
            ),
          ),
        ),
      )
      (omega arith, (omega arith, (omega arith, tt)))
      (refl, (refl, (refl, (refl, (refl, (refl, (refl, (refl, (refl, tt)))))))))
      (refl, (refl, (refl, tt)))

-- "</auth>"
abbrev rest : List ℕ
rest = b'<' ∷ b'/' ∷ b'a' ∷ b'u' ∷ b't' ∷ b'h' ∷ b'>' ∷ []

user-small : length (escape_html user) < 2 ^ 32
unfolding escape_html escape_html_byte
user-small = omega arith

pass-small : length (escape_html pass) < 2 ^ 32
unfolding escape_html escape_html_byte
pass-small = omega arith

parse_reply-print_xml_example :
    (parse_reply strtol wcrtomb sscanf (print_xml user pass rest) user_name none ≡ some user)
    × (match_password_in_reply strtol wcrtomb sscanf (print_xml user pass rest) ≡ some pass)
parse_reply-print_xml_example =
    parse_reply-print_xml strtol wcrtomb sscanf user pass rest
      (refl, (refl, (refl, (refl, (refl, (refl, (refl, (refl, (refl, tt)))))))))
      (refl, (refl, (refl, tt))) (refl, (refl, (refl, (refl, (refl, (refl, (refl, tt)))))))
      user-small pass-small
