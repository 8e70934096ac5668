-- ===== src/FwPorts/Tests.antt =====
-- Ports at concrete values.
use ocserv_ppa.Base.{
  ap, ℕ, ◌+◌, ◌*◌, ◌-◌, ◌≡◌, refl, true, ◌&&◌, List, [], ◌∷◌, ◌++◌, none, some, leb, if◌then◌else◌,
}
use ocserv_ppa.Base.Int.{ℤ, pos}
use ocserv_ppa.FwPorts.{FwProto, cfg_parse_ports, skip_space, skip_brackets}
use ocserv_ppa.FwPorts.RoundTrip.{
  Entry, IsDigits, ReadsDigits, print_all, print_ports, to_ports, cfg_parse_ports-print_all,
}

-- The digits that a text begins with, after the value of those before.
read_digits : ℕ → List ℕ → ℕ
read_digits n [] = n
read_digits n (d ∷ ds) =
    let rest = read_digits (10 * n + (d - b'0')) ds in if leb b'0' d && leb d b'9' then rest else n

abbrev atoi : List ℕ → ℤ
atoi ds = pos (read_digits 0 ds)

read_digits-stops :
    (n : ℕ) (ds rest : List ℕ) → IsDigits ds → read_digits n (ds ++ b')' ∷ rest) ≡ read_digits n ds
unfolding read_digits
read_digits-stops n [] rest is = refl
read_digits-stops n (d ∷ ds) rest (is, more) =
    rw is (read_digits-stops (10 * n + (d - b'0')) ds rest more)

reads_digits : ReadsDigits atoi
reads_digits ds rest is = ap pos (read_digits-stops 0 ds rest is)

-- tcp(443) and udp(53)
abbrev https : Entry
https = record { proto = FwProto.tcp; digits = b'4' ∷ b'4' ∷ b'3' ∷ [] }

abbrev dns : Entry
dns = record { proto = FwProto.udp; digits = b'5' ∷ b'3' ∷ [] }

printed :
    print_all true https (dns ∷ [])
    ≡ b'!' ∷ b'(' ∷ b't' ∷ b'c' ∷ b'p' ∷ b'(' ∷ b'4' ∷ b'4' ∷ b'3' ∷ b')' ∷ b',' ∷ b' ' ∷ b'u'
      ∷ b'd' ∷ b'p' ∷ b'(' ∷ b'5' ∷ b'3' ∷ b')' ∷ b')' ∷ []
unfolding print_ports
printed = refl

-- A negation needs a bracket, and a protocol one as well.
no_bracket : cfg_parse_ports atoi [] (some (b'!' ∷ b't' ∷ b'c' ∷ b'p' ∷ [])) ≡ none
unfolding cfg_parse_ports skip_space skip_brackets
no_bracket = refl

cfg_parse_ports-print_all_example :
    cfg_parse_ports atoi [] (some (print_all true https (dns ∷ [])))
    ≡ some ([] ++ to_ports atoi true (https ∷ dns ∷ []))
cfg_parse_ports-print_all_example =
    cfg_parse_ports-print_all atoi [] true https (dns ∷ []) reads_digits
      ((refl, (refl, (refl, tt))), ((refl, (refl, tt)), tt))
