-- ===== src/FwPorts/RoundTrip.antt =====
-- What is written as ports, cfg_parse_ports reads.
use ocserv_ppa.Base.{
  ℕ, zero, suc, ◌+◌, ◌≤◌, ◌<◌, ◌≡◌, refl, Bool, true, false, ◌&&◌, List, [], ◌∷◌, ◌++◌, none, some,
  leb, length, length-append, All, arith, ap, ◌∙◌,
}
use ocserv_ppa.Base.Int.{ℤ}
use ocserv_ppa.FwPorts.{
  FwProto, FwPort, to_uint32, proto_name, has_prefix, read_proto, skip_space, after_byte, cons_port,
  parse_port, parse_ports, cfg_parse_ports, expect, skip_brackets,
}

-- A port as it is written: the protocol and the digits.
pub record Entry : Type 0 where
  pub proto : FwProto
  pub digits : List ℕ

abbrev pub IsDigits : List ℕ → Type 0
IsDigits ds = All (λ d. leb b'0' d && leb d b'9' ≡ true) ds

-- The text of an entry, and what follows.
abbrev pub print_port : Entry → List ℕ → List ℕ
print_port e rest = proto_name (Entry.proto e) ++ b'(' ∷ (Entry.digits e ++ b')' ∷ rest)

unfoldable pub print_ports : Entry → List Entry → List ℕ → List ℕ
print_ports e [] rest = print_port e rest
print_ports e (f ∷ fs) rest = print_port e (b',' ∷ b' ' ∷ print_ports f fs rest)

-- The whole text.
abbrev pub print_all : Bool → Entry → List Entry → List ℕ
print_all false e es = print_ports e es []
print_all true e es = b'!' ∷ b'(' ∷ print_ports e es (b')' ∷ [])

-- The port that an entry stands for.
abbrev pub to_port : (List ℕ → ℤ) → Bool → Entry → FwPort
to_port atoi negate e = record {
  port = to_uint32 (atoi (Entry.digits e));
  proto = Entry.proto e;
  negate = negate;
}

pub to_ports : (List ℕ → ℤ) → Bool → List Entry → List FwPort
to_ports atoi negate [] = []
to_ports atoi negate (e ∷ es) = to_port atoi negate e ∷ to_ports atoi negate es

-- `atoi` reads digits, up to the bracket that follows them.
abbrev pub ReadsDigits : (List ℕ → ℤ) → Type 0
ReadsDigits atoi = (ds rest : List ℕ) → IsDigits ds → atoi (ds ++ b')' ∷ rest) ≡ atoi ds

read_proto-name :
    (p : FwProto) (rest : List ℕ) → read_proto (proto_name p ++ b'(' ∷ rest) ≡ some (p, b'(' ∷ rest)
unfolding read_proto has_prefix
read_proto-name FwProto.tcp rest = refl
read_proto-name FwProto.udp rest = refl
read_proto-name FwProto.sctp rest = refl
read_proto-name FwProto.esp rest = refl
read_proto-name FwProto.icmp rest = refl
read_proto-name FwProto.icmpv6 rest = refl

skip_space-name :
    (p : FwProto) (rest : List ℕ) → skip_space (proto_name p ++ rest) ≡ proto_name p ++ rest
unfolding skip_space
skip_space-name FwProto.tcp rest = refl
skip_space-name FwProto.udp rest = refl
skip_space-name FwProto.sctp rest = refl
skip_space-name FwProto.esp rest = refl
skip_space-name FwProto.icmp rest = refl
skip_space-name FwProto.icmpv6 rest = refl

after_byte-digits :
    (ds rest : List ℕ) → IsDigits ds → after_byte b')' (ds ++ b')' ∷ rest) ≡ some rest
unfolding after_byte
after_byte-digits [] rest is = refl
after_byte-digits (d ∷ ds) rest (is, more) = ground (arith, is, after_byte-digits ds rest more)

parse_port-print_port :
    (atoi : List ℕ → ℤ) (negate : Bool) (e : Entry) (rest : List ℕ)
    → ReadsDigits atoi
    → IsDigits (Entry.digits e)
    → parse_port atoi negate (print_port e rest) ≡ some (to_port atoi negate e, skip_space rest)
unfolding parse_port skip_space
parse_port-print_port atoi negate e rest reads is =
    rw (skip_space-name (Entry.proto e) (b'(' ∷ (Entry.digits e ++ b')' ∷ rest))) (
      rw (read_proto-name (Entry.proto e) (Entry.digits e ++ b')' ∷ rest)) (
        rw (after_byte-digits (Entry.digits e) rest is) (rw (reads (Entry.digits e) rest is) refl)))

-- The space before an entry is skipped.
parse_port-space :
    (atoi : List ℕ → ℤ) (negate : Bool) (text : List ℕ)
    → parse_port atoi negate (b' ' ∷ text) ≡ parse_port atoi negate text
unfolding parse_port skip_space
parse_port-space atoi negate text = refl

-- What ends the entries.
abbrev pub closing : Bool → List ℕ
closing false = []
closing true = b')' ∷ []

parse_ports-space :
    (atoi : List ℕ → ℤ) (n : ℕ) (negate : Bool) (text : List ℕ)
    → parse_ports atoi n negate (b' ' ∷ text) ≡ parse_ports atoi n negate text
unfolding parse_ports
parse_ports-space atoi zero negate text = refl
parse_ports-space atoi (suc n) negate text =
    rw (parse_port-space atoi negate text, parse_ports) refl

-- An entry, a comma and a space, and the rest.
parse_ports-comma :
    (atoi : List ℕ → ℤ) (negate : Bool) (n : ℕ) (e : Entry) (text : List ℕ)
    → ReadsDigits atoi
    → IsDigits (Entry.digits e)
    → parse_ports atoi (suc n) negate (print_port e (b',' ∷ b' ' ∷ text))
      ≡ cons_port (to_port atoi negate e) (parse_ports atoi n negate text)
unfolding parse_ports skip_space
parse_ports-comma atoi false n e text reads is =
    rw (parse_port-print_port atoi false e (b',' ∷ b' ' ∷ text) reads is, parse_ports)
      (ap (cons_port (to_port atoi false e)) (parse_ports-space atoi n false text))
parse_ports-comma atoi true n e text reads is =
    rw (parse_port-print_port atoi true e (b',' ∷ b' ' ∷ text) reads is, parse_ports)
      (ap (cons_port (to_port atoi true e)) (parse_ports-space atoi n true text))

parse_ports-print_ports :
    (atoi : List ℕ → ℤ) (negate : Bool) (n : ℕ) (e : Entry) (es : List Entry)
    → ReadsDigits atoi
    → length es < n
    → IsDigits (Entry.digits e)
    → All (λ f. IsDigits (Entry.digits f)) es
    → parse_ports atoi n negate (print_ports e es (closing negate))
      ≡ some (to_ports atoi negate (e ∷ es))
unfolding parse_ports print_ports to_ports skip_space
parse_ports-print_ports atoi negate zero e es reads enough is more = ground (arith, enough)
parse_ports-print_ports atoi false (suc n) e [] reads enough is more =
    rw (parse_port-print_port atoi false e [] reads is, parse_ports) refl
parse_ports-print_ports atoi true (suc n) e [] reads enough is more =
    rw (parse_port-print_port atoi true e (b')' ∷ []) reads is, parse_ports) refl
parse_ports-print_ports atoi negate (suc n) e (f ∷ fs) reads enough is (first, more) =
    let fewer : length fs < n = omega (arith, enough) in
    parse_ports-comma atoi negate n e (print_ports f fs (closing negate)) reads is
    ∙ ap (cons_port (to_port atoi negate e))
        (parse_ports-print_ports atoi negate n f fs reads fewer first more)

length-print_ports :
    (e : Entry) (es : List Entry) (rest : List ℕ) → length es ≤ length (print_ports e es rest)
unfolding print_ports
length-print_ports e [] rest = omega arith
length-print_ports e (f ∷ fs) rest =
    let tail = b',' ∷ b' ' ∷ print_ports f fs rest in
    ground (
      arith,
      length-print_ports f fs rest,
      length-append (Entry.digits e) (b')' ∷ tail),
      length-append (proto_name (Entry.proto e)) (b'(' ∷ (Entry.digits e ++ b')' ∷ tail)),
    )

expect-name : (p : FwProto) (rest : List ℕ) → expect b'!' (proto_name p ++ rest) ≡ none
expect-name FwProto.tcp rest = refl
expect-name FwProto.udp rest = refl
expect-name FwProto.sctp rest = refl
expect-name FwProto.esp rest = refl
expect-name FwProto.icmp rest = refl
expect-name FwProto.icmpv6 rest = refl

skip_brackets-name :
    (p : FwProto) (rest : List ℕ)
    → skip_brackets true (proto_name p ++ rest) ≡ (true, proto_name p ++ rest)
unfolding skip_brackets
skip_brackets-name FwProto.tcp rest = refl
skip_brackets-name FwProto.udp rest = refl
skip_brackets-name FwProto.sctp rest = refl
skip_brackets-name FwProto.esp rest = refl
skip_brackets-name FwProto.icmp rest = refl
skip_brackets-name FwProto.icmpv6 rest = refl

-- No space, `!` nor bracket comes first.
print_ports-first :
    (e : Entry) (es : List Entry) (rest : List ℕ)
    → (skip_space (print_ports e es rest) ≡ print_ports e es rest)
      × (expect b'!' (print_ports e es rest) ≡ none)
      × (skip_brackets true (print_ports e es rest) ≡ (true, print_ports e es rest))
unfolding print_ports
print_ports-first e [] rest =
    let tail = b'(' ∷ (Entry.digits e ++ b')' ∷ rest) in
    (
      skip_space-name (Entry.proto e) tail,
      expect-name (Entry.proto e) tail,
      skip_brackets-name (Entry.proto e) tail,
    )
print_ports-first e (f ∷ fs) rest =
    let tail = b'(' ∷ (Entry.digits e ++ b')' ∷ b',' ∷ b' ' ∷ print_ports f fs rest) in
    (
      skip_space-name (Entry.proto e) tail,
      expect-name (Entry.proto e) tail,
      skip_brackets-name (Entry.proto e) tail,
    )

-- Ports that are written, each with its protocol and digits, and with `!(` and `)` around them when they are
-- negated, are added in this order to those there were, if `atoi` reads digits up to a bracket.
pub cfg_parse_ports-print_all :
    (atoi : List ℕ → ℤ) (ports : List FwPort) (negate : Bool) (e : Entry) (es : List Entry)
    → ReadsDigits atoi
    → All (λ f. IsDigits (Entry.digits f)) (e ∷ es)
    → cfg_parse_ports atoi ports (some (print_all negate e es))
      ≡ some (ports ++ to_ports atoi negate (e ∷ es))
unfolding cfg_parse_ports skip_space skip_brackets
cfg_parse_ports-print_all atoi ports false e es reads (is, more) =
    let (spaces, sign, brackets) = print_ports-first e es [] in
    let fits = length-print_ports e es [] in
    let enough : length es < length (print_ports e es []) + 1 = omega (arith, fits) in
    rw (spaces, cfg_parse_ports)
      (rw sign (
        rw
          (
            spaces,
            parse_ports-print_ports atoi false (length (print_ports e es []) + 1) e es reads enough
                is more,
          )
          refl))
cfg_parse_ports-print_all atoi ports true e es reads (is, more) =
    let text = print_ports e es (b')' ∷ []) in
    let (spaces, sign, brackets) = print_ports-first e es (b')' ∷ []) in
    let fits = length-print_ports e es (b')' ∷ []) in
    let n = length (b'!' ∷ b'(' ∷ text) + 1 in
    let enough : length es < n = omega (arith, fits) in
    rw (brackets, cfg_parse_ports)
      (rw (parse_ports-print_ports atoi true n e es reads enough is more) refl)
