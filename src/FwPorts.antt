-- ===== src/FwPorts.antt =====
-- cfg_parse_ports of src/config-ports.c: the ports that a user is restricted to, as a text like
-- "tcp(443), udp(53)", or "!(tcp(25))" for the ports that it may not use. `atoi` of the C library is an
-- argument. `none` is -1: the configuration is then refused. Memory is taken to be there.
pub mod RoundTrip
pub mod Turns
mod Tests
use ocserv_ppa.Base.{
  ◌>>=◌, ℕ, zero, suc, ◌+◌, ◌-◌, ◌%◌, ◌^◌, Bool, true, false, ◌&&◌, ◌||◌, not, List, [], ◌∷◌, ◌++◌,
  Option, none, some, leb, ◌==◌, if◌then◌else◌, length, drop,
}
use ocserv_ppa.Base.Int.{ℤ, pos, negsuc}

-- `fw_proto_t`
pub data FwProto : Type 0 where
  udp tcp sctp esp icmp icmpv6 : FwProto

-- `FwPortSt`
pub record FwPort : Type 0 where
  pub port : ℕ
  pub proto : FwProto
  pub negate : Bool

-- What is left of a number in the 32 bits of the field.
abbrev pub to_uint32 : ℤ → ℕ
to_uint32 (pos n) = n % 2 ^ 32
to_uint32 (negsuc n) = 2 ^ 32 - 1 - n % 2 ^ 32

-- `c_isspace`
abbrev pub is_space : ℕ → Bool
is_space b = b == b' ' || (leb 9 b && leb b 13)

unfoldable pub skip_space : List ℕ → List ℕ
skip_space [] = []
skip_space (b ∷ bs) = if is_space b then skip_space bs else b ∷ bs

-- After `!`: spaces and brackets, and whether there was a bracket.
pub skip_brackets : Bool → List ℕ → Bool × List ℕ
skip_brackets start [] = (start, [])
skip_brackets start (b ∷ bs) =
    let opened = skip_brackets true bs in
    let spaced = skip_brackets start bs in
    if b == b'(' then opened else if is_space b then spaced else (start, b ∷ bs)

abbrev pub lower : ℕ → ℕ
lower b = if leb b'A' b && leb b b'Z' then b + 32 else b

-- `strncasecmp` with a name in lower case
unfoldable pub has_prefix : List ℕ → List ℕ → Bool
has_prefix [] text = true
has_prefix (x ∷ xs) [] = false
has_prefix (x ∷ xs) (y ∷ ys) = lower y == x && has_prefix xs ys

abbrev pub proto_name : FwProto → List ℕ
proto_name FwProto.tcp = b't' ∷ b'c' ∷ b'p' ∷ []
proto_name FwProto.udp = b'u' ∷ b'd' ∷ b'p' ∷ []
proto_name FwProto.sctp = b's' ∷ b'c' ∷ b't' ∷ b'p' ∷ []
proto_name FwProto.esp = b'e' ∷ b's' ∷ b'p' ∷ []
proto_name FwProto.icmp = b'i' ∷ b'c' ∷ b'm' ∷ b'p' ∷ []
proto_name FwProto.icmpv6 = b'i' ∷ b'c' ∷ b'm' ∷ b'p' ∷ b'v' ∷ b'6' ∷ []

-- The protocol, and the text after it.
pub read_proto : List ℕ → Option (FwProto × List ℕ)
read_proto text =
    if has_prefix (proto_name FwProto.tcp) text
    then some (FwProto.tcp, drop 3 text)
    else if has_prefix (proto_name FwProto.udp) text
    then some (FwProto.udp, drop 3 text)
    else if has_prefix (proto_name FwProto.sctp) text
    then some (FwProto.sctp, drop 4 text)
    else if has_prefix (proto_name FwProto.icmpv6) text
    then some (FwProto.icmpv6, drop 6 text)
    else if has_prefix (proto_name FwProto.icmp) text
    then some (FwProto.icmp, drop 4 text)
    else if has_prefix (proto_name FwProto.esp) text
    then some (FwProto.esp, drop 3 text)
    else none

-- The text after this byte, if it comes first.
abbrev pub expect : ℕ → List ℕ → Option (List ℕ)
expect c [] = none
expect c (b ∷ bs) = if b == c then some bs else none

-- `strchr`, and one further.
unfoldable pub after_byte : ℕ → List ℕ → Option (List ℕ)
after_byte c [] = none
after_byte c (b ∷ bs) = let rest = after_byte c bs in if b == c then some bs else rest

-- The end of the text, or of a negation.
abbrev pub at_end : Bool → List ℕ → Bool
at_end negate [] = true
at_end negate (b ∷ bs) = negate && b == b')'

abbrev pub cons_port : FwPort → Option (List FwPort) → Option (List FwPort)
cons_port p none = none
cons_port p (some ps) = some (p ∷ ps)

module _ (atoi : List ℕ → ℤ) where
  -- One entry: its port and the text after it.
  pub parse_port : Bool → List ℕ → Option (FwPort × List ℕ)
  parse_port negate text = do
    (proto, text1) ← read_proto (skip_space text)
    text2 ← expect b'(' (skip_space text1)
    text3 ← after_byte b')' text2
    some
        (record { port = to_uint32 (atoi text2); proto = proto; negate = negate }, skip_space text3)

  -- The loop over the entries; each takes some of the text.
  pub parse_ports : ℕ → Bool → List ℕ → Option (List FwPort)
  parse_ports zero negate text = none
  parse_ports (suc n) negate text = elim (parse_port negate text) [
    | none ↦ none
    | some (p, rest) ↦ if at_end negate rest then some (p ∷ []) else elim (expect b',' rest) [
      | none ↦ none
      | some next ↦ cons_port p (parse_ports n negate next)
    ]
  ]

  -- `ports` are those that were there before.
  pub cfg_parse_ports : List FwPort → Option (List ℕ) → Option (List FwPort)
  cfg_parse_ports ports none = some ports
  cfg_parse_ports ports (some str) =
      let text = skip_space str in
      let (start, inner) = skip_brackets false (drop 1 text) in
      elim (expect b'!' text) [
        | none ↦ (do new ← parse_ports (length text + 1) false text; some (ports ++ new))
        | some rest ↦
            if not start
            then none
            else (do new ← parse_ports (length text + 1) true inner; some (ports ++ new))
      ]
