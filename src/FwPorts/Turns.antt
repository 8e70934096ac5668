-- ===== src/FwPorts/Turns.antt =====
-- The loop of cfg_parse_ports over any text.
use ocserv_ppa.Base.{
  ℕ, zero, suc, ◌≤◌, ◌<◌, ◌≡◌, refl, Bool, List, [], ◌∷◌, some, length, drop, arith, Option-cases,
  inl, inr,
}
use ocserv_ppa.Base.Int.{ℤ}
use ocserv_ppa.FwPorts.{
  FwProto, FwPort, read_proto, skip_space, expect, after_byte, parse_port, parse_ports,
}

length-drop : (n : ℕ) (xs : List ℕ) → length (drop n xs) ≤ length xs
length-drop zero xs = omega arith
length-drop (suc n) [] = omega arith
length-drop (suc n) (x ∷ xs) = omega (arith, length-drop n xs)

length-skip_space : (xs : List ℕ) → length (skip_space xs) ≤ length xs
unfolding skip_space
length-skip_space [] = omega arith
length-skip_space (x ∷ xs) = ground (arith, length-skip_space xs)

length-expect : (c : ℕ) (xs ys : List ℕ) → expect c xs ≡ some ys → length ys < length xs
length-expect c [] ys h = ground (arith, h)
length-expect c (x ∷ xs) ys h = ground (arith, h)

length-after_byte : (c : ℕ) (xs ys : List ℕ) → after_byte c xs ≡ some ys → length ys < length xs
unfolding after_byte
length-after_byte c [] ys h = ground (arith, h)
length-after_byte c (x ∷ xs) ys h = ground (arith, h, length-after_byte c xs ys)

length-read_proto :
    (xs ys : List ℕ) (p : FwProto) → read_proto xs ≡ some (p, ys) → length ys ≤ length xs
unfolding read_proto
length-read_proto xs ys p h =
    ground (arith, h, length-drop 3 xs, length-drop 4 xs, length-drop 6 xs)

length-parse_port :
    (atoi : List ℕ → ℤ) (negate : Bool) (text rest : List ℕ) (p : FwPort)
    → parse_port atoi negate text ≡ some (p, rest)
    → length rest < length text
unfolding parse_port
length-parse_port atoi negate text rest p h = elim (Option-cases (read_proto (skip_space text))) [
  | inl absent ↦ ground (arith, h, absent)
  | inr ((proto, text1), one) ↦ elim (Option-cases (expect b'(' (skip_space text1))) [
    | inl absent ↦ ground (arith, h, one, absent)
    | inr (text2, two) ↦ elim (Option-cases (after_byte b')' text2)) [
      | inl absent ↦ ground (arith, h, one, two, absent)
      | inr (text3, three) ↦ ground (
        arith,
        h,
        one,
        two,
        three,
        length-skip_space text,
        length-read_proto (skip_space text) text1 proto one,
        length-skip_space text1,
        length-expect b'(' (skip_space text1) text2 two,
        length-after_byte b')' text2 text3 three,
        length-skip_space text3,
      )
    ]
  ]
]

-- Any text is read to its end or refused in as many turns as it has bytes and one more: more turns change
-- nothing.
pub parse_ports-turns :
    (atoi : List ℕ → ℤ) (negate : Bool) (m n : ℕ) (text : List ℕ)
    → length text < m
    → length text < n
    → parse_ports atoi m negate text ≡ parse_ports atoi n negate text
unfolding parse_ports
parse_ports-turns atoi negate zero n text h k = ground (arith, h)
parse_ports-turns atoi negate (suc m) zero text h k = ground (arith, k)
parse_ports-turns atoi negate (suc m) (suc n) text h k =
    elim (Option-cases (parse_port atoi negate text)) [
      | inl absent ↦ rw (absent, parse_ports) refl
      | inr ((p, rest), one) ↦ elim (Option-cases (expect b',' rest)) [
        | inl absent ↦ ground (arith, one, absent)
        | inr (next, comma) ↦
            let less = length-parse_port atoi negate text rest p one in
            let less2 = length-expect b',' rest next comma in
            let same =
              parse_ports-turns atoi negate m n next (omega (arith, h, less, less2))
                (omega (arith, k, less, less2)) in
            ground (arith, one, comma, same)
      ]
    ]
