-- ===== src/Base/Masks.antt =====
-- Addresses as lists of bytes, under network masks: the loops of the C code over `s_addr[i]`.
use Prim.Native.Nat.{
  ℕ, zero, suc, ◌+◌, ◌-◌, ◌*◌, ◌/◌, ◌%◌, ◌^◌, ◌≤◌, ◌<◌, min, max, bit_and, bit_or, digits,
  bit_and-bitwise, bit_or-bitwise,
}
use mathlib.Core.Path.{◌≡◌, refl, ap₂}
use mathlib.Core.List.{List, [], ◌∷◌}
use native.Mathlib.Omega.{arith}
use ocserv_ppa.Base.Lists.{length, All}

and_fuel :
    (n m a b : ℕ) → a ≤ n → a ≤ m → digits (λ b. zero) min n a b ≡ digits (λ b. zero) min m a b
and_fuel zero zero a b p q = refl
and_fuel zero (suc m) zero b p q = refl
and_fuel zero (suc m) (suc a) b p q = absurd (omega arith)
and_fuel (suc n) zero zero b p q = refl
and_fuel (suc n) zero (suc a) b p q = absurd (omega arith)
and_fuel (suc n) (suc m) zero b p q = refl
and_fuel (suc n) (suc m) (suc a) b p q =
    omega (arith, and_fuel n m (suc a / 2) (b / 2) (omega arith) (omega arith))

or_fuel : (n m a b : ℕ) → a ≤ n → a ≤ m → digits (λ b. b) max n a b ≡ digits (λ b. b) max m a b
or_fuel zero zero zero b p q = refl
or_fuel zero zero (suc a) b p q = absurd (omega arith)
or_fuel zero (suc m) zero b p q = refl
or_fuel zero (suc m) (suc a) b p q = absurd (omega arith)
or_fuel (suc n) zero zero b p q = refl
or_fuel (suc n) zero (suc a) b p q = absurd (omega arith)
or_fuel (suc n) (suc m) zero b p q = refl
or_fuel (suc n) (suc m) (suc a) b p q =
    omega (arith, or_fuel n m (suc a / 2) (b / 2) (omega arith) (omega arith))

zero-and : (b : ℕ) → bit_and 0 b ≡ 0
zero-and b = bit_and-bitwise 0 b

zero-or : (b : ℕ) → bit_or 0 b ≡ b
zero-or b = bit_or-bitwise 0 b

-- The lowest digit of a conjunction, and the others.
bit_and_step : (a b : ℕ) → bit_and a b ≡ bit_and (a / 2) (b / 2) * 2 + min (a % 2) (b % 2)
bit_and_step zero b = omega (arith, zero-and b, zero-and (b / 2))
bit_and_step (suc a) b = omega (
  arith,
  bit_and-bitwise (suc a) b,
  bit_and-bitwise (suc a / 2) (b / 2),
  and_fuel a (suc a / 2) (suc a / 2) (b / 2) (omega arith) (omega arith),
)

bit_or_step : (a b : ℕ) → bit_or a b ≡ bit_or (a / 2) (b / 2) * 2 + max (a % 2) (b % 2)
bit_or_step zero b = omega (arith, zero-or b, zero-or (b / 2))
bit_or_step (suc a) b = omega (
  arith,
  bit_or-bitwise (suc a) b,
  bit_or-bitwise (suc a / 2) (b / 2),
  or_fuel a (suc a / 2) (suc a / 2) (b / 2) (omega arith) (omega arith),
)

and_half : (a b : ℕ) → bit_and a b / 2 ≡ bit_and (a / 2) (b / 2)
and_half a b = omega (arith, bit_and_step a b)

and_low : (a b : ℕ) → bit_and a b % 2 ≡ min (a % 2) (b % 2)
and_low a b = omega (arith, bit_and_step a b)

or_half : (a b : ℕ) → bit_or a b / 2 ≡ bit_or (a / 2) (b / 2)
or_half a b = omega (arith, bit_or_step a b)

or_low : (a b : ℕ) → bit_or a b % 2 ≡ max (a % 2) (b % 2)
or_low a b = omega (arith, bit_or_step a b)

-- The bits under a mask of w bits are those that were put there.
masked_bits :
    (w n r a m : ℕ)
    → n ≡ 2 ^ w
    → r < n
    → a < n
    → m < n
    → bit_and (bit_or (bit_and r (n - 1 - m)) (bit_and a m)) m ≡ bit_and a m
masked_bits zero n r a m e hr ha hm =
    let r0 : r ≡ 0 = omega arith in
    let a0 : a ≡ 0 = omega arith in
    let m0 : m ≡ 0 = omega arith in let n0 : n ≡ 1 = omega arith in rw r0 (rw a0 (rw m0 (rw n0)))
masked_bits (suc w) n r a m e hr ha hm =
    let c = n - 1 - m in
    let x = bit_and r c in
    let y = bit_and a m in
    let half : n / 2 ≡ 2 ^ w = omega arith in
    let upper =
      masked_bits w (n / 2) (r / 2) (a / 2) (m / 2) half (omega arith) (omega arith)
        (omega arith) in
    let c2 : c / 2 ≡ n / 2 - 1 - m / 2 = omega arith in
    let c0 : c % 2 ≡ 1 - m % 2 = omega arith in
    let same : bit_and (bit_or x y / 2) (m / 2) ≡ y / 2 =
      rw (or_half x y, and_half r c, and_half a m, c2) upper in
    omega (arith, bit_and_step (bit_or x y) m, same, or_low x y, and_low r c, and_low a m, c0)

-- A conjunction is not above the mask.
bit_and-le : (w n a m : ℕ) → n ≡ 2 ^ w → a < n → bit_and a m ≤ m
bit_and-le zero n a m e h = let a0 : a ≡ 0 = omega arith in rw a0 (omega (arith, zero-and m))
bit_and-le (suc w) n a m e h =
    let half : n / 2 ≡ 2 ^ w = omega arith in
    omega (arith, bit_and_step a m, bit_and-le w (n / 2) (a / 2) (m / 2) half (omega arith))

-- `~` of an `uint8_t`
abbrev pub not_bytes : List ℕ → List ℕ
not_bytes [] = []
not_bytes (x ∷ xs) = (255 - x) ∷ not_bytes xs

-- `a[i] &= b[i]`
abbrev pub and_bytes : List ℕ → List ℕ → List ℕ
and_bytes [] ys = []
and_bytes (x ∷ xs) [] = []
and_bytes (x ∷ xs) (y ∷ ys) = bit_and x y ∷ and_bytes xs ys

-- `a[i] |= b[i]`
abbrev pub or_bytes : List ℕ → List ℕ → List ℕ
or_bytes [] ys = []
or_bytes (x ∷ xs) [] = []
or_bytes (x ∷ xs) (y ∷ ys) = bit_or x y ∷ or_bytes xs ys

abbrev pub IsBytes : List ℕ → Type 0
IsBytes xs = All (λ x. x < 256) xs

-- The host bits of `r` in the network of `a`: under the mask it is the network.
pub masked_bytes :
    (r a m : List ℕ)
    → length r ≡ length m
    → length a ≡ length m
    → IsBytes r
    → IsBytes a
    → IsBytes m
    → and_bytes (or_bytes (and_bytes r (not_bytes m)) (and_bytes a m)) m ≡ and_bytes a m
masked_bytes [] [] [] lr la br ba bm = refl
masked_bytes [] [] (z ∷ m) lr la br ba bm = absurd (omega arith)
masked_bytes [] (y ∷ a) m lr la br ba bm = absurd (omega arith)
masked_bytes (x ∷ r) [] m lr la br ba bm = absurd (omega arith)
masked_bytes (x ∷ r) (y ∷ a) [] lr la br ba bm = absurd (omega arith)
masked_bytes (x ∷ r) (y ∷ a) (z ∷ m) lr la (bx, br) (by', ba) (bz, bm) =
    ap₂ ◌∷◌ (masked_bits 8 256 x y z refl bx by' bz)
      (masked_bytes r a m (omega arith) (omega arith) br ba bm)
