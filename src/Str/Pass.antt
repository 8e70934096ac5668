-- ===== src/Str/Pass.antt =====
-- What str_replace_str of src/str.c is for: one pass over the text.
use ocserv_ppa.Base.{
  ℕ, zero, suc, ◌+◌, ◌-◌, ◌^◌, ◌≤◌, ◌<◌, ◌≡◌, inl, inr, refl, ap, sym, ◌∙◌, false, Option-cases,
  List, [], ◌∷◌, ◌++◌, Option, none, some, ◌==◌, if◌then◌else◌, length, take, drop, arith,
}
use ocserv_ppa.Str.{StrRepTab, find_pattern, find_percent}

abbrev pub prefixed : List ℕ → Option (List ℕ) → Option (List ℕ)
prefixed a none = none
prefixed a (some rest) = some (a ++ rest)

-- The text with each pattern of the table replaced; after a pattern, what is left of it is skipped. Nothing if a
-- percent sign begins none.
unfoldable pub expand : List StrRepTab → ℕ → List ℕ → Option (List ℕ)
expand tab skip [] = some []
expand tab (suc k) (b ∷ bs) = expand tab k bs
expand tab zero (b ∷ bs) =
    let plain = expand tab 0 bs in
    if b == b'%'
    then elim (find_pattern tab (b ∷ bs)) [
      | none ↦ none
      | some t ↦ prefixed t.rep_val (expand tab (length t.pattern - 1) bs)
    ]
    else prefixed (b ∷ []) plain

-- How many percent signs there are.
abbrev pub percents : List ℕ → ℕ
percents [] = 0
percents (b ∷ bs) = if b == b'%' then suc (percents bs) else percents bs

-- A table whose patterns are not empty, and whose values have no percent sign.
abbrev pub IsPlain : StrRepTab → Type 0
IsPlain t = (0 < length t.pattern) × (percents t.rep_val ≡ 0) × (length t.rep_val + 2 < 2 ^ 62)

pub expand-plain :
    (tab : List StrRepTab) (a rest : List ℕ)
    → percents a ≡ 0
    → expand tab 0 (a ++ rest) ≡ prefixed a (expand tab 0 rest)
unfolding expand
expand-plain tab [] rest none_there = elim (Option-cases (expand tab 0 rest)) [
  | inl e ↦ rw e refl
  | inr (out, e) ↦ rw e refl
]
expand-plain tab (b ∷ bs) rest none_there =
    let other : b == b'%' ≡ false = ground (arith, none_there) in
    let less : percents bs ≡ 0 = ground (arith, none_there) in
    rw other (
      rw (expand-plain tab bs rest less)
        (elim (Option-cases (expand tab 0 rest)) [ inl e ↦ rw e refl | inr (out, e) ↦ rw e refl ]))

pub expand-skip :
    (tab : List StrRepTab) (k : ℕ) (bs : List ℕ) → expand tab k bs ≡ expand tab 0 (drop k bs)
unfolding expand
expand-skip tab zero bs = refl
expand-skip tab (suc k) [] = refl
expand-skip tab (suc k) (b ∷ bs) = expand-skip tab k bs

pub percents-append : (xs ys : List ℕ) → percents (xs ++ ys) ≡ percents xs + percents ys
percents-append [] ys = omega arith
percents-append (x ∷ xs) ys = ground (arith, percents-append xs ys)

pub percents-drop : (k : ℕ) (xs : List ℕ) → percents (drop k xs) ≤ percents xs
percents-drop zero xs = omega arith
percents-drop (suc k) [] = omega arith
percents-drop (suc k) (x ∷ xs) = ground (arith, percents-drop k xs)

-- Where there is no percent sign, and where the first one is.
pub find_percent-none : (xs : List ℕ) → find_percent xs ≡ none → percents xs ≡ 0
unfolding find_percent
find_percent-none [] e = refl
find_percent-none (x ∷ xs) e = ground (arith, e, find_percent-none xs)

pub find_percent-some :
    (xs : List ℕ) (i : ℕ)
    → find_percent xs ≡ some i
    → (i < length xs) × (percents (take i xs) ≡ 0) × (drop i xs ≡ b'%' ∷ drop (suc i) xs)
unfolding find_percent
find_percent-some [] i e = ground (arith, e)
find_percent-some (x ∷ xs) zero e = ground (arith, e)
find_percent-some (x ∷ xs) (suc i) e =
    let found : find_percent xs ≡ some i = ground (arith, e) in
    let other : x == b'%' ≡ false = ground (arith, e) in
    let (within, before, at) = find_percent-some xs i found in
    (omega (arith, within), rw other before, at)

pub take-drop : (n : ℕ) (xs : List ℕ) → take n xs ++ drop n xs ≡ xs
take-drop zero xs = refl
take-drop (suc n) [] = refl
take-drop (suc n) (x ∷ xs) = ap (x ∷◌) (take-drop n xs)

pub drop-drop : (n m : ℕ) (xs : List ℕ) → drop n (drop m xs) ≡ drop (m + n) xs
drop-drop n zero xs = let e : 0 + n ≡ n = omega arith in ap (λ (k : ℕ). drop k xs) (sym e)
drop-drop zero (suc m) [] =
    let e : suc m + 0 ≡ suc (m + 0) = omega arith in ap (λ (k : ℕ). drop k []) (sym e)
drop-drop (suc n) (suc m) [] =
    let e : suc m + suc n ≡ suc (m + suc n) = omega arith in ap (λ (k : ℕ). drop k []) (sym e)
drop-drop n (suc m) (x ∷ xs) =
    let e : suc m + n ≡ suc (m + n) = omega arith in
    drop-drop n m xs ∙ ap (λ (k : ℕ). drop k (x ∷ xs)) (sym e)

pub drop-positive : (k b : ℕ) (bs : List ℕ) → 0 < k → drop k (b ∷ bs) ≡ drop (k - 1) bs
drop-positive zero b bs h = absurd (omega (arith, h))
drop-positive (suc k) b bs h = let e : k ≡ suc k - 1 = omega arith in ap (λ (n : ℕ). drop n bs) e

-- One step of the pass, from the first percent sign.
pub expand-none : (tab : List StrRepTab) (xs : List ℕ) → percents xs ≡ 0 → expand tab 0 xs ≡ some xs
unfolding expand
expand-none tab [] e = refl
expand-none tab (x ∷ xs) e =
    let other : x == b'%' ≡ false = ground (arith, e) in
    let less : percents xs ≡ 0 = ground (arith, e) in rw other (rw (expand-none tab xs less) refl)

pub expand-some :
    (tab : List StrRepTab) (xs : List ℕ) (i : ℕ)
    → find_percent xs ≡ some i
    → expand tab 0 xs ≡ prefixed (take i xs) (expand tab 0 (drop i xs))
expand-some tab xs i e =
    let (within, before, at) = find_percent-some xs i e in
    ap (expand tab 0) (sym (take-drop i xs)) ∙ expand-plain tab (take i xs) (drop i xs) before

pub expand-refused :
    (tab : List StrRepTab) (bs : List ℕ)
    → find_pattern tab (b'%' ∷ bs) ≡ none
    → expand tab 0 (b'%' ∷ bs) ≡ none
unfolding expand
expand-refused tab bs e = rw e refl

pub expand-replaced :
    (tab : List StrRepTab) (bs : List ℕ) (t : StrRepTab)
    → find_pattern tab (b'%' ∷ bs) ≡ some t
    → IsPlain t
    → expand tab 0 (b'%' ∷ bs) ≡ expand tab 0 (t.rep_val ++ drop (length t.pattern) (b'%' ∷ bs))
unfolding expand
expand-replaced tab bs t e (some_pattern, plain, small) = rw e (
    ap (prefixed t.rep_val) (
      expand-skip tab (length t.pattern - 1) bs
      ∙ ap (expand tab 0) (sym (drop-positive (length t.pattern) b'%' bs some_pattern)))
    ∙ sym (expand-plain tab t.rep_val (drop (length t.pattern) (b'%' ∷ bs)) plain))
