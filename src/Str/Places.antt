-- ===== src/Str/Places.antt =====
-- One replacement by str_replace_str of src/str.c, at its place in the text.
use ocserv_ppa.Base.{
  ℕ, zero, suc, ◌+◌, ◌-◌, ◌^◌, ◌≤◌, ◌<◌, ◌≡◌, ◌⊎◌, inl, inr, refl, ap, sym, ◌∙◌, Bool, false,
  Bool-cases, List, [], ◌∷◌, ◌++◌, Option, none, some, length, take, drop, append_assoc, All, arith,
  length-take, length-drop, take-append,
}
use ocserv_ppa.Str.{
  Str, Ran, fault, failed, ran, text, StrRepTab, find_pattern, find_percent, replace_at,
  str_append_str, str_append_data,
}
use ocserv_ppa.Str.Room.{IsValid, IsBounded, Holds, length-text, take-take}
use ocserv_ppa.Str.Append.{append-Holds, then-Holds, Holds-same}
use ocserv_ppa.Str.Pass.{
  prefixed, percents, IsPlain, expand, percents-append, percents-drop, find_percent-some, drop-drop,
  drop-positive, expand-replaced,
}

pub find_pattern-IsPlain :
    (tab : List StrRepTab) (bs : List ℕ) (t : StrRepTab)
    → All IsPlain tab
    → find_pattern tab bs ≡ some t
    → IsPlain t
unfolding find_pattern
find_pattern-IsPlain [] bs t plains e = ground (arith, e)
find_pattern-IsPlain (p ∷ ps) bs t (plain, plains) e =
    ground (arith, e, plain, find_pattern-IsPlain ps bs t plains)

-- The bytes after a replacement.
abbrev pub replaced : List ℕ → ℕ → StrRepTab → List ℕ
replaced xs pos t = take pos xs ++ (t.rep_val ++ drop (pos + length t.pattern) xs)

module _ (alloc : ℕ → Bool) (junk : ℕ) (bounded : IsBounded alloc) where
  -- The buffer up to this place.
  pub cut-IsValid :
      (s : Str) (pos : ℕ)
      → IsValid s
      → pos ≤ Str.length s
      → IsValid (record s { length = pos }) × (text (record s { length = pos }) ≡ take pos (text s))
  cut-IsValid s pos v within = (
    record { room = omega (arith, v.room, within); size = v.size; small = v.small },
    sym (take-take pos (Str.length s) (drop s.unused s.memory) within),
  )

  pub replace_at-Holds :
      (s : Str) (pos : ℕ) (t : StrRepTab)
      → IsValid s
      → pos ≤ Str.length s
      → IsPlain t
      → Holds alloc (replaced (text s) pos t) (replace_at alloc junk s pos t)
  unfolding replace_at
  replace_at-Holds s pos t v within (some_pattern, no_percent, small) =
      let final = drop (pos + length t.pattern) (text s) in
      let (cut, held) = cut-IsValid s pos v within in
      let fits : length final + 2 < 2 ^ 62 =
        omega (
          arith,
          v.small,
          v.room,
          length-text s v,
          length-drop (pos + length t.pattern) (text s),
        ) in
      let (plainly, first, prefix) =
        append-Holds alloc junk bounded (record s { length = pos }) t.rep_val cut small in
      elim (Bool-cases (alloc (length final))) [
        | inr refused ↦ rw refused (length final, refused)
        | inl given ↦ rw given (
            then-Holds alloc (text (record s { length = pos }) ++ t.rep_val)
              (replaced (text s) pos t)
              (str_append_str alloc junk (record s { length = pos }) t.rep_val)
              (λ (u : Str). str_append_data alloc junk u final)
              (λ u w same.
                Holds-same alloc _ _ (str_append_data alloc junk u final)
                  (ap (λ xs. xs ++ final) (same ∙ ap (λ xs. xs ++ t.rep_val) held)
                    ∙ append_assoc (take pos (text s)) t.rep_val final)
                  (append-Holds alloc junk bounded u final w fits).0)
              first)
      ]

-- What the loop promises, where it has come to a place: it ends without a write outside the memory; it refuses the
-- text where the pass does, or where memory runs out; and else the buffer holds what the pass gives.
abbrev pub Replaced : (ℕ → Bool) → List ℕ → Option (List ℕ) → Option Ran → Type 0
Replaced alloc pre out none = ⊥
Replaced alloc pre out (some fault) = ⊥
Replaced alloc pre out (some failed) = (out ≡ none) ⊎ ((n : ℕ) × (alloc n ≡ false))
Replaced alloc pre out (some (ran t)) = IsValid t × (some (text t) ≡ prefixed pre out)

pub Replaced-shift :
    (alloc : ℕ → Bool) (pre a : List ℕ) (out : Option (List ℕ)) (r : Option Ran)
    → Replaced alloc (pre ++ a) out r
    → Replaced alloc pre (prefixed a out) r
Replaced-shift alloc pre a out none h = h
Replaced-shift alloc pre a out (some fault) h = h
Replaced-shift alloc pre a out (some failed) (inl e) = inl (rw e refl)
Replaced-shift alloc pre a out (some failed) (inr h) = inr h
Replaced-shift alloc pre a none (some (ran t)) (v, e) = (v, e)
Replaced-shift alloc pre a (some rest) (some (ran t)) (v, e) =
    (v, e ∙ ap some (append_assoc pre a rest))

pub take-plus : (n m : ℕ) (xs : List ℕ) → take (n + m) xs ≡ take n xs ++ take m (drop n xs)
take-plus zero m xs = let e : 0 + m ≡ m = omega arith in ap (λ (k : ℕ). take k xs) e
take-plus (suc n) zero [] =
    let e : suc n + 0 ≡ suc (n + 0) = omega arith in ap (λ (k : ℕ). take k []) e
take-plus (suc n) (suc m) [] =
    let e : suc n + suc m ≡ suc (n + suc m) = omega arith in ap (λ (k : ℕ). take k []) e
take-plus (suc n) m (x ∷ xs) =
    let e : suc n + m ≡ suc (n + m) = omega arith in
    ap (λ (k : ℕ). take k (x ∷ xs)) e ∙ ap (x ∷◌) (take-plus n m xs)

pub drop-append : (n : ℕ) (xs ys : List ℕ) → length xs ≡ n → drop n (xs ++ ys) ≡ ys
drop-append zero [] ys h = refl
drop-append zero (x ∷ xs) ys h = absurd (omega (arith, h))
drop-append (suc n) [] ys h = absurd (omega (arith, h))
drop-append (suc n) (x ∷ xs) ys h = drop-append n xs ys (omega (arith, h))

pub drop-all : (n : ℕ) (xs : List ℕ) → length xs ≤ n → drop n xs ≡ []
drop-all zero [] h = refl
drop-all zero (x ∷ xs) h = absurd (omega (arith, h))
drop-all (suc n) [] h = refl
drop-all (suc n) (x ∷ xs) h = drop-all n xs (omega (arith, h))

-- The first percent sign from a place on.
pub record FoundAt (xs : List ℕ) (pos i : ℕ) : Type 0 where
  pub rest : List ℕ
  pub within : pos + i < length xs
  pub here : drop (pos + i) xs ≡ b'%' ∷ rest
  pub before : take (pos + i) xs ≡ take pos xs ++ take i (drop pos xs)
  pub fewer : percents (drop (pos + i) xs) ≤ percents (drop pos xs)

pub found-FoundAt :
    (xs : List ℕ) (pos i : ℕ) → find_percent (drop pos xs) ≡ some i → FoundAt xs pos i
found-FoundAt xs pos i e =
    let (within, plain, at) = find_percent-some (drop pos xs) i e in
    record {
      rest = drop (suc i) (drop pos xs);
      within = omega (arith, within, length-drop pos xs);
      here = sym (drop-drop i pos xs) ∙ at;
      before = take-plus pos i xs;
      fewer = omega (arith, percents-drop i (drop pos xs), ap percents (drop-drop i pos xs));
    }

-- The text after a replacement, up to its place and from there on.
pub record ReplacedAt (tab : List StrRepTab) (xs : List ℕ) (p : ℕ) (t : StrRepTab) : Type 0 where
  pub pre : take p (replaced xs p t) ≡ take p xs
  pub rest : expand tab 0 (drop p (replaced xs p t)) ≡ expand tab 0 (drop p xs)
  pub fewer : percents (drop p (replaced xs p t)) < percents (drop p xs)

pub replaced-ReplacedAt :
    (tab : List StrRepTab) (xs : List ℕ) (pos i : ℕ) (t : StrRepTab)
    → FoundAt xs pos i
    → find_pattern tab (drop (pos + i) xs) ≡ some t
    → IsPlain t
    → ReplacedAt tab xs (pos + i) t
replaced-ReplacedAt tab xs pos i t f e plain =
    let p = pos + i in
    let k = length t.pattern in
    let tail = drop (p + k) xs in
    let held : length (take p xs) ≡ p = omega (arith, f.within, length-take p xs) in
    let new : drop p (replaced xs p t) ≡ t.rep_val ++ tail =
      drop-append p (take p xs) (t.rep_val ++ tail) held in
    let split : drop k (b'%' ∷ f.rest) ≡ tail = ap (drop k) (sym f.here) ∙ drop-drop k p xs in
    let pattern : find_pattern tab (b'%' ∷ f.rest) ≡ some t =
      ap (find_pattern tab) (sym f.here) ∙ e in
    record {
      pre = take-append p (take p xs) (t.rep_val ++ tail) held;
      rest =
          ap (expand tab 0) (new ∙ ap (t.rep_val ++◌) (sym split))
          ∙ sym (expand-replaced tab f.rest t pattern plain)
          ∙ ap (expand tab 0) (sym f.here);
      fewer = omega (
        arith,
        ap percents new,
        percents-append t.rep_val tail,
        plain,
        ap percents split,
        ap percents (drop-positive k b'%' f.rest plain.0),
        percents-drop (k - 1) f.rest,
        ap percents f.here,
      );
    }
