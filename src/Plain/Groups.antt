-- ===== src/Plain/Groups.antt =====
-- A list of groups in the file of passwords, as it is written and as break_group_list of src/auth/plain.c reads it.
use ocserv_ppa.Base.{
  ℕ, zero, suc, ◌+◌, ◌≡◌, ◌≤◌, ◌<◌, refl, ap, ap₂, ◌∙◌, Bool, true, false, not, ◌&&◌, List, [], ◌∷◌,
  ◌++◌, Option, none, some, arith, leb, ◌==◌, length, length-append, All, All-append,
}
use ocserv_ppa.Base.Bytes.{before_byte}
use ocserv_ppa.SecMod.{max_groups}
use ocserv_ppa.FwPorts.{is_space, skip_space, after_byte}
use ocserv_ppa.Str.{trim_trailing_whitespace}
use ocserv_ppa.Plain.{cut_at, cut_last, last_index, break_group_list}

-- Text without this byte.
abbrev pub Lacks : ℕ → List ℕ → Type 0
Lacks c xs = All (λ b. b == c ≡ false) xs

pub before_byte-Lacks :
    (c : ℕ) (xs rest : List ℕ) → Lacks c xs → before_byte c (xs ++ c ∷ rest) ≡ xs
unfolding before_byte
before_byte-Lacks c [] rest lacks = ground arith
before_byte-Lacks c (x ∷ xs) rest (other, more) =
    rw other (ap (x ∷◌) (before_byte-Lacks c xs rest more))

pub after_byte-Lacks :
    (c : ℕ) (xs rest : List ℕ) → Lacks c xs → after_byte c (xs ++ c ∷ rest) ≡ some rest
unfolding after_byte
after_byte-Lacks c [] rest lacks = ground arith
after_byte-Lacks c (x ∷ xs) rest (other, more) = rw other (after_byte-Lacks c xs rest more)

pub before_byte-end : (c : ℕ) (xs : List ℕ) → Lacks c xs → before_byte c xs ≡ xs
unfolding before_byte
before_byte-end c [] lacks = refl
before_byte-end c (x ∷ xs) (other, more) = rw other (ap (x ∷◌) (before_byte-end c xs more))

after_byte-end : (c : ℕ) (xs : List ℕ) → Lacks c xs → after_byte c xs ≡ none
unfolding after_byte
after_byte-end c [] lacks = refl
after_byte-end c (x ∷ xs) (other, more) = rw other (after_byte-end c xs more)

-- Bytes of a name that are no separator of the file.
abbrev pub is_group_byte : ℕ → Bool
is_group_byte b = not (b == b':') && (not (b == b',') && not (is_space b))

abbrev pub IsName : List ℕ → Type 0
IsName xs = All (λ b. is_group_byte b ≡ true) xs

-- A group that the file can have: of one byte is none.
pub record IsGroup (g : List ℕ) : Type 0 where
  pub name : IsName g
  pub long : 2 ≤ length g

-- A user without groups has "*", as ocpasswd writes it.
unfoldable pub print_groups : List (List ℕ) → List ℕ
print_groups [] = b'*' ∷ []
print_groups (g ∷ []) = g
print_groups (g ∷ h ∷ gs) = g ++ b',' ∷ print_groups (h ∷ gs)

name-Lacks : (g : List ℕ) → IsName g → Lacks b',' g
name-Lacks [] h = tt
name-Lacks (x ∷ xs) (h, more) = (ground (arith, h), name-Lacks xs more)

last_index-name : (g : List ℕ) → IsName g → last_index b' ' g ≡ none
unfolding last_index
last_index-name [] h = refl
last_index-name (x ∷ xs) (h, more) = ground (arith, h, last_index-name xs more)

cut_last-name : (g : List ℕ) → IsName g → cut_last g ≡ g
unfolding cut_last
cut_last-name g h = ground (arith, last_index-name g h)

trim-name : (g : List ℕ) → IsName g → trim_trailing_whitespace g ≡ g
unfolding trim_trailing_whitespace
trim-name [] h = refl
trim-name (x ∷ []) (h, more) = ground (arith, h)
trim-name (x ∷ y ∷ ys) (h, more) = ground (arith, trim-name (y ∷ ys) more)

-- No space comes before a group.
skip-group : (g rest : List ℕ) → IsGroup g → skip_space (g ++ rest) ≡ g ++ rest
unfolding skip_space
skip-group [] rest is = absurd (omega (arith, is.long))
skip-group (x ∷ xs) rest is = ground (arith, is.name)

skip-groups :
    (g : List ℕ) (gs : List (List ℕ))
    → IsGroup g
    → skip_space (print_groups (g ∷ gs)) ≡ print_groups (g ∷ gs)
unfolding print_groups skip_space
skip-groups [] gs is = absurd (omega (arith, is.long))
skip-groups (x ∷ xs) [] is = ground (arith, is.name)
skip-groups (x ∷ xs) (h ∷ gs) is = ground (arith, is.name)

break-last : (n count : ℕ) (g : List ℕ) → IsGroup g → break_group_list (suc n) count g ≡ g ∷ []
unfolding break_group_list
break-last n count g is =
    let cut : cut_at b',' g ≡ (g, none) =
      ap₂ (λ (a : List ℕ) (b : Option (List ℕ)). (a, b))
        (before_byte-end b',' g (name-Lacks g is.name))
        (after_byte-end b',' g (name-Lacks g is.name)) in
    ground (arith, cut, cut_last-name g is.name, is.long)

break-more :
    (n count : ℕ) (g rest : List ℕ)
    → IsGroup g
    → count + 1 < max_groups
    → skip_space rest ≡ rest
    → break_group_list (suc n) count (g ++ b',' ∷ rest) ≡ g ∷ break_group_list n (count + 1) rest
unfolding break_group_list
break-more n count g rest is few skipped =
    let lacks = name-Lacks g is.name in
    let cut : cut_at b',' (g ++ b',' ∷ rest) ≡ (g, some rest) =
      ap₂ (λ (a : List ℕ) (b : Option (List ℕ)). (a, b)) (before_byte-Lacks b',' g rest lacks)
        (after_byte-Lacks b',' g rest lacks) in
    let long : length g == 1 ≡ false = ground (arith, is.long) in
    let room : leb max_groups (count + 1) ≡ false = ground (arith, few) in
    ground (arith, cut, long, room, skipped, trim-name g is.name)

break-groups :
    (n count : ℕ) (g : List ℕ) (gs : List (List ℕ))
    → All IsGroup (g ∷ gs)
    → length gs < n
    → count + length (g ∷ gs) ≤ max_groups
    → break_group_list n count (print_groups (g ∷ gs)) ≡ g ∷ gs
unfolding print_groups
break-groups zero count g gs h k few = absurd (omega (arith, k))
break-groups (suc n) count g [] (is, h) k few = break-last n count g is
break-groups (suc n) count g (g2 ∷ gs) (is, (is2, h)) k few =
    break-more n count g (print_groups (g2 ∷ gs)) is (omega (arith, few)) (skip-groups g2 gs is2)
    ∙ ap (g ∷◌) (break-groups n (count + 1) g2 gs (is2, h) (omega (arith, k)) (omega (arith, few)))

length-print_groups : (g : List ℕ) (gs : List (List ℕ)) → length gs ≤ length (print_groups (g ∷ gs))
unfolding print_groups
length-print_groups g [] = omega arith
length-print_groups g (h ∷ gs) =
    omega (arith, length-print_groups h gs, length-append g (b',' ∷ print_groups (h ∷ gs)))

-- The groups that are written are read.
pub break_group_list-print_groups :
    (gs : List (List ℕ))
    → All IsGroup gs
    → length gs ≤ max_groups
    → break_group_list (length (print_groups gs) + 1) 0 (print_groups gs) ≡ gs
unfolding break_group_list print_groups before_byte after_byte last_index cut_last
break_group_list-print_groups [] h few = refl
break_group_list-print_groups (g ∷ gs) h few =
    break-groups (length (print_groups (g ∷ gs)) + 1) 0 g gs h
      (omega (arith, length-print_groups g gs)) (omega (arith, few))

-- Bytes that end no field and no line.
abbrev pub is_clean : ℕ → Bool
is_clean b = not (b == b':') && (not (b == 10) && not (b == 13))

abbrev pub IsClean : List ℕ → Type 0
IsClean xs = All (λ b. is_clean b ≡ true) xs

abbrev Clean : ℕ → Type 0
Clean b = is_clean b ≡ true

name-IsClean : (g : List ℕ) → IsName g → IsClean g
name-IsClean [] h = tt
name-IsClean (x ∷ xs) (h, more) = (ground (arith, h), name-IsClean xs more)

pub print_groups-IsClean : (gs : List (List ℕ)) → All IsGroup gs → IsClean (print_groups gs)
unfolding print_groups
print_groups-IsClean [] h = (refl, tt)
print_groups-IsClean (g ∷ []) (is, h) = name-IsClean g is.name
print_groups-IsClean (g ∷ g2 ∷ gs) (is, (is2, h)) =
    All-append Clean g (b',' ∷ print_groups (g2 ∷ gs)) (name-IsClean g is.name)
      (refl, print_groups-IsClean (g2 ∷ gs) (is2, h))
