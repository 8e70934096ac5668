-- ===== src/Plain/File.antt =====
-- What is written as a file of passwords, src/auth/plain.c reads.
use ocserv_ppa.Base.{
  ℕ, zero, suc, ◌+◌, ◌≡◌, ◌≤◌, ◌<◌, refl, ap, ap₂, ◌∙◌, true, false, not, ◌&&◌, List, [], ◌∷◌, ◌++◌,
  Option, none, some, arith, leb, ◌==◌, if◌then◌else◌, length, length-append, All, All-append,
  Bool-cases, inl, inr,
}
use ocserv_ppa.Base.Bytes.{bytes_eq}
use ocserv_ppa.Base.Int.{pos}
use ocserv_ppa.SecMod.{strlcpy}
use ocserv_ppa.SecMod.Group.{is_empty}
use ocserv_ppa.SecMod.{max_groups}
use ocserv_ppa.Plain.Groups.{
  Lacks, before_byte-Lacks, after_byte-Lacks, before_byte-end, IsGroup, print_groups,
  break_group_list-print_groups, IsClean, print_groups-IsClean,
}
use ocserv_ppa.Plain.{
  PlainCtx, PlainCfg, cut_at, strip, get_line, after_line, read_fields, read_entry, read_lines,
  max_cpass_size, read_auth_pass,
}

-- A line of the file.
pub record Line : Type 0 where
  pub name : List ℕ
  pub groups : List (List ℕ)
  pub hash : List ℕ

pub record IsLine (l : Line) : Type 0 where
  pub name : IsClean (Line.name l)
  pub groups : All IsGroup (Line.groups l)
  pub few : length (Line.groups l) ≤ max_groups
  pub hash : IsClean (Line.hash l)
  pub long : 2 ≤ length (Line.hash l)
  pub short :
      length (Line.name l) + length (print_groups (Line.groups l)) + length (Line.hash l) < 500

abbrev pub fields : Line → List ℕ
fields l = print_groups (Line.groups l) ++ b':' ∷ Line.hash l

abbrev pub print_line : Line → List ℕ
print_line l = Line.name l ++ b':' ∷ fields l

pub print_file : List Line → List ℕ
print_file [] = []
print_file (l ∷ ls) = print_line l ++ 10 ∷ print_file ls

-- The first line of a user.
pub find_user : List ℕ → List Line → Option Line
find_user username [] = none
find_user username (l ∷ ls) =
    if bytes_eq username (Line.name l) then some l else find_user username ls

-- What the line of a user sets.
abbrev pub found : Option Line → PlainCtx → PlainCtx
found none p = p
found (some l) p = record p {
  groupnames = Line.groups l;
  cpass = strlcpy max_cpass_size (Line.hash l);
  failed = false;
}

clean-Lacks : (xs : List ℕ) → IsClean xs → Lacks b':' xs
clean-Lacks [] clean = tt
clean-Lacks (x ∷ xs) (clean, more) = (ground (arith, clean), clean-Lacks xs more)

cut_at-clean : (xs rest : List ℕ) → IsClean xs → cut_at b':' (xs ++ b':' ∷ rest) ≡ (xs, some rest)
cut_at-clean xs rest clean =
    ap₂ (λ (a : List ℕ) (b : Option (List ℕ)). (a, b))
      (before_byte-Lacks b':' xs rest (clean-Lacks xs clean))
      (after_byte-Lacks b':' xs rest (clean-Lacks xs clean))

-- No byte ends a line.
abbrev OneLine : ℕ → Type 0
OneLine b = not (b == 10) && not (b == 13) ≡ true

abbrev IsOneLine : List ℕ → Type 0
IsOneLine xs = All OneLine xs

get_line-line :
    (n : ℕ) (xs rest : List ℕ)
    → IsOneLine xs
    → length xs < n
    → (get_line n (xs ++ 10 ∷ rest) ≡ xs ++ 10 ∷ []) × (after_line n (xs ++ 10 ∷ rest) ≡ rest)
unfolding get_line after_line
get_line-line zero xs rest clean h = absurd (omega (arith, h))
get_line-line (suc n) [] rest clean h = (refl, refl)
get_line-line (suc n) (x ∷ xs) rest (clean, more) h =
    let other : x == 10 ≡ false = ground (arith, clean) in
    let fits : length xs < n = omega (arith, h) in
    let (line, left) = get_line-line n xs rest more fits in rw other (ap (x ∷◌) line, left)

strip-end : (c : ℕ) (xs : List ℕ) → strip c (xs ++ c ∷ []) ≡ xs
unfolding strip
strip-end c [] = ground arith
strip-end c (x ∷ []) = ap (x ∷◌) (strip-end c [])
strip-end c (x ∷ y ∷ ys) = ap (x ∷◌) (strip-end c (y ∷ ys))

strip-13 : (xs : List ℕ) → IsOneLine xs → strip 13 xs ≡ xs
unfolding strip
strip-13 [] clean = refl
strip-13 (x ∷ []) (clean, more) = ground (arith, clean)
strip-13 (x ∷ y ∷ ys) (clean, more) = ap (x ∷◌) (strip-13 (y ∷ ys) more)

clean-IsOneLine : (xs : List ℕ) → IsClean xs → IsOneLine xs
clean-IsOneLine [] clean = tt
clean-IsOneLine (x ∷ xs) (clean, more) = (ground (arith, clean), clean-IsOneLine xs more)

print_line-IsOneLine : (l : Line) → IsLine l → IsOneLine (print_line l)
print_line-IsOneLine l is =
    let groups = print_groups (Line.groups l) in
    All-append OneLine (Line.name l) (b':' ∷ fields l) (clean-IsOneLine (Line.name l) is.name) (
      refl,
      All-append OneLine groups (b':' ∷ Line.hash l)
          (clean-IsOneLine groups (print_groups-IsClean (Line.groups l) is.groups))
          (refl, clean-IsOneLine (Line.hash l) is.hash),
    )

length-print_line :
    (l : Line)
    → length (print_line l)
      ≡ length (Line.name l) + length (print_groups (Line.groups l)) + length (Line.hash l) + 2
length-print_line l = omega (
  arith,
  length-append (Line.name l) (b':' ∷ fields l),
  length-append (print_groups (Line.groups l)) (b':' ∷ Line.hash l),
)

read_fields-line :
    (l : Line) → IsLine l → read_fields (fields l) ≡ (Line.groups l, some (Line.hash l))
read_fields-line l is =
    let groups = print_groups (Line.groups l) in
    let lacks = clean-Lacks groups (print_groups-IsClean (Line.groups l) is.groups) in
    ground (
      arith,
      before_byte-Lacks b':' groups (Line.hash l) lacks,
      after_byte-Lacks b':' groups (Line.hash l) lacks,
      before_byte-end b':' (Line.hash l) (clean-Lacks (Line.hash l) is.hash),
      break_group_list-print_groups (Line.groups l) is.groups is.few,
    )

read_entry-line :
    (username : List ℕ) (l : Line)
    → IsLine l
    → read_entry username (print_line l ++ 10 ∷ [])
      ≡ (if bytes_eq username (Line.name l) then some (Line.groups l, some (Line.hash l)) else none)
unfolding read_entry
read_entry-line username l is =
    let whole = print_line l ++ 10 ∷ [] in
    let stripped : strip 13 (strip 10 whole) ≡ print_line l =
      ap (strip 13) (strip-end 10 (print_line l))
      ∙ strip-13 (print_line l) (print_line-IsOneLine l is) in
    let cut : cut_at b':' (strip 13 (strip 10 whole)) ≡ (Line.name l, some (fields l)) =
      ap (cut_at b':') stripped ∙ cut_at-clean (Line.name l) (fields l) is.name in
    let long : leb (length whole) 4 ≡ false =
      ground (arith, length-append (print_line l) (10 ∷ []), length-print_line l, is.long) in
    ground (arith, long, cut, read_fields-line l is)

append-not_empty : (xs ys : List ℕ) → is_empty (xs ++ 10 ∷ ys) ≡ false
append-not_empty [] ys = refl
append-not_empty (x ∷ xs) ys = refl

-- The first line of the user is taken, and no other.
read_lines-print_file :
    (n : ℕ) (ls : List Line) (p : PlainCtx)
    → All IsLine ls
    → length ls < n
    → read_lines n (print_file ls) p ≡ found (find_user p.username ls) p
unfolding read_lines print_file find_user
read_lines-print_file zero ls p lines h = absurd (omega (arith, h))
read_lines-print_file (suc n) [] p lines h = refl
read_lines-print_file (suc n) (l ∷ ls) p (is, lines) h =
    let whole = print_line l ++ 10 ∷ print_file ls in
    let small : length (print_line l) < 510 = omega (arith, length-print_line l, is.short) in
    let line = get_line-line 510 (print_line l) (print_file ls) (print_line-IsOneLine l is) small in
    let fewer : length ls < n = omega (arith, h) in
    let rest = read_lines-print_file n ls p lines fewer in
    let more : is_empty whole ≡ false = append-not_empty (print_line l) (print_file ls) in
    elim (Bool-cases (bytes_eq p.username (Line.name l))) [
      | inl own ↦ ground (arith, line, more, own, read_entry-line p.username l is)
      | inr other ↦ ground (arith, line, more, other, read_entry-line p.username l is, rest)
    ]

length-print_file : (ls : List Line) → length ls ≤ length (print_file ls)
unfolding print_file
length-print_file [] = omega arith
length-print_file (l ∷ ls) =
    omega (arith, length-print_file ls, length-append (print_line l) (10 ∷ print_file ls))

-- A file of lines "name:groups:hash" is read as it was written: the user gets the groups and the hash of the first
-- line with its name, and is not marked as failed, but the hash is cut to 127 bytes; where there is no such line, the
-- client is marked as failed. The name and the hash have no colon and no end of a line, the groups are at most 32,
-- each of 2 bytes or more without colons, commas and spaces, separated by commas, or "*" where there are none; a line
-- has less than 500 bytes, and the hash 2 at least.
pub read_auth_pass-print_file :
    (cfg : PlainCfg) (ls : List Line) (p : PlainCtx)
    → All IsLine ls
    → cfg.has_passwd ≡ true
    → cfg.content ≡ some (print_file ls)
    → read_auth_pass cfg p ≡ (pos 0, found (find_user p.username ls) (record p { failed = true }))
unfolding read_auth_pass
read_auth_pass-print_file cfg ls p lines set content =
    let enough : length ls < length (print_file ls) + 1 = omega (arith, length-print_file ls) in
    ground (
      arith,
      set,
      content,
      read_lines-print_file (length (print_file ls) + 1) ls (record p { failed = true }) lines
          enough,
    )
