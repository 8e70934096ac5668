-- ===== src/Str/Room.antt =====
-- Buffers of src/str.c that are well formed, and how they get room for more bytes.
use ocserv_ppa.Base.{
  ℕ, zero, suc, ◌+◌, ◌-◌, ◌%◌, ◌^◌, ◌≤◌, ◌<◌, ◌≡◌, ◌⊎◌, inl, inr, Bool-cases, max, refl, ap, ◌∙◌,
  Bool, true, false, List, [], ◌∷◌, ◌++◌, leb, ◌==◌, if◌then◌else◌, length, take, drop, replicate,
  length-append, length-take, take-append, length-drop, take-append_more, take-append_within,
  drop-append_within, drop-take, take-length, length-replicate, arith,
}
use native.Mathlib.Decide.{dec_le}
use ocserv_ppa.Str.{Str, Ran, fault, failed, ran, text, write_at, to_front, resize, str_append_size}

-- An allocator gives less than all of the addresses.
abbrev pub IsBounded : (ℕ → Bool) → Type 0
IsBounded alloc = (n : ℕ) → alloc n ≡ true → n < 2 ^ 61

-- The memory has a byte more than `max_length`, or there is none yet; the bytes that are held lie in it.
pub record IsValid (s : Str) : Type 0 where
  pub room : s.unused + Str.length s ≤ s.max_length
  pub size : (length s.memory ≡ s.max_length + 1) ⊎ ((length s.memory ≡ 0) × (s.max_length ≡ 0))
  pub small : s.max_length < 2 ^ 61

-- The list behind a place in it, after a write there.
pub after_write :
    (u n : ℕ) (bytes rest memory : List ℕ)
    → u + n ≤ length memory
    → take (n + length bytes) (drop u (take (u + n) memory ++ (bytes ++ rest)))
      ≡ take n (drop u memory) ++ bytes
after_write u n bytes rest memory fits =
    let held : length (take (u + n) memory) ≡ u + n =
      omega (arith, fits, length-take (u + n) memory) in
    let size : length (take n (drop u memory)) ≡ n =
      omega (arith, fits, length-take n (drop u memory), length-drop u memory) in
    rw (drop-append_within u (take (u + n) memory) (bytes ++ rest) (omega (arith, held))) (
      rw (drop-take u n memory) (
        rw (← ap (λ (k : ℕ). k + length bytes) size) (
          take-append_more (length bytes) (take n (drop u memory)) (bytes ++ rest)
          ∙ ap (take n (drop u memory) ++◌)
              (take-append_within (length bytes) bytes rest (omega arith) ∙ take-length bytes))))

pub length-text : (s : Str) → IsValid s → length (text s) ≡ Str.length s
length-text s v = omega (
  arith,
  v.room,
  v.size,
  length-take (Str.length s) (drop s.unused s.memory),
  length-drop s.unused s.memory,
)

-- What a call promises: no write outside the memory, an error only if the allocator refuses, and else a buffer that
-- is well formed and holds these bytes.
abbrev pub Holds : (ℕ → Bool) → List ℕ → Ran → Type 0
Holds alloc xs fault = ⊥
Holds alloc xs failed = (n : ℕ) × (alloc n ≡ false)
Holds alloc xs (ran t) = IsValid t × (text t ≡ xs)

-- A buffer with the same bytes, and room for more behind them.
pub record IsRoomy (s : Str) (size : ℕ) (t : Str) : Type 0 where
  pub valid : IsValid t
  pub same : text t ≡ text s
  pub kept : Str.length t ≡ Str.length s
  pub room : t.unused + Str.length t + size ≤ t.max_length
  pub real : length t.memory ≡ t.max_length + 1

abbrev pub MakesRoom : (ℕ → Bool) → Str → ℕ → Ran → Type 0
MakesRoom alloc s size fault = ⊥
MakesRoom alloc s size failed = (n : ℕ) × (alloc n ≡ false)
MakesRoom alloc s size (ran t) = IsRoomy s size t

pub to_front-ran :
    (s : Str)
    → leb (0 + length (text s)) (length s.memory) ≡ true
    → to_front s
      ≡ ran (record s { memory = text s ++ drop (0 + length (text s)) s.memory; unused = 0 })
unfolding to_front write_at
to_front-ran s fits = ground (arith, fits)

pub to_front-MakesRoom :
    (alloc : ℕ → Bool) (s : Str) (size : ℕ)
    → IsValid s
    → length s.memory ≡ s.max_length + 1
    → Str.length s + size ≤ s.max_length
    → MakesRoom alloc s size (to_front s)
to_front-MakesRoom alloc s size v real room =
    let size_held = length-text s v in
    let new = text s ++ drop (0 + length (text s)) s.memory in
    let fits : leb (0 + length (text s)) (length s.memory) ≡ true =
      ground (arith, size_held, real, room) in
    let new_size : length new ≡ s.max_length + 1 = omega (
      arith,
      size_held,
      real,
      room,
      length-append (text s) (drop (0 + length (text s)) s.memory),
      length-drop (0 + length (text s)) s.memory,
    ) in
    rw (to_front-ran s fits) (record {
      valid = record { room = omega (arith, room); size = inl new_size; small = v.small };
      same = take-append (Str.length s) (text s) (drop (0 + length (text s)) s.memory) size_held;
      kept = refl;
      room = omega (arith, room);
      real = new_size;
    })

pub MakesRoom-same :
    (alloc : ℕ → Bool) (s s1 : Str) (size : ℕ) (r : Ran)
    → text s1 ≡ text s
    → Str.length s1 ≡ Str.length s
    → MakesRoom alloc s1 size r
    → MakesRoom alloc s size r
MakesRoom-same alloc s s1 size fault same kept m = m
MakesRoom-same alloc s s1 size failed same kept m = m
MakesRoom-same alloc s s1 size (ran t) same kept m = record {
  valid = m.valid;
  same = m.same ∙ same;
  kept = m.kept ∙ kept;
  room = m.room;
  real = m.real;
}

-- More memory behind the bytes that are held.
pub text-more :
    (s : Str) (more : List ℕ) (max_length : ℕ)
    → IsValid s
    → text (record s { memory = s.memory ++ more; max_length = max_length }) ≡ text s
text-more s more max_length v = elim (dec_le (s.unused + Str.length s) (length s.memory)) [
  | yes within ↦
      (let skipped : s.unused ≤ length s.memory = omega (arith, within) in
        let held : Str.length s ≤ length (drop s.unused s.memory) =
          omega (arith, within, length-drop s.unused s.memory) in
        rw (drop-append_within s.unused s.memory more skipped)
          (take-append_within (Str.length s) (drop s.unused s.memory) more held))
  | no beyond ↦ (let empty : Str.length s ≡ 0 = ground (arith, beyond, v) in rw empty refl)
]

pub resize-MakesRoom :
    (alloc : ℕ → Bool) (junk : ℕ) (s : Str) (size new_len : ℕ)
    → IsBounded alloc
    → IsValid s
    → s.max_length ≤ new_len
    → Str.length s + size ≤ new_len
    → MakesRoom alloc s size (resize alloc junk s new_len)
unfolding resize
resize-MakesRoom alloc junk s size new_len bounded v larger room =
    elim (Bool-cases (alloc (new_len + 1))) [
      | inr refused ↦ rw refused (new_len + 1, refused)
      | inl given ↦
          (let more = replicate (new_len + 1 - length s.memory) junk in
            let s1 = record s { memory = s.memory ++ more; max_length = new_len } in
            let size1 : length (s.memory ++ more) ≡ new_len + 1 = omega (
              arith,
              v.size,
              larger,
              length-append s.memory more,
              length-replicate (new_len + 1 - length s.memory) junk,
            ) in
            let v1 : IsValid s1 = record {
              room = omega (arith, v.room, larger);
              size = inl size1;
              small = omega (arith, bounded (new_len + 1) given);
            } in
            let made : MakesRoom alloc s1 size (to_front s1) =
              to_front-MakesRoom alloc s1 size v1 size1 room in
            rw given
              (MakesRoom-same alloc s s1 size (to_front s1) (text-more s more new_len v) refl made))
    ]

module _ (alloc : ℕ → Bool) (junk size : ℕ) (s : Str) (bounded : IsBounded alloc) (v : IsValid s)
    (some_bytes : 0 < size) (small : size < 2 ^ 62) where
  pub size-resize :
      s.max_length < size + Str.length s + 1
      → str_append_size alloc junk s size ≡ resize alloc junk s (max size 64 + max s.max_length 64)
  unfolding str_append_size
  size-resize short =
      let whole : (max size 64 + max s.max_length 64) % 2 ^ 64 ≡ max size 64 + max s.max_length 64 =
        omega (arith, small, v.small) in
      ground (arith, v, some_bytes, small, short, whole)

  pub size-enough :
      size + Str.length s + 1 ≤ s.max_length
      → str_append_size alloc junk s size ≡ (
          if leb (s.max_length - s.unused) (size + Str.length s)
          then (if Str.length s == 0 then ran (record s { unused = 0 }) else to_front s)
          else ran s)
  unfolding str_append_size
  size-enough fits = ground (arith, v, some_bytes, small, fits)

  pub enough-MakesRoom :
      size + Str.length s + 1 ≤ s.max_length
      → MakesRoom alloc s size (
          if leb (s.max_length - s.unused) (size + Str.length s)
          then (if Str.length s == 0 then ran (record s { unused = 0 }) else to_front s)
          else ran s)
  enough-MakesRoom fits =
      let real : length s.memory ≡ s.max_length + 1 = ground (arith, v, fits) in
      elim (Bool-cases (leb (s.max_length - s.unused) (size + Str.length s))) [
        | inr roomy ↦ rw roomy (record {
          valid = v;
          same = refl;
          kept = refl;
          room = ground (arith, v, roomy);
          real = real;
        })
        | inl tight ↦ elim (Bool-cases (Str.length s == 0)) [
          | inl empty ↦
              (let none_held : Str.length s ≡ 0 = ground (arith, empty) in
                rw tight (
                  rw empty (record {
                    valid = record {
                      room = omega (arith, v.room);
                      size = inl real;
                      small = v.small;
                    };
                    same = rw none_held refl;
                    kept = refl;
                    room = omega (arith, fits);
                    real = real;
                  })))
          | inr held ↦
              rw tight (rw held (to_front-MakesRoom alloc s size v real (omega (arith, fits))))
        ]
      ]

  -- Room for some bytes and one more.
  pub str_append_size-MakesRoom : MakesRoom alloc s size (str_append_size alloc junk s size)
  str_append_size-MakesRoom = elim (dec_le (size + Str.length s + 1) s.max_length) [
    | yes fits ↦ rw (size-enough fits) (enough-MakesRoom fits)
    | no short ↦ rw (size-resize (omega (arith, short))) (
        resize-MakesRoom alloc junk s size (max size 64 + max s.max_length 64) bounded v
          (omega arith) (omega (arith, v.room)))
  ]

pub take-take : (n m : ℕ) (xs : List ℕ) → n ≤ m → take n (take m xs) ≡ take n xs
take-take zero m xs h = refl
take-take (suc n) zero xs h = absurd (omega (arith, h))
take-take (suc n) (suc m) [] h = refl
take-take (suc n) (suc m) (x ∷ xs) h = ap (x ∷◌) (take-take n m xs (omega (arith, h)))
