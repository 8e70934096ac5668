-- ===== src/Str.antt =====
-- Growing buffers of bytes: src/str.c and src/str.h. The memory of a buffer is a list of bytes. A write outside of
-- it is a fault, and `alloc` tells whether the allocator gives memory of a size; new memory holds the byte `junk`.
-- Sizes have 64 bits; that the code keeps results and positions in an `int`, and lengths of replacements in an
-- `unsigned`, is left out, since talloc refuses sizes of about 2 ^ 31 or more before this matters.
pub mod Room
pub mod Append
pub mod Pass
pub mod Places
pub mod Replace
mod Tests
use ocserv_ppa.Base.{
  ℕ, zero, suc, ◌+◌, ◌-◌, ◌*◌, ◌%◌, ◌^◌, max, Bool, true, false, ◌&&◌, ◌||◌, not, List, [], ◌∷◌,
  ◌++◌, Option, none, some, ltb, leb, ◌==◌, if◌then◌else◌, length, take, drop, replicate,
}
use ocserv_ppa.Base.Bytes.{bytes_eq}
use ocserv_ppa.FwPorts.{is_space}

-- `str_st`: the memory at `allocd`, and `unused`, how far `data` is behind it.
pub record Str : Type 0 where
  pub memory : List ℕ
  pub unused : ℕ
  pub max_length : ℕ
  pub length : ℕ

-- How a call ends: a write outside the memory, an error, or the buffer as it is then.
pub data Ran : Type 0 where
  fault failed : Ran
  ran : Str → Ran

abbrev pub and_then : Ran → (Str → Ran) → Ran
and_then fault f = fault
and_then failed f = failed
and_then (ran s) f = f s

-- The bytes that a buffer holds.
abbrev pub text : Str → List ℕ
text s = take (Str.length s) (drop s.unused s.memory)

abbrev pub str_init : Str
str_init = record { memory = []; unused = 0; max_length = 0; length = 0 }

-- `str_clear` where there is memory
abbrev pub str_clear : Str → Str
str_clear s = str_init

-- `memcpy` to this place.
pub write_at : ℕ → List ℕ → List ℕ → Option (List ℕ)
write_at i bytes memory =
    if leb (i + length bytes) (length memory)
    then some (take i memory ++ (bytes ++ drop (i + length bytes) memory))
    else none

-- The bytes that are held move to the front of the memory.
pub to_front : Str → Ran
to_front s = elim (write_at 0 (text s) s.memory) [
  | none ↦ Ran.fault
  | some memory ↦ Ran.ran (record s { memory = memory; unused = 0 })
]

abbrev pub min_chunk : ℕ
min_chunk = 64

-- The bytes, and a NUL behind them.
pub put : List ℕ → Str → Ran
put bytes s = elim (write_at (s.unused + s.length) (bytes ++ 0 ∷ []) s.memory) [
  | none ↦ Ran.fault
  | some memory ↦ Ran.ran (record s { memory = memory; length = s.length + length bytes })
]

module _ (alloc : ℕ → Bool) (junk : ℕ) where
  -- `talloc_realloc_size` to a size that is larger.
  pub resize : Str → ℕ → Ran
  resize s new_len =
      if alloc (new_len + 1)
      then to_front (record s {
        memory = s.memory ++ replicate (new_len + 1 - length s.memory) junk;
        max_length = new_len;
      })
      else Ran.failed

  -- Room for some bytes and one more.
  pub str_append_size : Str → ℕ → Ran
  str_append_size s size =
      let tot_len = (size + s.length) % 2 ^ 64 in
      if size == 0
      then Ran.ran s
      else if leb ((tot_len + 1) % 2 ^ 64) s.max_length
      then if leb (s.max_length - s.unused) tot_len
        then (if s.length == 0 then Ran.ran (record s { unused = 0 }) else to_front s)
        else Ran.ran s
      else resize s ((max size min_chunk + max s.max_length min_chunk) % 2 ^ 64)

  pub str_append_data : Str → List ℕ → Ran
  str_append_data s bytes = and_then (str_append_size s ((length bytes + 1) % 2 ^ 64)) (put bytes)

  -- After the length as a byte.
  pub str_append_data_prefix1 : Str → List ℕ → Ran
  str_append_data_prefix1 s bytes =
      and_then (str_append_data s (length bytes % 256 ∷ [])) (λ (t : Str). str_append_data t bytes)

  -- A text with its NUL, which is not counted.
  pub str_append_str : Str → List ℕ → Ran
  str_append_str s src =
      and_then (str_append_data s (src ++ 0 ∷ []))
        (λ (t : Str). Ran.ran (record t { length = t.length - 1 }))

-- `str_rep_tab`: a pattern, and the value that it stands for.
pub record StrRepTab : Type 0 where
  pub pattern : List ℕ
  pub rep_val : List ℕ

-- The first pattern of the table that the bytes begin with.
pub find_pattern : List StrRepTab → List ℕ → Option StrRepTab
find_pattern [] bytes = none
find_pattern (t ∷ ts) bytes =
    let rest = find_pattern ts bytes in
    if bytes_eq t.pattern (take (length t.pattern) bytes) then some t else rest

-- `memchr` for the percent sign: how far it is.
pub find_percent : List ℕ → Option ℕ
find_percent [] = none
find_percent (b ∷ bs) =
    let rest = find_percent bs in
    if b == b'%' then some 0 else elim rest [ none ↦ none | some i ↦ some (i + 1) ]

module _ (alloc : ℕ → Bool) (junk : ℕ) where
  -- The pattern at this place gives way to its value.
  pub replace_at : Str → ℕ → StrRepTab → Ran
  replace_at s pos t =
      let final = drop (pos + length t.pattern) (text s) in
      if alloc (length final)
      then and_then (str_append_str alloc junk (record s { length = pos }) t.rep_val)
          (λ (u : Str). str_append_data alloc junk u final)
      else Ran.failed

module _ (alloc : ℕ → Bool) (junk : ℕ) (tab : List StrRepTab) where
  -- From the place `pos` on; the place stays where it is after a replacement. Nothing when the turns run out.
  unfoldable pub str_replace_from : ℕ → ℕ → Str → Option Ran
  str_replace_from zero pos s = none
  str_replace_from (suc n) pos s = elim (find_percent (drop pos (text s))) [
    | none ↦ some (Ran.ran s)
    | some i ↦ elim (find_pattern tab (drop (pos + i) (text s))) [
      | none ↦ some Ran.failed
      | some t ↦ elim (replace_at alloc junk s (pos + i) t) [
        | fault ↦ some Ran.fault
        | failed ↦ some Ran.failed
        | ran u ↦
            if ltb (pos + i) u.length then str_replace_from n (pos + i) u else some (Ran.ran u)
      ]
    ]
  ]

  pub str_replace_str : ℕ → Str → Option Ran
  str_replace_str n s = str_replace_from n 0 s

-- The text without the spaces at its end.
unfoldable pub trim_trailing_whitespace : List ℕ → List ℕ
trim_trailing_whitespace [] = []
trim_trailing_whitespace (b ∷ bs) = elim (trim_trailing_whitespace bs) [
  | [] ↦ if is_space b then [] else b ∷ []
  | c ∷ cs ↦ b ∷ c ∷ cs
]
