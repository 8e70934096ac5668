-- ===== src/Str/Append.antt =====
-- A buffer of src/str.c is a list of bytes that only grows at its end, and no write leaves its memory.
use ocserv_ppa.Base.{
  ℕ, ◌+◌, ◌-◌, ◌%◌, ◌^◌, ◌≤◌, ◌<◌, ◌≡◌, inl, ap, sym, subst, ◌∙◌, Bool, List, [], ◌∷◌, ◌++◌, length,
  take, drop, length-append, length-take, take-append, append_assoc, length-drop, arith,
}
use ocserv_ppa.Str.{
  Str, Ran, fault, failed, ran, and_then, text, write_at, put, str_append_size, str_append_data,
  str_append_str, str_append_data_prefix1,
}
use ocserv_ppa.Str.Room.{
  take-take, MakesRoom, IsBounded, IsValid, after_write, length-text, Holds, IsRoomy,
  str_append_size-MakesRoom,
}

put-ran :
    (bytes : List ℕ) (t : Str)
    → t.unused + Str.length t + (length bytes + 1) ≤ length t.memory
    → put bytes t
      ≡ ran (record t {
        memory =
            take (t.unused + Str.length t) t.memory
            ++ ((bytes ++ 0 ∷ [])
                ++ drop (t.unused + Str.length t + length (bytes ++ 0 ∷ [])) t.memory);
        length = Str.length t + length bytes;
      })
unfolding put write_at
put-ran bytes t fits = ground (arith, fits, length-append bytes (0 ∷ []))

put-Holds :
    (alloc : ℕ → Bool) (bytes : List ℕ) (s t : Str)
    → IsRoomy s (length bytes + 1) t
    → Holds alloc (text s ++ bytes) (put bytes t)
put-Holds alloc bytes s t roomy =
    let at = t.unused + Str.length t in
    let rest = drop (at + length (bytes ++ 0 ∷ [])) t.memory in
    let fits : at ≤ length t.memory = omega (arith, roomy.room, roomy.real) in
    let new = take at t.memory ++ ((bytes ++ 0 ∷ []) ++ rest) in
    let size : length new ≡ t.max_length + 1 = omega (
      arith,
      roomy.room,
      roomy.real,
      length-append (take at t.memory) ((bytes ++ 0 ∷ []) ++ rest),
      length-append (bytes ++ 0 ∷ []) rest,
      length-append bytes (0 ∷ []),
      length-take at t.memory,
      length-drop (at + length (bytes ++ 0 ∷ [])) t.memory,
    ) in
    let held : take (Str.length t + length bytes) (drop t.unused new) ≡ text t ++ bytes =
      rw (append_assoc bytes (0 ∷ []) rest)
        (after_write t.unused (Str.length t) bytes (0 ∷ rest) t.memory fits) in
    rw (put-ran bytes t (omega (arith, roomy.room, roomy.real))) (
      record { room = omega (arith, roomy.room); size = inl size; small = roomy.valid.small },
      held ∙ ap (λ xs. xs ++ bytes) roomy.same,
    )

put_after :
    (alloc : ℕ → Bool) (bytes : List ℕ) (s : Str) (r : Ran)
    → MakesRoom alloc s (length bytes + 1) r
    → Holds alloc (text s ++ bytes) (and_then r (put bytes))
put_after alloc bytes s fault m = m
put_after alloc bytes s failed m = m
put_after alloc bytes s (ran t) m = put-Holds alloc bytes s t m

str_append_data-Holds :
    (alloc : ℕ → Bool) (junk : ℕ) (s : Str) (bytes : List ℕ)
    → IsBounded alloc
    → IsValid s
    → length bytes + 1 < 2 ^ 62
    → Holds alloc (text s ++ bytes) (str_append_data alloc junk s bytes)
unfolding str_append_data
str_append_data-Holds alloc junk s bytes bounded v small =
    let whole : (length bytes + 1) % 2 ^ 64 ≡ length bytes + 1 = omega (arith, small) in
    let made =
      str_append_size-MakesRoom alloc junk (length bytes + 1) s bounded v (omega arith) small in
    rw whole (put_after alloc bytes s (str_append_size alloc junk s (length bytes + 1)) made)

-- The byte at the end is not counted any more.
shorter-Holds :
    (alloc : ℕ → Bool) (xs : List ℕ) (r : Ran)
    → Holds alloc (xs ++ 0 ∷ []) r
    → Holds alloc xs (and_then r (λ (t : Str). ran (record t { length = Str.length t - 1 })))
shorter-Holds alloc xs fault h = h
shorter-Holds alloc xs failed h = h
shorter-Holds alloc xs (ran t) (v, same) =
    let size : Str.length t ≡ length xs + 1 =
      omega (arith, length-text t v, ap length same, length-append xs (0 ∷ [])) in
    let fewer : length xs ≡ Str.length t - 1 = omega (arith, size) in
    (
      record { room = omega (arith, v.room); size = v.size; small = v.small },
      sym (take-take (Str.length t - 1) (Str.length t) (drop t.unused t.memory) (omega arith))
          ∙ ap (take (Str.length t - 1)) same
          ∙ take-append (Str.length t - 1) xs (0 ∷ []) fewer,
    )

pub then-Holds :
    (alloc : ℕ → Bool) (xs ys : List ℕ) (r : Ran) (f : Str → Ran)
    → ((t : Str) → IsValid t → text t ≡ xs → Holds alloc ys (f t))
    → Holds alloc xs r
    → Holds alloc ys (and_then r f)
then-Holds alloc xs ys fault f next h = h
then-Holds alloc xs ys failed f next h = h
then-Holds alloc xs ys (ran t) f next (v, same) = next t v same

pub Holds-same :
    (alloc : ℕ → Bool) (xs ys : List ℕ) (r : Ran) → xs ≡ ys → Holds alloc xs r → Holds alloc ys r
Holds-same alloc xs ys r e h = subst (λ zs. Holds alloc zs r) e h

module _ (alloc : ℕ → Bool) (junk : ℕ) (bounded : IsBounded alloc) where
  pub append-Holds :
      (s : Str) (bytes : List ℕ)
      → IsValid s
      → length bytes + 2 < 2 ^ 62
      → Holds alloc (text s ++ bytes) (str_append_data alloc junk s bytes)
        × Holds alloc (text s ++ bytes) (str_append_str alloc junk s bytes)
        × Holds alloc
            (text s ++ length bytes % 256 ∷ bytes)
            (str_append_data_prefix1 alloc junk s bytes)
  unfolding str_append_str str_append_data_prefix1
  append-Holds s bytes v small = (
    str_append_data-Holds alloc junk s bytes bounded v (omega (arith, small)),
    shorter-Holds alloc (text s ++ bytes) (str_append_data alloc junk s (bytes ++ 0 ∷ [])) (
        Holds-same alloc _ _ (str_append_data alloc junk s (bytes ++ 0 ∷ []))
          (sym (append_assoc (text s) bytes (0 ∷ [])))
          (str_append_data-Holds alloc junk s (bytes ++ 0 ∷ []) bounded v
            (omega (arith, small, length-append bytes (0 ∷ []))))),
    then-Holds alloc (text s ++ length bytes % 256 ∷ []) (text s ++ length bytes % 256 ∷ bytes)
        (str_append_data alloc junk s (length bytes % 256 ∷ []))
        (λ (t : Str). str_append_data alloc junk t bytes)
        (λ t w same.
          Holds-same alloc _ _ (str_append_data alloc junk t bytes)
            (ap (λ xs. xs ++ bytes) same ∙ append_assoc (text s) (length bytes % 256 ∷ []) bytes)
            (str_append_data-Holds alloc junk t bytes bounded w (omega (arith, small))))
        (str_append_data-Holds alloc junk s (length bytes % 256 ∷ []) bounded v (omega arith)),
  )
