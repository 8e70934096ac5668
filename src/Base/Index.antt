-- ===== src/Base/Index.antt =====
-- A hash table that may hold several entries under one key (src/ccan/htable, a library the code only
-- calls), as an interface. Entries are pointers, given by a number. `count` says how often an entry is
-- under a key: which of several entries is found first is left open.
use mathlib.Core.Path.{◌≡◌, refl}
use mathlib.Core.Bool.{Bool, true, false, ◌&&◌}
use mathlib.Core.Option.{Option, none, some}
use mathlib.Core.List.{List, [], ◌∷◌}
use Prim.Native.Nat.{ℕ, ◌+◌, ◌-◌, ◌<◌}
use native.Mathlib.Omega.{arith}
use ocserv_ppa.Base.Tests.{if◌then◌else◌, ltb, ◌==◌}
use ocserv_ppa.Base.Bytes.{bytes_eq, bytes_eq_refl, bytes_eq_sound}

pub record Index : Type 1 where
  pub Rep : Type 0
  pub empty : Rep
  pub count : List ℕ → ℕ → Rep → ℕ
  -- `htable_add`, with whether there was the memory for it
  pub add : List ℕ → ℕ → Rep → Bool × Rep
  -- `htable_del`, with whether the entry was there
  pub del : List ℕ → ℕ → Rep → Bool × Rep
  -- `htable_get` with a comparison
  pub get : List ℕ → (ℕ → Bool) → Rep → Option ℕ
  pub count-empty : (j : List ℕ) (w : ℕ) → count j w empty ≡ 0
  pub count-add :
      (k j : List ℕ) (v w : ℕ) (t : Rep)
      → count j w (add k v t).1
        ≡ count j w t + (if (add k v t).0 && (bytes_eq k j && v == w) then 1 else 0)
  pub del-found : (k : List ℕ) (v : ℕ) (t : Rep) → (del k v t).0 ≡ ltb 0 (count k v t)
  pub count-del :
      (k j : List ℕ) (v w : ℕ) (t : Rep)
      → count j w (del k v t).1 ≡ count j w t - (if bytes_eq k j && v == w then 1 else 0)
  pub get-some :
      (k : List ℕ) (p : ℕ → Bool) (t : Rep) (v : ℕ)
      → get k p t ≡ some v
      → (p v ≡ true) × (0 < count k v t)
  pub get-none :
      (k : List ℕ) (p : ℕ → Bool) (t : Rep) (v : ℕ)
      → get k p t ≡ none
      → p v ≡ true
      → count k v t ≡ 0

-- A list of keys and entries: the interface can be met.
abbrev pub Pairs : Type 0
Pairs = List (List ℕ × ℕ)

unfoldable pub count_pairs : List ℕ → ℕ → Pairs → ℕ
count_pairs j w [] = 0
count_pairs j w ((k, v) ∷ t) = count_pairs j w t + (if bytes_eq k j && v == w then 1 else 0)

unfoldable pub del_pair : List ℕ → ℕ → Pairs → Bool × Pairs
del_pair k v [] = (false, [])
del_pair k v ((j, w) ∷ t) =
    let (found, rest) = del_pair k v t in
    if bytes_eq j k && w == v then (true, t) else (found, (j, w) ∷ rest)

unfoldable pub get_pair : List ℕ → (ℕ → Bool) → Pairs → Option ℕ
get_pair k p [] = none
get_pair k p ((j, w) ∷ t) =
    let rest = get_pair k p t in if bytes_eq j k && p w then some w else rest

pub del_pair-found :
    (k : List ℕ) (v : ℕ) (t : Pairs) → (del_pair k v t).0 ≡ ltb 0 (count_pairs k v t)
unfolding del_pair count_pairs
del_pair-found k v [] = refl
del_pair-found k v ((j, w) ∷ t) = ground (arith, del_pair-found k v t)

pub del_pair-count :
    (k j : List ℕ) (v w : ℕ) (t : Pairs)
    → count_pairs j w (del_pair k v t).1
      ≡ count_pairs j w t - (if bytes_eq k j && v == w then 1 else 0)
unfolding del_pair count_pairs
del_pair-count k j v w [] = ground arith
del_pair-count k j v w ((i, u) ∷ t) = ground (
  arith,
  del_pair-count k j v w t,
  bytes_eq_sound i k,
  bytes_eq_sound k j,
  bytes_eq_sound i j,
  bytes_eq_refl j,
)

pub get_pair-some :
    (k : List ℕ) (p : ℕ → Bool) (t : Pairs) (v : ℕ)
    → get_pair k p t ≡ some v
    → (p v ≡ true) × (0 < count_pairs k v t)
unfolding get_pair count_pairs
get_pair-some k p [] v h = ground arith
get_pair-some k p ((j, w) ∷ t) v h = ground (arith, get_pair-some k p t v)

pub get_pair-none :
    (k : List ℕ) (p : ℕ → Bool) (t : Pairs) (v : ℕ)
    → get_pair k p t ≡ none
    → p v ≡ true
    → count_pairs k v t ≡ 0
unfolding get_pair count_pairs
get_pair-none k p [] v h pv = refl
get_pair-none k p ((j, w) ∷ t) v h pv = ground (arith, get_pair-none k p t v)

unfoldable pub pair_index : Index
unfolding count_pairs del_pair get_pair
pair_index = record {
  Rep = Pairs;
  empty = [];
  count = count_pairs;
  add = λ k v t. (true, (k, v) ∷ t);
  del = del_pair;
  get = get_pair;
  count-empty = λ j w. refl;
  count-add = λ k j v w t. refl;
  del-found = del_pair-found;
  count-del = del_pair-count;
  get-some = get_pair-some;
  get-none = get_pair-none;
}
