-- ===== src/Base/Table.antt =====
-- The hash tables that the program keeps (src/ccan/htable, a library the code only calls), as an
-- interface: entries behind a key, the bytes that a client's `rehash` hashes and its comparison
-- compares. The laws hold while no key is added twice, which each client sees to.
use mathlib.Core.Path.{◌≡◌, refl, ap, sym}
use mathlib.Core.Bool.{Bool}
use mathlib.Core.Option.{Option, none, some, some-injective}
use mathlib.Core.List.{List}
use Prim.Native.Nat.{ℕ}
use ocserv_ppa.Base.Tests.{if◌then◌else◌}
use ocserv_ppa.Base.Bytes.{bytes_eq}

-- An entry is dropped if the test holds of it.
abbrev pub unless_some : {V : Type 0} → (V → Bool) → Option V → Option V
unless_some p none = none
unless_some p (some v) = if p v then none else some v

-- The entry behind a pointer is written over where there is one.
abbrev pub over_some : {V : Type 0} → V → Option V → Option V
over_some v none = none
over_some v (some w) = some v

pub record Table (V : Type 0) : Type 1 where
  pub Rep : Type 0
  pub empty : Rep
  -- `htable_get`
  pub get : List ℕ → Rep → Option V
  -- `htable_add`, `none` where memory runs out
  pub add : List ℕ → V → Rep → Option Rep
  -- a write through the pointer that `htable_get` returned
  pub put : List ℕ → V → Rep → Rep
  -- `htable_del`
  pub del : List ℕ → Rep → Rep
  -- `htable_first`, `htable_next` and `htable_delval` on the entries that pass a test
  pub sweep : (V → Bool) → Rep → Rep
  pub get-empty : (j : List ℕ) → get j empty ≡ none
  pub get-add :
      (k j : List ℕ) (v : V) (t t' : Rep)
      → get k t ≡ none
      → add k v t ≡ some t'
      → get j t' ≡ (if bytes_eq k j then some v else get j t)
  pub get-put :
      (k j : List ℕ) (v : V) (t : Rep)
      → get j (put k v t) ≡ (if bytes_eq k j then over_some v (get j t) else get j t)
  pub get-del :
      (k j : List ℕ) (t : Rep) → get j (del k t) ≡ (if bytes_eq k j then none else get j t)
  pub get-sweep :
      (j : List ℕ) (p : V → Bool) (t : Rep) → get j (sweep p t) ≡ unless_some p (get j t)

-- A table as a function from keys: the interface can be met.
module _ (V : Type 0) where
  abbrev pub function_table : Table V
  function_table = record {
    Rep = List ℕ → Option V;
    empty = λ j. none;
    get = λ k t. t k;
    add = λ k v t. some (λ j. if bytes_eq k j then some v else t j);
    put = λ k v t j. if bytes_eq k j then over_some v (t j) else t j;
    del = λ k t j. if bytes_eq k j then none else t j;
    sweep = λ p t j. unless_some p (t j);
    get-empty = λ j. refl;
    get-add = λ k j v t t' h e. ap (λ f. f j) (sym (some-injective _ _ e));
    get-put = λ k j v t. refl;
    get-del = λ k j t. refl;
    get-sweep = λ j p t. refl;
  }
