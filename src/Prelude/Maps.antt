-- ===== src/Prelude/Maps.antt =====
-- Go maps with text keys, as association lists. A read of a missing key gives `none`; callers write
-- the zero value out. Iteration follows the list: what depends on Go's random order is said there.
use Prim.Native.String.{String}
use mathlib.Core.Path.{◌≡◌, refl}
use mathlib.Core.Bool.{Bool, true, false, ◌||◌}
use mathlib.Core.Option.{Option, none, some}
use mathlib.Core.List.{List, [], ◌∷◌, ◌++◌}
use native.Mathlib.Omega.{arith}
use text.Mathlib.Text.{◌==◌ as str_eq}
use text.Mathlib.TextEquality.{eq_iff}
use dragonfly_wasm.Prelude.Tests.{if◌then◌else◌}

abbrev pub GoMap {ℓ} : Type ℓ → Type ℓ
GoMap V = List (String × V)

-- slices.Contains on texts.
unfoldable pub contains : List String → String → Bool
contains [] s = false
contains (x ∷ xs) s = str_eq x s || contains xs s

module _ {ℓ} {V : Type ℓ} where
  -- v, ok := m[k]
  unfoldable pub get : GoMap V → String → Option V
  get [] k = none
  get ((j, v) ∷ m) k = if str_eq j k then some v else get m k

  -- m[k] = v
  unfoldable pub put : GoMap V → String → V → GoMap V
  put [] k v = (k, v) ∷ []
  put ((j, w) ∷ m) k v = if str_eq j k then (k, v) ∷ m else (j, w) ∷ put m k v

  -- delete(m, k)
  unfoldable pub delete : GoMap V → String → GoMap V
  delete [] k = []
  delete ((j, v) ∷ m) k = let rest = delete m k in if str_eq j k then rest else (j, v) ∷ rest

  abbrev pub keys : GoMap V → List String
  keys [] = []
  keys ((j, v) ∷ m) = j ∷ keys m

  -- A map read in a context that takes the zero value for a missing key.
  abbrev pub value_or : Option V → V → V
  value_or none d = d
  value_or (some v) d = v

  abbrev pub is_some : Option V → Bool
  is_some none = false
  is_some (some v) = true

  pub get-put :
      (m : GoMap V) (k j : String) (v : V)
      → get (put m k v) j ≡ (if str_eq k j then some v else get m j)
  unfolding get put
  get-put [] k j v = refl
  get-put ((i, w) ∷ m) k j v = ground (arith, eq_iff k j, eq_iff i k, eq_iff i j, get-put m k j v)

  pub get-delete :
      (m : GoMap V) (k j : String) → get (delete m k) j ≡ (if str_eq k j then none else get m j)
  unfolding get delete
  get-delete [] k j = ground arith
  get-delete ((i, w) ∷ m) k j = ground (arith, eq_iff k j, eq_iff i k, eq_iff i j, get-delete m k j)

  pub is_some-get : (m : GoMap V) (k : String) → is_some (get m k) ≡ contains (keys m) k
  unfolding get contains
  is_some-get [] k = refl
  is_some-get ((i, w) ∷ m) k = ground (arith, is_some-get m k)

  pub contains-keys-put :
      (m : GoMap V) (k j : String) (v : V)
      → contains (keys (put m k v)) j ≡ (str_eq k j || contains (keys m) j)
  unfolding contains put
  contains-keys-put [] k j v = refl
  contains-keys-put ((i, w) ∷ m) k j v =
      ground (arith, eq_iff k j, eq_iff i k, eq_iff i j, contains-keys-put m k j v)

  pub contains-keys-delete :
      (m : GoMap V) (k j : String)
      → contains (keys (delete m k)) j ≡ (if str_eq k j then false else contains (keys m) j)
  unfolding contains delete
  contains-keys-delete [] k j = ground arith
  contains-keys-delete ((i, w) ∷ m) k j =
      ground (arith, eq_iff k j, eq_iff i k, eq_iff i j, contains-keys-delete m k j)

pub contains-append :
    (xs ys : List String) (s : String) → contains (xs ++ ys) s ≡ (contains xs s || contains ys s)
unfolding contains
contains-append [] ys s = refl
contains-append (x ∷ xs) ys s = ground (arith, contains-append xs ys s)

-- No text stands twice in the list.
abbrev pub Distinct : List String → Type 0
Distinct [] = Unit
Distinct (x ∷ xs) = (contains xs x ≡ false) × Distinct xs

module _ {ℓ} {V : Type ℓ} where
  pub put-Distinct :
      (m : GoMap V) (k : String) (v : V) → Distinct (keys m) → Distinct (keys (put m k v))
  unfolding contains put
  put-Distinct [] k v d = (refl, tt)
  put-Distinct ((i, w) ∷ m) k v d =
      ground (arith, eq_iff i k, eq_iff k i, put-Distinct m k v d.1, contains-keys-put m k i v)

  pub delete-Distinct :
      (m : GoMap V) (k : String) → Distinct (keys m) → Distinct (keys (delete m k))
  unfolding contains delete
  delete-Distinct [] k d = tt
  delete-Distinct ((i, w) ∷ m) k d =
      ground (arith, eq_iff i k, eq_iff k i, delete-Distinct m k d.1, contains-keys-delete m k i)
