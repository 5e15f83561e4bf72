-- ===== src/Prelude/Heap.antt =====
-- The heap of a program as a list: an address is a position, and a new object stands at the end.
use Prim.Native.Nat.{ℕ, zero, suc}
use mathlib.Core.Path.{◌≡◌, refl}
use mathlib.Core.Option.{Option, none, some}
use mathlib.Core.List.{List, [], ◌∷◌, ◌++◌}
use native.Mathlib.Omega.{arith}
use dragonfly_wasm.Prelude.Tests.{if◌then◌else◌, ◌==◌}
use dragonfly_wasm.Prelude.Lists.{length}

module _ {ℓ} {A : Type ℓ} where
  unfoldable pub get_elem? : List A → ℕ → Option A
  get_elem? [] i = none
  get_elem? (x ∷ xs) zero = some x
  get_elem? (x ∷ xs) (suc i) = get_elem? xs i

  -- *p = v
  unfoldable pub set_elem : List A → ℕ → A → List A
  set_elem [] i v = []
  set_elem (x ∷ xs) zero v = v ∷ xs
  set_elem (x ∷ xs) (suc i) v = x ∷ set_elem xs i v

  pub get_elem?-set_elem :
      (l : List A) (i j : ℕ) (v w : A)
      → get_elem? l i ≡ some w
      → get_elem? (set_elem l i v) j ≡ (if i == j then some v else get_elem? l j)
  unfolding get_elem? set_elem
  get_elem?-set_elem [] i j v w h = cc
  get_elem?-set_elem (x ∷ xs) zero zero v w h = refl
  get_elem?-set_elem (x ∷ xs) zero (suc j) v w h = ground arith
  get_elem?-set_elem (x ∷ xs) (suc i) zero v w h = ground arith
  get_elem?-set_elem (x ∷ xs) (suc i) (suc j) v w h =
      ground (arith, get_elem?-set_elem xs i j v w h)

  pub length-set_elem : (l : List A) (i : ℕ) (v : A) → length (set_elem l i v) ≡ length l
  unfolding set_elem
  length-set_elem [] i v = refl
  length-set_elem (x ∷ xs) zero v = refl
  length-set_elem (x ∷ xs) (suc i) v = omega (arith, length-set_elem xs i v)

  -- A new object has an address of its own.
  pub get_elem?-append :
      (l : List A) (v : A) (j : ℕ)
      → get_elem? (l ++ v ∷ []) j ≡ (if length l == j then some v else get_elem? l j)
  unfolding get_elem?
  get_elem?-append [] v zero = refl
  get_elem?-append [] v (suc j) = ground arith
  get_elem?-append (x ∷ xs) v zero = ground arith
  get_elem?-append (x ∷ xs) v (suc j) = ground (arith, get_elem?-append xs v j)

  pub get_elem?-length : (l : List A) → get_elem? l (length l) ≡ none
  unfolding get_elem?
  get_elem?-length [] = refl
  get_elem?-length (x ∷ xs) = get_elem?-length xs
