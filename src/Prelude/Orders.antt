-- ===== src/Prelude/Orders.antt =====
-- Lists in which every element stands behind what it has to stand behind, by the keys of the
-- elements, and the positions of the keys.
use mathlib.Core.List.{Memᴰ}
use mathlib.Core.Path.{◌≡◌, refl, sym, ◌∙◌, ap, subst}
use mathlib.Core.Logic.{◌⊎◌, inl, inr, ∥∥₁_elim}
use mathlib.Core.Bool.{Bool, true, ◌||◌, ◌&&◌}
use mathlib.Core.List.{List, [], ◌∷◌, map, Mem}
use Prim.Native.Nat.{ℕ, suc, ◌<◌}
use Prim.Native.String.{String}
use native.Mathlib.Omega.{arith}
use text.Mathlib.Text.{◌==◌ as str_eq}
use text.Mathlib.TextEquality.{eq_iff}
use dragonfly_wasm.Prelude.Tests.{ltb, if◌then◌else◌, Bool-cases, text_cases, str_eq_self}
use dragonfly_wasm.Prelude.Members.{true_prop}
use dragonfly_wasm.Prelude.Lists.{All, select}
use dragonfly_wasm.Prelude.Maps.{contains, Distinct}

-- The position of the first occurrence.
abbrev pub index : List String → String → ℕ
index [] k = 0
index (x ∷ xs) k = let rest = suc (index xs k) in if str_eq x k then 0 else rest

pub All-contains {κ} :
    (P : String → Type κ) (ks : List String) (k : String) → All P ks → contains ks k ≡ true → P k
unfolding contains
All-contains P [] k all h = absurd cc
All-contains P (x ∷ xs) k all h = elim (text_cases x k) [
  | inl (t, same) ↦ subst P same all.0
  | inr (f, _) ↦ All-contains P xs k all.1 (ground arith)
]

pub contains-select :
    (f : String → Bool) (ks : List String) (k : String)
    → contains (select f ks) k ≡ (contains ks k && f k)
unfolding contains
contains-select f [] k = refl
contains-select f (x ∷ xs) k = elim (text_cases x k) [
  | inl (t, same) ↦ elim (Bool-cases (f x)) [
    | inl p ↦ rw p (ground (arith, ap f same))
    | inr n ↦ rw n (ground (arith, contains-select f xs k, ap f same))
  ]
  | inr (t, _) ↦ elim (Bool-cases (f x)) [
    | inl p ↦ rw p (ground (arith, contains-select f xs k))
    | inr n ↦ rw n (ground (arith, contains-select f xs k))
  ]
]

module _ {A : Type 0} (key : A → String) (needs : A → List String) where
  -- What an element needs stands before it, or in `seen`.
  abbrev pub Behind : List String → List A → Type 0
  Behind seen [] = Unit
  Behind seen (x ∷ xs) = All (λ k. contains seen k ≡ true) (needs x) × Behind (key x ∷ seen) xs

  contains-key : (x : A) (xs : List A) → Memᴰ x xs → contains (map key xs) (key x) ≡ true
  unfolding contains
  contains-key x [] m = elim m [ ]
  contains-key x (y ∷ ys) (Memᴰ.head e) =
      ap (λ z. str_eq (key z) (key x) || contains (map key ys) (key x)) (sym e)
      ∙ ground (arith, str_eq_self (key x))
  contains-key x (y ∷ ys) (Memᴰ.tail m) = ground (arith, contains-key x ys m)

  pub position :
      (x : A) (xs : List A) (seen : List String) (k : String)
      → Memᴰ x xs
      → Behind seen xs
      → Distinct (map key xs)
      → contains (needs x) k ≡ true
      → (contains seen k ≡ true) ⊎ (index (map key xs) k < index (map key xs) (key x))
  unfolding contains
  position x [] seen k m b d h = elim m [ ]
  position x (y ∷ ys) seen k (Memᴰ.head e) b d h =
      inl (All-contains _ (needs y) k b.0 (ap (λ z. contains (needs z) k) (sym e) ∙ h))
  position x (y ∷ ys) seen k (Memᴰ.tail m) b d h =
      elim (position x ys (key y ∷ seen) k m b.1 d.1 h) [
        | inr lt ↦ inr (ground (arith, contains-key x ys m, eq_iff (key y) (key x)))
        | inl old ↦ elim (text_cases (key y) k) [
          | inl (t, same) ↦ inr (ground (arith, contains-key x ys m, eq_iff (key y) (key x)))
          | inr (f, _) ↦ inl (ground arith)
        ]
      ]

  pub before-position :
      (x : A) (xs : List A) (k : String)
      → Memᴰ x xs
      → Behind [] xs
      → Distinct (map key xs)
      → contains (needs x) k ≡ true
      → index (map key xs) k < index (map key xs) (key x)
  before-position x xs k m b d h = elim (position x xs [] k m b d h) [
    | inl none_seen ↦ unfold contains in absurd cc
    | inr lt ↦ lt
  ]

  -- What an element needs has a smaller position.
  pub position_mem :
      (x : A) (xs : List A) (k : String)
      → Mem x xs
      → Behind [] xs
      → Distinct (map key xs)
      → contains (needs x) k ≡ true
      → index (map key xs) k < index (map key xs) (key x)
  position_mem x xs k m b d h =
      lt_of (index (map key xs) k) (index (map key xs) (key x))
        (∥∥₁_elim m (true_prop _) (λ d'. test_of _ _ (before-position x xs k d' b d h)))
    where
      lt_of : (i j : ℕ) → ltb i j ≡ true → i < j
      lt_of i j t = ground arith

      test_of : (i j : ℕ) → i < j → ltb i j ≡ true
      test_of i j t = ground arith
