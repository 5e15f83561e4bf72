-- ===== src/Prelude/Sorting.antt =====
-- slices.SortFunc as its documentation promises it: a permutation, ordered where `cmp` is a strict
-- weak order; equal elements may change places. Insertion sort shows that the promise can be kept.
use mathlib.Core.List.Perm
use mathlib.Core.List.{List, [], ◌∷◌, Perm, Permᴰ}
use mathlib.Core.Path.{◌≡◌, sym, subst}
use mathlib.Core.HLevel.{×_prop}
use mathlib.Core.Bool.{Bool, true, false}
use mathlib.Core.Logic.{inl, inr, ∥∥₁_elim}
use native.Mathlib.Omega.{arith}
use dragonfly_wasm.Prelude.Tests.{if◌then◌else◌, Bool-cases}
use dragonfly_wasm.Prelude.Lists.{All}
use dragonfly_wasm.Prelude.Int.{ℤ, pos, negsuc, ◌≤ℤ◌, ltb_ℤ}

abbrev pub is_negative : ℤ → Bool
is_negative (pos n) = false
is_negative (negsuc n) = true

module _ {A : Type 0} where
  abbrev pub IsSortedBy : (A → ℤ) → List A → Type 0
  IsSortedBy key [] = Unit
  IsSortedBy key (x ∷ xs) = All (λ y. key x ≤ℤ key y) xs × IsSortedBy key xs

  -- On the elements that pass `p`, `cmp` is the strict order of the keys.
  abbrev pub Agrees : (A → A → ℤ) → (A → ℤ) → (A → Bool) → Type 0
  Agrees cmp key p =
      (a b : A) → p a ≡ true → p b ≡ true → is_negative (cmp a b) ≡ ltb_ℤ (key a) (key b)

module _ {A : Type 0} (P : A → Type 0) where
  All-perm_d : {l l' : List A} → Permᴰ l l' → All P l' → All P l
  All-perm_d Permᴰ.nil h = tt
  All-perm_d (Permᴰ.cons e r) h = (subst P (sym e) h.0, All-perm_d r h.1)
  All-perm_d (Permᴰ.swap e e') h = (subst P (sym e) h.1.0, (subst P (sym e') h.0, h.1.1))
  All-perm_d (Permᴰ.trans r r') h = All-perm_d r (All-perm_d r' h)

  All-prop : ((a : A) → IsProp (P a)) → (l : List A) → IsProp (All P l)
  All-prop c [] = hlevel
  All-prop c (x ∷ xs) = ×_prop (c x) (All-prop c xs)

-- What holds of all elements of a list holds of all elements of its permutations.
pub All-perm :
    {A : Type 0} (p : A → Bool) {l l' : List A}
    → Perm l l'
    → All (λ x. p x ≡ true) l'
    → All (λ x. p x ≡ true) l
All-perm p {l = l} r h =
    ∥∥₁_elim r (All-prop (λ x. p x ≡ true) (λ a. hlevel) l) (λ d. All-perm_d (λ x. p x ≡ true) d h)

pub record Sorter (A : Type 0) : Type 0 where
  pub sort_func : (A → A → ℤ) → List A → List A
  pub sort_func-perm : (cmp : A → A → ℤ) (l : List A) → Perm (sort_func cmp l) l
  pub sort_func-IsSortedBy :
      (cmp : A → A → ℤ) (key : A → ℤ) (p : A → Bool) (l : List A)
      → Agrees cmp key p
      → All (λ x. p x ≡ true) l
      → IsSortedBy key (sort_func cmp l)

module _ {A : Type 0} (cmp : A → A → ℤ) where
  insert : A → List A → List A
  insert x [] = x ∷ []
  insert x (y ∷ ys) =
      let rest = y ∷ insert x ys in if is_negative (cmp y x) then rest else x ∷ y ∷ ys

  unfoldable pub insertion_sort : List A → List A
  unfolding insert
  insertion_sort [] = []
  insertion_sort (x ∷ xs) = insert x (insertion_sort xs)

  insert-perm : (x : A) (l : List A) → Perm (insert x l) (x ∷ l)
  unfolding insert
  insert-perm x [] = Perm.rfl
  insert-perm x (y ∷ ys) = elim (Bool-cases (is_negative (cmp y x))) [
    | inl h ↦ rw h (Perm.trans (Perm.cons y (insert-perm x ys)) (Perm.swap x y ys))
    | inr h ↦ rw h Perm.rfl
  ]

  pub insertion_sort-perm : (l : List A) → Perm (insertion_sort l) l
  unfolding insertion_sort
  insertion_sort-perm [] = Perm.rfl
  insertion_sort-perm (x ∷ xs) =
      Perm.trans (insert-perm x (insertion_sort xs)) (Perm.cons x (insertion_sort-perm xs))

  insert-All : (P : A → Type 0) (x : A) (l : List A) → P x → All P l → All P (insert x l)
  unfolding insert
  insert-All P x [] h k = (h, tt)
  insert-All P x (y ∷ ys) h k = ground (arith, insert-All P x ys h k.1)

  insertion_sort-All : (P : A → Type 0) (l : List A) → All P l → All P (insertion_sort l)
  unfolding insertion_sort
  insertion_sort-All P [] k = tt
  insertion_sort-All P (x ∷ xs) k =
      insert-All P x (insertion_sort xs) k.0 (insertion_sort-All P xs k.1)

module _ {A : Type 0} (cmp : A → A → ℤ) (key : A → ℤ) (p : A → Bool)
    (agrees : Agrees cmp key p) where
  weaken :
      (a b : A) (l : List A)
      → key a ≤ℤ key b
      → All (λ y. key b ≤ℤ key y) l
      → All (λ y. key a ≤ℤ key y) l
  weaken a b [] h k = tt
  weaken a b (y ∷ ys) h k = (omega arith, weaken a b ys h k.1)

  insert-IsSortedBy :
      (x : A) (l : List A)
      → p x ≡ true
      → All (λ y. p y ≡ true) l
      → IsSortedBy key l
      → IsSortedBy key (insert cmp x l)
  unfolding insert
  insert-IsSortedBy x [] h k s = (tt, tt)
  insert-IsSortedBy x (y ∷ ys) h k s = elim (Bool-cases (is_negative (cmp y x))) [
    | inl c ↦ rw c (
      insert-All cmp (λ z. key y ≤ℤ key z) x ys (ground (arith, agrees y x k.0 h)) s.0,
      insert-IsSortedBy x ys h k.1 s.1,
    )
    | inr c ↦
        let below : key x ≤ℤ key y = ground (arith, agrees y x k.0 h) in
        rw c ((below, weaken x y ys below s.0), s)
  ]

  pub insertion_sort-IsSortedBy :
      (l : List A) → All (λ x. p x ≡ true) l → IsSortedBy key (insertion_sort cmp l)
  unfolding insertion_sort
  insertion_sort-IsSortedBy [] k = tt
  insertion_sort-IsSortedBy (x ∷ xs) k =
      insert-IsSortedBy x (insertion_sort cmp xs) k.0
        (insertion_sort-All cmp (λ y. p y ≡ true) xs k.1) (insertion_sort-IsSortedBy xs k.1)

unfoldable pub insertion_sorter : {A : Type 0} → Sorter A
unfolding insertion_sort
insertion_sorter = record {
  sort_func = insertion_sort;
  sort_func-perm = insertion_sort-perm;
  sort_func-IsSortedBy = λ cmp key p l agrees. insertion_sort-IsSortedBy cmp key p agrees l;
}
