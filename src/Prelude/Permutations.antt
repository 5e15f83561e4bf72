-- ===== src/Prelude/Permutations.antt =====
-- Permutations and distinct texts: what two lists of texts that permute share, and counting by
-- inclusion. Texts are sorted as `sort.Strings` does: equal texts cannot be told apart, so the
-- result does not depend on the algorithm.
use mathlib.Core.List.Perm
use mathlib.Core.List.{List, [], ◌∷◌, ◌++◌, Perm, Permᴰ, perm_middle}
use mathlib.Core.Logic.{inl, inr, ∥∥₁_elim}
use mathlib.Core.Path.{◌≡◌, refl, sym, ◌∙◌, ap, subst}
use mathlib.Core.Bool.{Bool, true, false}
use Prim.Native.Nat.{suc}
use Prim.Native.String.{String, compare}
use native.Mathlib.Nat.{ℕ_set}
use native.Mathlib.Omega.{arith}
use text.Mathlib.Text.{is_lt}
use dragonfly_wasm.Prelude.Tests.{if◌then◌else◌, Bool-cases, text_cases, str_eq_self}
use dragonfly_wasm.Prelude.Lists.{length}
use dragonfly_wasm.Prelude.Maps.{contains, contains-append, Distinct}
use dragonfly_wasm.Prelude.Members.{contains-Mem, Distinct-Nodup}

insert_string : String → List String → List String
insert_string x [] = x ∷ []
insert_string x (y ∷ ys) =
    let rest = y ∷ insert_string x ys in if is_lt (compare y x) then rest else x ∷ y ∷ ys

-- sort.Strings
unfoldable pub sort_strings : List String → List String
unfolding insert_string
sort_strings [] = []
sort_strings (x ∷ xs) = insert_string x (sort_strings xs)

insert_string-perm : (x : String) (l : List String) → Perm (insert_string x l) (x ∷ l)
unfolding insert_string
insert_string-perm x [] = Perm.rfl
insert_string-perm x (y ∷ ys) = elim (Bool-cases (is_lt (compare y x))) [
  | inl h ↦ rw h (Perm.trans (Perm.cons y (insert_string-perm x ys)) (Perm.swap x y ys))
  | inr h ↦ rw h Perm.rfl
]

pub sort_strings-perm : (l : List String) → Perm (sort_strings l) l
unfolding sort_strings
sort_strings-perm [] = Perm.rfl
sort_strings-perm (x ∷ xs) =
    Perm.trans (insert_string-perm x (sort_strings xs)) (Perm.cons x (sort_strings-perm xs))

pub bool_ext : (b c : Bool) → (b ≡ true → c ≡ true) → (c ≡ true → b ≡ true) → b ≡ c
bool_ext true c h k = sym (h refl)
bool_ext false true h k = k refl
bool_ext false false h k = refl

pub contains-perm :
    {xs ys : List String} → Perm xs ys → (s : String) → contains xs s ≡ contains ys s
contains-perm {xs} {ys} p s =
    bool_ext _ _ (λ h. (contains-Mem ys s).1 ((Perm.mem_iff p).0 ((contains-Mem xs s).0 h)))
      (λ h. (contains-Mem xs s).1 ((Perm.mem_iff p).1 ((contains-Mem ys s).0 h)))

pub Distinct-perm : {xs ys : List String} → Perm xs ys → Distinct ys → Distinct xs
Distinct-perm {xs} {ys} p d =
    (Distinct-Nodup xs).1 (Perm.nodup (Perm.symm p) ((Distinct-Nodup ys).0 d))

length-perm_d {ℓ} : {A : Type ℓ} {xs ys : List A} → Permᴰ xs ys → length xs ≡ length ys
length-perm_d Permᴰ.nil = refl
length-perm_d (Permᴰ.cons e r) = ap suc (length-perm_d r)
length-perm_d (Permᴰ.swap e e') = refl
length-perm_d (Permᴰ.trans r r') = length-perm_d r ∙ length-perm_d r'

pub length-perm {ℓ} : {A : Type ℓ} {xs ys : List A} → Perm xs ys → length xs ≡ length ys
length-perm p = ∥∥₁_elim p (ℕ_set _ _) length-perm_d

-- A list around an occurrence of a text.
split_at :
    (ys : List String) (s : String)
    → contains ys s ≡ true
    → (before : List String) × (after : List String) × (ys ≡ before ++ s ∷ after)
unfolding contains
split_at [] s h = cc
split_at (y ∷ ys) s h = elim (text_cases y s) [
  | inl (_, e) ↦ ([], ys, ap (λ x. x ∷ ys) e)
  | inr (f, _) ↦
      let (before, after, e) = split_at ys s (ground arith) in (y ∷ before, after, ap (◌∷◌ y) e)
]

others :
    (x : String) (before after xs : List String) (s : String)
    → contains xs x ≡ false
    → contains xs s ≡ true
    → contains (before ++ x ∷ after) s ≡ true
    → contains (before ++ after) s ≡ true
unfolding contains
others x before after xs s fresh m h = elim (text_cases x s) [
  | inl (_, e) ↦ absurd (cc (sym fresh ∙ ap (contains xs) e ∙ m))
  | inr (f, _) ↦
      ground (arith, contains-append before (x ∷ after) s, contains-append before after s)
]

-- Distinct texts that all stand in `ys` are a part of `ys`.
pub part_of :
    (xs ys : List String)
    → Distinct xs
    → ((s : String) → contains xs s ≡ true → contains ys s ≡ true)
    → (rest : List String) × Perm ys (xs ++ rest)
unfolding contains
part_of [] ys d h = (ys, Perm.rfl)
part_of (x ∷ xs) ys d h =
    let (before, after, e) = split_at ys x (h x (rw (str_eq_self x))) in
    let (rest, p) = part_of xs (before ++ after) d.1 (λ s m.
      others x before after xs s d.0 m
        (ap (λ l. contains l s) (sym e) ∙ h s (rw m (ground arith)))) in
    (
      rest,
      subst (λ l. Perm l (x ∷ (xs ++ rest))) (sym e)
          (Perm.trans (perm_middle before after) (Perm.cons x p)),
    )
