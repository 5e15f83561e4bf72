-- ===== src/Plugin/Regex/Soundness.antt =====
-- The matcher by derivatives decides what a pattern means.
use dragonfly_wasm.Prelude.{
  ℕ, ◌≡◌, refl, sym, ap, ◌∙◌, ◌↔◌, ◌⊎◌, inl, inr, true, List, [], ◌∷◌, ◌++◌, arith, Bool-cases,
}
use dragonfly_wasm.Plugin.Regex.{
  Regex, fail, eps, one_of, seq, alt, star, Matches, empty, char, concat, left, right, stop, again,
  nullable, deriv, matches,
}

fail_inv : {s : List ℕ} → Matches fail s → ⊥
fail_inv m = elim m [ ]

eps_inv : {s : List ℕ} → Matches eps s → s ≡ []
eps_inv empty = refl

pub concat_inv :
    {r r' : Regex} {u : List ℕ}
    → Matches (seq r r') u
    → (s : List ℕ) × (t : List ℕ) × Matches r s × Matches r' t × (u ≡ s ++ t)
concat_inv (concat s t u m n e) = (s, t, m, n, e)

alt_inv : {r r' : Regex} {s : List ℕ} → Matches (alt r r') s → Matches r s ⊎ Matches r' s
alt_inv (left m) = inl m
alt_inv (right m) = inr m

nullable-Matches : (r : Regex) → nullable r ≡ true → Matches r []
unfolding nullable
nullable-Matches fail h = cc
nullable-Matches eps h = empty
nullable-Matches (one_of p) h = cc
nullable-Matches (seq r r') h =
    concat [] [] [] (nullable-Matches r (ground arith)) (nullable-Matches r' (ground arith)) refl
nullable-Matches (alt r r') h = elim (Bool-cases (nullable r)) [
  | inl e ↦ left (nullable-Matches r e)
  | inr e ↦ right (nullable-Matches r' (ground arith))
]
nullable-Matches (star r) h = stop

Matches-nullable : {r : Regex} {s : List ℕ} → Matches r s → s ≡ [] → nullable r ≡ true
unfolding nullable
Matches-nullable empty e = refl
Matches-nullable (char c h) e = cc
Matches-nullable (concat [] t u m n e') e =
    rw (Matches-nullable m refl) (Matches-nullable n (sym e' ∙ e))
Matches-nullable (concat (x ∷ s) t u m n e') e = cc
Matches-nullable (left m) e = rw (Matches-nullable m e)
Matches-nullable (right {r = r} m) e = elim (Bool-cases (nullable r)) [
  | inl h ↦ rw h
  | inr h ↦ rw h (Matches-nullable m e)
]
Matches-nullable stop e = refl
Matches-nullable (again c s t u m n e') e = refl

prepend :
    {r r' d : Regex} {c : ℕ} {s : List ℕ}
    → ((t : List ℕ) → Matches d t → Matches r (c ∷ t))
    → Matches (seq d r') s
    → Matches (seq r r') (c ∷ s)
prepend {c = c} {s = s} step m =
    let (s1, t, first, rest, e) = concat_inv m in
    concat (c ∷ s1) t (c ∷ s) (step s1 first) rest (ap (◌∷◌ c) e)

deriv_sound : (r : Regex) (c : ℕ) (s : List ℕ) → Matches (deriv r c) s → Matches r (c ∷ s)
unfolding deriv
deriv_sound fail c s m = absurd (fail_inv m)
deriv_sound eps c s m = absurd (fail_inv m)
deriv_sound (one_of p) c s m = elim (Bool-cases (p c)) [
  | inl h ↦ rw (eps_inv (rw h at m)) (char c h)
  | inr h ↦ absurd (fail_inv (rw h at m))
]
deriv_sound (seq r r') c s m = elim (Bool-cases (nullable r)) [
  | inl h ↦ elim (alt_inv (rw h at m)) [
    | inl first ↦ prepend (deriv_sound r c) first
    | inr second ↦ concat [] (c ∷ s) (c ∷ s) (nullable-Matches r h) (deriv_sound r' c s second) refl
  ]
  | inr h ↦ prepend (deriv_sound r c) (rw h at m)
]
deriv_sound (alt r r') c s m = elim (alt_inv m) [
  | inl l ↦ left (deriv_sound r c s l)
  | inr l ↦ right (deriv_sound r' c s l)
]
deriv_sound (star r) c s m =
    let (s1, t, first, rest, e) = concat_inv m in
    again c s1 t (c ∷ s) (deriv_sound r c s1 first) rest (ap (◌∷◌ c) e)

cons_eq : {x y : ℕ} {s t : List ℕ} → x ∷ s ≡ y ∷ t → (x ≡ y) × (s ≡ t)
cons_eq e = (cc, cc)

deriv_complete :
    {r : Regex} {u : List ℕ} (c : ℕ) (s : List ℕ) → Matches r u → u ≡ c ∷ s → Matches (deriv r c) s
unfolding deriv
deriv_complete c s empty e = absurd (cc)
deriv_complete c s (char {p = p} x h) e = rw (← (cons_eq e).0, h, ← (cons_eq e).1) empty
deriv_complete c s (concat {r = r} [] t u m n e') e =
    rw (Matches-nullable m refl) (right (deriv_complete c s n (sym e' ∙ e)))
deriv_complete c s (concat {r = r} {r' = r'} (x ∷ s1) t u m n e') e =
    let first =
      concat s1 t s (deriv_complete c s1 m (ap (λ y. y ∷ s1) (cons_eq (sym e' ∙ e)).0)) n
        (sym (cons_eq (sym e' ∙ e)).1) in
    elim (Bool-cases (nullable r)) [ inl h ↦ rw h (left first) | inr h ↦ rw h first ]
deriv_complete c s (left m) e = left (deriv_complete c s m e)
deriv_complete c s (right m) e = right (deriv_complete c s m e)
deriv_complete c s stop e = absurd (cc)
deriv_complete c s (again x s1 t u m n e') e =
    concat s1 t s (deriv_complete c s1 m (ap (λ y. y ∷ s1) (cons_eq (sym e' ∙ e)).0)) n
      (sym (cons_eq (sym e' ∙ e)).1)

-- The matcher accepts exactly the texts that the pattern stands for.
pub matches-Matches : (r : Regex) (s : List ℕ) → (matches r s ≡ true) ↔ Matches r s
unfolding matches
matches-Matches r [] = (nullable-Matches r, λ m. Matches-nullable m refl)
matches-Matches r (c ∷ s) = (
  λ h. deriv_sound r c s ((matches-Matches (deriv r c) s).0 h),
  λ m. (matches-Matches (deriv r c) s).1 (deriv_complete c s m refl),
)
