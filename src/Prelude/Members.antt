-- ===== src/Prelude/Members.antt =====
-- Boolean membership against the library's `Mem`, and distinct lists against its `Nodup`.
use mathlib.Core.List.{List, [], ◌∷◌, Mem, mem-cons, not-mem-nil, Nodup, Nodup-cons, Nodup-nil}
use mathlib.Core.Logic.Or
use mathlib.Core.Logic.{◌↔◌, inl, inr}
use mathlib.Core.Path.{◌≡◌, refl, sym}
use mathlib.Core.Bool.{Bool, true, false}
use Prim.Native.String.{String}
use native.Mathlib.Omega.{arith}
use text.Mathlib.Text.{◌==◌ as str_eq}
use text.Mathlib.TextEquality.{eq_iff}
use dragonfly_wasm.Prelude.Tests.{Bool-cases}
use dragonfly_wasm.Prelude.Maps.{contains, Distinct}

pub true_prop : (b : Bool) → IsProp (b ≡ true)
true_prop b = hlevel

pub contains-Mem : (xs : List String) (s : String) → (contains xs s ≡ true) ↔ Mem s xs
unfolding contains
contains-Mem [] s = (λ h. absurd (false_ne h), λ m. absurd (not-mem-nil m))
  where
    false_ne : false ≡ true → ⊥
    false_ne h = cc
contains-Mem (x ∷ xs) s = (
  λ h. elim (Bool-cases (str_eq x s)) [
    | inl e ↦ mem-cons.1 (Or.inl (sym ((eq_iff x s).0 e)))
    | inr e ↦ mem-cons.1 (Or.inr ((contains-Mem xs s).0 (ground arith)))
  ],
  λ m.
      Or.elim (true_prop _) (mem-cons.0 m) (λ e. ground (arith, eq_iff x s))
        (λ r. let rest = (contains-Mem xs s).1 r in ground arith),
)

pub Distinct-Nodup : (xs : List String) → Distinct xs ↔ Nodup xs
Distinct-Nodup [] = (λ d. Nodup-nil, λ n. tt)
Distinct-Nodup (x ∷ xs) = (
  λ d. Nodup-cons.1 (λ m. clash d.0 ((contains-Mem xs x).1 m), (Distinct-Nodup xs).0 d.1),
  λ n.
      let (fresh, rest) = Nodup-cons.0 n in
      (absent (contains xs x) (λ h. fresh ((contains-Mem xs x).0 h)), (Distinct-Nodup xs).1 rest),
)
  where
    clash : {b : Bool} → b ≡ false → b ≡ true → ⊥
    clash p q = cc

    absent : (b : Bool) → ¬ (b ≡ true) → b ≡ false
    absent true h = absurd (h refl)
    absent false h = refl
