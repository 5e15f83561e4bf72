-- ===== src/Config/Enabling.antt =====
-- Which plugins the configuration lets load.
use mathlib.Core.List.{Mem}
use mathlib.Core.Logic.Or
use mathlib.Core.Logic.{◌∨₁◌}
use dragonfly_wasm.Prelude.{
  String, ◌≡◌, refl, ◌↔◌, inl, inr, Bool, true, ◌||◌, List, [], ◌∷◌, arith, contains, contains-Mem,
  true_prop, Bool-cases,
}
use dragonfly_wasm.Config.{Config, is_plugin_enabled, is_nil}

nil_of : (xs : List String) → is_nil xs ≡ true → xs ≡ []
nil_of [] h = refl
nil_of (x ∷ xs) h = cc

open_to : Config → String → Bool
open_to c id = is_nil c.enabled_plugins || contains c.enabled_plugins id

nil_or : (c : Config) (id : String) → c.enabled_plugins ≡ [] → open_to c id ≡ true
unfolding open_to
nil_or c id e = rw e

member_or : (c : Config) (id : String) → Mem id c.enabled_plugins → open_to c id ≡ true
unfolding open_to
member_or c id m = let listed = (contains-Mem c.enabled_plugins id).1 m in ground arith

-- A plugin is enabled exactly when it is not listed as disabled, and either no plugin is listed as
-- enabled or it is.
pub is_plugin_enabled_iff :
    (c : Config) (id : String)
    → (is_plugin_enabled c id ≡ true)
      ↔ ((¬ Mem id c.disabled_plugins) × ((c.enabled_plugins ≡ []) ∨₁ Mem id c.enabled_plugins))
unfolding is_plugin_enabled open_to
is_plugin_enabled_iff c id = (
  λ h. (
    λ m. let listed = (contains-Mem c.disabled_plugins id).1 m in ground arith,
    elim (Bool-cases (is_nil c.enabled_plugins)) [
      | inl e ↦ Or.inl (nil_of c.enabled_plugins e)
      | inr e ↦ Or.inr ((contains-Mem c.enabled_plugins id).0 (ground arith))
    ],
  ),
  λ (allowed, listed).
      let free = Or.elim (true_prop (open_to c id)) listed (nil_or c id) (member_or c id) in
      elim (Bool-cases (contains c.disabled_plugins id)) [
        | inl e ↦ absurd (allowed ((contains-Mem c.disabled_plugins id).0 e))
        | inr e ↦ ground arith
      ],
)
