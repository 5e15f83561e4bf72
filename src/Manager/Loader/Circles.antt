-- ===== src/Manager/Loader/Circles.antt =====
-- internal/manager/loader.go: `ResolveDependencies` against circles of plugins.
use dragonfly_wasm.Prelude.{
  ◌<◌, String, ◌≡◌, sym, ◌∙◌, ap, subst, inl, inr, ◌↔◌, Bool, true, false, ◌&&◌, ◌||◌, some, List,
  arith, All, GoMap, get, is_some, contains,
}
use dragonfly_wasm.Prelude.Orders.{index, before-position, contains-select}
use dragonfly_wasm.Manager.DependencySort.Required.{All-Mem}
use dragonfly_wasm.Manager.Loader.{DiscoveredPlugin}
use dragonfly_wasm.Manager.Loader.Resolution.{
  Resolve, ResolveError, ok, err, plugin_ids, resolve_dependencies,
}
use dragonfly_wasm.Manager.Loader.Visits.{children, prerequisites}
use dragonfly_wasm.Manager.Loader.Visiting.{Leads, direct, further}
use dragonfly_wasm.Manager.Loader.Resolved.{
  by_id, known, IsResolved, HasRequired, Met, Missing, plugin_at, resolve_ends,
}

pub source_there :
    {m : GoMap DiscoveredPlugin} {a b : String} → Leads m a b → is_some (get m a) ≡ true
source_there (direct p there h) = ap is_some there
source_there (further p there h l) = ap is_some there

module _ (plugins r : List DiscoveredPlugin) (sorted : IsResolved plugins r) where
  pub needed_before :
      (a b : String) (p : DiscoveredPlugin)
      → get (by_id plugins) a ≡ some p
      → contains (children p) b ≡ true
      → is_some (get (by_id plugins) b) ≡ true
      → index (plugin_ids r) b < index (plugin_ids r) a
  needed_before a b p there h here =
      let (q, named, found, m) =
        plugin_at (by_id plugins) r a sorted.last
          (sorted.same_ids a ∙ sym (known plugins a) ∙ ap is_some there) in
      subst (λ x. index (plugin_ids r) b < index (plugin_ids r) x) named
        (before-position (λ p. p.manifest.id) (prerequisites (by_id plugins)) q r b m sorted.ordered
          sorted.distinct
          (contains-select _ (children q) b
            ∙ ap (λ x. contains (children x) b && is_some (get (by_id plugins) b))
                (same_plugin (sym found ∙ ap (get (by_id plugins)) named ∙ there))
            ∙ ground arith))
    where
      same_plugin : {x y : DiscoveredPlugin} → some x ≡ some y → x ≡ y
      same_plugin e = cc

  pub Leads-lt :
      (a b : String)
      → Leads (by_id plugins) a b
      → is_some (get (by_id plugins) b) ≡ true
      → index (plugin_ids r) b < index (plugin_ids r) a
  Leads-lt a b (direct p there h) here = needed_before a b p there h here
  Leads-lt a b (further {b = c} p there h l) here =
      omega (arith, needed_before a c p there h (source_there l), Leads-lt c b l here)

  pub not_circle : (k : String) → Leads (by_id plugins) k k → ⊥
  not_circle k l = absurd (omega (arith, Leads-lt k k l (source_there l)))

not_Missing :
    (m : GoMap DiscoveredPlugin) (ps : List DiscoveredPlugin) (p d : String)
    → Missing m ps p d
    → HasRequired m ps
    → ⊥
not_Missing m ps p d x all =
    unmet x.requirement.optional x.not_optional
      (ap (λ i. is_some (get m i)) x.required_id ∙ x.absent)
      (All-Mem (Met m) x.required (All-Mem (λ p. All (Met m) p.manifest.dependencies) x.listed all))
  where
    unmet : {b : Bool} (o : Bool) → o ≡ false → b ≡ false → (o || b) ≡ true → ⊥
    unmet o e f g = ground arith

clash : {A : Type 0} {x : Resolve A} {a : A} {e : ResolveError} → x ≡ ok a → x ≡ err e → ⊥
clash p q = cc

-- Resolving the dependencies succeeds exactly when every required dependency is there and no plugin
-- needs itself, by its dependencies and the plugins that it is to be loaded after.
pub resolve_iff :
    (plugins : List DiscoveredPlugin)
    → ((r : List DiscoveredPlugin) × (resolve_dependencies plugins ≡ ok r))
      ↔ (HasRequired (by_id plugins) plugins × ((k : String) → ¬ Leads (by_id plugins) k k))
resolve_iff plugins = elim (resolve_ends plugins) [
  | inl (r, e, sorted, required) ↦ (λ h. (required, not_circle plugins r sorted), λ h. (r, e))
  | inr (inl (p, d, e, x)) ↦
      (λ h. absurd (clash h.1 e), λ h. absurd (not_Missing (by_id plugins) plugins p d x h.0))
  | inr (inr (k, e, circle, required)) ↦ (λ h. absurd (clash h.1 e), λ h. absurd (h.1 k circle))
]
