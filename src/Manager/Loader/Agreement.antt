-- ===== src/Manager/Loader/Agreement.antt =====
-- internal/manager: `ResolveDependencies` of loader.go against `sortByDependencies` of manager.go.
use mathlib.Core.List.Perm
use dragonfly_wasm.Prelude.{
  ◌<◌, String, ◌≡◌, sym, ◌∙◌, ap, subst, inl, inr, ◌↔◌, true, ◌&&◌, ◌||◌, some, List, [], arith,
  All, All-map, get, is_some, contains, Distinct, Distinct-perm,
}
use dragonfly_wasm.Prelude.Orders.{index, position_mem}
use dragonfly_wasm.Plugin.Manifest.{Manifest, Dependency}
use dragonfly_wasm.Manager.DependencySort as Sort
use dragonfly_wasm.Manager.DependencySort.{manifest_map, sort_by_dependencies}
use dragonfly_wasm.Manager.DependencySort.Edges as Edges
use dragonfly_wasm.Manager.DependencySort.Start.{ids}
use dragonfly_wasm.Manager.DependencySort.Complete.{IsRank}
use dragonfly_wasm.Manager.DependencySort.Required as Required
use dragonfly_wasm.Manager.DependencySort.Correct.{IsSorted, sort_ends, sort_complete}
use dragonfly_wasm.Manager.Loader.{DiscoveredPlugin}
use dragonfly_wasm.Manager.Loader.Resolution.{
  plugin_ids, resolve_dependencies, Resolve, ResolveError, ok, err,
}
use dragonfly_wasm.Manager.Loader.Visits.{children}
use dragonfly_wasm.Manager.Loader.Visiting.{Leads, direct, further}
use dragonfly_wasm.Manager.Loader.Resolved.{
  by_id, known, IsResolved, HasRequired, Met, plugin_at, resolve_ends,
}
use dragonfly_wasm.Manager.Loader.Circles.{needed_before, source_there, resolve_iff}
use dragonfly_wasm.Manager.Loader.Manifests.{
  manifests_of, get-plugin_map, All-of, All-manifests_of, All-of_manifests, ids-manifests_of,
  Mem-manifests_of, ms, sort_map, same_there, contains-prerequisites,
}

module _ (plugins : List DiscoveredPlugin) (apart : Distinct (plugin_ids plugins)) where
  own : All (λ p. get (by_id plugins) p.manifest.id ≡ some p) plugins
  own = get-plugin_map plugins [] apart

  same_required : (d : Dependency) → Required.Met (sort_map plugins) d ≡ Met (by_id plugins) d
  same_required d = ap (λ b. (d.optional || b) ≡ true) (same_there plugins d.id)

  IsRank-index :
      (r : List DiscoveredPlugin)
      → IsResolved plugins r
      → IsRank (sort_map plugins) (index (plugin_ids r)) (ms plugins)
  IsRank-index r sorted =
      All-manifests_of (λ p. get (by_id plugins) p.manifest.id ≡ some p) _ plugins
        (λ p there. All-of (Edges.prerequisites (sort_map plugins) p.manifest) λ k m.
          let both = sym (contains-prerequisites plugins p k) ∙ m in
          needed_before plugins r sorted p.manifest.id k p there (ground arith) (ground arith))
        own

  sorted_from :
      (r : List DiscoveredPlugin)
      → IsResolved plugins r
      → HasRequired (by_id plugins) plugins
      → (out : List Manifest) × (sort_by_dependencies (ms plugins) ≡ Sort.ok out)
  sorted_from r sorted required =
      let (out, e, _) =
        sort_complete (ms plugins) (index (plugin_ids r))
          (All-manifests_of (λ p. All (Met (by_id plugins)) p.manifest.dependencies) _ plugins
            (λ p met.
              All-map (Met (by_id plugins)) _ p.manifest.dependencies
                (λ d h. ap (λ b. d.optional || b) (same_there plugins d.id) ∙ h) met)
            required)
          (subst Distinct (sym (ids-manifests_of plugins)) apart) (IsRank-index r sorted) in
      (out, e)

  module _ (out : List Manifest) (sorted : IsSorted (ms plugins) out) where
    Distinct-out : Distinct (ids out)
    Distinct-out =
        Distinct-perm (Perm.map (λ m. m.id) sorted.0)
          (subst Distinct (sym (ids-manifests_of plugins)) apart)

    -- In what the sort gives, what a plugin needs stands before it.
    earlier :
        (a b : String) (p : DiscoveredPlugin)
        → get (by_id plugins) a ≡ some p
        → contains (children p) b ≡ true
        → is_some (get (by_id plugins) b) ≡ true
        → index (ids out) b < index (ids out) a
    earlier a b p there h here =
        let (q, named, found, m) =
          plugin_at (by_id plugins) plugins a own (sym (known plugins a) ∙ ap is_some there) in
        subst (λ x. index (ids out) b < index (ids out) x) named
          (position_mem (λ m. m.id) (Edges.prerequisites (sort_map plugins)) q.manifest out b
            ((Perm.mem_iff sorted.0).1 ∣ Mem-manifests_of q plugins m ∣₁) sorted.1 Distinct-out
            (contains-prerequisites plugins q b
              ∙ ap (λ x. contains (children x) b && is_some (get (by_id plugins) b))
                  (same_plugin (sym found ∙ ap (get (by_id plugins)) named ∙ there))
              ∙ ground arith))
      where
        same_plugin : {x y : DiscoveredPlugin} → some x ≡ some y → x ≡ y
        same_plugin e = cc

    Leads-earlier :
        (a b : String)
        → Leads (by_id plugins) a b
        → is_some (get (by_id plugins) b) ≡ true
        → index (ids out) b < index (ids out) a
    Leads-earlier a b (direct p there h) here = earlier a b p there h here
    Leads-earlier a b (further {b = c} p there h l) here =
        omega (arith, earlier a c p there h (source_there l), Leads-earlier c b l here)

  resolved_from :
      (out : List Manifest)
      → IsSorted (ms plugins) out
      → Required.HasRequired (sort_map plugins) (ms plugins)
      → (r : List DiscoveredPlugin) × (resolve_dependencies plugins ≡ ok r)
  resolved_from out sorted required = (resolve_iff plugins).1 (
    All-of_manifests (λ p. All (Met (by_id plugins)) p.manifest.dependencies) _ plugins
        (λ p met.
          All-map _ (Met (by_id plugins)) p.manifest.dependencies
            (λ d h. ap (λ b. d.optional || b) (sym (same_there plugins d.id)) ∙ h) met)
        required,
    λ k l. absurd (omega (arith, Leads-earlier out sorted k k l (source_there l))),
  )

  clash : {A B : Type 0} {x : Resolve A} {a : A} {e : ResolveError} → x ≡ ok a → x ≡ err e → B
  clash p q = absurd cc

  other_end :
      {B : Type 0} {x : Sort.Result (List Manifest)} {a : List Manifest} {e : Sort.SortError}
      → x ≡ Sort.ok a
      → x ≡ Sort.err e
      → B
  other_end p q = absurd cc

  -- The loader and the manager agree: where no two plugins share an ID, resolving the dependencies
  -- of the discovered plugins succeeds exactly when the manager's sort of their manifests does.
  pub resolve_iff-sort :
      ((r : List DiscoveredPlugin) × (resolve_dependencies plugins ≡ ok r))
      ↔ ((out : List Manifest) × (sort_by_dependencies (manifests_of plugins) ≡ Sort.ok out))
  resolve_iff-sort = (
    λ h. elim (resolve_ends plugins) [
      | inl (r, e, sorted, required) ↦ sorted_from r sorted required
      | inr (inl (p, d, e, x)) ↦ clash h.1 e
      | inr (inr (k, e, circle, required)) ↦ clash h.1 e
    ],
    λ h. elim (sort_ends (ms plugins)) [
      | inl (out, e, sorted, distinct, required) ↦ resolved_from out sorted required
      | inr (inl (p, d, e, x)) ↦ other_end h.1 e
      | inr (inr (e, required)) ↦ other_end h.1 e
    ],
  )
