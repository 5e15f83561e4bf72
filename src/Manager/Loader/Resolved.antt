-- ===== src/Manager/Loader/Resolved.antt =====
-- internal/manager/loader.go: how `ResolveDependencies` ends.
use mathlib.Core.List.{Memᴰ}
use dragonfly_wasm.Prelude.{
  suc, ◌≤◌, ◌<◌, String, ◌≡◌, refl, sym, ◌∙◌, ap, subst, ◌⊎◌, inl, inr, true, false, not, ◌||◌,
  ◌&&◌, none, some, List, [], ◌∷◌, arith, All, length, GoMap, get, put, get-put, is_some, contains,
  Distinct, str_eq, text_cases, bool_ext, Bool-cases,
}
use dragonfly_wasm.Plugin.Manifest.{Dependency}
use dragonfly_wasm.Prelude.Orders.{All-contains}
use dragonfly_wasm.Manager.Loader.{DiscoveredPlugin}
use dragonfly_wasm.Manager.Loader.Resolution.{
  Visits, no_visits, is_visited, is_visiting, Resolve, ok, err, ◌>>=◌, circular_dependency,
  missing_dependency, plugin_ids, plugin_map, visit, visit_each, check_dependencies, check_all,
  or_rest, sort_checked, resolve_dependencies,
}
use dragonfly_wasm.Manager.Loader.Visits.{InOrder, Inv, After}
use dragonfly_wasm.Manager.Loader.Visiting.{Leads, EachEnd, each_end, visit_end, free}

pub is_some-plugin_map :
    (ps : List DiscoveredPlugin) (m : GoMap DiscoveredPlugin) (k : String)
    → is_some (get (plugin_map ps m) k) ≡ (is_some (get m k) || contains (plugin_ids ps) k)
unfolding plugin_map contains
is_some-plugin_map [] m k = ground arith
is_some-plugin_map (p ∷ ps) m k =
    is_some-plugin_map ps (put m p.manifest.id p) k ∙ ground (arith, get-put m p.manifest.id k p)

-- Every plugin is filed under its ID.
abbrev Filed : GoMap DiscoveredPlugin → Type 0
Filed m = (k : String) (p : DiscoveredPlugin) → get m k ≡ some p → p.manifest.id ≡ k

put-Filed :
    (m : GoMap DiscoveredPlugin) (p : DiscoveredPlugin) → Filed m → Filed (put m p.manifest.id p)
put-Filed m p filed k q h = elim (text_cases p.manifest.id k) [
  | inl (t, same) ↦ subst (λ x. x.manifest.id ≡ k) (put_same t) same
  | inr (f, _) ↦ filed k q (put_other f)
]
  where
    put_same : str_eq p.manifest.id k ≡ true → p ≡ q
    put_same t = ground (arith, get-put m p.manifest.id k p)

    put_other : str_eq p.manifest.id k ≡ false → get m k ≡ some q
    put_other f = ground (arith, get-put m p.manifest.id k p)

plugin_map-Filed :
    (ps : List DiscoveredPlugin) (m : GoMap DiscoveredPlugin) → Filed m → Filed (plugin_map ps m)
unfolding plugin_map
plugin_map-Filed [] m h = h
plugin_map-Filed (p ∷ ps) m h = plugin_map-Filed ps (put m p.manifest.id p) (put-Filed m p h)

module _ (by_id : GoMap DiscoveredPlugin) where
  -- A dependency that is optional or has a plugin.
  abbrev pub Met : Dependency → Type 0
  Met d = (d.optional || is_some (get by_id d.id)) ≡ true

  abbrev pub HasRequired : List DiscoveredPlugin → Type 0
  HasRequired ps = All (λ p. All Met p.manifest.dependencies) ps

  -- The plugin `plugin` requires `dependency`, and there is no such plugin.
  pub record Missing (ps : List DiscoveredPlugin) (plugin dependency : String) : Type 0 where
    pub needing : DiscoveredPlugin
    pub listed : Memᴰ needing ps
    pub named : needing.manifest.id ≡ plugin
    pub requirement : Dependency
    pub required : Memᴰ requirement needing.manifest.dependencies
    pub required_id : requirement.id ≡ dependency
    pub not_optional : requirement.optional ≡ false
    pub absent : is_some (get by_id dependency) ≡ false

  Missing-later :
      (p : DiscoveredPlugin) (ps : List DiscoveredPlugin) (a d : String)
      → Missing ps a d
      → Missing (p ∷ ps) a d
  Missing-later p ps a d x = record {
    needing = x.needing;
    listed = Memᴰ.tail x.listed;
    named = x.named;
    requirement = x.requirement;
    required = x.required;
    required_id = x.required_id;
    not_optional = x.not_optional;
    absent = x.absent;
  }

  check_end :
      (id : String) (deps : List Dependency)
      → ((check_dependencies by_id id deps ≡ none) × All Met deps)
        ⊎ ((d : Dependency) × (check_dependencies by_id id deps ≡ some (missing_dependency id d.id))
            × Memᴰ d deps
            × (d.optional ≡ false)
            × (is_some (get by_id d.id) ≡ false))
  unfolding check_dependencies
  check_end id [] = inl (refl, tt)
  check_end id (d ∷ deps) = elim (Bool-cases (not (is_some (get by_id d.id)) && not d.optional)) [
    | inl bad ↦ inr (d, rw bad refl, Memᴰ.head refl, ground arith, ground arith)
    | inr good ↦ elim (check_end id deps) [
      | inl (e, met) ↦ inl (rw good e, (ground arith, met))
      | inr (x, e, m, opt, gone) ↦ inr (x, rw good e, Memᴰ.tail m, opt, gone)
    ]
  ]

  all_end :
      (ps : List DiscoveredPlugin)
      → ((check_all by_id ps ≡ none) × HasRequired ps)
        ⊎ ((p d : String) × (check_all by_id ps ≡ some (missing_dependency p d)) × Missing ps p d)
  unfolding check_all
  all_end [] = inl (refl, tt)
  all_end (p ∷ ps) = elim (check_end p.manifest.id p.manifest.dependencies) [
    | inr (d, e, m, opt, gone) ↦ inr (
      p.manifest.id,
      d.id,
      ap (λ o. or_rest o (check_all by_id ps)) e,
      record {
        needing = p;
        listed = Memᴰ.head refl;
        named = refl;
        requirement = d;
        required = m;
        required_id = refl;
        not_optional = opt;
        absent = gone;
      },
    )
    | inl (e, met) ↦ elim (all_end ps) [
      | inl (f, all) ↦ inl (ap (λ o. or_rest o (check_all by_id ps)) e ∙ f, (met, all))
      | inr (a, d, f, x) ↦
          inr (a, d, ap (λ o. or_rest o (check_all by_id ps)) e ∙ f, Missing-later p ps a d x)
    ]
  ]

-- The plugin of an ID in a list.
pub plugin_at :
    (m : GoMap DiscoveredPlugin) (ps : List DiscoveredPlugin) (k : String)
    → All (λ p. get m p.manifest.id ≡ some p) ps
    → contains (plugin_ids ps) k ≡ true
    → (p : DiscoveredPlugin) × (p.manifest.id ≡ k) × (get m p.manifest.id ≡ some p) × Memᴰ p ps
unfolding contains
plugin_at m [] k all h = absurd cc
plugin_at m (p ∷ ps) k all h = elim (text_cases p.manifest.id k) [
  | inl (t, same) ↦ (p, same, all.0, Memᴰ.head refl)
  | inr (f, _) ↦
      let (q, same, there, m') = plugin_at m ps k all.1 (ground arith) in
      (q, same, there, Memᴰ.tail m')
]

module _ (plugins : List DiscoveredPlugin) where
  abbrev pub by_id : GoMap DiscoveredPlugin
  by_id = plugin_map plugins []

  -- The plugins `r` hold every ID of the plugins once, with the last plugin of the ID, each behind
  -- all of its prerequisites.
  pub record IsResolved (r : List DiscoveredPlugin) : Type 0 where
    pub ordered : InOrder by_id [] r
    pub distinct : Distinct (plugin_ids r)
    pub same_ids : (k : String) → contains (plugin_ids r) k ≡ contains (plugin_ids plugins) k
    pub last : All (λ p. get by_id p.manifest.id ≡ some p) r

  abbrev Visiting : Resolve Visits
  Visiting = visit_each (visit by_id (suc (length plugins))) (plugin_ids plugins) no_visits

  no_visits-Inv : Inv by_id no_visits
  unfolding get contains
  no_visits-Inv = record { listed = λ k. refl; ordered = tt; distinct = tt; filed = tt }

  room : free by_id (plugin_ids plugins) no_visits < suc (length plugins)
  room = omega (arith, free-le-length (plugin_ids plugins), length-ids plugins)
    where
      free-le-length : (ks : List String) → free by_id ks no_visits ≤ length ks
      free-le-length [] = omega arith
      free-le-length (k ∷ ks) = ground (arith, free-le-length ks)

      length-ids : (ps : List DiscoveredPlugin) → length (plugin_ids ps) ≡ length ps
      length-ids [] = refl
      length-ids (p ∷ ps) = ap suc (length-ids ps)

  pub known : (k : String) → is_some (get by_id k) ≡ contains (plugin_ids plugins) k
  known k = is_some-plugin_map plugins [] k ∙ (unfold get in refl)

  visiting_end : EachEnd by_id no_visits (plugin_ids plugins) Visiting
  visiting_end =
      each_end by_id (plugin_ids plugins) (suc (length plugins))
        (visit by_id (suc (length plugins)))
        (visit_end by_id (plugin_ids plugins) (λ k h. sym (known k) ∙ h)
          (plugin_map-Filed plugins [] (λ k p h. absurd (nothing k p h))) (suc (length plugins)))
        (plugin_ids plugins) no_visits no_visits-Inv room
    where
      nothing : (k : String) (p : DiscoveredPlugin) → get [] k ≡ some p → ⊥
      nothing k p h = unfold get in cc

  After-IsResolved :
      (s : Visits)
      → After by_id no_visits s
      → All (λ k. is_some (get by_id k) ≡ true → is_visited s k ≡ true) (plugin_ids plugins)
      → IsResolved s.sorted
  After-IsResolved s a all = record {
    ordered = a.inv.ordered;
    distinct = a.inv.distinct;
    same_ids = λ k.
        bool_ext _ _
          (λ h.
            let (p, named, there, _) = plugin_at by_id s.sorted k a.inv.filed h in
            sym (known k) ∙ ap (λ i. is_some (get by_id i)) (sym named) ∙ ap is_some there)
          (λ h. sym (a.inv.listed k) ∙ All-contains _ (plugin_ids plugins) k all h (known k ∙ h));
    last = a.inv.filed;
  }

  -- Resolving the dependencies ends in one of three ways: with resolved plugins, where every
  -- required dependency is there; with the error for a dependency that a
  -- plugin requires and that is not there; or with the error for a circle, where the plugin that
  -- the error names needs itself.
  pub resolve_ends :
      ((r : List DiscoveredPlugin) × (resolve_dependencies plugins ≡ ok r)
        × IsResolved r
        × HasRequired by_id plugins)
      ⊎ ((plugin dependency : String) × (resolve_dependencies plugins
            ≡ err (missing_dependency plugin dependency))
          × Missing by_id plugins plugin dependency)
      ⊎ ((k : String) × (resolve_dependencies plugins ≡ err (circular_dependency k))
          × Leads by_id k k
          × HasRequired by_id plugins)
  unfolding resolve_dependencies sort_checked
  resolve_ends = elim (all_end by_id plugins) [
    | inr (p, d, e, x) ↦ inr (inl (p, d, ap (sort_checked by_id plugins) e, x))
    | inl (e, required) ↦ elim visiting_end [
      | inl (s, f, a, all) ↦ inl (
        s.sorted,
        ap (sort_checked by_id plugins) e ∙ ap (λ r. r >>= λ s. ok s.sorted) f,
        After-IsResolved s a all,
        required,
      )
      | inr (k, id, f, m, blame) ↦ inr (
          inr (
            k,
            ap (sort_checked by_id plugins) e ∙ ap (λ r. r >>= λ s. ok s.sorted) f,
            circle k id blame,
            required,
          ))
    ]
  ]
    where
      circle :
          (k id : String)
          → ((is_visiting no_visits k ≡ true) × ((id ≡ k) ⊎ Leads by_id id k)) ⊎ Leads by_id k k
          → Leads by_id k k
      circle k id (inl (busy, _)) = unfold get in absurd cc
      circle k id (inr c) = c
