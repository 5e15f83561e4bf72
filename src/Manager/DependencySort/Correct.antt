-- ===== src/Manager/DependencySort/Correct.antt =====
-- `sortByDependencies` as a whole: what it returns, when it succeeds and why it fails.
use mathlib.Core.List.{Perm}
use dragonfly_wasm.Prelude.{
  ℕ, suc, String, ◌≡◌, refl, sym, ◌∙◌, ap, subst, ◌⊎◌, inl, inr, true, false, ◌||◌, Option, none,
  some, List, [], ◌∷◌, ◌==◌, arith, length, if◌then◌else◌, GoMap, contains, Distinct, sort_strings,
  Bool-cases,
}
use dragonfly_wasm.Prelude.Int.{pos}
use dragonfly_wasm.Plugin.Manifest.{Manifest}
use dragonfly_wasm.Manager.DependencySort.{
  Graph, ok, err, SortError, missing_dependency, circular_dependency, ◌>>=◌, empty_graph,
  manifest_map, build, zero_degree, take_all, finish, look_up, sort_by_dependencies,
}
use dragonfly_wasm.Manager.DependencySort.Edges.{Edge, edges, count_in, Built, Built-build}
use dragonfly_wasm.Manager.DependencySort.Taking.{Done, take_all_total}
use dragonfly_wasm.Manager.DependencySort.Start.{ids, Built-empty, start-Inv}
use dragonfly_wasm.Manager.DependencySort.Required.{HasRequired, Missing, not_Missing, build_end}
use dragonfly_wasm.Manager.DependencySort.Output.{InOrder, look_up-perm}
use dragonfly_wasm.Manager.DependencySort.Complete.{IsRank, length-taken}

length-ids : (ms : List Manifest) → length (ids ms) ≡ length ms
length-ids [] = refl
length-ids (m ∷ ms) = ap suc (length-ids ms)

module _ (ms : List Manifest) where
  abbrev by_id : GoMap Manifest
  by_id = manifest_map ms []

  abbrev es : List Edge
  es = edges by_id ms

  -- The loop over the queue of a graph.
  abbrev loop : Graph → Option (List String)
  loop g = take_all (length ms) g.dependents g.in_degree (sort_strings (zero_degree g.in_degree)) []

  sort_built :
      (g : Graph)
      → build by_id ms empty_graph ≡ ok g
      → sort_by_dependencies ms ≡ finish by_id (length ms) (loop g)
  unfolding sort_by_dependencies
  sort_built g e = ap (λ r. r >>= λ h. finish by_id (length ms) (loop h)) e

  sort_refused :
      (e : SortError) → build by_id ms empty_graph ≡ err e → sort_by_dependencies ms ≡ err e
  unfolding sort_by_dependencies
  sort_refused x e = ap (λ r. r >>= λ h. finish by_id (length ms) (loop h)) e

  Built-ids : (g : Graph) → build by_id ms empty_graph ≡ ok g → Built g es (ids ms)
  Built-ids g e =
      let (seen, b, all) = Built-build by_id ms empty_graph g [] [] Built-empty e in
      record {
        degree = λ v.
            b.degree v
            ∙ ap (λ c. if c then some (pos (count_in v es)) else none) (same seen v (all v));
        waiting = b.waiting;
        distinct = b.distinct;
        closed = λ v h. b.closed v (same seen v (all v) ∙ h);
      }
    where
      same :
          (seen : List String) (v : String)
          → contains seen v ≡ (contains [] v || contains (ids ms) v)
          → contains seen v ≡ contains (ids ms) v
      same seen v h = h ∙ (unfold contains in refl)

  -- A graph that is built is worked off within the fuel.
  loop-Done :
      (g : Graph) (b : Built g es (ids ms))
      → (taken : List String) × (loop g ≡ some taken) × Done es (ids ms) b.closed taken
  loop-Done g b =
      take_all_total es (ids ms) b.closed g.dependents b.waiting (length ms) g.in_degree
        (sort_strings (zero_degree g.in_degree)) [] (start-Inv g es (ids ms) b.closed b) tt
        (omega (arith, length-ids ms))

  finish_all :
      (g : Graph)
      → build by_id ms empty_graph ≡ ok g
      → (taken : List String) → loop g ≡ some taken
      → (length taken == length ms) ≡ true
      → sort_by_dependencies ms ≡ look_up by_id taken
  unfolding finish
  finish_all g e taken f n =
      sort_built g e
      ∙ ap (finish by_id (length ms)) f
      ∙ ap (λ b. if b then look_up by_id taken else err circular_dependency) n

  finish_part :
      (g : Graph)
      → build by_id ms empty_graph ≡ ok g
      → (taken : List String) → loop g ≡ some taken
      → (length taken == length ms) ≡ false
      → sort_by_dependencies ms ≡ err circular_dependency
  unfolding finish
  finish_part g e taken f n =
      sort_built g e
      ∙ ap (finish by_id (length ms)) f
      ∙ ap (λ b. if b then look_up by_id taken else err circular_dependency) n

  -- The manifests `r` are the sorted manifests.
  abbrev pub IsSorted : List Manifest → Type 0
  IsSorted r = Perm r ms × InOrder by_id [] r

  -- How the sort of a graph that is built ends.
  built_end :
      (g : Graph) (built : build by_id ms empty_graph ≡ ok g)
      → ((r : List Manifest) × (sort_by_dependencies ms ≡ ok r) × IsSorted r × Distinct (ids ms))
        ⊎ ((taken : List String) × (sort_by_dependencies ms ≡ err circular_dependency)
            × Done es (ids ms) (Built-ids g built).closed taken
            × ((length taken == length ms) ≡ false))
  built_end g e =
      let (taken, f, done) = loop-Done g (Built-ids g e) in
      elim (Bool-cases (length taken == length ms)) [
        | inl n ↦
            let (r, l, p, i, d) =
              look_up-perm ms taken done.distinct done.known done.ordered (ground arith) in
            inl (r, finish_all g e taken f n ∙ l, (p, i), d)
        | inr n ↦ inr (taken, finish_part g e taken f n, done, n)
      ]

  ok_or {ℓ} : {A : Type ℓ} {r : List Manifest} {e : SortError} → ok r ≡ err e → A
  ok_or h = absurd cc

  -- Sorting ends in one of three ways: with sorted manifests, every required dependency there and
  -- every ID once; with the error for a dependency that a manifest requires and that has no
  -- manifest; or with the error for a circle, every required dependency there.
  pub sort_ends :
      ((r : List Manifest) × (sort_by_dependencies ms ≡ ok r)
        × IsSorted r
        × Distinct (ids ms)
        × HasRequired by_id ms)
      ⊎ ((plugin dependency : String) × (sort_by_dependencies ms
            ≡ err (missing_dependency plugin dependency))
          × Missing by_id ms plugin dependency)
      ⊎ ((sort_by_dependencies ms ≡ err circular_dependency) × HasRequired by_id ms)
  sort_ends = elim (build_end by_id ms empty_graph) [
    | inr (p, d, e, missing) ↦ inr (inl (p, d, sort_refused _ e, missing))
    | inl (g, e, required) ↦ elim (built_end g e) [
      | inl (r, s, sorted, distinct) ↦ inl (r, s, sorted, distinct, required)
      | inr (taken, s, _, _) ↦ inr (inr (s, required))
    ]
  ]

  -- What the sort returns is a permutation of the manifests in which every manifest stands behind
  -- all of its prerequisites.
  pub sort_sound : (r : List Manifest) → sort_by_dependencies ms ≡ ok r → IsSorted r
  sort_sound r e = elim sort_ends [
    | inl (s, f, sorted, _, _) ↦ subst IsSorted (same f) sorted
    | inr (inl (p, d, f, _)) ↦ ok_or (sym e ∙ f)
    | inr (inr (f, _)) ↦ ok_or (sym e ∙ f)
  ]
    where
      same : {s : List Manifest} → sort_by_dependencies ms ≡ ok s → s ≡ r
      same f = cc

  -- It succeeds only when every ID stands there once.
  pub sort-Distinct : (r : List Manifest) → sort_by_dependencies ms ≡ ok r → Distinct (ids ms)
  sort-Distinct r e = elim sort_ends [
    | inl (s, f, sorted, distinct, _) ↦ distinct
    | inr (inl (p, d, f, _)) ↦ ok_or (sym e ∙ f)
    | inr (inr (f, _)) ↦ ok_or (sym e ∙ f)
  ]

  -- The sort succeeds when every required dependency has a manifest, every ID stands there once,
  -- and the prerequisites have a rank, so that there is no circle.
  pub sort_complete :
      (rank : String → ℕ)
      → HasRequired by_id ms
      → Distinct (ids ms)
      → IsRank by_id rank ms
      → (r : List Manifest) × (sort_by_dependencies ms ≡ ok r) × IsSorted r
  sort_complete rank required distinct ranked = elim (build_end by_id ms empty_graph) [
    | inr (p, d, e, missing) ↦ absurd (not_Missing by_id ms p d missing required)
    | inl (g, e, _) ↦ elim (built_end g e) [
      | inl (r, s, sorted, _) ↦ (r, s, sorted)
      | inr (taken, s, done, short) ↦ absurd (
          ground
            (arith, length-taken ms rank ranked (Built-ids g e).closed taken done distinct, short))
    ]
  ]

  -- When a manifest requires a dependency that no manifest has, the sort gives the error for such
  -- a dependency.
  pub sort-Missing :
      (plugin dependency : String)
      → Missing by_id ms plugin dependency
      → (p d : String) × (sort_by_dependencies ms ≡ err (missing_dependency p d))
        × Missing by_id ms p d
  sort-Missing plugin dependency missing = elim sort_ends [
    | inl (r, e, _, _, required) ↦ absurd (not_Missing by_id ms plugin dependency missing required)
    | inr (inl end) ↦ end
    | inr (inr (e, required)) ↦ absurd (not_Missing by_id ms plugin dependency missing required)
  ]

  -- When two manifests share an ID, and every required dependency is there, the sort gives the
  -- error for a circle.
  pub sort_duplicates :
      HasRequired by_id ms → ¬ Distinct (ids ms) → sort_by_dependencies ms ≡ err circular_dependency
  sort_duplicates required twice = elim sort_ends [
    | inl (r, e, _, distinct, _) ↦ absurd (twice distinct)
    | inr (inl (p, d, e, missing)) ↦ absurd (not_Missing by_id ms p d missing required)
    | inr (inr (e, _)) ↦ e
  ]
