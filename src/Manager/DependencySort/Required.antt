-- ===== src/Manager/DependencySort/Required.antt =====
-- The required dependencies: when the graph is built, and what the error names when it is not.
use mathlib.Core.List.{Memᴰ}
use dragonfly_wasm.Prelude.{
  String, ◌≡◌, refl, sym, ◌∙◌, ap, subst, ◌⊎◌, inl, inr, Bool, true, false, ◌||◌, List, [], ◌∷◌,
  arith, All, GoMap, get, is_some, Bool-cases,
}
use dragonfly_wasm.Plugin.Manifest.{Manifest, Dependency}
use dragonfly_wasm.Manager.DependencySort.{
  Graph, ok, err, SortError, missing_dependency, ◌>>=◌, add_if, add_dependencies, add_load_after,
  add_node, add_manifest, build,
}

-- A dependency that is optional or has a manifest.
abbrev pub Met : GoMap Manifest → Dependency → Type 0
Met by_id d = (d.optional || is_some (get by_id d.id)) ≡ true

-- Every required dependency of every manifest has a manifest.
abbrev pub HasRequired : GoMap Manifest → List Manifest → Type 0
HasRequired by_id ms = All (λ m. All (Met by_id) m.dependencies) ms

-- The plugin `plugin` requires `dependency`, and no manifest has that ID.
pub record Missing (by_id : GoMap Manifest) (ms : List Manifest) (plugin dependency : String)
    : Type 0 where
  pub manifest : Manifest
  pub listed : Memᴰ manifest ms
  pub named : manifest.id ≡ plugin
  pub requirement : Dependency
  pub required : Memᴰ requirement manifest.dependencies
  pub required_id : requirement.id ≡ dependency
  pub not_optional : requirement.optional ≡ false
  pub absent : is_some (get by_id dependency) ≡ false

pub All-Mem {ℓ κ} : {A : Type ℓ} (P : A → Type κ) {x : A} {xs : List A} → Memᴰ x xs → All P xs → P x
All-Mem P (Memᴰ.head e) all = subst P (sym e) all.0
All-Mem P (Memᴰ.tail m) all = All-Mem P m all.1

pub not_Missing :
    (by_id : GoMap Manifest) (ms : List Manifest) (p d : String)
    → Missing by_id ms p d
    → HasRequired by_id ms
    → ⊥
not_Missing by_id ms p d x all =
    let met =
      All-Mem (Met by_id) x.required (All-Mem (λ m. All (Met by_id) m.dependencies) x.listed all) in
    unmet x.requirement.optional x.not_optional
      (ap (λ i. is_some (get by_id i)) x.required_id ∙ x.absent) met
  where
    unmet : {b : Bool} (o : Bool) → o ≡ false → b ≡ false → (o || b) ≡ true → ⊥
    unmet o e f g = ground arith

module _ (by_id : GoMap Manifest) where
  add_dependencies_present :
      (id : String) (d : Dependency) (deps : List Dependency) (g : Graph)
      → is_some (get by_id d.id) ≡ true
      → add_dependencies by_id id (d ∷ deps) g
        ≡ add_dependencies by_id id deps (add_if true id d.id g)
  unfolding add_dependencies
  add_dependencies_present id d deps g h = ground arith

  add_dependencies_optional :
      (id : String) (d : Dependency) (deps : List Dependency) (g : Graph)
      → is_some (get by_id d.id) ≡ false
      → d.optional ≡ true
      → add_dependencies by_id id (d ∷ deps) g
        ≡ add_dependencies by_id id deps (add_if false id d.id g)
  unfolding add_dependencies
  add_dependencies_optional id d deps g h o = ground arith

  add_dependencies_missing :
      (id : String) (d : Dependency) (deps : List Dependency) (g : Graph)
      → is_some (get by_id d.id) ≡ false
      → d.optional ≡ false
      → add_dependencies by_id id (d ∷ deps) g ≡ err (missing_dependency id d.id)
  unfolding add_dependencies
  add_dependencies_missing id d deps g h o = ground arith

  -- How adding a manifest's dependencies ends.
  DependenciesEnd : String → List Dependency → Graph → Type 0
  DependenciesEnd id deps g =
      ((g' : Graph) × (add_dependencies by_id id deps g ≡ ok g') × All (Met by_id) deps)
      ⊎ ((d : Dependency) × (add_dependencies by_id id deps g ≡ err (missing_dependency id d.id))
          × Memᴰ d deps
          × (d.optional ≡ false)
          × (is_some (get by_id d.id) ≡ false))

  end_cons :
      (id : String) (d : Dependency) (deps : List Dependency) (g g1 : Graph)
      → add_dependencies by_id id (d ∷ deps) g ≡ add_dependencies by_id id deps g1
      → Met by_id d
      → DependenciesEnd id deps g1
      → DependenciesEnd id (d ∷ deps) g
  unfolding DependenciesEnd
  end_cons id d deps g g1 e m (inl (g', f, all)) = inl (g', e ∙ f, (m, all))
  end_cons id d deps g g1 e m (inr (x, f, mem, opt, gone)) =
      inr (x, e ∙ f, Memᴰ.tail mem, opt, gone)

  dependencies_end : (id : String) (deps : List Dependency) (g : Graph) → DependenciesEnd id deps g
  unfolding DependenciesEnd
  dependencies_end id [] g = inl (g, unfold add_dependencies in refl, tt)
  dependencies_end id (d ∷ deps) g = elim (Bool-cases (is_some (get by_id d.id))) [
    | inl here ↦
        end_cons id d deps g _ (add_dependencies_present id d deps g here) (met_here here)
          (dependencies_end id deps (add_if true id d.id g))
    | inr gone ↦ elim (Bool-cases d.optional) [
      | inl opt ↦
          end_cons id d deps g _ (add_dependencies_optional id d deps g gone opt) (met_optional opt)
            (dependencies_end id deps (add_if false id d.id g))
      | inr req ↦ inr (d, add_dependencies_missing id d deps g gone req, Memᴰ.head refl, req, gone)
    ]
  ]
    where
      met_here : is_some (get by_id d.id) ≡ true → Met by_id d
      met_here h = ground arith

      met_optional : d.optional ≡ true → Met by_id d
      met_optional h = ground arith

  -- How building the graph ends.
  abbrev pub BuildEnd : List Manifest → Graph → Type 0
  BuildEnd ms g =
      ((g' : Graph) × (build by_id ms g ≡ ok g') × HasRequired by_id ms)
      ⊎ ((plugin dependency : String) × (build by_id ms g
            ≡ err (missing_dependency plugin dependency))
          × Missing by_id ms plugin dependency)

  module _ (m : Manifest) (ms : List Manifest) (g : Graph) where
    added : Graph → Graph
    added g' = add_load_after by_id m.id m.load_after g'

    build-added :
        (g' : Graph)
        → add_dependencies by_id m.id m.dependencies (add_node m.id g) ≡ ok g'
        → build by_id (m ∷ ms) g ≡ build by_id ms (added g')
    unfolding build add_manifest added
    build-added g' e =
        ap
          (λ r.
            (r >>= λ h. ok (add_load_after by_id m.id m.load_after h)) >>= λ h. build by_id ms h)
          e

    build_refused :
        (e : SortError)
        → add_dependencies by_id m.id m.dependencies (add_node m.id g) ≡ err e
        → build by_id (m ∷ ms) g ≡ err e
    unfolding build add_manifest
    build_refused x e =
        ap
          (λ r.
            (r >>= λ h. ok (add_load_after by_id m.id m.load_after h)) >>= λ h. build by_id ms h)
          e

    Missing-later : (p d : String) → Missing by_id ms p d → Missing by_id (m ∷ ms) p d
    Missing-later p d x = record {
      manifest = x.manifest;
      listed = Memᴰ.tail x.listed;
      named = x.named;
      requirement = x.requirement;
      required = x.required;
      required_id = x.required_id;
      not_optional = x.not_optional;
      absent = x.absent;
    }

    later_end :
        (g1 : Graph)
        → build by_id (m ∷ ms) g ≡ build by_id ms g1
        → All (Met by_id) m.dependencies
        → BuildEnd ms g1
        → BuildEnd (m ∷ ms) g
    later_end g1 e met (inl (g', f, all)) = inl (g', e ∙ f, (met, all))
    later_end g1 e met (inr (p, d, f, x)) = inr (p, d, e ∙ f, Missing-later p d x)

  pub build_end : (ms : List Manifest) (g : Graph) → BuildEnd ms g
  unfolding DependenciesEnd
  build_end [] g = inl (g, unfold build in refl, tt)
  build_end (m ∷ ms) g = elim (dependencies_end m.id m.dependencies (add_node m.id g)) [
    | inl (g', e, met) ↦
        later_end m ms g _ (build-added m ms g g' e) met (build_end ms (added m ms g g'))
    | inr (d, e, mem, req, gone) ↦ inr (
      m.id,
      d.id,
      build_refused m ms g _ e,
      record {
        manifest = m;
        listed = Memᴰ.head refl;
        named = refl;
        requirement = d;
        required = mem;
        required_id = refl;
        not_optional = req;
        absent = gone;
      },
    )
  ]
