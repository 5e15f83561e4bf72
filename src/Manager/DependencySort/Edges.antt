-- ===== src/Manager/DependencySort/Edges.antt =====
-- The graph that `sortByDependencies` builds, against the list of its edges.
use mathlib.Core.List.{append_assoc, append-nil, map-append}
use dragonfly_wasm.Prelude.{
  ℕ, ◌+◌, String, ◌≡◌, refl, sym, ◌∙◌, ap, subst, inl, inr, Bool, true, false, ◌||◌, none, some,
  List, [], ◌∷◌, ◌++◌, map, str_eq, eq_iff, str_eq_self, arith, select, if◌then◌else◌, GoMap, get,
  put, get-put, keys, value_or, is_some, contains, Distinct, put-Distinct, Bool-cases,
}
use dragonfly_wasm.Prelude.Int.{pos}
use dragonfly_wasm.Plugin.Manifest.{Manifest, Dependency}
use dragonfly_wasm.Manager.DependencySort.{
  Graph, Result, ok, err, ◌>>=◌, add_edge, add_if, add_dependencies, add_load_after, add_node,
  add_manifest, build,
}

-- From a prerequisite to the plugin that waits for it.
abbrev pub Edge : Type 0
Edge = String × String

abbrev pub edges_to : String → List String → List Edge
edges_to id ps = map (λ p. (p, id)) ps

-- The IDs among these that have a manifest.
abbrev pub present : GoMap Manifest → List String → List String
present manifests = select (λ i. is_some (get manifests i))

abbrev pub dependency_ids : List Dependency → List String
dependency_ids = map (λ d. d.id)

-- What a plugin has to be loaded after: its dependencies and the plugins of `load_after`, as far
-- as they are there.
abbrev pub prerequisites : GoMap Manifest → Manifest → List String
prerequisites manifests m =
    present manifests (dependency_ids m.dependencies) ++ present manifests m.load_after

abbrev pub edges : GoMap Manifest → List Manifest → List Edge
edges manifests [] = []
edges manifests (m ∷ ms) = edges_to m.id (prerequisites manifests m) ++ edges manifests ms

-- The plugins that wait for `u`, in order.
abbrev pub targets : String → List Edge → List String
targets u [] = []
targets u ((p, v) ∷ es) = let rest = targets u es in if str_eq p u then v ∷ rest else rest

-- How many edges lead to `v`.
abbrev pub count_in : String → List Edge → ℕ
count_in v [] = 0
count_in v ((p, w) ∷ es) = (if str_eq w v then 1 else 0) + count_in v es

targets-append :
    (u : String) (es fs : List Edge) → targets u (es ++ fs) ≡ targets u es ++ targets u fs
targets-append u [] fs = refl
targets-append u ((p, v) ∷ es) fs = ground (arith, targets-append u es fs)

count_in-append :
    (v : String) (es fs : List Edge) → count_in v (es ++ fs) ≡ count_in v es + count_in v fs
count_in-append v [] fs = omega arith
count_in-append v ((p, w) ∷ es) fs = omega (arith, count_in-append v es fs)

-- The maps hold the edges `es` between plugins, of which `nodes` were seen.
pub record Built (g : Graph) (es : List Edge) (nodes : List String) : Type 0 where
  pub degree :
      (v : String)
      → get g.in_degree v ≡ (if contains nodes v then some (pos (count_in v es)) else none)
  pub waiting : (u : String) → value_or (get g.dependents u) [] ≡ targets u es
  pub distinct : Distinct (keys g.in_degree)
  pub closed : (v : String) → contains nodes v ≡ false → count_in v es ≡ 0

Built-edges :
    {g : Graph} {es fs : List Edge} {nodes : List String}
    → es ≡ fs
    → Built g es nodes
    → Built g fs nodes
Built-edges {g} {nodes = nodes} e b = subst (λ l. Built g l nodes) e b

Built-add_edge :
    (id dep : String) (g : Graph) (es : List Edge) (nodes : List String)
    → contains nodes id ≡ true
    → Built g es nodes
    → Built (add_edge id dep g) (es ++ edges_to id (dep ∷ [])) nodes
unfolding add_edge
Built-add_edge id dep g es nodes node b = record {
  degree = λ v.
      get-put g.in_degree id v _
      ∙ ground (
        arith,
        b.degree v,
        b.degree id,
        count_in-append v es (edges_to id (dep ∷ [])),
        eq_iff id v,
      );
  waiting = λ u.
      ap (λ o. value_or o []) (get-put g.dependents dep u _)
      ∙ ground (
        arith,
        b.waiting u,
        b.waiting dep,
        targets-append u es (edges_to id (dep ∷ [])),
        append-nil (targets u es),
        eq_iff dep u,
      );
  distinct = put-Distinct g.in_degree id _ b.distinct;
  closed =
      λ v h. ground (arith, b.closed v, count_in-append v es (edges_to id (dep ∷ [])), eq_iff id v);
}

Built-add_if :
    (found : Bool) (id dep : String) (g : Graph) (es : List Edge) (nodes : List String)
    → contains nodes id ≡ true
    → Built g es nodes
    → Built (add_if found id dep g) (es ++ edges_to id (if found then dep ∷ [] else [])) nodes
unfolding add_if
Built-add_if true id dep g es nodes node b = Built-add_edge id dep g es nodes node b
Built-add_if false id dep g es nodes node b = Built-edges (sym (append-nil es)) b

ok_eq {ℓ} : {A : Type ℓ} {a b : A} → ok a ≡ ok b → a ≡ b
ok_eq e = cc

-- Inversion of a successful bind.
>>=-eq-ok {ℓ κ} :
    {A : Type ℓ} {B : Type κ} (r : Result A) (f : A → Result B) {b : B}
    → (r >>= f) ≡ ok b
    → (a : A) × (r ≡ ok a) × (f a ≡ ok b)
>>=-eq-ok (ok a) f h = (a, refl, h)
>>=-eq-ok (err e) f h = cc

add_node_old : (id : String) (g : Graph) → is_some (get g.in_degree id) ≡ true → add_node id g ≡ g
unfolding add_node
add_node_old id g h = ground arith

add_node_new :
    (id : String) (g : Graph)
    → is_some (get g.in_degree id) ≡ false
    → add_node id g ≡ record g { in_degree = put g.in_degree id (pos 0) }
unfolding add_node
add_node_new id g h = ground arith

Built-add_node :
    (id : String) (g : Graph) (es : List Edge) (nodes : List String)
    → Built g es nodes
    → Built (add_node id g) es (id ∷ nodes)
unfolding contains
Built-add_node id g es nodes b = elim (Bool-cases (contains nodes id)) [
  | inl old ↦
      subst (λ g'. Built g' es (id ∷ nodes)) (sym (add_node_old id g (ground (arith, b.degree id))))
        (record {
          degree = λ v. ground (arith, b.degree v, b.degree id, eq_iff id v);
          waiting = b.waiting;
          distinct = b.distinct;
          closed = λ v h. ground (arith, b.closed v);
        })
  | inr new ↦
      subst (λ g'. Built g' es (id ∷ nodes)) (sym (add_node_new id g (ground (arith, b.degree id))))
        (record {
          degree = λ v.
              get-put g.in_degree id v (pos 0)
              ∙ ground (arith, b.degree v, b.closed id new, eq_iff id v);
          waiting = b.waiting;
          distinct = put-Distinct g.in_degree id _ b.distinct;
          closed = λ v h. ground (arith, b.closed v);
        })
]

edges_to-cons :
    (id : String) (es : List Edge) (found : Bool) (dep : String) (ps : List String)
    → (es ++ edges_to id (if found then dep ∷ [] else [])) ++ edges_to id ps
      ≡ es ++ edges_to id (if found then dep ∷ ps else ps)
edges_to-cons id es true dep ps = append_assoc es (edges_to id (dep ∷ [])) (edges_to id ps)
edges_to-cons id es false dep ps = ap (λ l. l ++ edges_to id ps) (append-nil es)

module _ (manifests : GoMap Manifest) (id : String) (nodes : List String)
    (node : contains nodes id ≡ true) where
  Built-add_dependencies :
      (deps : List Dependency) (g g' : Graph) (es : List Edge)
      → Built g es nodes
      → add_dependencies manifests id deps g ≡ ok g'
      → Built g' (es ++ edges_to id (present manifests (dependency_ids deps))) nodes
  unfolding add_dependencies
  Built-add_dependencies [] g g' es b e =
      subst (λ h. Built h (es ++ []) nodes) (ok_eq e) (Built-edges (sym (append-nil es)) b)
  Built-add_dependencies (dep ∷ deps) g g' es b e =
      let found = is_some (get manifests dep.id) in
      Built-edges (edges_to-cons id es found dep.id (present manifests (dependency_ids deps))) (
        Built-add_dependencies deps (add_if found id dep.id g) g' _
          (Built-add_if found id dep.id g es nodes node b)
          (unfold add_dependencies in ground arith))

  Built-add_load_after :
      (afters : List String) (g : Graph) (es : List Edge)
      → Built g es nodes
      → Built
          (add_load_after manifests id afters g)
          (es ++ edges_to id (present manifests afters))
          nodes
  unfolding add_load_after
  Built-add_load_after [] g es b = Built-edges (sym (append-nil es)) b
  Built-add_load_after (after ∷ rest) g es b =
      let found = is_some (get manifests after) in
      Built-edges (edges_to-cons id es found after (present manifests rest)) (
        Built-add_load_after rest (add_if found id after g) _
          (Built-add_if found id after g es nodes node b))

Built-add_manifest :
    (manifests : GoMap Manifest) (m : Manifest) (g g' : Graph) (es : List Edge)
    (nodes : List String)
    → Built g es nodes
    → add_manifest manifests m g ≡ ok g'
    → Built g' (es ++ edges_to m.id (prerequisites manifests m)) (m.id ∷ nodes)
unfolding add_manifest
Built-add_manifest manifests m g g' es nodes b e =
    let (g1, first, second) =
      >>=-eq-ok (add_dependencies manifests m.id m.dependencies (add_node m.id g)) _ e in
    let node = self m.id nodes in
    let deps = present manifests (dependency_ids m.dependencies) in
    let afters = present manifests m.load_after in
    let b1 =
      Built-add_dependencies manifests m.id (m.id ∷ nodes) node m.dependencies (add_node m.id g) g1
        es (Built-add_node m.id g es nodes b) first in
    let b2 =
      Built-add_load_after manifests m.id (m.id ∷ nodes) node m.load_after g1
        (es ++ edges_to m.id deps) b1 in
    subst (λ h. Built h (es ++ edges_to m.id (prerequisites manifests m)) (m.id ∷ nodes))
      (ok_eq second)
      (Built-edges
        (append_assoc es (edges_to m.id deps) (edges_to m.id afters)
          ∙ ap (◌++◌ es) (sym (map-append _ deps afters)))
        b2)
  where
    self : (s : String) (l : List String) → contains (s ∷ l) s ≡ true
    self s l = unfold contains in rw (str_eq_self s)

build_nil : (manifests : GoMap Manifest) (g g' : Graph) → build manifests [] g ≡ ok g' → g ≡ g'
unfolding build
build_nil manifests g g' e = ok_eq e

build_cons :
    (manifests : GoMap Manifest) (m : Manifest) (ms : List Manifest) (g g' : Graph)
    → build manifests (m ∷ ms) g ≡ ok g'
    → (g1 : Graph) × (add_manifest manifests m g ≡ ok g1) × (build manifests ms g1 ≡ ok g')
unfolding build
build_cons manifests m ms g g' e = >>=-eq-ok (add_manifest manifests m g) _ e

-- A successful build gives the graph of all edges over all plugins.
pub Built-build :
    (manifests : GoMap Manifest) (ms : List Manifest) (g g' : Graph) (es : List Edge)
    (nodes : List String)
    → Built g es nodes
    → build manifests ms g ≡ ok g'
    → (seen : List String) × Built g' (es ++ edges manifests ms) seen
      × ((v : String) → contains seen v ≡ (contains nodes v || contains (map (λ m. m.id) ms) v))
unfolding contains
Built-build manifests [] g g' es nodes b e = (
  nodes,
  subst (λ h. Built h (es ++ []) nodes) (build_nil manifests g g' e)
      (Built-edges (sym (append-nil es)) b),
  λ v. ground arith,
)
Built-build manifests (m ∷ ms) g g' es nodes b e =
    let (g1, first, second) = build_cons manifests m ms g g' e in
    let (seen, built, all) =
      Built-build manifests ms g1 g' _ (m.id ∷ nodes)
        (Built-add_manifest manifests m g g1 es nodes b first) second in
    (
      seen,
      Built-edges (append_assoc es (edges_to m.id (prerequisites manifests m)) (edges manifests ms))
          built,
      λ v. ground (arith, all v),
    )
