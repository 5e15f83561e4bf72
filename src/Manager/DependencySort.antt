-- ===== src/Manager/DependencySort.antt =====
-- internal/manager/manager.go: `sortByDependencies`. The queue is sorted, so the random order in
-- which Go iterates over `inDegree` does not show; degrees are exact integers.
pub mod Edges
pub mod Counting
pub mod Loop
pub mod Taking
pub mod Start
pub mod Required
pub mod Output
pub mod Complete
pub mod Correct
use dragonfly_wasm.Prelude.{
  ℕ, zero, suc, String, Bool, true, false, not, ◌&&◌, Option, none, some, List, [], ◌∷◌, ◌++◌, ◌==◌,
  length, if◌then◌else◌, GoMap, get, put, value_or, is_some, sort_strings,
}
use dragonfly_wasm.Prelude.Int.{ℤ, pos, ◌+ℤ◌, ◌-ℤ◌, is_zero}
use dragonfly_wasm.Plugin.Manifest.{Manifest, Dependency}

-- The errors of the sort, and two that it never gives: an ID without a manifest, whose nil pointer
-- the code would return, and fuel that ran out.
pub data SortError : Type 0 where
  missing_dependency : (plugin dependency : String) → SortError
  circular_dependency : SortError
  nil_manifest out_of_fuel : SortError

pub data Result {ℓ} (A : Type ℓ) : Type ℓ where
  ok : A → Result A
  err : SortError → Result A

infixl 5 ◌>>=◌
abbrev pub ◌>>=◌ {ℓ κ} : {A : Type ℓ} {B : Type κ} → Result A → (A → Result B) → Result B
ok a >>= f = f a
err e >>= f = err e

-- The maps `inDegree` and `dependents`.
pub record Graph : Type 0 where
  pub in_degree : GoMap ℤ
  pub dependents : GoMap (List String)

abbrev pub empty_graph : Graph
empty_graph = record { in_degree = []; dependents = [] }

-- The loop that fills `manifestMap`.
unfoldable pub manifest_map : List Manifest → GoMap Manifest → GoMap Manifest
manifest_map [] m = m
manifest_map (x ∷ xs) m = manifest_map xs (put m x.id x)

-- inDegree[id]++; dependents[dep] = append(dependents[dep], id)
unfoldable pub add_edge : String → String → Graph → Graph
add_edge id dep g = record {
  in_degree = put g.in_degree id (value_or (get g.in_degree id) (pos 0) +ℤ pos 1);
  dependents = put g.dependents dep (value_or (get g.dependents dep) [] ++ id ∷ []);
}

unfoldable pub add_if : Bool → String → String → Graph → Graph
unfolding add_edge
add_if found id dep g = if found then add_edge id dep g else g

-- The loop over `manifest.Dependencies`.
unfoldable pub add_dependencies : GoMap Manifest → String → List Dependency → Graph → Result Graph
add_dependencies manifests id [] g = ok g
add_dependencies manifests id (dep ∷ deps) g = elim (is_some (get manifests dep.id)) [
  | true ↦ add_dependencies manifests id deps (add_if true id dep.id g)
  | false ↦
      if not dep.optional
      then err (missing_dependency id dep.id)
      else add_dependencies manifests id deps (add_if false id dep.id g)
]

-- The loop over `manifest.LoadAfter`.
unfoldable pub add_load_after : GoMap Manifest → String → List String → Graph → Graph
add_load_after manifests id [] g = g
add_load_after manifests id (after ∷ rest) g =
    add_load_after manifests id rest (add_if (is_some (get manifests after)) id after g)

-- if _, exists := inDegree[id]; !exists { inDegree[id] = 0 }
unfoldable pub add_node : String → Graph → Graph
add_node id g =
    if is_some (get g.in_degree id) then g else record g { in_degree = put g.in_degree id (pos 0) }

unfoldable pub add_manifest : GoMap Manifest → Manifest → Graph → Result Graph
unfolding add_node add_dependencies add_load_after
add_manifest manifests m g = do
  g' ← add_dependencies manifests m.id m.dependencies (add_node m.id g)
  ok (add_load_after manifests m.id m.load_after g')

unfoldable pub build : GoMap Manifest → List Manifest → Graph → Result Graph
unfolding add_manifest
build manifests [] g = ok g
build manifests (m ∷ ms) g = do g' ← add_manifest manifests m g; build manifests ms g'

-- The IDs of degree 0.
unfoldable pub zero_degree : GoMap ℤ → List String
zero_degree [] = []
zero_degree ((id, degree) ∷ m) =
    let rest = zero_degree m in if is_zero degree then id ∷ rest else rest

-- One dependent of the ID that was taken from the queue.
unfoldable pub release : String → GoMap ℤ × List String → GoMap ℤ × List String
release dependent (degrees, queue) =
    let degree = value_or (get degrees dependent) (pos 0) -ℤ pos 1 in
    (
      put degrees dependent degree,
      if is_zero degree then sort_strings (queue ++ dependent ∷ []) else queue,
    )

unfoldable pub release_all : List String → GoMap ℤ × List String → GoMap ℤ × List String
unfolding release
release_all [] s = s
release_all (dependent ∷ rest) s = release_all rest (release dependent s)

-- The loop over the queue, with fuel: the IDs in the order in which they were taken, behind those
-- taken before. `none` is fuel that ran out.
unfoldable pub take_all :
    ℕ → GoMap (List String) → GoMap ℤ → List String → List String → Option (List String)
unfolding release_all
take_all fuel dependents degrees [] taken = some taken
take_all zero dependents degrees (id ∷ queue) taken = none
take_all (suc fuel) dependents degrees (id ∷ queue) taken =
    let (degrees', queue') = release_all (value_or (get dependents id) []) (degrees, queue) in
    take_all fuel dependents degrees' queue' (taken ++ id ∷ [])

-- The manifests of the IDs.
unfoldable pub look_up : GoMap Manifest → List String → Result (List Manifest)
look_up manifests [] = ok []
look_up manifests (id ∷ ids) = elim (get manifests id) [
  | none ↦ err nil_manifest
  | some m ↦ look_up manifests ids >>= λ rest. ok (m ∷ rest)
]

-- The result has as many entries as IDs were taken; another number than that of the manifests is
-- an error.
unfoldable pub finish : GoMap Manifest → ℕ → Option (List String) → Result (List Manifest)
unfolding look_up
finish manifests count none = err out_of_fuel
finish manifests count (some taken) =
    if length taken == count then look_up manifests taken else err circular_dependency

-- The fuel is one round for each manifest.
unfoldable pub sort_by_dependencies : List Manifest → Result (List Manifest)
unfolding manifest_map build zero_degree take_all finish
sort_by_dependencies manifests = do
  let by_id = manifest_map manifests []
  g ← build by_id manifests empty_graph
  finish by_id (length manifests) (
      take_all (length manifests) g.dependents g.in_degree (sort_strings (zero_degree g.in_degree))
        [])
