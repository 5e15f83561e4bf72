-- ===== src/Manager/Loader/Resolution.antt =====
-- internal/manager/loader.go: `ResolveDependencies`.
use dragonfly_wasm.Prelude.{
  ℕ, zero, suc, String, Bool, true, false, not, ◌&&◌, Option, none, some, List, [], ◌∷◌, ◌++◌,
  length, map, if◌then◌else◌, GoMap, get, put, value_or, is_some,
}
use dragonfly_wasm.Plugin.Manifest.{Manifest, Dependency}
use dragonfly_wasm.Manager.Loader.{DiscoveredPlugin}

-- The errors, and fuel that ran out, which never happens.
pub data ResolveError : Type 0 where
  missing_dependency : (plugin dependency : String) → ResolveError
  circular_dependency : (id : String) → ResolveError
  out_of_fuel : ResolveError

pub data Resolve (A : Type 0) : Type 0 where
  ok : A → Resolve A
  err : ResolveError → Resolve A

infixl 5 ◌>>=◌
abbrev pub ◌>>=◌ : {A B : Type 0} → Resolve A → (A → Resolve B) → Resolve B
ok a >>= f = f a
err e >>= f = err e

-- The loop that fills `pluginMap`; a later plugin takes the place of an earlier one of its ID.
unfoldable pub plugin_map : List DiscoveredPlugin → GoMap DiscoveredPlugin → GoMap DiscoveredPlugin
plugin_map [] m = m
plugin_map (p ∷ ps) m = plugin_map ps (put m p.manifest.id p)

-- The variables that `visit` changes. In the maps, a missing key is false.
pub record Visits : Type 0 where
  pub sorted : List DiscoveredPlugin
  pub visited : GoMap Bool
  pub visiting : GoMap Bool

abbrev pub is_visited : Visits → String → Bool
is_visited s id = value_or (get s.visited id) false

abbrev pub is_visiting : Visits → String → Bool
is_visiting s id = value_or (get s.visiting id) false

abbrev pub no_visits : Visits
no_visits = record { sorted = []; visited = []; visiting = [] }

-- A loop of calls of `visit` that stops at the first error.
unfoldable pub visit_each :
    (String → Visits → Resolve Visits) → List String → Visits → Resolve Visits
visit_each visit [] s = ok s
visit_each visit (id ∷ ids) s = visit id s >>= λ s'. visit_each visit ids s'

abbrev pub opened : String → Visits → Visits
opened id s = record s { visiting = put s.visiting id true }

abbrev pub closed : String → DiscoveredPlugin → Visits → Visits
closed id dp s = record {
  sorted = s.sorted ++ dp ∷ [];
  visited = put s.visited id true;
  visiting = put s.visiting id false;
}

abbrev pub dependency_ids : Manifest → List String
dependency_ids m = map (λ d. d.id) m.dependencies

abbrev pub or_rest : Option ResolveError → Option ResolveError → Option ResolveError
or_rest (some e) rest = some e
or_rest none rest = rest

module _ (by_id : GoMap DiscoveredPlugin) where
  -- The calls of `visit` for a plugin's dependencies and for the plugins of its `load_after`.
  unfoldable pub visit_found :
      (String → Visits → Resolve Visits) → String → DiscoveredPlugin → Visits → Resolve Visits
  unfolding visit_each
  visit_found visit id dp s = do
    s1 ← visit_each visit (dependency_ids dp.manifest) (opened id s)
    s2 ← visit_each visit dp.manifest.load_after s1
    ok (closed id dp s2)

  unfoldable pub visit_known :
      (String → Visits → Resolve Visits)
      → String
      → Option DiscoveredPlugin
      → Visits
      → Resolve Visits
  unfolding visit_found
  visit_known visit id none s = ok s
  visit_known visit id (some dp) s = visit_found visit id dp s

  -- The fuel bounds the depth of the calls.
  unfoldable pub visit : ℕ → String → Visits → Resolve Visits
  unfolding visit_known
  visit zero id s = err out_of_fuel
  visit (suc fuel) id s =
      if is_visited s id
      then ok s
      else if is_visiting s id
      then err (circular_dependency id)
      else visit_known (visit fuel) id (get by_id id) s

  -- The check of one plugin's dependencies.
  unfoldable pub check_dependencies : String → List Dependency → Option ResolveError
  check_dependencies id [] = none
  check_dependencies id (dep ∷ deps) =
      if not (is_some (get by_id dep.id)) && not dep.optional
      then some (missing_dependency id dep.id)
      else check_dependencies id deps

  unfoldable pub check_all : List DiscoveredPlugin → Option ResolveError
  unfolding check_dependencies
  check_all [] = none
  check_all (p ∷ ps) =
      or_rest (check_dependencies p.manifest.id p.manifest.dependencies) (check_all ps)

abbrev pub plugin_ids : List DiscoveredPlugin → List String
plugin_ids = map (λ p. p.manifest.id)

unfoldable pub sort_checked :
    GoMap DiscoveredPlugin
    → List DiscoveredPlugin
    → Option ResolveError
    → Resolve (List DiscoveredPlugin)
unfolding visit visit_each
sort_checked by_id plugins (some e) = err e
sort_checked by_id plugins none = do
  s ← visit_each (visit by_id (suc (length plugins))) (plugin_ids plugins) no_visits
  ok s.sorted

-- The fuel is one call for each plugin, and one for a call that returns at once.
unfoldable pub resolve_dependencies : List DiscoveredPlugin → Resolve (List DiscoveredPlugin)
unfolding plugin_map check_all sort_checked
resolve_dependencies plugins =
    let by_id = plugin_map plugins [] in sort_checked by_id plugins (check_all by_id plugins)
