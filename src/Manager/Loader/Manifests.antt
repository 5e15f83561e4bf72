-- ===== src/Manager/Loader/Manifests.antt =====
-- internal/manager/loader.go: the discovered plugins against their manifests, which the manager
-- sorts.
use mathlib.Core.List.{Memᴰ}
use dragonfly_wasm.Prelude.{
  String, ◌≡◌, refl, sym, ◌∙◌, ap, true, false, ◌&&◌, Option, none, some, List, [], ◌∷◌, map, arith,
  All, GoMap, get, put, get-put, is_some, contains, contains-append, Distinct, str_eq_self,
}
use dragonfly_wasm.Prelude.Orders.{contains-select}
use dragonfly_wasm.Plugin.Manifest.{Manifest}
use dragonfly_wasm.Manager.DependencySort.{manifest_map}
use dragonfly_wasm.Manager.DependencySort.Edges as Edges
use dragonfly_wasm.Manager.DependencySort.Start.{ids}
use dragonfly_wasm.Manager.Loader.{DiscoveredPlugin}
use dragonfly_wasm.Manager.Loader.Resolution.{plugin_map, plugin_ids}
use dragonfly_wasm.Manager.Loader.Visits.{children}
use dragonfly_wasm.Manager.Loader.Resolved.{by_id}

abbrev pub manifests_of : List DiscoveredPlugin → List Manifest
manifests_of = map (λ p. p.manifest)

abbrev pub manifest_of : Option DiscoveredPlugin → Option Manifest
manifest_of none = none
manifest_of (some p) = some p.manifest

manifest_of-map :
    (ps : List DiscoveredPlugin) (m : GoMap DiscoveredPlugin) (m' : GoMap Manifest) (k : String)
    → get m' k ≡ manifest_of (get m k)
    → get (manifest_map (manifests_of ps) m') k ≡ manifest_of (get (plugin_map ps m) k)
unfolding manifest_map plugin_map
manifest_of-map [] m m' k h = h
manifest_of-map (p ∷ ps) m m' k h =
    manifest_of-map ps (put m p.manifest.id p) (put m' p.manifest.id p.manifest) k (
      get-put m' p.manifest.id k p.manifest
      ∙ ground (arith, h)
      ∙ ap manifest_of (sym (get-put m p.manifest.id k p)))

get-plugin_map_other :
    (ps : List DiscoveredPlugin) (m : GoMap DiscoveredPlugin) (k : String)
    → contains (plugin_ids ps) k ≡ false
    → get (plugin_map ps m) k ≡ get m k
unfolding plugin_map contains
get-plugin_map_other [] m k h = refl
get-plugin_map_other (p ∷ ps) m k h =
    get-plugin_map_other ps (put m p.manifest.id p) k (ground arith)
    ∙ get-put m p.manifest.id k p
    ∙ ground arith

pub get-plugin_map :
    (ps : List DiscoveredPlugin) (m : GoMap DiscoveredPlugin)
    → Distinct (plugin_ids ps)
    → All (λ p. get (plugin_map ps m) p.manifest.id ≡ some p) ps
unfolding plugin_map
get-plugin_map [] m d = tt
get-plugin_map (p ∷ ps) m d = (
  get-plugin_map_other ps (put m p.manifest.id p) p.manifest.id d.0
      ∙ get-put m p.manifest.id p.manifest.id p
      ∙ ground (arith, str_eq_self p.manifest.id),
  get-plugin_map ps (put m p.manifest.id p) d.1,
)

pub All-of :
    {P : String → Type 0} (ks : List String)
    → ((k : String) → contains ks k ≡ true → P k)
    → All P ks
unfolding contains
All-of [] h = tt
All-of (k ∷ ks) h = (h k (ground (arith, str_eq_self k)), All-of ks (λ x m. h x (ground arith)))

-- A predicate on manifests, against one on plugins.
pub All-manifests_of :
    (P : DiscoveredPlugin → Type 0) (Q : Manifest → Type 0) (ps : List DiscoveredPlugin)
    → ((p : DiscoveredPlugin) → P p → Q p.manifest)
    → All P ps
    → All Q (manifests_of ps)
All-manifests_of P Q [] h all = tt
All-manifests_of P Q (p ∷ ps) h all = (h p all.0, All-manifests_of P Q ps h all.1)

pub All-of_manifests :
    (P : DiscoveredPlugin → Type 0) (Q : Manifest → Type 0) (ps : List DiscoveredPlugin)
    → ((p : DiscoveredPlugin) → Q p.manifest → P p)
    → All Q (manifests_of ps)
    → All P ps
All-of_manifests P Q [] h all = tt
All-of_manifests P Q (p ∷ ps) h all = (h p all.0, All-of_manifests P Q ps h all.1)

pub ids-manifests_of : (ps : List DiscoveredPlugin) → ids (manifests_of ps) ≡ plugin_ids ps
ids-manifests_of [] = refl
ids-manifests_of (p ∷ ps) = ap (◌∷◌ p.manifest.id) (ids-manifests_of ps)

pub Mem-manifests_of :
    (p : DiscoveredPlugin) (ps : List DiscoveredPlugin)
    → Memᴰ p ps
    → Memᴰ p.manifest (manifests_of ps)
Mem-manifests_of p [] m = elim m [ ]
Mem-manifests_of p (q ∷ qs) (Memᴰ.head e) = Memᴰ.head (ap (λ x. x.manifest) e)
Mem-manifests_of p (q ∷ qs) (Memᴰ.tail m) = Memᴰ.tail (Mem-manifests_of p qs m)

module _ (plugins : List DiscoveredPlugin) where
  abbrev pub ms : List Manifest
  ms = manifests_of plugins

  abbrev pub sort_map : GoMap Manifest
  sort_map = manifest_map ms []

  pub same_there : (k : String) → is_some (get sort_map k) ≡ is_some (get (by_id plugins) k)
  same_there k =
      ap is_some (manifest_of-map plugins [] [] k (unfold get in refl))
      ∙ some_of (get (by_id plugins) k)
    where
      some_of : (o : Option DiscoveredPlugin) → is_some (manifest_of o) ≡ is_some o
      some_of none = refl
      some_of (some p) = refl

  -- What the sort takes for prerequisites.
  pub contains-prerequisites :
      (p : DiscoveredPlugin) (k : String)
      → contains (Edges.prerequisites sort_map p.manifest) k
        ≡ (contains (children p) k && is_some (get (by_id plugins) k))
  contains-prerequisites p k =
      contains-append (Edges.present sort_map (Edges.dependency_ids p.manifest.dependencies))
        (Edges.present sort_map p.manifest.load_after) k
      ∙ ground (
        arith,
        same_there k,
        contains-select (λ i. is_some (get sort_map i))
            (Edges.dependency_ids p.manifest.dependencies) k,
        contains-select (λ i. is_some (get sort_map i)) p.manifest.load_after k,
        contains-append (Edges.dependency_ids p.manifest.dependencies) p.manifest.load_after k,
      )
