-- ===== src/Manager/LoadAll/Order.antt =====
-- internal/manager/manager.go: what `LoadAll` loads, and in which order.
use dragonfly_wasm.Prelude.{
  String, ◌≡◌, refl, ◌⊎◌, inl, inr, Option, none, some, List, [], ◌∷◌, All, GoMap, get, value_or,
  is_some, Distinct,
}
use dragonfly_wasm.Prelude.Sorting.{Sorter}
use dragonfly_wasm.Events.{Subscription}
use dragonfly_wasm.Plugin.Manifest.{Manifest}
use dragonfly_wasm.Manager.DependencySort as Sort
use dragonfly_wasm.Manager.DependencySort.{SortError, sort_by_dependencies}
use dragonfly_wasm.Manager.DependencySort.Start.{ids}
use dragonfly_wasm.Manager.DependencySort.Correct.{IsSorted, sort_sound, sort-Distinct}
use dragonfly_wasm.Manager.Storage.{Read, read, absent, broken}
use dragonfly_wasm.Manager.Loader.{DirEntry}
use dragonfly_wasm.Manager.Wasm.{Wasm}
use dragonfly_wasm.Manager.Lifecycle.{Manager, Handler, load_plugin}
use dragonfly_wasm.Manager.Lifecycle.Adding.{CanLoad, Added}
use dragonfly_wasm.Manager.Lifecycle.Loading.{load_plugin_end}
use dragonfly_wasm.Manager.LoadAll.{
  Directories, LoadAllError, read_directory, dependency_resolution, made_directory, collect_entries,
  load_each, load_sorted, load_entries, load_read, load_all,
}
use dragonfly_wasm.Manager.LoadAll.Collecting.{Manifests, IsLocated, collect_entries-Collects}

module _ {I W : Type 0} (env : Wasm I W) (paths : GoMap String) where
  abbrev pub path_of : Manifest → String
  path_of x = value_or (get paths x.id) ""

  -- Manifests are loaded one after the other: a plugin is added when it can be loaded, and else the
  -- manager stays as it is.
  pub data Loads : List Manifest → Manager I × W → Manager I × W → Type 0 where
    finished : {s : Manager I × W} → Loads [] s s
    adds :
        {x : Manifest} {xs : List Manifest} {m m' : Manager I} {w w' : W} {s : Manager I × W}
        (instance : I)
        → CanLoad env x m (path_of x) w instance
        → Added env x m (path_of x) w instance m'
        → Loads xs (m', w') s
        → Loads (x ∷ xs) (m, w) s
    fails :
        {x : Manifest} {xs : List Manifest} {m m' : Manager I} {w w' : W} {s : Manager I × W}
        → ((instance : I) → CanLoad env x m (path_of x) w instance → ⊥)
        → m' ≡ m
        → Loads xs (m', w') s
        → Loads (x ∷ xs) (m, w) s

module _ {I W : Type 0} (env : Wasm I W) (dirs : Directories W)
    (sorter : Sorter (Subscription Handler)) where
  load_each-Loads :
      (paths : GoMap String) (xs : List Manifest) (m : Manager I) (w : W)
      → Loads env paths xs (m, w) (load_each env dirs sorter paths xs (m, w))
  unfolding load_each
  load_each-Loads paths [] m w = Loads.finished
  load_each-Loads paths (x ∷ xs) m w =
      let (e, m', w') = load_plugin env sorter x m (path_of env paths x) w in
      elim (load_plugin_end env sorter x m (path_of env paths x) w) [
        | inl (err, f, same, cannot) ↦ Loads.fails cannot same (load_each-Loads paths xs m' w')
        | inr (i, f, can, added) ↦ Loads.adds i can added (load_each-Loads paths xs m' w')
      ]

  module _ (m : Manager I) (w : W) where
    -- How `LoadAll` ends behind the manifests that were read: their dependencies cannot be resolved
    -- and nothing is loaded, or they are loaded in sorted order, each from its directory.
    abbrev pub Ordered :
        GoMap String → List Manifest → Option LoadAllError × (Manager I × W) → Type 0
    Ordered paths manifests r =
        ((e : SortError) × (sort_by_dependencies manifests ≡ Sort.err e)
          × (r.0 ≡ some (dependency_resolution e))
          × (r.1.0 ≡ m))
        ⊎ ((sorted : List Manifest) × (r.0 ≡ none)
            × IsSorted manifests sorted
            × All (IsLocated env dirs m w paths) manifests
            × Loads env paths sorted (m, w) r.1)

    -- How `LoadAll` ends, by what reading the plugin directory gives.
    abbrev pub LoadAllEnd : Read (List DirEntry) → Option LoadAllError × (Manager I × W) → Type 0
    LoadAllEnd (broken e) r = (r.0 ≡ some (read_directory e)) × (r.1.0 ≡ m)
    LoadAllEnd absent r =
        (is_some r.0 ≡ is_some (env.mkdir_all m.config.plugin_dir w).0) × (r.1.0 ≡ m)
    LoadAllEnd (read entries) r =
        (manifests : List Manifest) × (paths : GoMap String) × Manifests env dirs m w entries
          manifests
        × Ordered paths manifests r

    sorted_end :
        (paths : GoMap String) (manifests : List Manifest) (r : Sort.Result (List Manifest))
        → sort_by_dependencies manifests ≡ r
        → (Distinct (ids manifests) → All (IsLocated env dirs m w paths) manifests)
        → Ordered paths manifests (load_sorted env dirs sorter paths r (m, w))
    unfolding load_sorted
    sorted_end paths manifests (Sort.err e) h located = inl (e, h, refl, refl)
    sorted_end paths manifests (Sort.ok sorted) h located = inr (
      sorted,
      refl,
      sort_sound manifests sorted h,
      located (sort-Distinct manifests sorted h),
      load_each-Loads paths sorted m w,
    )

    read_end : (r : Read (List DirEntry)) → LoadAllEnd r (load_read env dirs sorter m r w)
    unfolding load_read load_entries
    read_end (read entries) =
        let c =
          collect_entries-Collects env dirs m w entries (record { manifests = []; paths = [] }) in
        let d = collect_entries env dirs m w entries (record { manifests = []; paths = [] }) in
        (
          c.added,
          d.paths,
          c.read,
          rw c.manifests (sorted_end d.paths c.added (sort_by_dependencies c.added) refl c.located),
        )
    read_end absent = (made (env.mkdir_all m.config.plugin_dir w).0, refl)
      where
        made : (e : Option String) → is_some (made_directory e) ≡ is_some e
        made none = unfold made_directory in refl
        made (some e) = unfold made_directory in refl
    read_end (broken e) = (refl, refl)

    -- `LoadAll` ends with an error and the manager as it was when the plugin directory cannot be
    -- read, or made where it is missing. Else it takes the manifests of all directories in it whose
    -- file plugin.toml is a valid manifest of an enabled plugin. When they cannot be sorted, it ends
    -- with the error of the sort and the manager as it was. Else it goes through them in an order in
    -- which each stands behind its prerequisites, and adds every plugin that can be loaded from the
    -- directory of its manifest; one that cannot leaves the manager as it is.
    pub load_all_ends :
        LoadAllEnd (dirs.read_dir m.config.plugin_dir w) (load_all env dirs sorter m w)
    unfolding load_all
    load_all_ends = read_end (dirs.read_dir m.config.plugin_dir w)
