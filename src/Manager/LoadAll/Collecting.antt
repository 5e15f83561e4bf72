-- ===== src/Manager/LoadAll/Collecting.antt =====
-- internal/manager/manager.go: the manifests that `LoadAll` reads.
use mathlib.Core.List.{append_assoc, append-nil}
use dragonfly_wasm.Prelude.{
  ℕ, String, ◌≡◌, refl, sym, ◌∙◌, ap, subst, ◌⊎◌, inl, inr, true, false, Option, none, some, List,
  [], ◌∷◌, ◌++◌, str_eq, str_eq_self, arith, All, GoMap, get, put, get-put, contains, Distinct,
  Bool-cases,
}
use dragonfly_wasm.Prelude.Results.{Result, ok, err}
use dragonfly_wasm.Config.{is_plugin_enabled}
use dragonfly_wasm.Plugin.Manifest.{Manifest, ManifestError, validate}
use dragonfly_wasm.Manager.DependencySort.Start.{ids}
use dragonfly_wasm.Manager.Loader.{DirEntry}
use dragonfly_wasm.Manager.Wasm.{Wasm}
use dragonfly_wasm.Manager.Lifecycle.{Manager}
use dragonfly_wasm.Manager.LoadAll.{
  Directories, validated, parsed, read_manifest, load_manifest, collect, collect_entry,
  collect_entries, Collected,
}

module _ {I W : Type 0} (env : Wasm I W) (dirs : Directories W) (m : Manager I) (w : W) where
  abbrev pub directory_of : DirEntry → String
  directory_of entry = env.join m.config.plugin_dir entry.name

  -- A manifest is what the parser makes of the file plugin.toml of a directory, is valid, and
  -- belongs to a plugin that is enabled.
  pub record IsFrom (entry : DirEntry) (x : Manifest) : Type 0 where
    pub is_dir : entry.is_dir ≡ true
    pub bytes : List ℕ
    pub read : dirs.read_file (env.join (directory_of entry) "plugin.toml") w ≡ ok bytes
    pub parsed : dirs.unmarshal bytes ≡ ok x
    pub valid : validate x ≡ none
    pub enabled : is_plugin_enabled m.config x.id ≡ true

  -- All such manifests of a list of entries, in its order.
  pub data Manifests : List DirEntry → List Manifest → Type 0 where
    finished : Manifests [] []
    takes :
        {entry : DirEntry} {x : Manifest} {entries : List DirEntry} {xs : List Manifest}
        → IsFrom entry x
        → Manifests entries xs
        → Manifests (entry ∷ entries) (x ∷ xs)
    skips :
        {entry : DirEntry} {entries : List DirEntry} {xs : List Manifest}
        → ((x : Manifest) → IsFrom entry x → ⊥)
        → Manifests entries xs
        → Manifests (entry ∷ entries) xs

  -- What one entry adds to what was collected.
  abbrev Adds : DirEntry → Collected → Collected → Type 0
  Adds entry c d =
      ((x : Manifest) × IsFrom entry x
        × (d.manifests ≡ c.manifests ++ x ∷ [])
        × (d.paths ≡ put c.paths x.id (directory_of entry)))
      ⊎ (((x : Manifest) → IsFrom entry x → ⊥) × (d ≡ c))

  module _ (entry : DirEntry) (c : Collected) (dir : entry.is_dir ≡ true) where
    collect_valid :
        (bytes : List ℕ) (x : Manifest) (o : Option ManifestError)
        → dirs.read_file (env.join (directory_of entry) "plugin.toml") w ≡ ok bytes
        → dirs.unmarshal bytes ≡ ok x
        → validate x ≡ o
        → Adds entry c (collect env dirs m (directory_of entry) (validated x o) c)
    unfolding collect validated
    collect_valid bytes x (some e) r p v = inr (λ y f. clash y f, refl)
      where
        clash : (y : Manifest) → IsFrom entry y → ⊥
        clash y f = let a = f.read in let b = f.parsed in let d = f.valid in cc
    collect_valid bytes x none r p v = elim (Bool-cases (is_plugin_enabled m.config x.id)) [
      | inl on ↦ rw on (
          inl (
            x,
            record { is_dir = dir; bytes = bytes; read = r; parsed = p; valid = v; enabled = on },
            refl,
            refl,
          ))
      | inr off ↦ rw off (inr (λ y f. clash off y f, refl))
    ]
      where
        clash : is_plugin_enabled m.config x.id ≡ false → (y : Manifest) → IsFrom entry y → ⊥
        clash off y f = let a = f.read in let b = f.parsed in let d = f.enabled in cc

    collect_parsed :
        (bytes : List ℕ) (o : Result Manifest)
        → dirs.read_file (env.join (directory_of entry) "plugin.toml") w ≡ ok bytes
        → dirs.unmarshal bytes ≡ o
        → Adds entry c (collect env dirs m (directory_of entry) (parsed o) c)
    unfolding collect parsed
    collect_parsed bytes (err e) r p = inr (λ y f. clash y f, refl)
      where
        clash : (y : Manifest) → IsFrom entry y → ⊥
        clash y f = let a = f.read in let b = f.parsed in cc
    collect_parsed bytes (ok x) r p = collect_valid bytes x (validate x) r p refl

    collect_read :
        (o : Result (List ℕ))
        → dirs.read_file (env.join (directory_of entry) "plugin.toml") w ≡ o
        → Adds entry c (collect env dirs m (directory_of entry) (read_manifest env dirs o) c)
    unfolding collect read_manifest
    collect_read (err e) r = inr (λ y f. clash y f, refl)
      where
        clash : (y : Manifest) → IsFrom entry y → ⊥
        clash y f = let a = f.read in cc
    collect_read (ok bytes) r = collect_parsed bytes (dirs.unmarshal bytes) r refl

  collect_entry-Adds :
      (entry : DirEntry) (c : Collected) → Adds entry c (collect_entry env dirs m w entry c)
  collect_entry-Adds entry c = elim (Bool-cases entry.is_dir) [
    | inr file ↦ inr (λ y f. clash file y f, left_out file)
    | inl dir ↦ subst (Adds entry c) (sym (taken dir)) (collect_read entry c dir _ refl)
  ]
    where
      clash : entry.is_dir ≡ false → (y : Manifest) → IsFrom entry y → ⊥
      clash file y f = let a = f.is_dir in cc

      left_out : entry.is_dir ≡ false → collect_entry env dirs m w entry c ≡ c
      left_out file = unfold collect_entry in rw file refl

      taken :
          entry.is_dir ≡ true
          → collect_entry env dirs m w entry c
            ≡ collect env dirs m
                (directory_of entry)
                (read_manifest env dirs
                  (dirs.read_file (env.join (directory_of entry) "plugin.toml") w))
                c
      taken dir = unfold collect_entry load_manifest in rw dir refl

  -- The path that a map has for a manifest is the directory from which it was read.
  abbrev pub IsLocated : GoMap String → Manifest → Type 0
  IsLocated paths x =
      (entry : DirEntry) × IsFrom entry x × (get paths x.id ≡ some (directory_of entry))

  -- What a list of entries adds to what was collected.
  pub record Collects (entries : List DirEntry) (c d : Collected) : Type 0 where
    pub added : List Manifest
    pub read : Manifests entries added
    pub manifests : d.manifests ≡ c.manifests ++ added
    pub paths : (k : String) → contains (ids added) k ≡ false → get d.paths k ≡ get c.paths k
    pub located : Distinct (ids added) → All (IsLocated d.paths) added

  Collects-takes :
      (entry : DirEntry) (entries : List DirEntry) (x : Manifest) (c d f : Collected)
      → IsFrom entry x
      → d.manifests ≡ c.manifests ++ x ∷ []
      → d.paths ≡ put c.paths x.id (directory_of entry)
      → Collects entries d f
      → Collects (entry ∷ entries) c f
  Collects-takes entry entries x c d f from more at rest = record {
    added = x ∷ rest.added;
    read = Manifests.takes from rest.read;
    manifests =
        rest.manifests
        ∙ ap (λ l. l ++ rest.added) more
        ∙ append_assoc c.manifests (x ∷ []) rest.added;
    paths = λ k h.
        rest.paths k (second k h)
        ∙ ap (λ p. get p k) at
        ∙ get-put c.paths x.id k (directory_of entry)
        ∙ rw (first k h) refl;
    located = λ d. (
      (
        entry,
        from,
        rest.paths x.id d.0
            ∙ ap (λ p. get p x.id) at
            ∙ get-put c.paths x.id x.id (directory_of entry)
            ∙ rw (str_eq_self x.id) refl,
      ),
      rest.located d.1,
    );
  }
    where
      first : (k : String) → contains (x.id ∷ ids rest.added) k ≡ false → str_eq x.id k ≡ false
      first k h = unfold contains in ground arith

      second :
          (k : String)
          → contains (x.id ∷ ids rest.added) k ≡ false
          → contains (ids rest.added) k ≡ false
      second k h = unfold contains in ground arith

  pub collect_entries-Collects :
      (entries : List DirEntry) (c : Collected)
      → Collects entries c (collect_entries env dirs m w entries c)
  unfolding collect_entries
  collect_entries-Collects [] c = record {
    added = [];
    read = Manifests.finished;
    manifests = sym (append-nil c.manifests);
    paths = λ k h. refl;
    located = λ d. tt;
  }
  collect_entries-Collects (entry ∷ entries) c =
      let d = collect_entry env dirs m w entry c in
      let rest = collect_entries-Collects entries d in
      elim (collect_entry-Adds entry c) [
        | inl (x, from, more, at) ↦ Collects-takes entry entries x c d _ from more at rest
        | inr (no_manifest, same) ↦ record {
          added = rest.added;
          read = Manifests.skips no_manifest rest.read;
          manifests = rest.manifests ∙ ap (λ y. y.manifests ++ rest.added) same;
          paths = λ k h. rest.paths k h ∙ ap (λ y. get y.paths k) same;
          located = rest.located;
        }
      ]
