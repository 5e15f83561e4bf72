-- ===== src/Manager/Loader/Discovery.antt =====
-- internal/manager/loader.go: what `Discover` finds.
use mathlib.Core.List.{Mem, mem-cons}
use mathlib.Core.Logic.Or
use dragonfly_wasm.Prelude.{
  ℕ, String, ◌≡◌, refl, ap, subst, inl, inr, true, false, Option, none, some, List, [], ◌∷◌, All,
  All-append, Bool-cases,
}
use dragonfly_wasm.Prelude.Results.{Result, ok, err}
use dragonfly_wasm.Config.{Config, is_plugin_enabled}
use dragonfly_wasm.Plugin.Manifest.{Manifest, ManifestError, validate}
use dragonfly_wasm.Manager.Loader.{
  DiscoveredPlugin, DirEntry, Files, Found, found, failed, with_data_directory, load_valid,
  load_parsed, load_read, load_from_directory, keep_enabled, discover_entry, discover_entries,
  discover_read, discover_made, discover, found_of,
}

module _ {W : Type 0} (files : Files W) where
  -- A world behind directories that were made, which is all that discovery does to it.
  pub data Later (w : W) : W → Type 0 where
    now : Later w w
    makes : {u : W} (path : String) → Later w u → Later w (files.mkdir_all path u).1

module _ {W : Type 0} (files : Files W) (cfg : Config) where
  -- A plugin whose manifest was read from the file of its directory and is valid, with its paths in
  -- the directory and a file where its program is to be. `w` is the world before.
  pub record IsLoaded (w : W) (dir : String) (dp : DiscoveredPlugin) : Type 0 where
    pub at : W
    pub later : Later files w at
    pub bytes : List ℕ
    pub read : files.read_file (files.join dir "plugin.toml") at ≡ ok bytes
    pub parsed : files.unmarshal bytes ≡ ok dp.manifest
    pub valid : validate dp.manifest ≡ none
    pub wasm : dp.wasm_path ≡ files.join dir dp.manifest.entry_point
    pub present : files.is_missing dp.wasm_path at ≡ false
    pub stored : dp.data_path ≡ files.join cfg.data_dir dp.manifest.id
    pub directory : dp.directory ≡ dir

  -- Such a plugin, in a directory that is one of these entries, and enabled.
  pub record IsAmong (entries : List DirEntry) (w : W) (dp : DiscoveredPlugin) : Type 0 where
    pub entry : DirEntry
    pub among : Mem entry entries
    pub is_dir : entry.is_dir ≡ true
    pub loaded : IsLoaded w (files.join cfg.plugin_dir entry.name) dp
    pub enabled : is_plugin_enabled cfg dp.manifest.id ≡ true

  -- Such a plugin, with the entries that the plugin directory has once it is there.
  pub record IsDiscovered (w : W) (dp : DiscoveredPlugin) : Type 0 where
    pub entries : List DirEntry
    pub listed : files.read_dir cfg.plugin_dir (files.mkdir_all cfg.plugin_dir w).1 ≡ ok entries
    pub found_there : IsAmong entries (files.mkdir_all cfg.plugin_dir w).1 dp

  -- What is found satisfies `P`.
  abbrev Finds : (DiscoveredPlugin → Type 0) → Found DiscoveredPlugin × W → Type 0
  Finds P (found dp, w) = P dp
  Finds P (failed e, w) = Unit

  -- What loading from a directory gives, in a later world.
  abbrev Loads : W → String → Found DiscoveredPlugin × W → Type 0
  Loads w0 dir r = Finds (IsLoaded w0 dir) r × Later files w0 r.1

  module _ (w0 w : W) (since : Later files w0 w) (dir : String) where
    with_data_directory-Loads :
        (dp : DiscoveredPlugin) (path : String)
        → IsLoaded w0 dir dp
        → Loads w0 dir (with_data_directory files cfg dp (files.mkdir_all path w))
    with_data_directory-Loads dp path h = go (files.mkdir_all path w) (makes path since)
      where
        go :
            (r : Option String × W)
            → Later files w0 r.1
            → Loads w0 dir (with_data_directory files cfg dp r)
        go (none, v) l = unfold with_data_directory in (h, l)
        go (some e, v) l = unfold with_data_directory in (tt, l)

    module _ (bytes : List ℕ)
        (read : files.read_file (files.join dir "plugin.toml") w ≡ ok bytes) where
      load_valid-Loads :
          (manifest : Manifest) (o : Option ManifestError)
          → files.unmarshal bytes ≡ ok manifest
          → validate manifest ≡ o
          → Loads w0 dir (load_valid files cfg dir manifest o w)
      unfolding load_valid
      load_valid-Loads manifest (some e) p v = (tt, since)
      load_valid-Loads manifest none p v =
          elim (Bool-cases (files.is_missing (files.join dir manifest.entry_point) w)) [
            | inl gone ↦ rw gone (tt, since)
            | inr here ↦ rw here (
                with_data_directory-Loads _ (files.join cfg.data_dir manifest.id) (record {
                  at = w;
                  later = since;
                  bytes = bytes;
                  read = read;
                  parsed = p;
                  valid = v;
                  wasm = refl;
                  present = here;
                  stored = refl;
                  directory = refl;
                }))
          ]

      load_parsed-Loads :
          (r : Result Manifest)
          → files.unmarshal bytes ≡ r
          → Loads w0 dir (load_parsed files cfg dir r w)
      unfolding load_parsed
      load_parsed-Loads (err e) p = (tt, since)
      load_parsed-Loads (ok manifest) p = load_valid-Loads manifest (validate manifest) p refl

    load_read-Loads :
        (r : Result (List ℕ))
        → files.read_file (files.join dir "plugin.toml") w ≡ r
        → Loads w0 dir (load_read files cfg dir r w)
    unfolding load_read
    load_read-Loads (err e) h = (tt, since)
    load_read-Loads (ok bytes) h = load_parsed-Loads bytes h (files.unmarshal bytes) refl

    load_from_directory-Loads : Loads w0 dir (load_from_directory files cfg dir w)
    unfolding load_from_directory
    load_from_directory-Loads =
        elim (Bool-cases (files.is_missing (files.join dir "plugin.toml") w)) [
          | inl gone ↦ rw gone (tt, since)
          | inr here ↦
              rw here (load_read-Loads (files.read_file (files.join dir "plugin.toml") w) refl)
        ]

  module _ (entries : List DirEntry) (w0 : W) where
    abbrev FindsThese : List DiscoveredPlugin × W → Type 0
    FindsThese s = All (IsAmong entries w0) s.0 × Later files w0 s.1

    keep_enabled-All :
        (entry : DirEntry) (discovered : List DiscoveredPlugin) (r : Found DiscoveredPlugin × W)
        → Mem entry entries
        → entry.is_dir ≡ true
        → Finds (IsLoaded w0 (files.join cfg.plugin_dir entry.name)) r
        → All (IsAmong entries w0) discovered
        → All (IsAmong entries w0) (keep_enabled files cfg discovered r.0)
    unfolding keep_enabled
    keep_enabled-All entry discovered (failed e, w) m d h all = all
    keep_enabled-All entry discovered (found dp, w) m d h all =
        elim (Bool-cases (is_plugin_enabled cfg dp.manifest.id)) [
          | inr off ↦ rw off all
          | inl on ↦ rw on (
              All-append (IsAmong entries w0) discovered (dp ∷ []) all
                ((record { entry = entry; among = m; is_dir = d; loaded = h; enabled = on }, tt)))
        ]

    discover_entry-All :
        (entry : DirEntry) (discovered : List DiscoveredPlugin) (w : W)
        → Mem entry entries
        → FindsThese (discovered, w)
        → FindsThese (discover_entry files cfg entry (discovered, w))
    unfolding discover_entry
    discover_entry-All entry discovered w m h = elim (Bool-cases entry.is_dir) [
      | inr file ↦ rw file h
      | inl dir ↦
          let l = load_from_directory-Loads w0 w h.1 (files.join cfg.plugin_dir entry.name) in
          let r = load_from_directory files cfg (files.join cfg.plugin_dir entry.name) w in
          rw dir ((keep_enabled-All entry discovered r m dir l.0 h.0, l.1))
    ]

    discover_entries-All :
        (rest : List DirEntry) (s : List DiscoveredPlugin × W)
        → ((x : DirEntry) → Mem x rest → Mem x entries)
        → FindsThese s
        → FindsThese (discover_entries files cfg rest s)
    unfolding discover_entries
    discover_entries-All [] s sub h = h
    discover_entries-All (entry ∷ rest) (discovered, w) sub h =
        discover_entries-All rest (discover_entry files cfg entry (discovered, w))
          (λ x m. sub x (mem-cons.1 (Or.inr m)))
          (discover_entry-All entry discovered w (sub entry (mem-cons.1 (Or.inl refl))) h)

  abbrev pub FindsAll : W → Found (List DiscoveredPlugin) → Type 0
  FindsAll w (found ps) = All (IsDiscovered w) ps
  FindsAll w (failed e) = Unit

  IsDiscovered-All :
      (w : W) (entries : List DirEntry) (ps : List DiscoveredPlugin)
      → files.read_dir cfg.plugin_dir (files.mkdir_all cfg.plugin_dir w).1 ≡ ok entries
      → All (IsAmong entries (files.mkdir_all cfg.plugin_dir w).1) ps
      → All (IsDiscovered w) ps
  IsDiscovered-All w entries [] e h = tt
  IsDiscovered-All w entries (p ∷ ps) e h = (
    record { entries = entries; listed = e; found_there = h.0 },
    IsDiscovered-All w entries ps e h.1,
  )

  discover_read-All :
      (w : W) (r : Result (List DirEntry))
      → files.read_dir cfg.plugin_dir (files.mkdir_all cfg.plugin_dir w).1 ≡ r
      → FindsAll w (discover_read files cfg r (files.mkdir_all cfg.plugin_dir w).1).0
  unfolding discover_read
  discover_read-All w (err e) h = tt
  discover_read-All w (ok entries) h =
      let w1 = (files.mkdir_all cfg.plugin_dir w).1 in
      let all = discover_entries-All entries w1 entries ([], w1) (λ x m. m) (tt, now) in
      found_all (discover_entries files cfg entries ([], w1)) (IsDiscovered-All w entries _ h all.0)
    where
      found_all :
          (s : List DiscoveredPlugin × W)
          → All (IsDiscovered w) s.0
          → FindsAll w (found_of files cfg s).0
      found_all (ps, v) g = unfold found_of in g

  discover_made-All :
      (w : W) (r : Option String × W)
      → files.mkdir_all cfg.plugin_dir w ≡ r
      → FindsAll w (discover_made files cfg r).0
  unfolding discover_made
  discover_made-All w (some e, v) h = tt
  discover_made-All w (none, v) h =
      subst (λ u. FindsAll w (discover_read files cfg (files.read_dir cfg.plugin_dir u) u).0)
        (ap (λ r. r.1) h) (discover_read-All w _ refl)

  -- Every plugin that is discovered is in a directory that the plugin directory lists. Its manifest
  -- is what the TOML parser makes of the file plugin.toml there, and is valid and enabled in the
  -- configuration; the file of its program was there; and its data is below the data directory,
  -- under its own ID.
  pub discover-IsDiscovered :
      (w w' : W) (ps : List DiscoveredPlugin)
      → discover files cfg w ≡ (found ps, w')
      → All (IsDiscovered w) ps
  unfolding discover
  discover-IsDiscovered w w' ps e =
      subst (FindsAll w) (ap (λ r. r.0) e)
        (discover_made-All w (files.mkdir_all cfg.plugin_dir w) refl)
