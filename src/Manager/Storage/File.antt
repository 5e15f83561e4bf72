-- ===== src/Manager/Storage/File.antt =====
-- internal/manager/storage.go: `FileStorage`.
use dragonfly_wasm.Prelude.{
  ℕ, String, Bool, true, false, Option, none, some, List, [], ◌∷◌, GoMap, get, put, delete, keys,
  value_or,
}
use dragonfly_wasm.Manager.Storage.{
  Read, read, absent, broken, Coded, coded, refused, Files, Values, write_value, remove_value,
}

pub record FileStorage : Type 0 where
  pub base_path : String
  pub entries : GoMap Values

pub data StorageError : Type 0 where
  create_directory read_directory : (err : String) → StorageError
  read_values parse_values persist_values : (plugin_id err : String) → StorageError

-- What reading the storage gives.
pub data Loaded : Type 0 where
  loaded : GoMap Values → Loaded
  load_failed : StorageError → Loaded

module _ {W : Type 0} (env : Files W) where
  write_marshalled : String → Coded (List ℕ) → W → Option String × W
  write_marshalled path (coded b) w = env.write_file (env.join path "data.json") b w
  write_marshalled path (refused err) w = (some err, w)

  persist_made : FileStorage → String → String → Option String × W → Option String × W
  unfolding write_marshalled
  persist_made s plugin_id path (some err, w) = (some err, w)
  persist_made s plugin_id path (none, w) =
      write_marshalled path (env.marshal (value_or (get s.entries plugin_id) [])) w

  unfoldable pub persist : FileStorage → String → W → Option String × W
  unfolding persist_made
  persist s plugin_id w =
      let path = env.join s.base_path plugin_id in
      persist_made s plugin_id path (env.mkdir_all path w)

  unfoldable pub set : FileStorage → String → String → List ℕ → W → Option String × FileStorage × W
  set s plugin_id key value w =
      let s' = record s { entries = write_value s.entries plugin_id key value } in
      let (err, w') = persist s' plugin_id w in (err, s', w')

  unfoldable pub delete_of :
      FileStorage → String → String → Option Values → W → Option String × FileStorage × W
  delete_of s plugin_id key none w = (none, s, w)
  delete_of s plugin_id key (some plugin_data) w =
      let s' = record s { entries = remove_value s.entries plugin_id plugin_data key } in
      let (err, w') = persist s' plugin_id w in (err, s', w')

  unfoldable pub delete_key : FileStorage → String → String → W → Option String × FileStorage × W
  unfolding delete_of
  delete_key s plugin_id key w = delete_of s plugin_id key (get s.entries plugin_id) w

  unfoldable pub clear : FileStorage → String → W → Option String × FileStorage × W
  clear s plugin_id w =
      let s' = record s { entries = delete s.entries plugin_id } in
      let (err, w') = env.remove_all (env.join s.base_path plugin_id) w in (err, s', w')

  close_each : FileStorage → List String → W → Option StorageError × W
  close_each s [] w = (none, w)
  close_each s (id ∷ ids) w =
      let (err, w') = persist s id w in
      let rest = close_each s ids w' in
      elim err [ none ↦ rest | some e ↦ (some (persist_values id e), w') ]

  -- Close, with the map's keys in the order of the list.
  unfoldable pub close : FileStorage → W → Option StorageError × W
  unfolding close_each
  close s w = close_each s (keys s.entries) w

  load_parsed : GoMap Values → String → Coded Values → Loaded
  load_parsed m id (coded values) = loaded (put m id values)
  load_parsed m id (refused err) = load_failed (parse_values id err)

  load_file : GoMap Values → String → Read (List ℕ) → Loaded
  unfolding load_parsed
  load_file m id (read b) = load_parsed m id (env.unmarshal b)
  load_file m id absent = loaded m
  load_file m id (broken err) = load_failed (read_values id err)

  -- The loop of `loadAll`, behind the entries whose outcome is given.
  load_entries : String → List (String × Bool) → W → Loaded → Loaded
  unfolding load_file
  load_entries base entries w (load_failed err) = load_failed err
  load_entries base [] w (loaded m) = loaded m
  load_entries base ((id, false) ∷ entries) w (loaded m) = load_entries base entries w (loaded m)
  load_entries base ((id, true) ∷ entries) w (loaded m) =
      load_entries base entries w
        (load_file m id (env.read_file (env.join (env.join base id) "data.json") w))

  load_all : String → Read (List (String × Bool)) → W → Loaded
  unfolding load_entries
  load_all base (read entries) w = load_entries base entries w (loaded [])
  load_all base absent w = loaded []
  load_all base (broken err) w = load_failed (read_directory err)

  created : String → Option String → W → Loaded
  unfolding load_all
  created base (some err) w = load_failed (create_directory err)
  created base none w = load_all base (env.read_dir base w) w

  -- NewFileStorage: the map that the new storage holds, or an error.
  unfoldable pub new_file_storage : String → W → Loaded × W
  unfolding created
  new_file_storage base w = let (err, w') = env.mkdir_all base w in (created base err w', w')
