-- ===== src/Host/Examples.antt =====
-- A provider over the memory storage of internal/manager/storage.go, a memory with one block, and
-- the theorems on the functions of plugins there.
use dragonfly_wasm.Prelude.{
  ℕ, ◌≡◌, ◌≢◌, refl, ◌∙◌, String, Bool, ◌&&◌, Option, none, some, List, [], ◌∷◌, arith, eq_iff,
  str_eq, if◌then◌else◌, str_eq_self, inl, inr, ltb, length, Bool-cases,
}
use dragonfly_wasm.Manager.Storage.{get_value}
use dragonfly_wasm.Manager.Storage.Memory.{MemoryStorage, set, delete_key}
use dragonfly_wasm.Manager.Storage.Contract.{sets, deletes, in_memory-apply}
use dragonfly_wasm.Host.{ServerApi, PluginContext, HostState, Memory}
use dragonfly_wasm.Host.Serialization.{Codec}
use dragonfly_wasm.Host.Provider.{
  Invocation, run, storage_set, storage_get, storage_delete, invoke_all,
}
use dragonfly_wasm.Host.Functions.{storage_set_function}
use dragonfly_wasm.Host.Isolation.{Separates, stored, stored-invoke_all}
use dragonfly_wasm.Host.RoundTrip.{Stores, ReadsBack, get-set}

abbrev api : ServerApi MemoryStorage ℕ ℕ
api = record {
  get_player = λ uuid w. none;
  get_player_by_name = λ name w. none;
  get_online_players = λ w. [];
  send_message = λ uuid text w. (some "no player", w);
  broadcast_message = λ text w. w;
  kick_player = λ uuid reason w. (some "no player", w);
  teleport_player = λ uuid x y z world w. (some "no player", w);
  set_player_health = λ uuid health w. (some "no player", w);
  set_player_game_mode = λ uuid mode w. (some "no player", w);
  give_item = λ uuid type count metadata w. (some "no player", w);
  get_block = λ world x y z w. none;
  set_block = λ world x y z type properties w. (none, w);
  storage_get = λ p key w. get_value w p key;
  storage_set = λ p key v w. (none, set w p key v);
  storage_delete = λ p key w. (none, delete_key w p key);
  schedule_task = λ p task delay bytes w. (none, w);
  cancel_task = λ p task w. (none, w);
}

abbrev codec : Codec ℕ ℕ
codec = record {
  marshal_player = λ p. [];
  marshal_players = λ ps. [];
  marshal_block = λ b. [];
  unmarshal_teleport = λ b r. r;
  unmarshal_give_item = λ b r. r;
  unmarshal_get_block = λ b r. r;
  unmarshal_set_block = λ b r. r;
  unmarshal_schedule_task = λ b r. r;
  zero_float = 0;
  float32_of = λ x. x;
}

-- Every offset shows the one block, which has room for two bytes, and every text is the key.
abbrev one_block : Memory (List ℕ)
one_block = record {
  read_string = λ offset m. "key";
  read_bytes = λ offset m. m;
  write_bytes = λ v m. if ltb 2 (length v) then ((0, some "no room"), m) else ((8, none), v);
}

abbrev chat : PluginContext MemoryStorage ℕ ℕ (List ℕ)
chat = record { plugin_id = "chat"; api = api; memory = one_block; codec = codec }

abbrev ranks : PluginContext MemoryStorage ℕ ℕ (List ℕ)
ranks = record chat { plugin_id = "ranks" }

abbrev start : HostState MemoryStorage (List ℕ)
start = record { server = []; memory = 5 ∷ 6 ∷ []; logged = [] }

-- `ranks` stores a value under the key, and deletes it.
abbrev calls : List (Invocation (List ℕ))
calls =
    record { function = storage_set; first = 1; second = 2; memory_then = 7 ∷ [] }
    ∷ record { function = storage_delete; first = 1; second = 0; memory_then = [] }
    ∷ []

other_plugin : ranks.plugin_id ≢ chat.plugin_id
other_plugin = ground (arith, eq_iff "ranks" "chat")

other_value :
    (b : Bool) {v : Option (List ℕ)} (w : Option (List ℕ)) (p q : String)
    → p ≢ q
    → (if str_eq p q && b then w else v) ≡ v
other_value b w p q n = ground (arith, eq_iff p q)

api-Separates : (q key : String) → Separates api q key
api-Separates q key = record {
  broadcast_message = λ t w. refl;
  send_message = λ u t w. refl;
  kick_player = λ u t w. refl;
  teleport_player = λ u x y z to w. refl;
  set_player_health = λ u h w. refl;
  set_player_game_mode = λ u g w. refl;
  give_item = λ u t n m w. refl;
  set_block = λ d x y z t m w. refl;
  schedule_task = λ p t d b w. refl;
  cancel_task = λ p t w. refl;
  storage_set = λ p k v w n. in_memory-apply (sets p k v) w q key ∙ other_value _ _ p q n;
  storage_delete = λ p k w n. in_memory-apply (deletes p k) w q key ∙ other_value _ _ p q n;
}

api-Stores : (p key : String) → Stores api p key
api-Stores p key v w h =
    in_memory-apply (sets p key v) w p key ∙ ground (arith, str_eq_self p, str_eq_self key)

stored-invoke_all_example :
    stored ranks "chat" "key" (invoke_all ranks calls start) ≡ stored ranks "chat" "key" start
stored-invoke_all_example =
    stored-invoke_all ranks "chat" "key" (api-Separates "chat" "key") other_plugin calls start

one_block-ReadsBack : ReadsBack one_block
one_block-ReadsBack v m h = elim (Bool-cases (ltb 2 (length v))) [
  | inl long ↦ ground arith
  | inr short ↦ ground arith
]

get-set_example :
    let s' = (run chat storage_set 1 2 start).1 in
    let t = record (invoke_all ranks calls s') { memory = 0 ∷ [] } in
    let out = run chat storage_get 1 0 t in
    one_block.read_bytes out.0 out.1.memory ≡ one_block.read_bytes 2 start.memory
unfolding run storage_set_function
get-set_example =
    get-set chat "ranks" 1 2 1 0 calls start (0 ∷ []) (api-Stores "chat" "key")
      (api-Separates "chat" "key") one_block-ReadsBack other_plugin refl refl refl
