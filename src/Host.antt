-- ===== src/Host.antt =====
-- pkg/host/functions.go: the functions that a `FunctionProvider` exports to one plugin. The server
-- is an interface on its state `W`. A function takes the first two words of the stack and gives the
-- first word afterwards. The functions ignore errors of reads and writes in the plugin's memory.
pub mod Serialization
pub mod Functions
pub mod Provider
pub mod Isolation
pub mod RoundTrip
mod Examples
use dragonfly_wasm.Prelude.{ℕ, String, Bool, true, false, Option, none, some, List}
use dragonfly_wasm.Prelude.Int.{ℤ}
use dragonfly_wasm.Prelude.{GoMap}
use dragonfly_wasm.Host.Serialization.{PlayerInfo, BlockInfo, Codec}

pub record ServerApi (W F F32 : Type 0) : Type 0 where
  pub get_player : String → W → Option (PlayerInfo F F32)
  pub get_player_by_name : String → W → Option (PlayerInfo F F32)
  pub get_online_players : W → List (PlayerInfo F F32)
  -- The methods that act give their error and the server afterwards.
  pub send_message : (uuid message : String) → W → Option String × W
  pub broadcast_message : String → W → W
  pub kick_player : (uuid reason : String) → W → Option String × W
  pub teleport_player : String → F → F → F → String → W → Option String × W
  pub set_player_health : String → F32 → W → Option String × W
  pub set_player_game_mode : String → ℤ → W → Option String × W
  pub give_item : String → String → ℤ → GoMap String → W → Option String × W
  -- `none` is an error.
  pub get_block : String → ℤ → ℤ → ℤ → W → Option BlockInfo
  pub set_block : String → ℤ → ℤ → ℤ → String → GoMap String → W → Option String × W
  pub storage_get : (plugin_id key : String) → W → Option (List ℕ)
  pub storage_set : (plugin_id key : String) → List ℕ → W → Option String × W
  pub storage_delete : (plugin_id key : String) → W → Option String × W
  pub schedule_task : (plugin_id task_id : String) → ℤ → List ℕ → W → Option String × W
  pub cancel_task : (plugin_id task_id : String) → W → Option String × W

-- extism's `ReadString` and `ReadBytes`, as their values, which are zero values on errors; and
-- `WriteBytes`, with its two results and the memory afterwards.
pub record Memory (M : Type 0) : Type 0 where
  pub read_string : ℕ → M → String
  pub read_bytes : ℕ → M → List ℕ
  pub write_bytes : List ℕ → M → (ℕ × Option String) × M

pub data Severity : Type 0 where
  debug info warn error_level : Severity

-- A line of the log and the ID of the plugin that it is about.
pub record LogEntry : Type 0 where
  pub severity : Severity
  pub message : String
  pub plugin : String

pub record HostState (W M : Type 0) : Type 0 where
  pub server : W
  pub memory : M
  pub logged : List LogEntry

-- The provider with the context of one plugin, and the libraries.
pub record PluginContext (W F F32 M : Type 0) : Type 0 where
  pub plugin_id : String
  pub api : ServerApi W F F32
  pub memory : Memory M
  pub codec : Codec F F32

abbrev pub bool_to_uint64 : Bool → ℕ
bool_to_uint64 true = 1
bool_to_uint64 false = 0

-- err == nil
abbrev pub is_nil : Option String → Bool
is_nil none = true
is_nil (some e) = false
