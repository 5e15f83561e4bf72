-- ===== src/Host/Isolation.antt =====
-- pkg/host/functions.go: a plugin's calls against the stored values of the other plugins.
use dragonfly_wasm.Prelude.{ℕ, ◌≡◌, ◌≢◌, ◌∙◌, refl, String, Option, List, [], ◌∷◌, GoMap, arith}
use dragonfly_wasm.Prelude.Int.{ℤ}
use dragonfly_wasm.Host.{ServerApi, PluginContext, HostState}
use dragonfly_wasm.Host.Functions.{
  log_function, get_player_function, get_online_players_function, send_message_function,
  broadcast_function, kick_player_function, teleport_player_function, set_player_health_function,
  set_player_game_mode_function, give_item_function, get_block_function, set_block_function,
  storage_get_function, storage_set_function, storage_delete_function, schedule_task_function,
  cancel_task_function,
}
use dragonfly_wasm.Host.Provider.{
  ProvidedFunction, log, get_player, get_online_players, send_message, broadcast, kick_player,
  teleport_player, set_player_health, set_player_game_mode, give_item, get_block, set_block,
  storage_get, storage_set, storage_delete, schedule_task, cancel_task, run, Invocation, invoke,
  invoke_all,
}

-- A server that keeps one stored value of the plugin `q`: the storage of another plugin is another,
-- and the methods that are not about storage leave it alone.
pub record Separates {W F F32 : Type 0} (api : ServerApi W F F32) (q key : String) : Type 0 where
  pub broadcast_message :
      (t : String) (w : W)
      → api.storage_get q key (api.broadcast_message t w) ≡ api.storage_get q key w
  pub send_message :
      (u t : String) (w : W)
      → api.storage_get q key (api.send_message u t w).1 ≡ api.storage_get q key w
  pub kick_player :
      (u t : String) (w : W)
      → api.storage_get q key (api.kick_player u t w).1 ≡ api.storage_get q key w
  pub teleport_player :
      (u : String) (x y z : F) (to : String) (w : W)
      → api.storage_get q key (api.teleport_player u x y z to w).1 ≡ api.storage_get q key w
  pub set_player_health :
      (u : String) (h : F32) (w : W)
      → api.storage_get q key (api.set_player_health u h w).1 ≡ api.storage_get q key w
  pub set_player_game_mode :
      (u : String) (g : ℤ) (w : W)
      → api.storage_get q key (api.set_player_game_mode u g w).1 ≡ api.storage_get q key w
  pub give_item :
      (u t : String) (n : ℤ) (m : GoMap String) (w : W)
      → api.storage_get q key (api.give_item u t n m w).1 ≡ api.storage_get q key w
  pub set_block :
      (d : String) (x y z : ℤ) (t : String) (m : GoMap String) (w : W)
      → api.storage_get q key (api.set_block d x y z t m w).1 ≡ api.storage_get q key w
  pub schedule_task :
      (p t : String) (d : ℤ) (b : List ℕ) (w : W)
      → api.storage_get q key (api.schedule_task p t d b w).1 ≡ api.storage_get q key w
  pub cancel_task :
      (p t : String) (w : W)
      → api.storage_get q key (api.cancel_task p t w).1 ≡ api.storage_get q key w
  pub storage_set :
      (p k : String) (v : List ℕ) (w : W)
      → p ≢ q
      → api.storage_get q key (api.storage_set p k v w).1 ≡ api.storage_get q key w
  pub storage_delete :
      (p k : String) (w : W)
      → p ≢ q
      → api.storage_get q key (api.storage_delete p k w).1 ≡ api.storage_get q key w

module _ {W F F32 M : Type 0} (ctx : PluginContext W F F32 M) (q key : String) where
  -- The stored value of `q` that the plugin's calls are to leave alone.
  abbrev pub stored : HostState W M → Option (List ℕ)
  stored s = ctx.api.storage_get q key s.server

  module _ (apart : Separates ctx.api q key) (other : ctx.plugin_id ≢ q) where
    stored-run :
        (f : ProvidedFunction) (a b : ℕ) (s : HostState W M) → stored (run ctx f a b s).1 ≡ stored s
    unfolding run log_function get_player_function get_online_players_function send_message_function
        broadcast_function kick_player_function teleport_player_function set_player_health_function
        set_player_game_mode_function give_item_function get_block_function set_block_function
        storage_get_function storage_set_function storage_delete_function schedule_task_function
        cancel_task_function
    stored-run log a b s = refl
    stored-run get_player a b s = ground arith
    stored-run get_online_players a b s = ground arith
    stored-run send_message a b s = apart.send_message _ _ s.server
    stored-run broadcast a b s = apart.broadcast_message _ s.server
    stored-run kick_player a b s = apart.kick_player _ _ s.server
    stored-run teleport_player a b s = apart.teleport_player _ _ _ _ _ s.server
    stored-run set_player_health a b s = apart.set_player_health _ _ s.server
    stored-run set_player_game_mode a b s = apart.set_player_game_mode _ _ s.server
    stored-run give_item a b s = apart.give_item _ _ _ _ s.server
    stored-run get_block a b s = ground arith
    stored-run set_block a b s = apart.set_block _ _ _ _ _ _ s.server
    stored-run storage_get a b s = ground arith
    stored-run storage_set a b s = apart.storage_set _ _ _ s.server other
    stored-run storage_delete a b s = apart.storage_delete _ _ s.server other
    stored-run schedule_task a b s = apart.schedule_task _ _ _ _ s.server
    stored-run cancel_task a b s = apart.cancel_task _ _ s.server

    -- Whatever calls a plugin makes, in whatever order and with whatever memory, the value that the
    -- server stores for another plugin under a key stays the same, if the server keeps the storage
    -- of plugins apart.
    pub stored-invoke_all :
        (calls : List (Invocation M)) (s : HostState W M)
        → stored (invoke_all ctx calls s) ≡ stored s
    stored-invoke_all [] s = refl
    stored-invoke_all (i ∷ is) s =
        stored-invoke_all is (invoke ctx i s).1
        ∙ stored-run i.function i.first i.second (record s { memory = i.memory_then })
