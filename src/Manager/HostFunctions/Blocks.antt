-- ===== src/Manager/HostFunctions/Blocks.antt =====
-- internal/manager/hostfuncs.go: the host functions about blocks.
use dragonfly_wasm.Prelude.{ℕ, Option, none, some}
use dragonfly_wasm.Manager.Server.{ServerApi}
use dragonfly_wasm.Manager.HostFunctions.Requests.{BlockResponse, block, GetBlockRequest}
use dragonfly_wasm.Manager.HostFunctions.Calls.{
  Env, Call, answer, or_else, found_or, ask, attempt, zero_on, read_input, write_json, write_error,
  ◌>>=◌, ◌>>◌,
}

module _ {W P D F : Type 0} (api : ServerApi W P D F) where
  abbrev pub or_default : Option D → W → D
  or_default (some d) w = d
  or_default none w = api.get_default_world w

  unfoldable pub block_response : GetBlockRequest → W → BlockResponse
  block_response req w =
      let d : D = or_default (api.get_world req.world_name w) w in
      let found = api.world.get_block d req.position.x req.position.y req.position.z w in
      record { block_type = found.0; position = req.position; properties = found.1; error = "" }

module _ {W P D F F32 M : Type 0} (env : Env W P D F F32 M) where
  unfoldable pub host_get_block : ℕ → Call W M ℕ
  unfolding block_response write_json
  host_get_block slot = do
    read ← read_input env slot
    bytes ← or_else read (λ e. write_error env "failed to read input")
    req ←
        or_else (env.codec.get_block_request bytes) (λ e. write_error env "failed to parse request")
    api ← found_or env.server_api (write_error env "server API not available")
    resp ← ask (block_response api req)
    write_json env (block resp)

  unfoldable pub host_set_block : ℕ → Call W M ℕ
  host_set_block slot = do
    read ← read_input env slot
    bytes ← or_else read (λ e. answer 0)
    req ← or_else (env.codec.set_block_request bytes) (λ e. answer 0)
    api ← found_or env.server_api (answer 0)
    world ← ask (λ w. or_default api (api.get_world req.world_name w) w)
    e ← attempt (
        api.world.set_block world req.position.x req.position.y req.position.z req.block_type
          req.properties)
    zero_on e
    answer 1
