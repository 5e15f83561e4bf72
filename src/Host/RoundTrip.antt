-- ===== src/Host/RoundTrip.antt =====
-- pkg/host/functions.go: a value that a plugin stores, read back after the calls of another plugin.
use dragonfly_wasm.Prelude.{ℕ, ◌≡◌, ◌≢◌, ◌∙◌, ap, String, Option, none, some, List, arith}
use dragonfly_wasm.Host.{ServerApi, Memory, PluginContext, HostState, bool_to_uint64, is_nil}
use dragonfly_wasm.Host.Functions.{storage_set_function, storage_get_function}
use dragonfly_wasm.Host.Provider.{storage_get, storage_set, run, Invocation, invoke_all}
use dragonfly_wasm.Host.Isolation.{Separates, stored-invoke_all}

-- A value that was stored without an error is there.
abbrev pub Stores : {W F F32 : Type 0} → ServerApi W F F32 → String → String → Type 0
Stores {W} api p key =
    (v : List ℕ) (w : W)
    → (api.storage_set p key v w).0 ≡ none
    → api.storage_get p key (api.storage_set p key v w).1 ≡ some v

-- What is written in a plugin's memory without an error is read there.
abbrev pub ReadsBack : {M : Type 0} → Memory M → Type 0
ReadsBack {M} memory =
    (v : List ℕ) (m : M)
    → let ((offset, e), m') = memory.write_bytes v m in e ≡ none → memory.read_bytes offset m' ≡ v

module _ {W F F32 M : Type 0} (ctx : PluginContext W F F32 M) where
  nil_of_one : (e : Option String) → bool_to_uint64 (is_nil e) ≡ 1 → e ≡ none
  nil_of_one e h = ground arith

  -- `storage_get` on a value that is there.
  get_stored :
      (a b : ℕ) (t : HostState W M) (v : List ℕ)
      → ReadsBack ctx.memory
      → ctx.api.storage_get ctx.plugin_id (ctx.memory.read_string a t.memory) t.server ≡ some v
      → (ctx.memory.write_bytes v t.memory).0.1 ≡ none
      → let out = run ctx storage_get a b t in ctx.memory.read_bytes out.0 out.1.memory ≡ v
  unfolding run storage_get_function
  get_stored a b t v reads e fits = rw e (reads v t.memory fits)

  -- The value behind a `storage_set` that answers 1.
  set_stored :
      (a b : ℕ) (s : HostState W M)
      → let key = ctx.memory.read_string a s.memory in
        Stores ctx.api ctx.plugin_id key
        → (run ctx storage_set a b s).0 ≡ 1
        → ctx.api.storage_get ctx.plugin_id key (run ctx storage_set a b s).1.server
          ≡ some (ctx.memory.read_bytes b s.memory)
  unfolding run storage_set_function
  set_stored a b s stores one =
      stores (ctx.memory.read_bytes b s.memory) s.server (nil_of_one _ one)

  -- A plugin stores a value under a key, and the answer is 1. Another plugin of the same provider
  -- then makes any calls. When the plugin then asks for the key, with a memory in which the value can
  -- be written without an error, it finds the value at the offset that is answered. The server is to
  -- store values and to keep the storage of plugins apart, and the memory to keep what is written
  -- without an error.
  pub get-set :
      (q : String) (a b c d : ℕ) (calls : List (Invocation M)) (s : HostState W M) (m : M)
      → let key = ctx.memory.read_string a s.memory in
        Stores ctx.api ctx.plugin_id key
        → Separates ctx.api ctx.plugin_id key
        → ReadsBack ctx.memory
        → q ≢ ctx.plugin_id
        → ctx.memory.read_string c m ≡ key
        → (ctx.memory.write_bytes (ctx.memory.read_bytes b s.memory) m).0.1 ≡ none
        → (run ctx storage_set a b s).0 ≡ 1
        → let s' = (run ctx storage_set a b s).1 in
          let t = record (invoke_all (record ctx { plugin_id = q }) calls s') { memory = m } in
          let out = run ctx storage_get c d t in
          ctx.memory.read_bytes out.0 out.1.memory ≡ ctx.memory.read_bytes b s.memory
  get-set q a b c d calls s m stores apart reads other same fits one =
      let s' = (run ctx storage_set a b s).1 in
      let server = (invoke_all (record ctx { plugin_id = q }) calls s').server in
      get_stored c d _ (ctx.memory.read_bytes b s.memory) reads
        (ap (λ k. ctx.api.storage_get ctx.plugin_id k server) same
          ∙ stored-invoke_all (record ctx { plugin_id = q }) ctx.plugin_id _ apart other calls s'
          ∙ set_stored a b s stores one)
        fits
