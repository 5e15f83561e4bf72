-- ===== src/Manager/HostFunctions/Calls.antt =====
-- internal/manager/hostfuncs.go: what the host functions share. A call runs on the server, on the
-- plugin's memory and on the log. It may return early, with the word that it leaves in `stack[0]`.
use dragonfly_wasm.Prelude.{ℕ, String, Option, none, some, List, [], ◌∷◌, ◌++◌}
use dragonfly_wasm.Prelude.Results.{Result, ok, err}
use dragonfly_wasm.Manager.Server.{ServerApi}
use dragonfly_wasm.Manager.HostFunctions.Requests.{Codec, Response, failure}

pub data Severity : Type 0 where
  debug info warn error_level : Severity

-- A line of the log, with the field of zap where one is given.
pub record LogEntry : Type 0 where
  pub severity : Severity
  pub message : String
  pub field : Option String

pub record HostState (W M : Type 0) : Type 0 where
  pub server : W
  pub memory : M
  pub logged : List LogEntry

-- extism's `ReadBytes` and `WriteBytes` on a plugin's memory.
pub record Memory (M : Type 0) : Type 0 where
  pub read_bytes : ℕ → M → Result (List ℕ)
  pub write_bytes : List ℕ → M → Result ℕ × M

-- `m.serverAPI`, which may be nil, and the two libraries that a call uses.
pub record Env (W P D F F32 M : Type 0) : Type 0 where
  pub server_api : Option (ServerApi W P D F)
  pub codec : Codec F F32
  pub plugin : Memory M

-- A step gives a value, or it has returned with `stack[0]` set.
pub data Step (A : Type 0) : Type 0 where
  next : A → Step A
  returned : ℕ → Step A

abbrev pub Call : Type 0 → Type 0 → Type 0 → Type 0
Call W M A = HostState W M → Step A × HostState W M

module _ {W M : Type 0} where
  abbrev pub follow :
      {A B : Type 0} → Step A × HostState W M → (A → Call W M B) → Step B × HostState W M
  follow (next a, s) f = f a s
  follow (returned w, s) f = (returned w, s)

  infixl 5 ◌>>=◌ ◌>>◌
  abbrev pub ◌>>=◌ : {A B : Type 0} → Call W M A → (A → Call W M B) → Call W M B
  ◌>>=◌ m f s = follow (m s) f

  abbrev pub ◌>>◌ : {A B : Type 0} → Call W M A → Call W M B → Call W M B
  m >> k = m >>= λ _. k

  -- stack[0] = w; return
  abbrev pub answer : {A : Type 0} → ℕ → Call W M A
  answer w s = (returned w, s)

  -- The value of a Go call, or what the code does on its error.
  abbrev pub or_else : {A : Type 0} → Result A → (String → Call W M A) → Call W M A
  or_else (ok a) handler s = (next a, s)
  or_else (err e) handler s = handler e s

  abbrev pub found_or : {A : Type 0} → Option A → Call W M A → Call W M A
  found_or (some a) handler s = (next a, s)
  found_or none handler s = handler s

  abbrev pub log_line : Severity → String → Option String → Call W M (Unit {0})
  log_line severity message field s = (
    next tt,
    record s {
      logged = s.logged ++ record { severity = severity; message = message; field = field } ∷ [];
    },
  )

  -- A read of the server's state, a method without an error, and one with an error.
  abbrev pub ask : {A : Type 0} → (W → A) → Call W M A
  ask read s = (next (read s.server), s)

  abbrev pub act : (W → W) → Call W M (Unit {0})
  act change s = (next tt, record s { server = change s.server })

  abbrev pub put_server : HostState W M → Option String × W → Step (Option String) × HostState W M
  put_server s (e, w) = (next e, record s { server = w })

  abbrev pub attempt : (W → Option String × W) → Call W M (Option String)
  attempt change s = put_server s (change s.server)

  -- if err != nil { stack[0] = 0; return }
  abbrev pub zero_on : Option String → Call W M (Unit {0})
  zero_on none s = (next tt, s)
  zero_on (some e) s = (returned 0, s)

  abbrev pub put_memory : HostState W M → Result ℕ × M → Result ℕ × HostState W M
  put_memory s (r, m) = (r, record s { memory = m })

abbrev pub word_of : Step ℕ → ℕ
word_of (next w) = w
word_of (returned w) = w

-- The call from outside: `stack[0]` afterwards, and the state.
abbrev pub called : {W M : Type 0} → Step ℕ × HostState W M → ℕ × HostState W M
called (r, s) = (word_of r, s)

module _ {W P D F F32 M : Type 0} (env : Env W P D F F32 M) where
  -- p.ReadBytes(stack[0])
  abbrev pub read_input : ℕ → Call W M (Result (List ℕ))
  read_input slot s = (next (env.plugin.read_bytes slot s.memory), s)

  -- offset, err := p.WriteBytes(data)
  abbrev pub written : Result ℕ × HostState W M → Step ℕ × HostState W M
  written (ok offset, s) = (returned offset, s)
  written (err e, s) = (returned 0, s)

  abbrev pub write_coded : Result (List ℕ) → Call W M ℕ
  write_coded (ok bytes) s = written (put_memory s (env.plugin.write_bytes bytes s.memory))
  write_coded (err e) s = (returned 0, s)

  -- stack[0] = writeJSON(p, v)
  unfoldable pub write_json : Response F → Call W M ℕ
  write_json v = write_coded (env.codec.marshal v)

  abbrev pub write_error : {A : Type 0} → String → Call W M A
  unfolding write_json
  write_error msg = do w ← write_json (failure msg); answer w
