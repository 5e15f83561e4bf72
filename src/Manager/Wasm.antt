-- ===== src/Manager/Wasm.antt =====
-- What internal/manager/manager.go uses of the extism library, of the file system and of the
-- clock, as an interface: instances are values of a type `I`, and the rest of the world, the
-- memory of the instances included, is a state `W`.
use dragonfly_wasm.Prelude.{ℕ, String, Bool, Option, List}
use dragonfly_wasm.Prelude.Int.{ℤ}

-- The two results of `extism.NewPlugin`.
pub data Created (I : Type 0) : Type 0 where
  created : I → Created I
  refused : (err : String) → Created I

-- The output and the error of a call; the exit code is not used.
pub record CallResult : Type 0 where
  pub output : List ℕ
  pub err : Option String

-- What a `select` on a call and on a context answers: the error of the context or the call's result.
pub data Answer : Type 0 where
  done : (err : String) → Answer
  result : CallResult → Answer

pub record Wasm (I W : Type 0) : Type 0 where
  -- os.MkdirAll
  pub mkdir_all : String → W → Option String × W
  -- extism.NewPlugin of a file with a page limit
  pub new_plugin : String → ℕ → W → Created I × W
  pub function_exists : I → String → Bool
  -- Instance.Call
  pub call : I → String → List ℕ → W → CallResult × W
  -- Instance.Call in a goroutine, and the `select` on its result and on a context with that timeout
  pub call_within : ℤ → I → String → List ℕ → W → Answer × W
  pub close : I → W → W
  -- time.Now
  pub now : W → ℤ × W
  -- time.Since
  pub since : ℤ → W → ℤ × W
  -- Whether a context with that timeout, made when the plugin's instance had been created, is over
  pub expired : ℤ → W → Bool
  -- filepath.Join
  pub join : String → String → String
