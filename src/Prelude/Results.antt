-- ===== src/Prelude/Results.antt =====
-- A Go function's value and error as one value.
use Prim.Native.String.{String}

pub data Result {ℓ} (A : Type ℓ) : Type ℓ where
  ok : A → Result A
  err : String → Result A
