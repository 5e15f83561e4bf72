-- ===== src/Handler/Json.antt =====
-- The `map[string]any` values of internal/handler/handler.go, with numbers `F` of type float64.
use dragonfly_wasm.Prelude.{String, Bool, str_eq, if◌then◌else◌}
use dragonfly_wasm.Prelude.Int.{ℤ}

mutual
  pub data Json (F : Type 0) : Type 0 where
    text : String → Json F
    float : F → Json F
    int : ℤ → Json F
    flag : Bool → Json F
    object : Fields F → Json F
    array : Items F → Json F

  pub data Fields (F : Type 0) : Type 0 where
    end : Fields F
    field : String → Json F → Fields F → Fields F

  pub data Items (F : Type 0) : Type 0 where
    nil : Items F
    item : Json F → Items F → Items F

-- m[key] = value
unfoldable pub set_field : {F : Type 0} → Fields F → String → Json F → Fields F
set_field end key value = field key value end
set_field (field k v fields) key value =
    if str_eq k key then field key value fields else field k v (set_field fields key value)
