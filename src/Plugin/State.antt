-- ===== src/Plugin/State.antt =====
-- pkg/plugin/state.go: the states of a plugin, their names, and the record of a plugin.
pub mod Names
use dragonfly_wasm.Prelude.{
  suc, zero, String, Bool, true, false, Option, none, some, List, [], ◌∷◌, length, if◌then◌else◌,
}
use dragonfly_wasm.Prelude.Int.{ℤ, pos, negsuc, ltb_ℤ}

pub data State : Type 0 where
  unloaded loading loaded enabling enabled disabling disabled error : State

pub State-discrete : Discrete State
State-discrete = hlevel

-- The `iota` value of a state.
abbrev pub state_code : State → ℤ
state_code unloaded = pos 0
state_code loading = pos 1
state_code loaded = pos 2
state_code enabling = pos 3
state_code enabled = pos 4
state_code disabling = pos 5
state_code disabled = pos 6
state_code error = pos 7

-- s == t on states.
abbrev pub is_enabled : State → Bool
is_enabled enabled = true
is_enabled _ = false

abbrev pub is_loaded : State → Bool
is_loaded loaded = true
is_loaded _ = false

abbrev pub is_disabled : State → Bool
is_disabled disabled = true
is_disabled _ = false

-- names[i]; `none` is the panic of an index out of range.
abbrev pub name_at : List String → ℤ → Option String
name_at [] i = none
name_at (x ∷ xs) (pos zero) = some x
name_at (x ∷ xs) (pos (suc i)) = name_at xs (pos i)
name_at (x ∷ xs) (negsuc i) = none

-- The body that the `String` methods of the enumerations share: only the upper bound is tested.
abbrev pub enum_string : List String → ℤ → Option String
enum_string names s = if ltb_ℤ s (pos (length names)) then name_at names s else some "unknown"

abbrev pub state_names : List String
state_names =
    "unloaded" ∷ "loading" ∷ "loaded" ∷ "enabling" ∷ "enabled" ∷ "disabling" ∷ "disabled" ∷ "error"
    ∷ []

-- `State.String`, on any value of the underlying `int`.
unfoldable pub state_string : ℤ → Option String
state_string = enum_string state_names
