-- ===== src/Plugin/State/Names.antt =====
-- pkg/plugin/state.go: when the `String` methods of the enumerations answer.
use dragonfly_wasm.Prelude.{
  ℕ, zero, suc, ◌<◌, String, ◌≡◌, ◌↔◌, ◌≢◌, refl, none, List, [], ◌∷◌, arith, length,
}
use dragonfly_wasm.Prelude.Int.{ℤ, pos, negsuc, ◌<ℤ◌}
use dragonfly_wasm.Plugin.State.{name_at, enum_string, state_names, state_string}

name_at_some : (names : List String) (n : ℕ) → n < length names → name_at names (pos n) ≢ none
name_at_some [] n h e = omega arith
name_at_some (x ∷ xs) zero h e = cc
name_at_some (x ∷ xs) (suc n) h e = name_at_some xs n (omega arith) e

name_at-negsuc : (names : List String) (n : ℕ) → name_at names (negsuc n) ≡ none
name_at-negsuc [] n = refl
name_at-negsuc (x ∷ xs) n = refl

enum_string-none : (names : List String) (s : ℤ) → (enum_string names s ≡ none) ↔ (s <ℤ pos 0)
enum_string-none names (pos n) =
    (λ h. ground (arith, name_at_some names n), λ h. absurd (omega arith))
enum_string-none names (negsuc n) = (λ h. omega arith, λ h. ground (arith, name_at-negsuc names n))

-- `State.String` panics exactly on negative values: these pass its one bounds test, and then index
-- the table of names.
pub state_string-panics : (s : ℤ) → (state_string s ≡ none) ↔ (s <ℤ pos 0)
unfolding state_string
state_string-panics = enum_string-none state_names
