-- ===== src/Plugin/Regex.antt =====
-- The part of Go's `regexp` that the pattern of plugin IDs uses, on the whole text (^ and $):
-- what it means (`Matches`) and a matcher by derivatives.
pub mod Soundness
use dragonfly_wasm.Prelude.{
  ℕ, ◌≡◌, Bool, true, false, List, [], ◌∷◌, ◌++◌, ◌&&◌, ◌||◌, if◌then◌else◌,
}

pub data Regex : Type 0 where
  fail eps : Regex
  one_of : (ℕ → Bool) → Regex
  seq alt : Regex → Regex → Regex
  star : Regex → Regex

-- r+
abbrev pub plus : Regex → Regex
plus r = seq r (star r)

-- The texts that a pattern stands for.
pub data Matches : Regex → List ℕ → Type 0 where
  empty : Matches eps []
  char : {p : ℕ → Bool} (c : ℕ) → p c ≡ true → Matches (one_of p) (c ∷ [])
  concat :
      {r r' : Regex} (s t u : List ℕ)
      → Matches r s
      → Matches r' t
      → u ≡ s ++ t
      → Matches (seq r r') u
  left : {r r' : Regex} {s : List ℕ} → Matches r s → Matches (alt r r') s
  right : {r r' : Regex} {s : List ℕ} → Matches r' s → Matches (alt r r') s
  stop : {r : Regex} → Matches (star r) []
  again :
      {r : Regex} (c : ℕ) (s t u : List ℕ)
      → Matches r (c ∷ s)
      → Matches (star r) t
      → u ≡ c ∷ (s ++ t)
      → Matches (star r) u

nullable : Regex → Bool
nullable fail = false
nullable eps = true
nullable (one_of p) = false
nullable (seq r r') = nullable r && nullable r'
nullable (alt r r') = nullable r || nullable r'
nullable (star r) = true

-- What is left of a pattern behind the character `c`.
deriv : Regex → ℕ → Regex
deriv fail c = fail
deriv eps c = fail
deriv (one_of p) c = if p c then eps else fail
deriv (seq r r') c =
    let first = seq (deriv r c) r' in
    let second = deriv r' c in if nullable r then alt first second else first
deriv (alt r r') c = alt (deriv r c) (deriv r' c)
deriv (star r) c = seq (deriv r c) (star r)

unfoldable pub matches : Regex → List ℕ → Bool
unfolding nullable deriv
matches r [] = nullable r
matches r (c ∷ s) = matches (deriv r c) s
