-- ===== src/Plugin/Manifest/Ids.antt =====
-- What `Manifest.Validate` accepts, and why an accepted ID is safe as a directory name.
use dragonfly_wasm.Prelude.{
  ℕ, String, ◌≡◌, refl, sym, ap, subst, ◌∙◌, ◌≢◌, ◌↔◌, Bool, true, none, List, [], ◌∷◌, ◌++◌, ◌||◌,
  eq_iff, arith, All, All-append,
}
use dragonfly_wasm.Plugin.Regex.{
  Regex, fail, eps, one_of, seq, alt, star, Matches, empty, char, concat, left, right, stop, again,
}
use dragonfly_wasm.Plugin.Regex.Soundness.{matches-Matches, concat_inv}
use dragonfly_wasm.Plugin.Manifest.{
  Manifest, codes, is_lower, is_word, is_dot, segment_regex, plugin_id_regex, validate,
}

-- Every character class of the pattern lies in `p`.
abbrev Within : (ℕ → Bool) → Regex → Type 0
Within p fail = Unit
Within p eps = Unit
Within p (one_of q) = (c : ℕ) → q c ≡ true → p c ≡ true
Within p (seq r r') = Within p r × Within p r'
Within p (alt r r') = Within p r × Within p r'
Within p (star r) = Within p r

module _ (p : ℕ → Bool) where
  abbrev Good : List ℕ → Type 0
  Good = All (λ c. p c ≡ true)

  Matches-All : {r : Regex} {s : List ℕ} → Matches r s → Within p r → Good s
  Matches-All empty w = tt
  Matches-All (char c h) w = (w c h, tt)
  Matches-All (concat s t u m n e) w =
      subst Good (sym e) (All-append (λ c. p c ≡ true) s t (Matches-All m w.0) (Matches-All n w.1))
  Matches-All (left m) w = Matches-All m w.0
  Matches-All (right m) w = Matches-All m w.1
  Matches-All stop w = tt
  Matches-All (again c s t u m n e) w =
      subst Good (sym e)
        (All-append (λ c. p c ≡ true) (c ∷ s) t (Matches-All m w) (Matches-All n w))

one_of_inv :
    {p : ℕ → Bool} {s : List ℕ} → Matches (one_of p) s → (c : ℕ) × (p c ≡ true) × (s ≡ c ∷ [])
one_of_inv (char c h) = (c, h, refl)

-- The lower-case letter that a plugin ID begins with.
first_letter :
    {s : List ℕ}
    → Matches plugin_id_regex s
    → (c : ℕ) × (rest : List ℕ) × (is_lower c ≡ true) × (s ≡ c ∷ rest)
first_letter m =
    let (segment, others, ms, _, e) = concat_inv m in
    let (letter, word, ml, _, e') = concat_inv ms in
    let (c, h, e'') = one_of_inv ml in (c, word ++ others, h, cc)

codes-nonempty : {t : String} → Matches plugin_id_regex (codes t) → t ≢ ""
codes-nonempty matched e =
    let (c, rest, _, begins) = first_letter matched in cc (sym begins ∙ ap codes e)

-- `Validate` accepts a manifest exactly when its ID matches the pattern of plugin IDs and its name
-- and its entry point are not empty.
pub validate-accepts :
    (m : Manifest)
    → (validate m ≡ none)
      ↔ (Matches plugin_id_regex (codes m.id) × (m.name ≢ "") × (m.entry_point ≢ ""))
unfolding validate
validate-accepts m = (
  λ h. (
    (matches-Matches plugin_id_regex (codes m.id)).0 (ground arith),
    λ e. ground (arith, eq_iff m.name ""),
    λ e. ground (arith, eq_iff m.entry_point ""),
  ),
  λ (matched, named, entered).
      let accepted = (matches-Matches plugin_id_regex (codes m.id)).1 matched in
      let nonempty = codes-nonempty matched in
      ground (arith, accepted, eq_iff m.id "", eq_iff m.name "", eq_iff m.entry_point ""),
)

-- The characters that an accepted ID is made of: no separator of paths is among them.
abbrev pub is_id_char : ℕ → Bool
is_id_char c = is_word c || is_dot c

segment-Within : Within is_id_char segment_regex
segment-Within = (λ c h. ground arith, λ c h. ground arith)

pattern-Within : Within is_id_char plugin_id_regex
pattern-Within = (segment-Within, ((dot-Within, segment-Within), (dot-Within, segment-Within)))
  where
    dot-Within : (c : ℕ) → is_dot c ≡ true → is_id_char c ≡ true
    dot-Within c h = ground arith

-- The ID of an accepted manifest begins with a lower-case letter, and is made of lower-case
-- letters, digits, `_` and `.` only: as a file name it is one path component, and not `.` or `..`.
pub validate-id_safe :
    (m : Manifest)
    → validate m ≡ none
    → All (λ c. is_id_char c ≡ true) (codes m.id)
      × ((c : ℕ) × (rest : List ℕ) × (is_lower c ≡ true) × (codes m.id ≡ c ∷ rest))
validate-id_safe m h =
    let (matched, _, _) = (validate-accepts m).0 h in
    (Matches-All is_id_char matched pattern-Within, first_letter matched)
