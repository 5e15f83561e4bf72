-- ===== src/Manager/DependencySort/Complete.antt =====
-- Plugins whose prerequisites have a rank, in the loop of `sortByDependencies`.
use dragonfly_wasm.Prelude.{
  ℕ, zero, suc, ◌≤◌, ◌<◌, String, ◌≡◌, refl, sym, ◌∙◌, ap, inl, inr, Bool, true, false, List, [],
  ◌∷◌, ◌==◌, arith, All, All-append, select, length, GoMap, get, is_some, contains, Distinct,
  Bool-cases,
}
use dragonfly_wasm.Plugin.Manifest.{Manifest}
use dragonfly_wasm.Manager.DependencySort.{manifest_map}
use dragonfly_wasm.Manager.DependencySort.Edges.{
  Edge, edges, edges_to, prerequisites, present, dependency_ids, count_in,
}
use dragonfly_wasm.Manager.DependencySort.Counting.{pending, pending_source}
use dragonfly_wasm.Manager.DependencySort.Taking.{Done, length-le_of_part}
use dragonfly_wasm.Manager.DependencySort.Start.{ids, is_some-manifest_map}

-- Along a rank, a plugin's prerequisites stand strictly below it.
abbrev pub IsRank : GoMap Manifest → (String → ℕ) → List Manifest → Type 0
IsRank by_id rank ms = All (λ m. All (λ p. rank p < rank m.id) (prerequisites by_id m)) ms

select-All : (p : String → Bool) (xs : List String) → All (λ x. p x ≡ true) (select p xs)
select-All p [] = tt
select-All p (x ∷ xs) = elim (Bool-cases (p x)) [
  | inl h ↦ rw h ((h, select-All p xs))
  | inr h ↦ rw h (select-All p xs)
]

module _ (by_id : GoMap Manifest) (rank : String → ℕ) where
  -- An edge from a plugin that is there, to one of a greater rank.
  abbrev pub Up : Edge → Type 0
  Up (u, v) = (rank u < rank v) × (is_some (get by_id u) ≡ true)

  edges_to-Up :
      (id : String) (ps : List String)
      → All (λ p. rank p < rank id) ps
      → All (λ p. is_some (get by_id p) ≡ true) ps
      → All Up (edges_to id ps)
  edges_to-Up id [] r h = tt
  edges_to-Up id (p ∷ ps) r h = ((r.0, h.0), edges_to-Up id ps r.1 h.1)

  pub edges-Up : (ms : List Manifest) → IsRank by_id rank ms → All Up (edges by_id ms)
  edges-Up [] r = tt
  edges-Up (m ∷ ms) r =
      All-append Up (edges_to m.id (prerequisites by_id m)) (edges by_id ms)
        (edges_to-Up m.id (prerequisites by_id m) r.0 (
          All-append _ (present by_id (dependency_ids m.dependencies)) (present by_id m.load_after)
            (select-All _ (dependency_ids m.dependencies)) (select-All _ m.load_after)))
        (edges-Up ms r.1)

module _ (ms : List Manifest) (rank : String → ℕ) (ranked : IsRank (manifest_map ms []) rank ms)
    (closed : (v : String)
      → contains (ids ms) v ≡ false
      → count_in v (edges (manifest_map ms []) ms) ≡ 0)
    (taken : List String) (done : Done (edges (manifest_map ms []) ms) (ids ms) closed taken) where
  abbrev es : List Edge
  es = edges (manifest_map ms []) ms

  source_known :
      (u : String) → is_some (get (manifest_map ms []) u) ≡ true → contains (ids ms) u ≡ true
  source_known u h = sym (is_some-manifest_map ms [] u ∙ (unfold get in refl)) ∙ h

  -- When all plugins below `n` were taken, nothing holds back those at `n`.
  taken_next :
      (n : ℕ) (v : String)
      → ((u : String) → rank u < n → contains (ids ms) u ≡ true → contains taken u ≡ true)
      → rank v ≤ n
      → contains (ids ms) v ≡ true
      → (c : ℕ) → pending taken v es ≡ c
      → contains taken v ≡ true
  taken_next n v below h k zero e = done.complete v k e
  taken_next n v below h k (suc c) e =
      let (u, out, up) =
        pending_source (Up (manifest_map ms []) rank) taken v es
          (edges-Up (manifest_map ms []) rank ms ranked) (omega arith) in
      absurd (ground (arith, below u (omega arith) (source_known u up.1)))

  taken_below :
      (n : ℕ) (v : String) → rank v < n → contains (ids ms) v ≡ true → contains taken v ≡ true
  taken_below zero v h k = absurd (omega arith)
  taken_below (suc n) v h k =
      taken_next n v (taken_below n) (omega arith) k (pending taken v es) refl

  -- Every plugin was taken, and so as many as there are.
  pub length-taken : Distinct (ids ms) → (length taken == length ms) ≡ true
  length-taken d = ground (
    arith,
    length-le_of_part taken (ids ms) done.distinct done.known,
    length-le_of_part (ids ms) taken d (λ v k. taken_below (suc (rank v)) v (omega arith) k),
    length-ids ms,
  )
    where
      length-ids : (l : List Manifest) → length (ids l) ≡ length l
      length-ids [] = refl
      length-ids (x ∷ xs) = ap suc (length-ids xs)
