-- ===== src/Manager/DependencySort/Output.antt =====
-- The end of `sortByDependencies`: from the IDs in the order in which they were taken to the
-- manifests.
use mathlib.Core.List.Perm
use mathlib.Core.List.{Perm, append-nil, filter_map, filter_map-cons-some}
use dragonfly_wasm.Prelude.{
  suc, String, ◌≡◌, refl, sym, ◌∙◌, ap, subst, inl, inr, true, false, Option, none, some, List, [],
  ◌∷◌, ◌++◌, str_eq_self, arith, All, length, length-append, length-perm, part_of, GoMap, get, put,
  get-put, contains, Distinct, Distinct-perm, Option-cases,
}
use dragonfly_wasm.Prelude.Orders.{Behind}
use dragonfly_wasm.Plugin.Manifest.{Manifest}
use dragonfly_wasm.Manager.DependencySort.{ok, err, nil_manifest, ◌>>=◌, manifest_map, look_up}
use dragonfly_wasm.Manager.DependencySort.Edges.{Edge, edges, prerequisites}
use dragonfly_wasm.Manager.DependencySort.Counting.{pending, prerequisites_taken}
use dragonfly_wasm.Manager.DependencySort.Loop.{Ordered}
use dragonfly_wasm.Manager.DependencySort.Start.{ids, is_some-manifest_map, manifest_map-All}

-- Every manifest stands behind all of its prerequisites; those of `seen` stand before the list.
abbrev pub InOrder : GoMap Manifest → List String → List Manifest → Type 0
InOrder by_id = Behind (λ m. m.id) (prerequisites by_id)

get-manifest_map_other :
    (ms : List Manifest) (m : GoMap Manifest) (k : String)
    → contains (ids ms) k ≡ false
    → get (manifest_map ms m) k ≡ get m k
unfolding manifest_map contains
get-manifest_map_other [] m k h = refl
get-manifest_map_other (x ∷ xs) m k h =
    get-manifest_map_other xs (put m x.id x) k (ground arith) ∙ get-put m x.id k x ∙ ground arith

get-manifest_map :
    (ms : List Manifest) (m : GoMap Manifest)
    → Distinct (ids ms)
    → All (λ x. get (manifest_map ms m) x.id ≡ some x) ms
unfolding manifest_map
get-manifest_map [] m d = tt
get-manifest_map (x ∷ xs) m d = (
  get-manifest_map_other xs (put m x.id x) x.id d.0
      ∙ get-put m x.id x.id x
      ∙ ground (arith, str_eq_self x.id),
  get-manifest_map xs (put m x.id x) d.1,
)

filter_map-ids :
    (f : String → Option Manifest) (ms : List Manifest)
    → All (λ x. f x.id ≡ some x) ms
    → filter_map f (ids ms) ≡ ms
filter_map-ids f [] h = unfold filter_map in refl
filter_map-ids f (m ∷ ms) h =
    filter_map-cons-some f m.id (ids ms) h.0 ∙ ap (◌∷◌ m) (filter_map-ids f ms h.1)

-- Distinct IDs, as many as there are manifests, are the manifests' IDs in another order.
pub taken-perm :
    (taken : List String) (ms : List Manifest)
    → Distinct taken
    → ((v : String) → contains taken v ≡ true → contains (ids ms) v ≡ true)
    → length taken ≡ length ms
    → Perm (ids ms) taken
taken-perm taken ms d h n =
    let (rest, p) = part_of taken (ids ms) d h in
    subst (λ l. Perm (ids ms) l)
      (ap (◌++◌ taken)
          (empty rest (omega (arith, length-perm p, length-append taken rest, length-ids ms)))
        ∙ append-nil taken)
      p
  where
    empty : (l : List String) → length l ≡ 0 → l ≡ []
    empty [] e = refl
    empty (x ∷ xs) e = absurd (omega arith)

    length-ids : (l : List Manifest) → length (ids l) ≡ length l
    length-ids [] = refl
    length-ids (x ∷ xs) = ap suc (length-ids xs)

module _ (ms : List Manifest) where
  abbrev by_id : GoMap Manifest
  by_id = manifest_map ms []

  look_up_cons :
      (id : String) (rest : List String) (m : Manifest) (r : List Manifest)
      → get by_id id ≡ some m
      → look_up by_id rest ≡ ok r
      → look_up by_id (id ∷ rest) ≡ ok (m ∷ r)
  unfolding look_up
  look_up_cons id rest m r e f =
      ap (λ o. elim o [ none ↦ err nil_manifest | some x ↦ look_up by_id rest >>= λ l. ok (x ∷ l) ])
        e
      ∙ ap (λ l. l >>= λ l. ok (m ∷ l)) f

  known_manifest :
      (id : String) → contains (ids ms) id ≡ true → (m : Manifest) × (get by_id id ≡ some m)
  unfolding get
  known_manifest id h = elim (Option-cases (get by_id id)) [
    | inl e ↦ absurd (ground (arith, is_some-manifest_map ms [] id))
    | inr (m, e) ↦ (m, e)
  ]

  abbrev es : List Edge
  es = edges by_id ms

  -- The manifest of a plugin that nothing holds back.
  free_prerequisites :
      (seen : List String) (id : String) (m : Manifest)
      → get by_id id ≡ some m
      → pending seen id es ≡ 0
      → All (λ p. contains seen p ≡ true) (prerequisites by_id m) × (m.id ≡ id)
  free_prerequisites seen id m e h =
      let (free, same) =
        manifest_map-All
          (λ x.
            pending seen x.id es ≡ 0 → All (λ p. contains seen p ≡ true) (prerequisites by_id x))
          ms [] id m (prerequisites_taken by_id seen ms es (λ v. omega arith))
          (λ y f. absurd (no_entry y f)) e in
      (free (ap (λ v. pending seen v es) same ∙ h), same)
    where
      no_entry : (y : Manifest) → get [] id ≡ some y → ⊥
      no_entry y f = unfold get in cc

  looked_up :
      (seen taken : List String)
      → ((v : String) → contains taken v ≡ true → contains (ids ms) v ≡ true)
      → Ordered es seen taken
      → (r : List Manifest) × (look_up by_id taken ≡ ok r)
        × (filter_map (get by_id) taken ≡ r)
        × InOrder by_id seen r
  looked_up seen [] h o = ([], unfold look_up in refl, unfold filter_map in refl, tt)
  looked_up seen (id ∷ rest) h o =
      let (m, e) = known_manifest id (head_known id rest h) in
      let (r, f, g, i) = looked_up (id ∷ seen) rest (tail_known id rest h) o.1 in
      let (all, same) = free_prerequisites seen id m e o.0 in
      (
        m ∷ r,
        look_up_cons id rest m r e f,
        filter_map-cons-some (get by_id) id rest e ∙ ap (◌∷◌ m) g,
        (all, subst (λ v. InOrder by_id (v ∷ seen) r) (sym same) i),
      )
    where
      head_known :
          (x : String) (xs : List String)
          → ((v : String) → contains (x ∷ xs) v ≡ true → contains (ids ms) v ≡ true)
          → contains (ids ms) x ≡ true
      head_known x xs k = k x (unfold contains in rw (str_eq_self x))

      tail_known :
          (x : String) (xs : List String)
          → ((v : String) → contains (x ∷ xs) v ≡ true → contains (ids ms) v ≡ true)
          → (v : String) → contains xs v ≡ true
          → contains (ids ms) v ≡ true
      tail_known x xs k v t = k v (unfold contains in ground arith)

  -- The manifests of distinct IDs, as many as there are, are a permutation of the manifests that
  -- respects the prerequisites.
  pub look_up-perm :
      (taken : List String)
      → Distinct taken
      → ((v : String) → contains taken v ≡ true → contains (ids ms) v ≡ true)
      → Ordered es [] taken
      → length taken ≡ length ms
      → (r : List Manifest) × (look_up by_id taken ≡ ok r)
        × Perm r ms
        × InOrder by_id [] r
        × Distinct (ids ms)
  look_up-perm taken d h o n =
      let p = taken-perm taken ms d h n in
      let distinct = Distinct-perm p d in
      let (r, f, g, i) = looked_up [] taken h o in
      (
        r,
        f,
        subst (λ l. Perm l ms) g
            (subst (λ l. Perm (filter_map (get by_id) taken) l)
              (filter_map-ids (get by_id) ms (get-manifest_map ms [] distinct))
              (Perm.filter_map (get by_id) (Perm.symm p))),
        i,
        distinct,
      )
