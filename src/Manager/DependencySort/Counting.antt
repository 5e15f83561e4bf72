-- ===== src/Manager/DependencySort/Counting.antt =====
-- The edges that still hold a plugin back when the plugins of a list have been taken.
use dragonfly_wasm.Prelude.{
  ℕ, ◌+◌, ◌≤◌, String, ◌≡◌, refl, ap, subst, str_eq_self, str_eq_sym, ◌<◌, inl, inr, true, false,
  not, ◌&&◌, List, [], ◌∷◌, ◌++◌, str_eq, arith, if◌then◌else◌, GoMap, contains, text_cases,
  Bool-cases, All,
}
use dragonfly_wasm.Plugin.Manifest.{Manifest}
use dragonfly_wasm.Manager.DependencySort.Edges.{
  Edge, edges_to, edges, prerequisites, targets, count_in,
}

-- How often a text stands in a list.
abbrev pub count : String → List String → ℕ
count s [] = 0
count s (x ∷ xs) = (if str_eq x s then 1 else 0) + count s xs

-- How many edges lead to `v` from plugins outside `taken`.
abbrev pub pending : List String → String → List Edge → ℕ
pending taken v [] = 0
pending taken v ((p, w) ∷ es) =
    (if not (contains taken p) && str_eq w v then 1 else 0) + pending taken v es

pub pending-nil : (v : String) (es : List Edge) → pending [] v es ≡ count_in v es
unfolding contains
pending-nil v [] = refl
pending-nil v ((p, w) ∷ es) = omega (arith, pending-nil v es)

pub pending_ext :
    (xs ys : List String) (v : String) (es : List Edge)
    → ((s : String) → contains xs s ≡ contains ys s)
    → pending xs v es ≡ pending ys v es
pending_ext xs ys v [] h = refl
pending_ext xs ys v ((p, w) ∷ es) h = ground (arith, pending_ext xs ys v es h, h p)

pub pending-append :
    (taken : List String) (v : String) (es fs : List Edge)
    → pending taken v (es ++ fs) ≡ pending taken v es + pending taken v fs
pending-append taken v [] fs = omega arith
pending-append taken v ((p, w) ∷ es) fs = omega (arith, pending-append taken v es fs)

-- Taking one more plugin settles the edges from it.
pub pending-cons :
    (taken : List String) (id v : String) (es : List Edge)
    → contains taken id ≡ false
    → pending taken v es ≡ pending (id ∷ taken) v es + count v (targets id es)
unfolding contains
pending-cons taken id v [] fresh = refl
pending-cons taken id v ((p, w) ∷ es) fresh = elim (text_cases p id) [
  | inl (t, e) ↦
      ground (arith, pending-cons taken id v es fresh, str_eq_sym p id, ap (contains taken) e)
  | inr (f, _) ↦ ground (arith, pending-cons taken id v es fresh, str_eq_sym p id)
]

-- A plugin without pending edges has all of its prerequisites among those taken.
pending-edges_to :
    (taken : List String) (id : String) (ps : List String)
    → pending taken id (edges_to id ps) ≡ 0
    → All (λ p. contains taken p ≡ true) ps
pending-edges_to taken id [] h = tt
pending-edges_to taken id (p ∷ ps) h = elim (Bool-cases (contains taken p)) [
  | inl t ↦ (t, pending-edges_to taken id ps (omega arith))
  | inr f ↦ absurd (ground (arith, str_eq_self id))
]

pub prerequisites_taken :
    (manifests : GoMap Manifest) (taken : List String) (ms : List Manifest) (es : List Edge)
    → ((v : String) → pending taken v (edges manifests ms) ≤ pending taken v es)
    → All
        (λ m.
          pending taken m.id es ≡ 0
          → All (λ p. contains taken p ≡ true) (prerequisites manifests m))
        ms
prerequisites_taken manifests taken [] es h = tt
prerequisites_taken manifests taken (m ∷ ms) es h =
    let own = edges_to m.id (prerequisites manifests m) in
    (
      λ none.
          pending-edges_to taken m.id (prerequisites manifests m)
            (omega (arith, h m.id, pending-append taken m.id own (edges manifests ms))),
      prerequisites_taken manifests taken ms es
          (λ v. omega (arith, h v, pending-append taken v own (edges manifests ms))),
    )

-- A plugin with pending edges has an edge from a plugin that was not taken.
pub pending_source :
    (P : Edge → Type 0) (taken : List String) (v : String) (es : List Edge)
    → All P es
    → 0 < pending taken v es
    → (u : String) × (contains taken u ≡ false) × P (u, v)
pending_source P taken v [] all h = absurd (omega arith)
pending_source P taken v ((p, w) ∷ es) all h = elim (Bool-cases (contains taken p)) [
  | inl t ↦ pending_source P taken v es all.1 (ground arith)
  | inr f ↦ elim (text_cases w v) [
    | inl (_, e) ↦ (p, f, subst (λ x. P (p, x)) e all.0)
    | inr (g, _) ↦ pending_source P taken v es all.1 (ground arith)
  ]
]
