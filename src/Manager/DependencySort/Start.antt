-- ===== src/Manager/DependencySort/Start.antt =====
-- The map of the manifests, the required dependencies, and the state in which the loop begins.
use dragonfly_wasm.Prelude.{
  String, ◌≡◌, refl, sym, ◌∙◌, ap, subst, inl, inr, Bool, true, false, ◌||◌, Option, none, some,
  List, [], ◌∷◌, map, str_eq, arith, All, if◌then◌else◌, GoMap, get, put, get-put, keys, is_some,
  is_some-get, contains, Distinct, contains-perm, Distinct-perm, sort_strings, sort_strings-perm,
  text_cases,
}
use dragonfly_wasm.Prelude.Int.{ℤ, is_zero}
use dragonfly_wasm.Plugin.Manifest.{Manifest}
use dragonfly_wasm.Manager.DependencySort.{Graph, empty_graph, manifest_map, zero_degree}
use dragonfly_wasm.Manager.DependencySort.Edges.{Edge, Built, count_in}
use dragonfly_wasm.Manager.DependencySort.Counting.{pending-nil}
use dragonfly_wasm.Manager.DependencySort.Loop.{Inv}

abbrev pub ids : List Manifest → List String
ids = map (λ m. m.id)

pub is_some-manifest_map :
    (ms : List Manifest) (m : GoMap Manifest) (k : String)
    → is_some (get (manifest_map ms m) k) ≡ (is_some (get m k) || contains (ids ms) k)
unfolding manifest_map contains
is_some-manifest_map [] m k = ground arith
is_some-manifest_map (x ∷ xs) m k =
    is_some-manifest_map xs (put m x.id x) k ∙ ground (arith, get-put m x.id k x)

module _ {V : Type 0} (m : GoMap V) (j k : String) (v w : V) where
  put_same : str_eq j k ≡ true → get (put m j v) k ≡ some w → v ≡ w
  put_same t f = ground (arith, get-put m j k v)

  put_other : str_eq j k ≡ false → get (put m j v) k ≡ some w → get m k ≡ some w
  put_other t f = ground (arith, get-put m j k v)

-- What holds of all manifests holds of those in the map.
pub manifest_map-All :
    (P : Manifest → Type 0) (ms : List Manifest) (m : GoMap Manifest) (k : String) (x : Manifest)
    → All P ms
    → ((y : Manifest) → get m k ≡ some y → P y × (y.id ≡ k))
    → get (manifest_map ms m) k ≡ some x
    → P x × (x.id ≡ k)
manifest_map-All P [] m k x all h e = h x (unfold manifest_map in e)
manifest_map-All P (y ∷ ys) m k x all h e =
    manifest_map-All P ys (put m y.id y) k x all.1
      (λ z f. elim (text_cases y.id k) [
        | inl (t, same) ↦ subst (λ w. P w × (w.id ≡ k)) (put_same m y.id k y z t f) (all.0, same)
        | inr (g, _) ↦ h z (put_other m y.id k y z g f)
      ])
      (unfold manifest_map in e)

contains-zero_degree :
    (m : GoMap ℤ) (v : String)
    → Distinct (keys m)
    → contains (zero_degree m) v ≡ elim (get m v) [ none ↦ false | some d ↦ is_zero d ]
unfolding zero_degree contains get
contains-zero_degree [] v d = refl
contains-zero_degree ((k, n) ∷ m) v d = elim (text_cases k v) [
  | inl (t, e) ↦ ground (
    arith,
    contains-zero_degree m v d.1,
    d.0,
    is_some-get m v,
    ap (contains (keys m)) e,
    ap (get m) e,
  )
  | inr (f, _) ↦ ground (arith, contains-zero_degree m v d.1)
]

Distinct-zero_degree : (m : GoMap ℤ) → Distinct (keys m) → Distinct (zero_degree m)
unfolding zero_degree
Distinct-zero_degree [] d = tt
Distinct-zero_degree ((k, n) ∷ m) d =
    ground (arith, Distinct-zero_degree m d.1, contains-zero_degree m k d.1, d.0, is_some-get m k)

-- The empty graph holds no edge between no plugins.
pub Built-empty : Built empty_graph [] []
unfolding get contains
Built-empty = record {
  degree = λ v. refl;
  waiting = λ u. refl;
  distinct = tt;
  closed = λ v h. refl;
}

-- The state in which the loop begins.
pub start-Inv :
    (g : Graph) (es : List Edge) (nodes : List String)
    (closed : (v : String) → contains nodes v ≡ false → count_in v es ≡ 0)
    → Built g es nodes
    → Inv es nodes closed [] [] g.in_degree (sort_strings (zero_degree g.in_degree))
start-Inv g es nodes closed b = record {
  degree = λ v k. ground (arith, b.degree v, pending-nil v es);
  ready = λ v k. queued v ∙ ground (arith, b.degree v, pending-nil v es);
  distinct =
      Distinct-perm (sort_strings-perm (zero_degree g.in_degree))
        (Distinct-zero_degree g.in_degree b.distinct);
  known = λ v k. known_of (contains nodes v) _ (sym (queued v) ∙ k) (b.degree v);
  todo_known = λ v k. refl;
}
  where
    queued :
        (v : String)
        → contains (sort_strings (zero_degree g.in_degree)) v
          ≡ elim (get g.in_degree v) [ none ↦ false | some d ↦ is_zero d ]
    queued v =
        contains-perm (sort_strings-perm (zero_degree g.in_degree)) v
        ∙ contains-zero_degree g.in_degree v b.distinct

    known_of :
        (k : Bool) {o : Option ℤ} (d : ℤ)
        → elim o [ none ↦ false | some d ↦ is_zero d ] ≡ true
        → o ≡ (if k then some d else none)
        → k ≡ true
    known_of true d z e = refl
    known_of false d z e = ground arith
