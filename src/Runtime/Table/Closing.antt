-- ===== src/Runtime/Table/Closing.antt =====
-- internal/runtime/runtime.go: `Close`.
use dragonfly_wasm.Prelude.{
  ℕ, String, ◌≡◌, sym, ◌∙◌, ap, inl, inr, true, false, ◌||◌, none, some, [], ◌∷◌, arith, All,
  if◌then◌else◌, GoMap, get, delete, get-delete, keys, is_some, contains, Distinct, str_eq, eq_iff,
  str_eq_self, Bool-cases, Option-cases,
}
use dragonfly_wasm.Prelude.Heap.{get_elem?, set_elem}
use dragonfly_wasm.Manager.Wasm.{Wasm}
use dragonfly_wasm.Runtime.Instance.{PluginInstance, unloaded}
use dragonfly_wasm.Runtime.Table.{Runtime, is_state_unloaded, shut, close_each, close}
use dragonfly_wasm.Runtime.Table.Consistent.{IsTable, unloaded-IsTable}

-- The entries of a map with these.
abbrev Entries : GoMap ℕ → GoMap ℕ → Type 0
Entries m rest = All (λ e. get m e.0 ≡ some e.1) rest

Entries-cons :
    (m rest : GoMap ℕ) (k : String) (a : ℕ)
    → contains (keys rest) k ≡ false
    → Entries m rest
    → Entries ((k, a) ∷ m) rest
unfolding get contains
Entries-cons m [] k a h e = tt
Entries-cons m ((j, b) ∷ rest) k a h e =
    (ground (arith, eq_iff j k, eq_iff k j, e.0), Entries-cons m rest k a (ground arith) e.1)

Entries-self : (m : GoMap ℕ) → Distinct (keys m) → Entries m m
unfolding get
Entries-self [] d = tt
Entries-self ((k, a) ∷ m) d =
    (ground (arith, str_eq_self k), Entries-cons m m k a d.0 (Entries-self m d.1))

Entries-delete :
    (m rest : GoMap ℕ) (k : String)
    → contains (keys rest) k ≡ false
    → Entries m rest
    → Entries (delete m k) rest
unfolding contains
Entries-delete m [] k h e = tt
Entries-delete m ((j, b) ∷ rest) k h e = (
  get-delete m k j ∙ ground (arith, eq_iff j k, eq_iff k j, e.0),
  Entries-delete m rest k (ground arith) e.1,
)

covered : (m : GoMap ℕ) (k : String) → is_some (get m k) ≡ true → contains (keys m) k ≡ true
unfolding get contains
covered [] k h = cc
covered ((j, b) ∷ m) k h = ground (arith, covered m k)

module _ {I M W : Type 0} (env : Wasm I W) where
  close_each-IsTable :
      (rest : GoMap ℕ) (r : Runtime I M) (w : W)
      → IsTable r
      → Distinct (keys rest)
      → Entries r.instances rest
      → ((k : String) → is_some (get r.instances k) ≡ true → contains (keys rest) k ≡ true)
      → IsTable (close_each env rest r w).0
        × ((k : String) → get (close_each env rest r w).0.instances k ≡ none)
  unfolding close_each shut contains
  close_each-IsTable [] r w v d e cover = (v, λ k. empty k (cover k))
    where
      empty :
          (k : String)
          → (is_some (get r.instances k) ≡ true → false ≡ true)
          → get r.instances k ≡ none
      empty k h = elim (Option-cases (get r.instances k)) [
        | inl f ↦ f
        | inr (a, f) ↦ absurd (cc (h (ap is_some f)))
      ]
  close_each-IsTable ((id, a) ∷ rest) r w v d e cover =
      let (p, f, _, _) = v.linked id a e.0 in
      rw (f, close_each)
        (close_each-IsTable rest
          (record r {
            heap = set_elem r.heap a (record p { state = unloaded });
            instances = delete r.instances id;
          })
          (env.close p.plugin w) (unloaded-IsTable r id a p e.0 f v) d.1
          (Entries-delete r.instances rest id d.0 e.1)
          (λ k h. left k (get-delete r.instances id k) (cover k) h))
    where
      left :
          (k : String)
          → get (delete r.instances id) k ≡ (if str_eq id k then none else get r.instances k)
          → (is_some (get r.instances k) ≡ true → (str_eq id k || contains (keys rest) k) ≡ true)
          → is_some (get (delete r.instances id) k) ≡ true
          → contains (keys rest) k ≡ true
      left k g c h = ground (arith, c)

  -- From a consistent table, `Close` leaves a consistent and empty one: every instance that was ever
  -- loaded is unloaded.
  pub close-unloads :
      (r : Runtime I M) (w : W)
      → IsTable r
      → ((k : String) → get (close env r w).0.instances k ≡ none)
        × ((a : ℕ) (p : PluginInstance I M)
            → get_elem? (close env r w).0.heap a ≡ some p
            → is_state_unloaded p.state ≡ true)
  unfolding close
  close-unloads r w v =
      let (v', empty) =
        close_each-IsTable r.instances r w v v.distinct (Entries-self r.instances v.distinct)
          (covered r.instances) in
      (
        empty,
        λ a p h. elim (Bool-cases (is_state_unloaded p.state)) [
          | inl t ↦ t
          | inr f ↦ absurd (cc (sym (empty p.id) ∙ v'.listed a p h f))
        ],
      )
