-- ===== src/Runtime/Table/Consistent.antt =====
-- internal/runtime/runtime.go: the table against the instances.
use dragonfly_wasm.Prelude.{
  ℕ, String, ◌≡◌, ◌≢◌, sym, ◌∙◌, ap, ◌⊎◌, inl, inr, true, false, some, List, ◌==◌, arith,
  if◌then◌else◌, get, delete, get-delete, keys, Distinct, delete-Distinct, str_eq, text_cases,
  Bool-cases,
}
use dragonfly_wasm.Prelude.Heap.{get_elem?, set_elem, get_elem?-set_elem}
use dragonfly_wasm.Runtime.Instance.{PluginInstance, unloaded}
use dragonfly_wasm.Runtime.Table.{Runtime, is_state_unloaded}

-- An instance that was not unloaded.
abbrev pub IsOpen : {I M : Type 0} → PluginInstance I M → Type 0
IsOpen p = is_state_unloaded p.state ≡ false

-- The table lists each ID once and has exactly the open instances, each under its ID.
pub record IsTable {I M : Type 0} (r : Runtime I M) : Type 0 where
  pub distinct : Distinct (keys r.instances)
  pub linked :
      (id : String) (a : ℕ)
      → get r.instances id ≡ some a
      → (p : PluginInstance I M) × (get_elem? r.heap a ≡ some p) × (p.id ≡ id) × IsOpen p
  pub listed :
      (a : ℕ) (p : PluginInstance I M)
      → get_elem? r.heap a ≡ some p
      → IsOpen p
      → get r.instances p.id ≡ some a

pub some_inj : {A : Type 0} {x y : A} → some x ≡ some y → x ≡ y
some_inj e = cc

pub eq_of_test : (i j : ℕ) → (i == j) ≡ true → i ≡ j
eq_of_test i j h = ground arith

module _ {I M : Type 0} where
  -- What the heap holds after a write, by whether the address is the one written.
  pub written_cases :
      (heap : List (PluginInstance I M)) (a b : ℕ) (p q x : PluginInstance I M)
      → get_elem? heap a ≡ some p
      → get_elem? (set_elem heap a q) b ≡ some x
      → ((a ≡ b) × (q ≡ x)) ⊎ (((a == b) ≡ false) × (get_elem? heap b ≡ some x))
  written_cases heap a b p q x e h = elim (Bool-cases (a == b)) [
    | inl t ↦ inl (eq_of_test a b t, some_inj (sym (moved t) ∙ h))
    | inr f ↦ inr (f, sym (kept f) ∙ h)
  ]
    where
      moved : (a == b) ≡ true → get_elem? (set_elem heap a q) b ≡ some q
      moved t = get_elem?-set_elem heap a b q p e ∙ ground arith

      kept : (a == b) ≡ false → get_elem? (set_elem heap a q) b ≡ get_elem? heap b
      kept f = get_elem?-set_elem heap a b q p e ∙ ground arith

  -- Writing an instance with the same ID that is open if the old one was.
  pub set_elem-IsTable :
      (r : Runtime I M) (a : ℕ) (p q : PluginInstance I M)
      → get_elem? r.heap a ≡ some p
      → q.id ≡ p.id
      → is_state_unloaded q.state ≡ is_state_unloaded p.state
      → IsTable r
      → IsTable (record r { heap = set_elem r.heap a q })
  set_elem-IsTable r a p q e same state v = record {
    distinct = v.distinct;
    linked = λ id b h.
        let (x, f, named, is_open) = v.linked id b h in
        elim (Bool-cases (a == b)) [
          | inl t ↦ (
            q,
            put_at b t,
            same ∙ ap (λ y. y.id) (here b x t f) ∙ named,
            state ∙ ap (λ y. is_state_unloaded y.state) (here b x t f) ∙ is_open,
          )
          | inr n ↦ (x, get_elem?-set_elem r.heap a b q p e ∙ other b x n f, named, is_open)
        ];
    listed = λ b x h is_open. elim (written_cases r.heap a b p q x e h) [
      | inl (at_a, is_q) ↦
          ap (λ y. get r.instances y.id) (sym is_q)
          ∙ ap (get r.instances) same
          ∙ v.listed a p e (sym state ∙ ap (λ y. is_state_unloaded y.state) is_q ∙ is_open)
          ∙ ap some at_a
      | inr (n, f) ↦ v.listed b x f is_open
    ];
  }
    where
      put_at : (b : ℕ) → (a == b) ≡ true → get_elem? (set_elem r.heap a q) b ≡ some q
      put_at b t = get_elem?-set_elem r.heap a b q p e ∙ ground arith

      here :
          (b : ℕ) (x : PluginInstance I M) → (a == b) ≡ true → get_elem? r.heap b ≡ some x → p ≡ x
      here b x t f = some_inj (sym e ∙ ap (get_elem? r.heap) (eq_of_test a b t) ∙ f)

      other :
          (b : ℕ) (x : PluginInstance I M)
          → (a == b) ≡ false
          → get_elem? r.heap b ≡ some x
          → (if a == b then some q else get_elem? r.heap b) ≡ some x
      other b x n f = ground arith

  -- Unloading the instance that the table has under an ID.
  pub unloaded-IsTable :
      (r : Runtime I M) (id : String) (a : ℕ) (p : PluginInstance I M)
      → get r.instances id ≡ some a
      → get_elem? r.heap a ≡ some p
      → IsTable r
      → IsTable (record r {
        heap = set_elem r.heap a (record p { state = unloaded });
        instances = delete r.instances id;
      })
  unloaded-IsTable r id a p found e v = record {
    distinct = delete-Distinct r.instances id v.distinct;
    linked = λ k b h. elim (text_cases id k) [
      | inl (t, same) ↦ absurd (gone k b t h)
      | inr (f, ne) ↦
          let (x, g, named, is_open) = v.linked k b (kept k b f h) in
          (
            x,
            get_elem?-set_elem r.heap a b (record p { state = unloaded }) p e
                ∙ other b x (apart k b x ne named g) g,
            named,
            is_open,
          )
    ];
    listed = λ b x h is_open.
        elim (written_cases r.heap a b p (record p { state = unloaded }) x e h) [
          | inl (at_a, is_q) ↦ absurd (shut_down x is_q is_open)
          | inr (n, f) ↦ still b x n (v.listed b x f is_open)
        ];
  }
    where
      gone : (k : String) (b : ℕ) → str_eq id k ≡ true → get (delete r.instances id) k ≡ some b → ⊥
      gone k b t h = ground (arith, get-delete r.instances id k)

      kept :
          (k : String) (b : ℕ)
          → str_eq id k ≡ false
          → get (delete r.instances id) k ≡ some b
          → get r.instances k ≡ some b
      kept k b f h = ground (arith, get-delete r.instances id k)

      own_id : p.id ≡ id
      own_id =
          let (x, g, named, _) = v.linked id a found in
          ap (λ y. y.id) (some_inj (sym e ∙ g)) ∙ named

      apart :
          (k : String) (b : ℕ) (x : PluginInstance I M)
          → id ≢ k
          → x.id ≡ k
          → get_elem? r.heap b ≡ some x
          → (a == b) ≡ false
      apart k b x ne named g = elim (Bool-cases (a == b)) [
        | inr n ↦ n
        | inl t ↦ absurd (
            ne (
              sym own_id
              ∙ ap (λ y. y.id) (some_inj (sym e ∙ ap (get_elem? r.heap) (eq_of_test a b t) ∙ g))
              ∙ named))
      ]

      other :
          (b : ℕ) (x : PluginInstance I M)
          → (a == b) ≡ false
          → get_elem? r.heap b ≡ some x
          → (if a == b then some (record p { state = unloaded }) else get_elem? r.heap b) ≡ some x
      other b x n f = ground arith

      shut_down : (x : PluginInstance I M) → record p { state = unloaded } ≡ x → IsOpen x → ⊥
      shut_down x is_q is_open = cc (ap (λ y. is_state_unloaded y.state) is_q ∙ is_open)

      still :
          (b : ℕ) (x : PluginInstance I M)
          → (a == b) ≡ false
          → get r.instances x.id ≡ some b
          → get (delete r.instances id) x.id ≡ some b
      still b x n h = elim (text_cases id x.id) [
        | inl (t, same) ↦ absurd (differ n (some_inj (sym found ∙ ap (get r.instances) same ∙ h)))
        | inr (f, _) ↦ ground (arith, get-delete r.instances id x.id)
      ]
        where
          differ : (a == b) ≡ false → a ≡ b → ⊥
          differ n same = ground arith
