-- ===== src/Manager/DependencySort/Taking.antt =====
-- The loop over the queue from beginning to end: the fuel that it needs and what it leaves.
use mathlib.Core.List.Perm
use mathlib.Core.List.{Perm, append_assoc, append-nil, perm_middle}
use dragonfly_wasm.Prelude.{
  ℕ, zero, suc, ◌+◌, ◌≤◌, ◌<◌, String, ◌≡◌, refl, sym, ◌∙◌, ap, subst, true, false, some, List, [],
  ◌∷◌, ◌++◌, str_eq_self, arith, length, length-append, GoMap, get, value_or, contains,
  contains-append, Distinct, contains-perm, Distinct-perm, length-perm, part_of,
}
use dragonfly_wasm.Prelude.Int.{ℤ}
use dragonfly_wasm.Manager.DependencySort.{release_all, take_all}
use dragonfly_wasm.Manager.DependencySort.Edges.{Edge, targets, count_in}
use dragonfly_wasm.Manager.DependencySort.Counting.{count, pending, pending_ext, pending-cons}
use dragonfly_wasm.Manager.DependencySort.Loop.{Ordered, Ordered-append, Inv, release_all-Inv}

-- Distinct texts out of `ys` are at most as many as `ys` has.
pub length-le_of_part :
    (xs ys : List String)
    → Distinct xs
    → ((s : String) → contains xs s ≡ true → contains ys s ≡ true)
    → length xs ≤ length ys
length-le_of_part xs ys d h =
    let (rest, p) = part_of xs ys d h in omega (arith, length-perm p, length-append xs rest)

count-targets : (v u : String) (es : List Edge) → count v (targets u es) ≤ count_in v es
count-targets v u [] = omega arith
count-targets v u ((p, w) ∷ es) = ground (arith, count-targets v u es)

module _ (es : List Edge) (nodes : List String)
    (closed : (v : String) → contains nodes v ≡ false → count_in v es ≡ 0) where
  -- What the loop leaves: distinct plugins in an order that respects the edges, with every plugin
  -- that nothing holds back.
  pub record Done (taken : List String) : Type 0 where
    pub distinct : Distinct taken
    pub known : (v : String) → contains taken v ≡ true → contains nodes v ≡ true
    pub ordered : Ordered es [] taken
    pub complete :
        (v : String) → contains nodes v ≡ true → pending taken v es ≡ 0 → contains taken v ≡ true

  module _ (id : String) (queue taken : List String) (degrees : GoMap ℤ)
      (v : Inv es nodes closed taken [] degrees (id ∷ queue)) where
    id_queued : contains (taken ++ id ∷ queue) id ≡ true
    unfolding contains
    id_queued = contains-append taken (id ∷ queue) id ∙ ground (arith, str_eq_self id)

    id_known : contains nodes id ≡ true
    id_known = v.known id id_queued

    id_free : pending taken id es ≡ 0
    id_free = ground (arith, v.ready id id_known, id_queued)

    id_fresh : contains taken id ≡ false
    unfolding contains
    id_fresh =
        let d =
          Distinct-perm {xs = id ∷ (taken ++ queue)} (Perm.symm (perm_middle taken queue))
            v.distinct in
        ground (arith, contains-append taken queue id, d.0)

    -- Behind the plugin, the edges from it are settled.
    pending-taken :
        (w : String)
        → pending taken w es ≡ pending (taken ++ id ∷ []) w es + count w (targets id es)
    pending-taken w =
        pending-cons taken id w es id_fresh
        ∙ ap (λ n. n + count w (targets id es))
            (pending_ext (id ∷ taken) (taken ++ id ∷ []) w es
              (λ s. sym (contains-perm (snoc_perm taken) s)))
      where
        snoc_perm : (l : List String) → Perm (l ++ id ∷ []) (id ∷ l)
        snoc_perm l = subst (λ k. Perm (l ++ id ∷ []) (id ∷ k)) (append-nil l) (perm_middle l [])

    take-Inv : Inv es nodes closed (taken ++ id ∷ []) (targets id es) degrees queue
    take-Inv = record {
      degree = λ w k. v.degree w k ∙ ground (arith, pending-taken w);
      ready = λ w k.
          ap (λ l. contains l w) (append_assoc taken (id ∷ []) queue)
          ∙ v.ready w k
          ∙ ground (arith, pending-taken w);
      distinct = subst Distinct (sym (append_assoc taken (id ∷ []) queue)) v.distinct;
      known =
          λ w k. v.known w (ap (λ l. contains l w) (sym (append_assoc taken (id ∷ []) queue)) ∙ k);
      todo_known = λ w k. omega (arith, closed w k, count-targets w id es);
    }

  finished :
      (taken : List String) (degrees : GoMap ℤ)
      → Inv es nodes closed taken [] degrees []
      → Ordered es [] taken
      → Done taken
  finished taken degrees v o = record {
    distinct = subst Distinct (append-nil taken) v.distinct;
    known = λ w k. v.known w (ap (λ l. contains l w) (append-nil taken) ∙ k);
    ordered = o;
    complete = λ w k free.
        ap (λ l. contains l w) (sym (append-nil taken)) ∙ v.ready w k ∙ ground (arith, free);
  }

  no_room :
      (taken queue : List String) (id : String) (degrees : GoMap ℤ)
      → Inv es nodes closed taken [] degrees (id ∷ queue)
      → length taken < length nodes
  no_room taken queue id degrees v = omega (
    arith,
    length-le_of_part (taken ++ id ∷ queue) nodes v.distinct v.known,
    length-append taken (id ∷ queue),
  )

  module _ (dependents : GoMap (List String))
      (waiting : (u : String) → value_or (get dependents u) [] ≡ targets u es) where
    released-Inv :
        (id : String) (queue taken : List String) (degrees : GoMap ℤ)
        → Inv es nodes closed taken [] degrees (id ∷ queue)
        → let s = release_all (value_or (get dependents id) []) (degrees, queue) in
          Inv es nodes closed (taken ++ id ∷ []) [] s.0 s.1
    released-Inv id queue taken degrees v =
        subst
          (λ l.
            let s = release_all l (degrees, queue) in
            Inv es nodes closed (taken ++ id ∷ []) [] s.0 s.1)
          (sym (waiting id))
          (release_all-Inv es nodes closed (taken ++ id ∷ []) (targets id es) (degrees, queue)
            (take-Inv id queue taken degrees v))

    taken-Ordered :
        (id : String) (queue taken : List String) (degrees : GoMap ℤ)
        → Inv es nodes closed taken [] degrees (id ∷ queue)
        → Ordered es [] taken
        → Ordered es [] (taken ++ id ∷ [])
    taken-Ordered id queue taken degrees v o =
        Ordered-append es [] taken id o
          (ap (λ l. pending l id es) (append-nil taken) ∙ id_free id queue taken degrees v)

    -- One round for each plugin that was not taken yet is enough, and the loop then leaves a
    -- complete order.
    pub take_all_total :
        (fuel : ℕ) (degrees : GoMap ℤ) (queue taken : List String)
        → Inv es nodes closed taken [] degrees queue
        → Ordered es [] taken
        → length nodes ≤ fuel + length taken
        → (result : List String) × (take_all fuel dependents degrees queue taken ≡ some result)
          × Done result
    unfolding take_all
    take_all_total zero degrees [] taken v o room = (taken, refl, finished taken degrees v o)
    take_all_total (suc fuel) degrees [] taken v o room = (taken, refl, finished taken degrees v o)
    take_all_total zero degrees (id ∷ queue) taken v o room =
        absurd (omega (arith, no_room taken queue id degrees v))
    take_all_total (suc fuel) degrees (id ∷ queue) taken v o room =
        let s = release_all (value_or (get dependents id) []) (degrees, queue) in
        take_all_total fuel s.0 s.1 (taken ++ id ∷ []) (released-Inv id queue taken degrees v)
          (taken-Ordered id queue taken degrees v o) (omega (arith, length-append taken (id ∷ [])))
