-- ===== src/Manager/DependencySort/Loop.antt =====
-- The invariant of the loop over the queue, and what releasing the dependents of a plugin does.
use mathlib.Core.List.Perm
use mathlib.Core.List.{Perm, append_assoc, append-nil, perm_middle}
use dragonfly_wasm.Prelude.{
  ℕ, zero, suc, ◌+◌, String, ◌≡◌, refl, sym, ◌∙◌, subst, inl, inr, true, false, some, List, [], ◌∷◌,
  ◌++◌, ◌==◌, str_eq_self, eq_iff, arith, GoMap, get, put, get-put, contains, Distinct,
  contains-perm, Distinct-perm, sort_strings, sort_strings-perm, Bool-cases,
}
use dragonfly_wasm.Prelude.Int.{ℤ, pos}
use dragonfly_wasm.Manager.DependencySort.{release, release_all}
use dragonfly_wasm.Manager.DependencySort.Edges.{Edge, count_in}
use dragonfly_wasm.Manager.DependencySort.Counting.{count, pending, pending_ext}

module _ (es : List Edge) where
  -- Every plugin stands behind all of its prerequisites: none is pending when it is taken.
  abbrev pub Ordered : List String → List String → Type 0
  Ordered seen [] = Unit
  Ordered seen (v ∷ vs) = (pending seen v es ≡ 0) × Ordered (v ∷ seen) vs

  pub Ordered-append :
      (seen xs : List String) (v : String)
      → Ordered seen xs
      → pending (xs ++ seen) v es ≡ 0
      → Ordered seen (xs ++ v ∷ [])
  Ordered-append seen [] v o h = (h, tt)
  Ordered-append seen (x ∷ xs) v o h = (
    o.0,
    Ordered-append (x ∷ seen) xs v o.1 (
        pending_ext (xs ++ x ∷ seen) (x ∷ (xs ++ seen)) v es (contains-perm (perm_middle xs seen))
        ∙ h),
  )

  module _ (nodes : List String)
      (closed : (v : String) → contains nodes v ≡ false → count_in v es ≡ 0) where
    -- With these plugins taken, `todo` the dependents of the last one that were not looked at yet.
    pub record Inv (taken todo : List String) (degrees : GoMap ℤ) (queue : List String)
        : Type 0 where
      pub degree :
          (v : String)
          → contains nodes v ≡ true
          → get degrees v ≡ some (pos (pending taken v es + count v todo))
      pub ready :
          (v : String)
          → contains nodes v ≡ true
          → contains (taken ++ queue) v ≡ (pending taken v es + count v todo == 0)
      pub distinct : Distinct (taken ++ queue)
      pub known : (v : String) → contains (taken ++ queue) v ≡ true → contains nodes v ≡ true
      pub todo_known : (v : String) → contains nodes v ≡ false → count v todo ≡ 0

    known_head :
        (taken todo : List String) (t : String)
        → ((v : String) → contains nodes v ≡ false → count v (t ∷ todo) ≡ 0)
        → contains nodes t ≡ true
    known_head taken todo t h = elim (Bool-cases (contains nodes t)) [
      | inl k ↦ k
      | inr k ↦ absurd (ground (arith, h t k, str_eq_self t))
    ]

    enqueue-perm :
        (taken queue : List String) (t : String)
        → Perm (taken ++ sort_strings (queue ++ t ∷ [])) (t ∷ (taken ++ queue))
    enqueue-perm taken queue t =
        Perm.trans (Perm.append_left taken (sort_strings-perm (queue ++ t ∷ []))) (
          rw (← append_assoc taken queue (t ∷ [])) (
            subst (λ l. Perm ((taken ++ queue) ++ t ∷ []) (t ∷ l)) (append-nil (taken ++ queue))
              (perm_middle (taken ++ queue) [])))

    module _ (taken todo : List String) (t : String) (degrees : GoMap ℤ) (queue : List String)
        (v : Inv taken (t ∷ todo) degrees queue) where
      left : ℕ
      left = pending taken t es + count t todo

      head_known : contains nodes t ≡ true
      head_known = known_head taken todo t v.todo_known

      head_degree : get degrees t ≡ some (pos (suc left))
      unfolding left
      head_degree = v.degree t head_known ∙ ground (arith, str_eq_self t)

      head_absent : contains (taken ++ queue) t ≡ false
      head_absent = v.ready t head_known ∙ ground (arith, str_eq_self t)

      release_zero :
          left ≡ 0
          → release t (degrees, queue) ≡ (put degrees t (pos 0), sort_strings (queue ++ t ∷ []))
      unfolding release
      release_zero h = ground (arith, head_degree)

      release_more :
          (k : ℕ) → left ≡ suc k → release t (degrees, queue) ≡ (put degrees t (pos (suc k)), queue)
      unfolding release
      release_more k h = ground (arith, head_degree)

      zero-Inv : left ≡ 0 → Inv taken todo (put degrees t (pos 0)) (sort_strings (queue ++ t ∷ []))
      unfolding left contains
      zero-Inv h = record {
        degree = λ w k. get-put degrees t w (pos 0) ∙ ground (arith, v.degree w k, eq_iff t w, h);
        ready = λ w k.
            contains-perm (enqueue-perm taken queue t) w
            ∙ ground (arith, v.ready w k, eq_iff t w, h);
        distinct = Distinct-perm (enqueue-perm taken queue t) (head_absent, v.distinct);
        known = λ w k. ground (
          arith,
          contains-perm (enqueue-perm taken queue t) w,
          v.known w,
          head_known,
          eq_iff t w,
        );
        todo_known = λ w k. omega (arith, v.todo_known w k);
      }

      more-Inv : (k : ℕ) → left ≡ suc k → Inv taken todo (put degrees t (pos (suc k))) queue
      unfolding left
      more-Inv k h = record {
        degree =
            λ w i. get-put degrees t w (pos (suc k)) ∙ ground (arith, v.degree w i, eq_iff t w, h);
        ready = λ w i. v.ready w i ∙ ground (arith, eq_iff t w, h);
        distinct = v.distinct;
        known = v.known;
        todo_known = λ w i. omega (arith, v.todo_known w i);
      }

      release-Inv : Inv taken todo (release t (degrees, queue)).0 (release t (degrees, queue)).1
      release-Inv = go left refl
        where
          go :
              (n : ℕ)
              → left ≡ n
              → Inv taken todo (release t (degrees, queue)).0 (release t (degrees, queue)).1
          go zero h = subst (λ s. Inv taken todo s.0 s.1) (sym (release_zero h)) (zero-Inv h)
          go (suc k) h = subst (λ s. Inv taken todo s.0 s.1) (sym (release_more k h)) (more-Inv k h)

    pub release_all-Inv :
        (taken todo : List String) (s : GoMap ℤ × List String)
        → Inv taken todo s.0 s.1
        → Inv taken [] (release_all todo s).0 (release_all todo s).1
    release_all-Inv taken [] s v = unfold release_all in v
    release_all-Inv taken (t ∷ todo) (degrees, queue) v =
        subst (λ s. Inv taken [] s.0 s.1) (sym (unfolded t todo (degrees, queue)))
          (release_all-Inv taken todo (release t (degrees, queue))
            (release-Inv taken todo t degrees queue v))
      where
        unfolded :
            (x : String) (xs : List String) (s : GoMap ℤ × List String)
            → release_all (x ∷ xs) s ≡ release_all xs (release x s)
        unfolded x xs s = unfold release_all in refl
