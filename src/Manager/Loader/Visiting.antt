-- ===== src/Manager/Loader/Visiting.antt =====
-- internal/manager/loader.go: how the calls of `visit` end: with all that they were called for
-- visited, or with an error whose ID stands on a circle of prerequisites. The fuel is enough.
use dragonfly_wasm.Prelude.{
  ℕ, zero, suc, ◌≤◌, ◌<◌, String, ◌≡◌, refl, sym, ◌∙◌, ap, subst, ◌⊎◌, inl, inr, true, false, not,
  Option, none, some, List, [], ◌∷◌, arith, All, All-append, All-map, select, length, GoMap, get,
  get-put, value_or, is_some, contains, contains-append, str_eq_self, text_cases, Bool-cases,
  Option-cases,
}
use dragonfly_wasm.Manager.Loader.{DiscoveredPlugin}
use dragonfly_wasm.Manager.Loader.Resolution.{
  Visits, is_visited, is_visiting, opened, closed, dependency_ids, Resolve, ok, err, ◌>>=◌,
  circular_dependency, visit, visit_each, visit_found, visit_known,
}
use dragonfly_wasm.Manager.Loader.Visits.{
  children, Inv, After, After-refl, After-trans, closed-After, opened-Inv, is_visiting-opened,
}

-- The plugin `a` needs `c`, itself or by the plugins that it needs.
pub data Leads (by_id : GoMap DiscoveredPlugin) : String → String → Type 0 where
  direct :
      {a b : String} (p : DiscoveredPlugin)
      → get by_id a ≡ some p
      → contains (children p) b ≡ true
      → Leads by_id a b
  further :
      {a b c : String} (p : DiscoveredPlugin)
      → get by_id a ≡ some p
      → contains (children p) b ≡ true
      → Leads by_id b c
      → Leads by_id a c

module _ (by_id : GoMap DiscoveredPlugin) where
  abbrev Reaches : String → String → Type 0
  Reaches a b = (a ≡ b) ⊎ Leads by_id a b

  -- Why a visit of `id` says that there is a circle involving `k`: an open plugin is needed again,
  -- or a circle was found.
  abbrev Blame : Visits → String → String → Type 0
  Blame s id k = ((is_visiting s k ≡ true) × Reaches id k) ⊎ Leads by_id k k

  abbrev Visited : Visits → String → Type 0
  Visited s id = is_some (get by_id id) ≡ true → is_visited s id ≡ true

  abbrev pub VisitEnd : Visits → String → Resolve Visits → Type 0
  VisitEnd s id r =
      ((s' : Visits) × (r ≡ ok s') × After by_id s s' × Visited s' id)
      ⊎ ((k : String) × (r ≡ err (circular_dependency k)) × Blame s id k)

  abbrev pub EachEnd : Visits → List String → Resolve Visits → Type 0
  EachEnd s ids r =
      ((s' : Visits) × (r ≡ ok s') × After by_id s s' × All (Visited s') ids)
      ⊎ ((k : String) × (id : String) × (r ≡ err (circular_dependency k))
          × (contains ids id ≡ true)
          × Blame s id k)

  module _ (known : List String) where
    -- The plugins that are not open; each call within a call is for fewer.
    abbrev pub free : Visits → ℕ
    free s = length (select (λ k. not (is_visiting s k)) known)

  free-same :
      (ks : List String) (s t : Visits)
      → ((k : String) → is_visiting t k ≡ is_visiting s k)
      → free ks t ≡ free ks s
  free-same [] s t h = refl
  free-same (k ∷ ks) s t h = ground (arith, h k, free-same ks s t h)

  free-le-opened : (ks : List String) (id : String) (s : Visits) → free ks (opened id s) ≤ free ks s
  free-le-opened [] id s = omega arith
  free-le-opened (k ∷ ks) id s =
      ground (arith, is_visiting-opened by_id id k s, free-le-opened ks id s)

  free-lt-opened :
      (ks : List String) (id : String) (s : Visits)
      → contains ks id ≡ true
      → is_visiting s id ≡ false
      → free ks (opened id s) < free ks s
  unfolding contains
  free-lt-opened [] id s h idle = cc
  free-lt-opened (k ∷ ks) id s h idle = elim (text_cases k id) [
    | inl (t, same) ↦ first same
    | inr (f, _) ↦
        ground (arith, is_visiting-opened by_id id k s, free-lt-opened ks id s (ground arith) idle)
  ]
    where
      first : k ≡ id → free (k ∷ ks) (opened id s) < free (k ∷ ks) s
      first e =
          subst (λ x. free (x ∷ ks) (opened id s) < free (x ∷ ks) s) (sym e)
            (ground
              (arith, is_visiting-opened by_id id id s, str_eq_self id, free-le-opened ks id s))

  -- Blame for an ID is blame for the plugin that needs it, once that is closed again.
  Blame-opened :
      (id child k : String) (p : DiscoveredPlugin) (s : Visits)
      → get by_id id ≡ some p
      → contains (children p) child ≡ true
      → Blame (opened id s) child k
      → Blame s id k
  Blame-opened id child k p s there needs (inr circle) = inr circle
  Blame-opened id child k p s there needs (inl (open_, reaches)) = elim (text_cases id k) [
    | inl (t, same) ↦ inr (subst (λ x. Leads by_id x k) same (leads reaches))
    | inr (f, _) ↦
        inl (sym (is_visiting-opened by_id id k s ∙ ground arith) ∙ open_, inr (leads reaches))
  ]
    where
      leads : Reaches child k → Leads by_id id k
      leads (inl e) = subst (λ x. Leads by_id id x) e (direct p there needs)
      leads (inr l) = further p there needs l

  Blame-same :
      (s t : Visits) (id k : String)
      → ((x : String) → is_visiting t x ≡ is_visiting s x)
      → Blame t id k
      → Blame s id k
  Blame-same s t id k h (inl (o, r)) = inl (sym (h k) ∙ o, r)
  Blame-same s t id k h (inr circle) = inr circle

  -- The first call of a list returned, and the others end so.
  each_cons :
      (id : String) (ids : List String) (s s1 : Visits) {r r' : Resolve Visits}
      → r ≡ r'
      → After by_id s s1
      → Visited s1 id
      → EachEnd s1 ids r'
      → EachEnd s (id ∷ ids) r
  unfolding contains
  each_cons id ids s s1 e a v (inl (s', f, b, vs)) =
      inl (s', e ∙ f, After-trans by_id a b, (λ here. b.grows id (v here), vs))
  each_cons id ids s s1 e a v (inr (k, x, f, m, blame)) =
      inr (k, x, e ∙ f, ground arith, Blame-same s s1 x k a.same blame)

  is_visited-closed :
      (id : String) (p : DiscoveredPlugin) (s : Visits) → is_visited (closed id p s) id ≡ true
  is_visited-closed id p s =
      ap (λ o. value_or o false) (get-put s.visited id id true) ∙ ground (arith, str_eq_self id)

  module _ (known : List String) (fuel : ℕ) (call : String → Visits → Resolve Visits)
      (ends : (id : String) (s : Visits)
        → Inv by_id s
        → free known s < fuel
        → VisitEnd s id (call id s)) where
    -- Calls for a list of IDs.
    pub each_end :
        (ids : List String) (s : Visits)
        → Inv by_id s
        → free known s < fuel
        → EachEnd s ids (visit_each call ids s)
    unfolding visit_each contains
    each_end [] s inv room = inl (s, refl, After-refl by_id s inv, tt)
    each_end (id ∷ ids) s inv room = elim (ends id s inv room) [
      | inl (s1, e, a, v) ↦
          each_cons id ids s s1 (ap (λ r. r >>= visit_each call ids) e) a v
            (each_end ids s1 a.inv (subst (λ n. n < fuel) (sym (free-same known s s1 a.same)) room))
      | inr (k, e, blame) ↦
          inr (k, id, ap (λ r. r >>= visit_each call ids) e, ground (arith, str_eq_self id), blame)
    ]

    -- The calls for the children of a plugin, and its closing.
    found_end :
        (id : String) (p : DiscoveredPlugin) (s : Visits)
        → p.manifest.id ≡ id
        → get by_id id ≡ some p
        → is_visited s id ≡ false
        → is_visiting s id ≡ false
        → Inv by_id s
        → free known (opened id s) < fuel
        → VisitEnd s id (visit_found by_id call id p s)
    unfolding visit_found contains
    found_end id p s named there new idle inv room =
        elim (each_end deps (opened id s) (opened-Inv by_id id s inv) room) [
          | inr (k, x, e, m, blame) ↦ inr (
            k,
            ap (λ r. r >>= λ s1. visit_each call after s1 >>= λ s2. ok (closed id p s2)) e,
            Blame-opened id x k p s there (contains-append deps after x ∙ ground arith) blame,
          )
          | inl (s1, e, a, v) ↦
              elim (each_end after s1 a.inv
                (subst (λ n. n < fuel) (sym (free-same known (opened id s) s1 a.same)) room)) [
                  | inr (k, x, f, m, blame) ↦ inr (
                    k,
                    ap (λ r. r >>= λ s1. visit_each call after s1 >>= λ s2. ok (closed id p s2)) e
                        ∙ ap (λ r. r >>= λ s2. ok (closed id p s2)) f,
                    Blame-opened id x k p s there (contains-append deps after x ∙ ground arith)
                        (Blame-same (opened id s) s1 x k a.same blame),
                  )
                  | inl (s2, f, b, w) ↦ inl (
                    closed id p s2,
                    ap (λ r. r >>= λ s1. visit_each call after s1 >>= λ s2. ok (closed id p s2)) e
                        ∙ ap (λ r. r >>= λ s2. ok (closed id p s2)) f,
                    closed-After by_id id p s s2 named there new idle (After-trans by_id a b) (
                        All-append (Visited s2) deps after
                          (All-map (Visited s1) (Visited s2) deps (λ k h here. b.grows k (h here))
                            v)
                          w),
                    λ here. is_visited-closed id p s2,
                  )
                ]
        ]
      where
        deps : List String
        deps = dependency_ids p.manifest

        after : List String
        after = p.manifest.load_after

  module _ (fuel : ℕ) (id : String) (s : Visits) where
    visit_old : is_visited s id ≡ true → visit by_id (suc fuel) id s ≡ ok s
    unfolding visit
    visit_old h = rw h refl

    visit_busy :
        is_visited s id ≡ false
        → is_visiting s id ≡ true
        → visit by_id (suc fuel) id s ≡ err (circular_dependency id)
    unfolding visit
    visit_busy h k = rw (h, k) refl

    visit_new :
        (o : Option DiscoveredPlugin)
        → is_visited s id ≡ false
        → is_visiting s id ≡ false
        → get by_id id ≡ o
        → visit by_id (suc fuel) id s ≡ visit_known by_id (visit by_id fuel) id o s
    unfolding visit
    visit_new o h k e = rw (h, k, e) refl

  VisitEnd-subst :
      (s : Visits) (id : String) {r r' : Resolve Visits}
      → r' ≡ r
      → VisitEnd s id r
      → VisitEnd s id r'
  VisitEnd-subst s id e end = subst (VisitEnd s id) (sym e) end

  -- A visit with fuel for all plugins that are not open, in a map that files every plugin under its
  -- ID, of plugins that are known.
  pub visit_end :
      (known : List String)
      → ((k : String) → is_some (get by_id k) ≡ true → contains known k ≡ true)
      → ((k : String) (p : DiscoveredPlugin) → get by_id k ≡ some p → p.manifest.id ≡ k)
      → (fuel : ℕ) (id : String) (s : Visits) → Inv by_id s
      → free known s < fuel
      → VisitEnd s id (visit by_id fuel id s)
  unfolding visit_known
  visit_end known all filed zero id s inv room = absurd (omega arith)
  visit_end known all filed (suc fuel) id s inv room = elim (Bool-cases (is_visited s id)) [
    | inl old ↦ inl (s, visit_old fuel id s old, After-refl by_id s inv, λ here. old)
    | inr new ↦ elim (Bool-cases (is_visiting s id)) [
      | inl busy ↦ inr (id, visit_busy fuel id s new busy, inl (busy, inl refl))
      | inr idle ↦ elim (Option-cases (get by_id id)) [
        | inl gone ↦ inl (
          s,
          visit_new fuel id s none new idle gone,
          After-refl by_id s inv,
          λ here. absurd (cc (sym here ∙ ap is_some gone)),
        )
        | inr (p, there) ↦ VisitEnd-subst s id (visit_new fuel id s (some p) new idle there) (
            found_end known fuel (visit by_id fuel) (visit_end known all filed fuel) id p s
              (filed id p there) there new idle inv (smaller idle (ap is_some there)))
      ]
    ]
  ]
    where
      smaller :
          is_visiting s id ≡ false → is_some (get by_id id) ≡ true → free known (opened id s) < fuel
      smaller idle here = omega (arith, free-lt-opened known id s (all id here) idle)
