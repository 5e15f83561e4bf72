-- ===== src/Manager/Loader/Visits.antt =====
-- internal/manager/loader.go: what a call of `visit` keeps, and what it does.
use mathlib.Core.List.{map-append}
use dragonfly_wasm.Prelude.{
  String, ◌≡◌, refl, sym, ◌∙◌, ap, subst, inl, inr, true, false, ◌||◌, some, List, [], ◌∷◌, ◌++◌,
  arith, All, All-append, All-map, select, GoMap, get, get-put, is_some, value_or, contains,
  contains-append, Distinct, str_eq, eq_iff, str_eq_self, Bool-cases,
}
use dragonfly_wasm.Prelude.Orders.{Behind}
use dragonfly_wasm.Manager.Loader.{DiscoveredPlugin}
use dragonfly_wasm.Manager.Loader.Resolution.{
  Visits, is_visited, is_visiting, opened, closed, dependency_ids, plugin_ids,
}

-- The IDs that `visit` calls itself for.
abbrev pub children : DiscoveredPlugin → List String
children p = dependency_ids p.manifest ++ p.manifest.load_after

-- Those of them that have a plugin.
abbrev pub prerequisites : GoMap DiscoveredPlugin → DiscoveredPlugin → List String
prerequisites by_id p = select (λ k. is_some (get by_id k)) (children p)

-- Every plugin stands behind all of its prerequisites; those of `seen` stand before the list.
abbrev pub InOrder : GoMap DiscoveredPlugin → List String → List DiscoveredPlugin → Type 0
InOrder by_id = Behind (λ p. p.manifest.id) (prerequisites by_id)

Distinct-snoc :
    (xs : List String) (x : String) → Distinct xs → contains xs x ≡ false → Distinct (xs ++ x ∷ [])
unfolding contains
Distinct-snoc [] x d h = (refl, tt)
Distinct-snoc (y ∷ ys) x d h = (
  contains-append ys (x ∷ []) y ∙ ground (arith, d.0, eq_iff x y, eq_iff y x),
  Distinct-snoc ys x d.1 (ground arith),
)

module _ (by_id : GoMap DiscoveredPlugin) where
  InOrder-snoc :
      (ps : List DiscoveredPlugin) (seen : List String) (p : DiscoveredPlugin)
      → InOrder by_id seen ps
      → All (λ k. (contains seen k || contains (plugin_ids ps) k) ≡ true) (prerequisites by_id p)
      → InOrder by_id seen (ps ++ p ∷ [])
  unfolding contains
  InOrder-snoc [] seen p o h = (All-map _ _ (prerequisites by_id p) (λ k e. ground arith) h, tt)
  InOrder-snoc (q ∷ qs) seen p o h = (
    o.0,
    InOrder-snoc qs (q.manifest.id ∷ seen) p o.1
        (All-map _ _ (prerequisites by_id p) (λ k e. ground arith) h),
  )

  -- The plugins that were sorted so far are those visited, each once and in order.
  pub record Inv (s : Visits) : Type 0 where
    pub listed : (k : String) → is_visited s k ≡ contains (plugin_ids s.sorted) k
    pub ordered : InOrder by_id [] s.sorted
    pub distinct : Distinct (plugin_ids s.sorted)
    pub filed : All (λ p. get by_id p.manifest.id ≡ some p) s.sorted

  -- Calls from `s` that returned without an error, in `s'`.
  pub record After (s s' : Visits) : Type 0 where
    pub inv : Inv s'
    pub grows : (k : String) → is_visited s k ≡ true → is_visited s' k ≡ true
    pub same : (k : String) → is_visiting s' k ≡ is_visiting s k
    pub kept : (k : String) → is_visiting s k ≡ true → is_visited s' k ≡ is_visited s k

  pub After-refl : (s : Visits) → Inv s → After s s
  After-refl s inv = record { inv = inv; grows = λ k h. h; same = λ k. refl; kept = λ k h. refl }

  pub After-trans : {s t u : Visits} → After s t → After t u → After s u
  After-trans a b = record {
    inv = b.inv;
    grows = λ k h. b.grows k (a.grows k h);
    same = λ k. b.same k ∙ a.same k;
    kept = λ k h. b.kept k (a.same k ∙ h) ∙ a.kept k h;
  }

  -- Every prerequisite of `p` is visited, when each child that has a plugin is.
  prerequisites_visited :
      (s : Visits) (ks : List String)
      → All (λ k. is_some (get by_id k) ≡ true → is_visited s k ≡ true) ks
      → All (λ k. is_visited s k ≡ true) (select (λ k. is_some (get by_id k)) ks)
  prerequisites_visited s [] h = tt
  prerequisites_visited s (k ∷ ks) h = elim (Bool-cases (is_some (get by_id k))) [
    | inl here ↦ rw here ((h.0 here, prerequisites_visited s ks h.1))
    | inr gone ↦ rw gone (prerequisites_visited s ks h.1)
  ]

  module _ (id : String) (p : DiscoveredPlugin) (named : p.manifest.id ≡ id) (s : Visits)
      (inv : Inv s) (fresh : is_visited s id ≡ false) where
    ids-closed : plugin_ids (closed id p s).sorted ≡ plugin_ids s.sorted ++ p.manifest.id ∷ []
    ids-closed = map-append _ s.sorted (p ∷ [])

    absent : contains (plugin_ids s.sorted) p.manifest.id ≡ false
    absent = ap (contains (plugin_ids s.sorted)) named ∙ sym (inv.listed id) ∙ fresh

    listed-closed :
        (k : String) → is_visited (closed id p s) k ≡ contains (plugin_ids (closed id p s).sorted) k
    unfolding contains
    listed-closed k =
        ap (λ o. value_or o false) (get-put s.visited id k true)
        ∙ ground
            (arith, inv.listed k, eq_iff id k, contains-append (plugin_ids s.sorted) (id ∷ []) k)
        ∙ ap (λ i. contains (plugin_ids s.sorted ++ i ∷ []) k) (sym named)
        ∙ ap (λ l. contains l k) (sym ids-closed)

    -- A plugin may be closed when its children are visited and it is not.
    pub closed-Inv :
        get by_id id ≡ some p
        → All (λ k. is_some (get by_id k) ≡ true → is_visited s k ≡ true) (children p)
        → Inv (closed id p s)
    unfolding contains
    closed-Inv there done = record {
      listed = listed-closed;
      ordered = InOrder-snoc s.sorted [] p inv.ordered (
          All-map _ _ (prerequisites by_id p) (λ k h. sym (inv.listed k) ∙ h)
            (prerequisites_visited s (children p) done));
      distinct =
          subst Distinct (sym ids-closed)
            (Distinct-snoc (plugin_ids s.sorted) p.manifest.id inv.distinct absent);
      filed = All-append _ s.sorted (p ∷ []) inv.filed ((ap (get by_id) named ∙ there, tt));
    }

  pub opened-Inv : (id : String) (s : Visits) → Inv s → Inv (opened id s)
  opened-Inv id s inv = record {
    listed = inv.listed;
    ordered = inv.ordered;
    distinct = inv.distinct;
    filed = inv.filed;
  }

  pub is_visiting-opened :
      (id k : String) (s : Visits) → is_visiting (opened id s) k ≡ (str_eq id k || is_visiting s k)
  is_visiting-opened id k s =
      ap (λ o. value_or o false) (get-put s.visiting id k true) ∙ ground arith

  -- A plugin that is opened, whose children are visited, and that is then closed.
  pub closed-After :
      (id : String) (p : DiscoveredPlugin) (s t : Visits)
      → p.manifest.id ≡ id
      → get by_id id ≡ some p
      → is_visited s id ≡ false
      → is_visiting s id ≡ false
      → After (opened id s) t
      → All (λ k. is_some (get by_id k) ≡ true → is_visited t k ≡ true) (children p)
      → After s (closed id p t)
  closed-After id p s t named there new idle a done = record {
    inv =
        closed-Inv id p named t a.inv
          (a.kept id (is_visiting-opened id id s ∙ ground (arith, str_eq_self id)) ∙ new) there
          done;
    grows = λ k h.
        ap (λ o. value_or o false) (get-put t.visited id k true) ∙ ground (arith, a.grows k h);
    same = λ k.
        ap (λ o. value_or o false) (get-put t.visiting id k false)
        ∙ ground (arith, a.same k, is_visiting-opened id k s, eq_iff id k);
    kept = λ k h.
        ap (λ o. value_or o false) (get-put t.visited id k true)
        ∙ ground (arith, a.kept k, is_visiting-opened id k s, eq_iff id k);
  }
