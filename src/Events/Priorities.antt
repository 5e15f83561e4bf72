-- ===== src/Events/Priorities.antt =====
-- The order in which the subscriptions to an event stand, and the comparison that makes it.
use mathlib.Core.List.{Perm}
use dragonfly_wasm.Prelude.{
  ◌^◌, ◌≡◌, sym, ◌∙◌, subst, str_eq_self, ◌≢◌, Bool, true, ◌&&◌, List, [], ◌∷◌, ◌++◌, str_eq,
  eq_iff, arith, ltb, leb, All, All-append, if◌then◌else◌, get-put, text_cases, inl, inr,
}
use dragonfly_wasm.Prelude.Int.{ℤ, pos, ◌-ℤ◌, ◌≤ℤ◌, ◌<ℤ◌, IsInt, int_half, pos_part, neg_part}
use dragonfly_wasm.Prelude.Sorting.{Sorter, IsSortedBy, Agrees, is_negative, All-perm}
use dragonfly_wasm.Plugin.Manifest.{EventType}
use dragonfly_wasm.Events.{Subscription, Dispatcher, subs_of, compare_priority, subscribe}

-- Priorities from -2^62 to 2^62 - 1, whose differences fit an `int`.
abbrev pub in_range : ℤ → Bool
in_range p = ltb (pos_part p) (2 ^ 62) && leb (neg_part p) (2 ^ 62)

module _ {H : Type 0} where
  -- The comparison orders two subscriptions as their priorities whenever these are in range.
  pub compare_priority-Agrees :
      Agrees {A = Subscription H} compare_priority (λ s. s.priority) (λ s. in_range s.priority)
  unfolding compare_priority
  compare_priority-Agrees a b h k = ground arith

  -- For priorities so far apart that their difference does not fit an `int`, the comparison is
  -- turned round: the subscription with the much higher priority counts as the lower one.
  pub compare_priority_flips :
      (a b : Subscription H)
      → IsInt a.priority
      → IsInt b.priority
      → pos int_half ≤ℤ a.priority -ℤ b.priority
      → (b.priority <ℤ a.priority) × (is_negative (compare_priority a b) ≡ true)
  unfolding compare_priority
  compare_priority_flips a b h k far = ground arith

  -- Every event's subscriptions are in range and stand by rising priority.
  pub record IsOrdered (d : Dispatcher H) : Type 0 where
    pub within : (e : EventType) → All (λ s. in_range s.priority ≡ true) (subs_of d e)
    pub sorted : (e : EventType) → IsSortedBy (λ s. s.priority) (subs_of d e)

  module _ (sorter : Sorter (Subscription H)) (d : Dispatcher H) (event : EventType)
      (sub : Subscription H) where
    -- The subscriptions to an event behind `subscribe`.
    pub subs_of-subscribe :
        (e : EventType)
        → subs_of (subscribe sorter d event sub) e ≡ (
            if str_eq event e
            then sorter.sort_func compare_priority (subs_of d event ++ sub ∷ [])
            else subs_of d e)
    unfolding subscribe
    subs_of-subscribe e = rw get-put (ground arith)

    listed : List (Subscription H)
    listed = sorter.sort_func compare_priority (subs_of d event ++ sub ∷ [])

    permuted : Perm listed (subs_of d event ++ sub ∷ [])
    unfolding listed
    permuted = sorter.sort_func-perm compare_priority (subs_of d event ++ sub ∷ [])

    at_event :
        (e : EventType) (P : List (Subscription H) → Type 0)
        → P listed
        → P (subs_of d e)
        → P (subs_of (subscribe sorter d event sub) e)
    unfolding listed
    at_event e P new old =
        subst P (sym (subs_of-subscribe e))
          (elim (text_cases event e) [ inl (t, _) ↦ rw t new | inr (f, _) ↦ rw f old ])

    module _ (v : IsOrdered d) (h : in_range sub.priority ≡ true) where
      All-in_range : All (λ s. in_range s.priority ≡ true) (subs_of d event ++ sub ∷ [])
      All-in_range =
          All-append (λ s. in_range s.priority ≡ true) (subs_of d event) (sub ∷ []) (v.within event)
            (h, tt)

      in_order : IsSortedBy (λ s. s.priority) listed
      unfolding listed
      in_order =
          sorter.sort_func-IsSortedBy compare_priority (λ s. s.priority) (λ s. in_range s.priority)
            (subs_of d event ++ sub ∷ []) compare_priority-Agrees All-in_range

      pub subscribe_keeps-IsOrdered : IsOrdered (subscribe sorter d event sub)
      subscribe_keeps-IsOrdered = record {
        within = λ e.
            at_event e (All (λ s. in_range s.priority ≡ true))
              (All-perm (λ s. in_range s.priority) permuted All-in_range) (v.within e);
        sorted = λ e. at_event e (IsSortedBy (λ s. s.priority)) in_order (v.sorted e);
      }

    -- Subscribing with a priority in range keeps every event's subscriptions in the order of their
    -- priorities; the event then has its old subscriptions and the new one, and any other event
    -- the subscriptions that it had.
    pub subscribe-IsOrdered :
        (other : EventType)
        → IsOrdered d
        → in_range sub.priority ≡ true
        → event ≢ other
        → IsOrdered (subscribe sorter d event sub)
          × Perm (subs_of (subscribe sorter d event sub) event) (subs_of d event ++ sub ∷ [])
          × (subs_of (subscribe sorter d event sub) other ≡ subs_of d other)
    unfolding listed
    subscribe-IsOrdered other v h ne = (
      subscribe_keeps-IsOrdered v h,
      subst (λ l. Perm l (subs_of d event ++ sub ∷ []))
          (sym (subs_of-subscribe event ∙ rw (str_eq_self event))) permuted,
      subs_of-subscribe other ∙ ground (arith, eq_iff event other),
    )
