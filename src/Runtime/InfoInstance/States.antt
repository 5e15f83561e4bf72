-- ===== src/Runtime/InfoInstance/States.antt =====
-- internal/runtime/instance.go: the states of an `Instance` over any sequence of its operations.
use dragonfly_wasm.Prelude.{
  ℕ, String, ◌≡◌, refl, ◌∙◌, ap, inl, inr, Bool, true, false, not, ◌&&◌, Option, none, some, List,
  arith, Bool-cases,
}
use dragonfly_wasm.Prelude.Int.{ℤ}
use dragonfly_wasm.Plugin.Manifest.{EventType, subscribed_to}
use dragonfly_wasm.Plugin.State.{
  State, unloaded, loading, enabling, disabling, is_enabled, is_loaded, is_disabled,
}
use dragonfly_wasm.Plugin.Metrics.{Metrics}
use dragonfly_wasm.Manager.Wasm.{Wasm, CallResult, Answer, done, result}
use dragonfly_wasm.Runtime.InfoInstance.{
  Instance, with_state, CallEnd, value, timed_out, failed, panicked, call, call_late, call_returned,
  call_recorded, call_answered, handle_event, event_called, callback, enable, enable_called,
  disable, disable_called, close, shut_down,
}

-- A state in which an operation may leave an instance.
abbrev pub is_settled : State → Bool
is_settled loading = false
is_settled enabling = false
is_settled disabling = false
is_settled _ = true

abbrev pub is_unloaded : State → Bool
is_unloaded unloaded = true
is_unloaded _ = false

-- A settled state stays one, and unloaded is final.
abbrev Moves : State → State → Type 0
Moves s t =
    (is_settled s ≡ true → is_settled t ≡ true) × (is_unloaded s ≡ true → is_unloaded t ≡ true)

module _ {I W : Type 0} (env : Wasm I W) (outer_err : W → Option String) where
  late-state :
      (i : Instance I) (o : Option String) (w : W)
      → (call_late env outer_err i o w).1.info.state ≡ i.info.state
  unfolding call_late
  late-state i none w = refl
  late-state i (some e) w = refl

  returned-state :
      (i : Instance I) (output : List ℕ) (o : Option String) (m : Metrics) (w : W)
      → (call_returned env outer_err i output o m w).1.info.state ≡ i.info.state
  unfolding call_returned
  returned-state i output none m w = refl
  returned-state i output (some e) m w = refl

  recorded-state :
      (i : Instance I) (r : CallResult) (o : Option Metrics) (w : W)
      → (call_recorded env outer_err i r o w).1.info.state ≡ i.info.state
  unfolding call_recorded
  recorded-state i r none w = refl
  recorded-state i r (some m) w = returned-state i r.output r.err m w

  answered-state :
      (i : Instance I) (start : ℤ) (a : Answer) (w : W)
      → (call_answered env outer_err i start a w).1.info.state ≡ i.info.state
  unfolding call_answered
  answered-state i start (done e) w = late-state i (outer_err w) w
  answered-state i start (result r) w = recorded-state i r _ _

  call-state :
      (i : Instance I) (name : String) (input : List ℕ) (w : W)
      → (call env outer_err i name input w).1.info.state ≡ i.info.state
  unfolding call
  call-state i name input w = answered-state _ _ _ _

  event_called-state :
      (event : EventType) (r : CallEnd (List ℕ) × Instance I × W)
      → (event_called env outer_err event r).1.info.state ≡ r.1.info.state
  unfolding event_called
  event_called-state event (value output, i, w) = refl
  event_called-state event (timed_out, i, w) = refl
  event_called-state event (failed e, i, w) = refl
  event_called-state event (panicked, i, w) = refl

  handle_event-state :
      (i : Instance I) (event : EventType) (input : List ℕ) (w : W)
      → (handle_event env outer_err i event input w).1.info.state ≡ i.info.state
  unfolding handle_event
  handle_event-state i event input w = elim (Bool-cases (subscribed_to i.info.manifest event)) [
    | inl on ↦ rw on (event_called-state event _ ∙ call-state i _ input w)
    | inr off ↦ rw off refl
  ]

module _ {I W : Type 0} (env : Wasm I W) where
  enable_called-Moves :
      (i j : Instance I) (r : Option String × W)
      → is_unloaded i.info.state ≡ false
      → Moves i.info.state (enable_called env j r).1.info.state
  unfolding enable_called
  enable_called-Moves i j (some e, w) h = (λ s. refl, λ u. cc)
  enable_called-Moves i j (none, w) h = (λ s. refl, λ u. cc)

  disable_called-Moves :
      (i j : Instance I) (r : Option String × W)
      → is_unloaded i.info.state ≡ false
      → Moves i.info.state (disable_called env j r).1.info.state
  unfolding disable_called
  disable_called-Moves i j (e, w) h = (λ s. refl, λ u. cc)

  enable-Moves : (i : Instance I) (w : W) → Moves i.info.state (enable env i w).1.info.state
  unfolding enable
  enable-Moves i w =
      elim (Bool-cases (not (is_loaded i.info.state) && not (is_disabled i.info.state))) [
        | inl wrong ↦ rw wrong ((λ s. s, λ u. u))
        | inr right ↦ rw right (
            enable_called-Moves i (with_state i enabling) (callback env "on_enable" i w)
              (open_ i.info.state right))
      ]
    where
      open_ :
          (s : State) → (not (is_loaded s) && not (is_disabled s)) ≡ false → is_unloaded s ≡ false
      open_ s h = ground arith

  disable-Moves : (i : Instance I) (w : W) → Moves i.info.state (disable env i w).1.info.state
  unfolding disable
  disable-Moves i w = elim (Bool-cases (is_enabled i.info.state)) [
    | inl on ↦ rw on (
        disable_called-Moves i (with_state i disabling) (callback env "on_disable" i w)
          (open_ i.info.state on))
    | inr off ↦ rw off ((λ s. s, λ u. u))
  ]
    where
      open_ : (s : State) → is_enabled s ≡ true → is_unloaded s ≡ false
      open_ s h = ground arith

  shut_down-state :
      (i : Instance I) (r : Option String × W) → (shut_down env i r).0.info.state ≡ unloaded
  unfolding shut_down
  shut_down-state i (e, w) = refl

  close-state : (i : Instance I) (w : W) → (close env i w).0.info.state ≡ unloaded
  unfolding close
  close-state i w = elim (Bool-cases (is_enabled i.info.state)) [
    | inl on ↦ rw on (shut_down-state (with_state i disabling) (callback env "on_disable" i w))
    | inr off ↦ rw off (shut_down-state i (none, w))
  ]

module _ {I W : Type 0} (env : Wasm I W) (outer_err : W → Option String) where
  -- One operation of an instance.
  pub data Step : Instance I → Instance I → Type 0 where
    calls :
        (i : Instance I) (name : String) (input : List ℕ) (w : W)
        → Step i (call env outer_err i name input w).1
    handles :
        (i : Instance I) (event : EventType) (input : List ℕ) (w : W)
        → Step i (handle_event env outer_err i event input w).1
    enables : (i : Instance I) (w : W) → Step i (enable env i w).1
    disables : (i : Instance I) (w : W) → Step i (disable env i w).1
    closes : (i : Instance I) (w : W) → Step i (close env i w).0

  pub data Reach (i : Instance I) : Instance I → Type 0 where
    here : Reach i i
    next : {j k : Instance I} → Reach i j → Step j k → Reach i k

  same-Moves : {s t : State} → t ≡ s → Moves s t
  same-Moves e = (λ h. ap is_settled e ∙ h, λ h. ap is_unloaded e ∙ h)

  to-unloaded : (s : State) {t : State} → t ≡ unloaded → Moves s t
  to-unloaded s e = (λ h. ap is_settled e, λ h. ap is_unloaded e)

  Step-Moves : {i j : Instance I} → Step i j → Moves i.info.state j.info.state
  Step-Moves (calls i name input w) = same-Moves (call-state env outer_err i name input w)
  Step-Moves (handles i event input w) =
      same-Moves (handle_event-state env outer_err i event input w)
  Step-Moves (enables i w) = enable-Moves env i w
  Step-Moves (disables i w) = disable-Moves env i w
  Step-Moves (closes i w) = to-unloaded i.info.state (close-state env i w)

  -- Over any sequence of calls, events, `Enable`, `Disable` and `Close`, an instance that begins in
  -- a settled state (unloaded, loaded, enabled, disabled or error) ends in one, so that no operation
  -- leaves it enabling or disabling; and once it is unloaded, it stays unloaded.
  pub Reach-settled :
      {i j : Instance I}
      → Reach i j
      → (is_settled i.info.state ≡ true → is_settled j.info.state ≡ true)
        × (is_unloaded i.info.state ≡ true → is_unloaded j.info.state ≡ true)
  Reach-settled here = (λ h. h, λ h. h)
  Reach-settled (next r s) =
      let first = Reach-settled r in
      let last = Step-Moves s in (λ h. last.0 (first.0 h), λ h. last.1 (first.1 h))
