-- ===== src/Events/Worlds.antt =====
-- What a dispatch does to the state that its handlers work on.
use dragonfly_wasm.Prelude.{ℕ, Bool-cases, inl, inr, List, [], ◌∷◌, ◌&&◌}
use dragonfly_wasm.Prelude.Int.{ℤ}
use dragonfly_wasm.Plugin.Manifest.{EventType}
use dragonfly_wasm.Events.{
  Subscription, Dispatcher, DispatchResult, HandlerReturn, empty_result, subs_of, visit, visit_all,
  dispatch, dispatch_to,
}

module _ {H W : Type 0} (invoke : H → List ℕ → W → HandlerReturn × W) (P : W → Type 0)
    (step : (h : H) (serialized : List ℕ) (w : W) → P w → P (invoke h serialized w).1) where
  visit_keeps :
      (serialized : List ℕ) (sub : Subscription H) (s : DispatchResult × W)
      → P s.1
      → P (visit invoke serialized sub s).1
  unfolding visit
  visit_keeps serialized sub (r, w) h = elim (Bool-cases (r.cancelled && sub.ignore_cancelled)) [
    | inl t ↦ rw t h
    | inr f ↦ rw f (step sub.handler serialized w h)
  ]

  visit_all_keeps :
      (serialized : List ℕ) (subs : List (Subscription H)) (s : DispatchResult × W)
      → P s.1
      → P (visit_all invoke serialized subs s).1
  unfolding visit_all
  visit_all_keeps serialized [] s h = h
  visit_all_keeps serialized (sub ∷ subs) s h =
      visit_all_keeps serialized subs (visit invoke serialized sub s)
        (visit_keeps serialized sub s h)

  -- What every handler keeps, a dispatch keeps.
  pub dispatch_keeps :
      (d : Dispatcher H) (event : EventType) (serialized : List ℕ) (elapsed : ℤ) (w : W)
      → P w
      → P (dispatch invoke d event serialized elapsed w).2
  unfolding dispatch
  dispatch_keeps d event serialized elapsed w h = to (subs_of d event)
    where
      to :
          (subs : List (Subscription H))
          → P (dispatch_to invoke subs d event serialized elapsed w).2
      to [] = unfold dispatch_to in h
      to (sub ∷ subs) =
          unfold dispatch_to in visit_all_keeps serialized (sub ∷ subs) (empty_result, w) h
