-- ===== src/Runtime/Pool/Closing.antt =====
-- A `Close` between the two parts of another operation.
use dragonfly_wasm.Prelude.{ℕ, suc, ◌≡◌, refl, true, false, [], ◌∷◌}
use dragonfly_wasm.Runtime.Pool.{
  acquiring, releasing, closing, draining, Pool, acquire_begin, acquire_end, release_begin,
  release_end, close_begin, close_channel, filled, new_pool,
}
use dragonfly_wasm.Runtime.Pool.Ownership.{
  Reach, here, next, acquires, acquired, releases, released, closes, closed_channel,
}

module _ (n : ℕ) where
  -- The pool when one caller has taken an instance.
  taken : Pool
  taken = record (new_pool (suc n)) { channel = filled n; held = n ∷ [] }

  taken-Reach : Reach (new_pool (suc n)) taken
  unfolding taken new_pool acquire_begin acquire_end filled
  taken-Reach =
      next (next here (acquires (new_pool (suc n))))
        (acquired false false [] [] (record (new_pool (suc n)) { pending = acquiring ∷ [] }) refl)

  -- The caller has begun to release it, and another goroutine has closed the pool.
  racing : Pool
  unfolding taken
  racing = record taken {
    held = [];
    pending = draining ∷ releasing n ∷ [];
    closed = true;
    channel_closed = true;
  }

  racing-Reach : Reach (new_pool (suc n)) racing
  unfolding taken racing new_pool release_begin close_begin close_channel filled
  racing-Reach =
      next
        (next (next taken-Reach (releases n [] [] taken refl))
          (closes (record taken { held = []; pending = releasing n ∷ [] })))
        (closed_channel [] (releasing n ∷ [])
          (record taken { held = []; pending = closing ∷ releasing n ∷ []; closed = true }) refl)

  -- Every pool with room for an instance can reach a state in which a `Release` has sent on the
  -- channel that a `Close` had closed since the test of the flag, which is a panic.
  pub release_can_panic : (p : Pool) × Reach (new_pool (suc n)) p × (p.panicked ≡ true)
  unfolding racing release_end taken
  release_can_panic = (
    release_end n (draining ∷ []) racing,
    next racing-Reach (released n (draining ∷ []) [] racing refl),
    refl,
  )
