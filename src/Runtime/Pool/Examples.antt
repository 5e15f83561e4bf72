-- ===== src/Runtime/Pool/Examples.antt =====
-- Runs of the pool, and its theorems at concrete inputs.
use dragonfly_wasm.Prelude.{◌≡◌, refl, true, false, [], ◌∷◌, ◌++◌}
use dragonfly_wasm.Runtime.Pool.{acquiring, Pool, instance, acquire_begin, acquire_end, new_pool}
use dragonfly_wasm.Runtime.Pool.Ownership.{
  Reach, here, next, acquires, acquired, IsOwned, Reach-IsOwned,
}
use dragonfly_wasm.Runtime.Pool.Closing.{release_can_panic}

abbrev two : Pool
two = new_pool 2

abbrev waiting : Pool
waiting = (acquire_begin two).1

first-taken : (acquire_end false false [] waiting).0 ≡ instance 1
unfolding new_pool acquire_begin acquire_end
first-taken = refl

waiting-pending : waiting.pending ≡ [] ++ acquiring ∷ []
unfolding new_pool acquire_begin
waiting-pending = refl

Reach-IsOwned_example : IsOwned 2 (acquire_end false false [] waiting).1
Reach-IsOwned_example =
    Reach-IsOwned 2
      (next (next here (acquires two)) (acquired false false [] [] waiting waiting-pending))

release_can_panic_example : (p : Pool) × Reach (new_pool 1) p × (p.panicked ≡ true)
release_can_panic_example = release_can_panic 0
