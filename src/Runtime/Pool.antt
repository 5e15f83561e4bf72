-- ===== src/Runtime/Pool.antt =====
-- internal/runtime/pool.go. The pool is shared by goroutines, and its lock covers only the test of
-- the flag `closed`: each operation has atomic parts, with other goroutines between them. The model
-- has one function for each part; a goroutine between its parts is an entry of `pending`. `Close` of
-- an instance concerns only the goroutine that has it, and belongs to the part that took it.
-- Instances are numbers, and `shut` lists those on which `Close` was called.
pub mod Ownership
pub mod Closing
mod Examples
use dragonfly_wasm.Prelude.{
  ℕ, zero, suc, ◌+◌, Bool, true, false, Option, none, some, List, [], ◌∷◌, ◌++◌, ltb, length,
  if◌then◌else◌,
}

pub data PoolError : Type 0 where
  pool_closed pool_exhausted : PoolError
  context_done : PoolError

-- A goroutine behind the first part of `Acquire` or `AcquireWait`, `Release` or `Close`, or in the
-- loop of `Close`, which holds no lock.
pub data Pending : Type 0 where
  acquiring : Pending
  releasing : (instance : ℕ) → Pending
  closing draining : Pending

-- The channel is its buffer, its capacity `size` and whether it is closed. `held` are the instances
-- that callers have; a send on the closed channel is a panic.
pub record Pool : Type 0 where
  pub size : ℕ
  pub channel : List ℕ
  pub channel_closed : Bool
  pub closed : Bool
  pub pending : List Pending
  pub held : List ℕ
  pub shut : List ℕ
  pub panicked : Bool

-- What the second part of an acquisition answers: an instance, the nil instance of a closed
-- channel, or an error; `blocked` is a wait that goes on.
pub data Acquired : Type 0 where
  instance : ℕ → Acquired
  nil_instance blocked : Acquired
  refused : PoolError → Acquired

-- The first part of `Acquire` and `AcquireWait`: the error, if the pool is closed.
unfoldable pub acquire_begin : Pool → Option PoolError × Pool
acquire_begin p =
    if p.closed then (some pool_closed, p) else (none, record p { pending = acquiring ∷ p.pending })

-- An acquisition whose `select` does not take the case of the context.
receive : Bool → List Pending → Pool → List ℕ → Acquired × Pool
receive wait pending p (i ∷ rest) =
    (instance i, record p { channel = rest; held = i ∷ p.held; pending = pending })
receive wait pending p [] =
    if p.channel_closed
    then (nil_instance, record p { pending = pending })
    else if wait
    then (blocked, p)
    else (refused pool_exhausted, record p { pending = pending })

-- The `select` of an acquisition, with `pending` those of the other goroutines. `done` tells
-- whether it takes the case of the context, which it may when the context is over, and `wait`
-- whether it has no `default`, as in `AcquireWait`.
unfoldable pub acquire_end : Bool → Bool → List Pending → Pool → Acquired × Pool
unfolding receive
acquire_end wait done pending p =
    if done
    then (refused context_done, record p { pending = pending })
    else receive wait pending p p.channel

-- The first part of `Release`, of an instance that the caller holds with `others`.
unfoldable pub release_begin : ℕ → List ℕ → Pool → Pool
release_begin i others p =
    if p.closed
    then record p { held = others; shut = i ∷ p.shut }
    else record p { held = others; pending = releasing i ∷ p.pending }

-- The `select` of `Release`.
unfoldable pub release_end : ℕ → List Pending → Pool → Pool
release_end i pending p =
    if p.channel_closed
    then record p { pending = pending; panicked = true }
    else if ltb (length p.channel) p.size
    then record p { pending = pending; channel = p.channel ++ i ∷ [] }
    else record p { pending = pending; shut = i ∷ p.shut }

unfoldable pub close_begin : Pool → Pool
close_begin p = if p.closed then p else record p { closed = true; pending = closing ∷ p.pending }

-- close(p.instances)
unfoldable pub close_channel : List Pending → Pool → Pool
close_channel pending p = record p { channel_closed = true; pending = draining ∷ pending }

-- One round of the loop of `Close`: it receives an instance and closes it, or ends when the closed
-- channel is empty.
unfoldable pub drain : List Pending → List ℕ → Pool → Pool
drain pending [] p = record p { pending = pending }
drain pending (i ∷ rest) p = record p {
  channel = rest;
  shut = i ∷ p.shut;
  pending = draining ∷ pending;
}

-- The loop of `NewPool`, of instances that all start.
unfoldable pub filled : ℕ → List ℕ
filled zero = []
filled (suc n) = n ∷ filled n

unfoldable pub new_pool : ℕ → Pool
unfolding filled
new_pool size = record {
  size = size;
  channel = filled size;
  channel_closed = false;
  closed = false;
  pending = [];
  held = [];
  shut = [];
  panicked = false;
}
