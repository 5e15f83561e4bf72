-- ===== src/Runtime/Pool/Ownership.antt =====
-- Where the instances of a pool are, whatever the goroutines do.
use dragonfly_wasm.Prelude.{
  ℕ, zero, suc, ◌+◌, ◌≤◌, ◌≡◌, refl, ◌∙◌, ap, inl, inr, Bool, true, false, Option, List, [], ◌∷◌,
  ◌++◌, ◌==◌, arith, ltb, length, length-append, if◌then◌else◌, Bool-cases,
}
use dragonfly_wasm.Runtime.Pool.{
  Pending, acquiring, releasing, closing, draining, Pool, PoolError, Acquired, acquire_begin,
  receive, acquire_end, release_begin, release_end, close_begin, close_channel, drain, filled,
  new_pool,
}

-- How often an instance stands in a list, and among the pending releases.
abbrev pub times : ℕ → List ℕ → ℕ
times i [] = 0
times i (j ∷ l) = (if j == i then 1 else 0) + times i l

abbrev pub carried : ℕ → Pending → ℕ
carried i acquiring = 0
carried i (releasing j) = if j == i then 1 else 0
carried i closing = 0
carried i draining = 0

abbrev pub times_pending : ℕ → List Pending → ℕ
times_pending i [] = 0
times_pending i (x ∷ l) = carried i x + times_pending i l

-- How often an instance is anywhere.
abbrev pub copies : ℕ → Pool → ℕ
copies i p = times i p.channel + times i p.held + times_pending i p.pending + times i p.shut

times-append : (i : ℕ) (xs ys : List ℕ) → times i (xs ++ ys) ≡ times i xs + times i ys
times-append i [] ys = omega arith
times-append i (x ∷ xs) ys = omega (arith, times-append i xs ys)

times_pending-append :
    (i : ℕ) (xs ys : List Pending)
    → times_pending i (xs ++ ys) ≡ times_pending i xs + times_pending i ys
times_pending-append i [] ys = omega arith
times_pending-append i (x ∷ xs) ys = omega (arith, times_pending-append i xs ys)

-- One part of an operation, by any goroutine.
pub data Step : Pool → Pool → Type 0 where
  acquires : (p : Pool) → Step p (acquire_begin p).1
  acquired :
      (wait done : Bool) (before after : List Pending) (p : Pool)
      → p.pending ≡ before ++ acquiring ∷ after
      → Step p (acquire_end wait done (before ++ after) p).1
  releases :
      (i : ℕ) (before after : List ℕ) (p : Pool)
      → p.held ≡ before ++ i ∷ after
      → Step p (release_begin i (before ++ after) p)
  released :
      (i : ℕ) (before after : List Pending) (p : Pool)
      → p.pending ≡ before ++ releasing i ∷ after
      → Step p (release_end i (before ++ after) p)
  closes : (p : Pool) → Step p (close_begin p)
  closed_channel :
      (before after : List Pending) (p : Pool)
      → p.pending ≡ before ++ closing ∷ after
      → Step p (close_channel (before ++ after) p)
  drains :
      (before after : List Pending) (p : Pool)
      → p.pending ≡ before ++ draining ∷ after
      → Step p (drain (before ++ after) p.channel p)

pub data Reach (p : Pool) : Pool → Type 0 where
  here : Reach p p
  next : {q r : Pool} → Reach p q → Step q r → Reach p r

-- The channel is within its capacity, and, unless a goroutine panicked, every one of the pool's
-- instances is in one place: waiting, with a caller, on the way back, or closed.
pub record IsOwned (size : ℕ) (p : Pool) : Type 0 where
  pub capacity : p.size ≡ size
  pub bounded : length p.channel ≤ size
  pub owned : p.panicked ≡ false → (i : ℕ) → copies i p ≡ times i (filled size)

-- What holds of both branches of a test.
if_keeps {ℓ κ} :
    {A : Type ℓ} (P : A → Type κ) (b : Bool) {x y : A} → P x → P y → P (if b then x else y)
if_keeps P true h k = h
if_keeps P false h k = k

receive-IsOwned :
    (size : ℕ) (wait : Bool) (others : List Pending) (p : Pool) (channel : List ℕ)
    → p.channel ≡ channel
    → ((i : ℕ) → times_pending i p.pending ≡ times_pending i others)
    → IsOwned size p
    → IsOwned size (receive wait others p channel).1
unfolding receive
receive-IsOwned size wait others p (i ∷ rest) e h v = record {
  capacity = v.capacity;
  bounded = omega (arith, v.bounded, ap length e);
  owned = λ calm j. ground (arith, v.owned calm j, h j, ap (times j) e);
}
receive-IsOwned size wait others p [] e h v =
    if_keeps (λ (r : Acquired × Pool). IsOwned size r.1) p.channel_closed (without_pending v)
      (if_keeps (λ (r : Acquired × Pool). IsOwned size r.1) wait v (without_pending v))
  where
    without_pending : IsOwned size p → IsOwned size (record p { pending = others })
    without_pending w = record {
      capacity = w.capacity;
      bounded = w.bounded;
      owned = λ calm j. omega (arith, w.owned calm j, h j);
    }

module _ (size : ℕ) where
  settled :
      (x : Pending) (before after : List Pending) (p : Pool) (i : ℕ)
      → p.pending ≡ before ++ x ∷ after
      → times_pending i p.pending ≡ carried i x + times_pending i (before ++ after)
  settled x before after p i e =
      ap (times_pending i) e
      ∙ times_pending-append i before (x ∷ after)
      ∙ omega (arith, times_pending-append i before after)

  acquire_end-IsOwned :
      (wait done : Bool) (before after : List Pending) (p : Pool)
      → p.pending ≡ before ++ acquiring ∷ after
      → IsOwned size p
      → IsOwned size (acquire_end wait done (before ++ after) p).1
  unfolding acquire_end
  acquire_end-IsOwned wait true before after p e v = record {
    capacity = v.capacity;
    bounded = v.bounded;
    owned = λ calm i. omega (arith, v.owned calm i, settled acquiring before after p i e);
  }
  acquire_end-IsOwned wait false before after p e v =
      receive-IsOwned size wait (before ++ after) p p.channel refl
        (λ i. omega (arith, settled acquiring before after p i e)) v

  release_begin-IsOwned :
      (i : ℕ) (before after : List ℕ) (p : Pool)
      → p.held ≡ before ++ i ∷ after
      → IsOwned size p
      → IsOwned size (release_begin i (before ++ after) p)
  unfolding release_begin
  release_begin-IsOwned i before after p e v = elim (Bool-cases p.closed) [
    | inl t ↦ rw t (record {
      capacity = v.capacity;
      bounded = v.bounded;
      owned = λ calm j. omega (arith, v.owned calm j, given j);
    })
    | inr f ↦ rw f (record {
      capacity = v.capacity;
      bounded = v.bounded;
      owned = λ calm j. omega (arith, v.owned calm j, given j);
    })
  ]
    where
      given : (j : ℕ) → times j p.held ≡ (if i == j then 1 else 0) + times j (before ++ after)
      given j =
          ap (times j) e
          ∙ times-append j before (i ∷ after)
          ∙ omega (arith, times-append j before after)

  release_end-IsOwned :
      (i : ℕ) (before after : List Pending) (p : Pool)
      → p.pending ≡ before ++ releasing i ∷ after
      → IsOwned size p
      → IsOwned size (release_end i (before ++ after) p)
  unfolding release_end
  release_end-IsOwned i before after p e v = elim (Bool-cases p.channel_closed) [
    | inl t ↦
        rw t (record { capacity = v.capacity; bounded = v.bounded; owned = λ calm j. absurd cc })
    | inr f ↦ elim (Bool-cases (ltb (length p.channel) p.size)) [
      | inl t ↦
          rw (f, t)
            (record {
              capacity = v.capacity;
              bounded = ground (arith, length-append p.channel (i ∷ []), v.capacity);
              owned = λ calm j. omega (
                arith,
                v.owned calm j,
                times-append j p.channel (i ∷ []),
                settled (releasing i) before after p j e,
              );
            })
      | inr g ↦
          rw (f, g)
            (record {
              capacity = v.capacity;
              bounded = v.bounded;
              owned =
                  λ calm j. omega (arith, v.owned calm j, settled (releasing i) before after p j e);
            })
    ]
  ]

  drain-IsOwned :
      (before after : List Pending) (p : Pool) (channel : List ℕ)
      → p.pending ≡ before ++ draining ∷ after
      → p.channel ≡ channel
      → IsOwned size p
      → IsOwned size (drain (before ++ after) channel p)
  unfolding drain
  drain-IsOwned before after p [] e c v = record {
    capacity = v.capacity;
    bounded = v.bounded;
    owned = λ calm i. omega (arith, v.owned calm i, settled draining before after p i e);
  }
  drain-IsOwned before after p (i ∷ rest) e c v = record {
    capacity = v.capacity;
    bounded = omega (arith, v.bounded, ap length c);
    owned = λ calm j.
        omega (arith, v.owned calm j, settled draining before after p j e, ap (times j) c);
  }

  Step-IsOwned : {p q : Pool} → Step p q → IsOwned size p → IsOwned size q
  unfolding acquire_begin close_begin close_channel
  Step-IsOwned (acquires p) v =
      if_keeps (λ (r : Option PoolError × Pool). IsOwned size r.1) p.closed v
        (record {
          capacity = v.capacity;
          bounded = v.bounded;
          owned = λ calm i. omega (arith, v.owned calm i);
        })
  Step-IsOwned (acquired wait done before after p e) v =
      acquire_end-IsOwned wait done before after p e v
  Step-IsOwned (releases i before after p e) v = release_begin-IsOwned i before after p e v
  Step-IsOwned (released i before after p e) v = release_end-IsOwned i before after p e v
  Step-IsOwned (closes p) v = if_keeps (IsOwned size) p.closed v (record {
    capacity = v.capacity;
    bounded = v.bounded;
    owned = λ calm i. omega (arith, v.owned calm i);
  })
  Step-IsOwned (closed_channel before after p e) v = record {
    capacity = v.capacity;
    bounded = v.bounded;
    owned = λ calm i. omega (arith, v.owned calm i, settled closing before after p i e);
  }
  Step-IsOwned (drains before after p e) v = drain-IsOwned before after p p.channel e refl v

length-filled : (n : ℕ) → length (filled n) ≡ n
unfolding filled
length-filled zero = refl
length-filled (suc n) = ap suc (length-filled n)

-- Whatever goroutines call `Acquire`, `AcquireWait`, `Release` and `Close`, in any interleaving of
-- the parts of these calls and of the rounds in which `Close` drains the channel, where a caller
-- releases only what it holds: the channel stays within
-- the pool's size, and, unless a goroutine panicked, each of the pool's instances is in exactly one
-- place, waiting in the channel, with a caller, on its way back, or closed.
pub Reach-IsOwned : (size : ℕ) {p : Pool} → Reach (new_pool size) p → IsOwned size p
unfolding new_pool
Reach-IsOwned size here = record {
  capacity = refl;
  bounded = omega (arith, length-filled size);
  owned = λ calm i. omega arith;
}
Reach-IsOwned size (next r s) = Step-IsOwned size s (Reach-IsOwned size r)
