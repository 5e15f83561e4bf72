-- ===== src/Prelude/Int.antt =====
-- Signed integers over the native numbers, and the wrap-around of Go's 64-bit `int`.
use Prim.Native.Nat.{ℕ, suc, ◌+◌, ◌-◌, ◌*◌, ◌/◌, ◌%◌, ◌^◌, ◌≤◌, ◌<◌}
use mathlib.Core.Path.{◌≡◌}
use mathlib.Core.Bool.{Bool, false}
use mathlib.Core.Option.{Option, none, some}
use native.Mathlib.Omega.{arith}
use dragonfly_wasm.Prelude.Tests.{ltb, leb, ◌==◌, if◌then◌else◌}

-- `negsuc n` is -(n + 1).
pub data ℤ : Type 0 where
  pos : ℕ → ℤ
  negsuc : ℕ → ℤ

abbrev pub pos_part : ℤ → ℕ
pos_part (pos n) = n
pos_part (negsuc n) = 0

abbrev pub neg_part : ℤ → ℕ
neg_part (pos n) = 0
neg_part (negsuc n) = suc n

-- a - b, as an integer.
abbrev pub sub_ℕ : ℕ → ℕ → ℤ
sub_ℕ a b = if leb b a then pos (a - b) else negsuc (b - a - 1)

infixl 65 ◌+ℤ◌ ◌-ℤ◌
infixl 70 ◌*ℤ◌
infix 50 ◌≤ℤ◌ ◌<ℤ◌
abbrev pub ◌+ℤ◌ : ℤ → ℤ → ℤ
a +ℤ b = sub_ℕ (pos_part a + pos_part b) (neg_part a + neg_part b)

abbrev pub ◌-ℤ◌ : ℤ → ℤ → ℤ
a -ℤ b = sub_ℕ (pos_part a + neg_part b) (neg_part a + pos_part b)

abbrev pub ◌*ℤ◌ : ℤ → ℤ → ℤ
a *ℤ b =
    sub_ℕ (pos_part a * pos_part b + neg_part a * neg_part b)
      (pos_part a * neg_part b + neg_part a * pos_part b)

abbrev pub ◌≤ℤ◌ : ℤ → ℤ → Type 0
a ≤ℤ b = pos_part a + neg_part b ≤ pos_part b + neg_part a

abbrev pub ◌<ℤ◌ : ℤ → ℤ → Type 0
a <ℤ b = pos_part a + neg_part b < pos_part b + neg_part a

abbrev pub ltb_ℤ : ℤ → ℤ → Bool
ltb_ℤ a b = ltb (pos_part a + neg_part b) (pos_part b + neg_part a)

abbrev pub is_zero : ℤ → Bool
is_zero (pos n) = n == 0
is_zero (negsuc n) = false

-- Go's `/` on signed integers goes towards zero, and panics (`none`) on a zero divisor.
abbrev pub quot_ℤ : ℤ → ℤ → ℤ
quot_ℤ (pos n) (pos m) = pos (n / m)
quot_ℤ (pos n) (negsuc m) = sub_ℕ 0 (n / suc m)
quot_ℤ (negsuc n) (pos m) = sub_ℕ 0 (suc n / m)
quot_ℤ (negsuc n) (negsuc m) = pos (suc n / suc m)

-- Go's `min` on signed integers.
abbrev pub min_ℤ : ℤ → ℤ → ℤ
min_ℤ a b = if ltb_ℤ b a then b else a

abbrev pub int_half : ℕ
int_half = 2 ^ 63

abbrev pub int_mod : ℕ
int_mod = 2 ^ 64

-- The bit pattern of an integer in 64 bits, and the integer that a pattern stands for.
abbrev pub to_word : ℤ → ℕ
to_word (pos n) = n % int_mod
to_word (negsuc n) = int_mod - 1 - n % int_mod

abbrev pub of_word : ℕ → ℤ
of_word w = if ltb w int_half then pos w else negsuc (int_mod - 1 - w)

-- The value that a 64-bit `int` or `int64` holds after an operation with the exact result `a`.
abbrev pub wrap_int : ℤ → ℤ
wrap_int a = of_word (to_word a)

-- The values of `int` and `int64`.
abbrev pub IsInt : ℤ → Type 0
IsInt a = (pos_part a < int_half) × (neg_part a ≤ int_half)

abbrev pub div_int : ℤ → ℤ → Option ℤ
div_int a b = if is_zero b then none else some (wrap_int (quot_ℤ a b))

pub eq_of_parts : (a b : ℤ) → pos_part a + neg_part b ≡ pos_part b + neg_part a → a ≡ b
eq_of_parts a b h = ground arith

pub wrap_int_id : (a : ℤ) → IsInt a → wrap_int a ≡ a
wrap_int_id a h = ground arith
