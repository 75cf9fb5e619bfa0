-- ===== src/Base/Int.antt =====
-- C integers: `int` as a signed integer, `unsigned long` (64 bits) as a number below 2 ^ 64.
use Prim.Native.Nat.{ℕ, suc, ◌+◌, ◌-◌, ◌%◌, ◌^◌, ◌≤◌}
use mathlib.Core.Bool.{Bool}
use thread_metric_benchmark.Base.Tests.{ltb, leb}

-- `negsuc n` is -(n + 1).
pub data ℤ : Type 0 where
  pos : ℕ → ℤ
  negsuc : ℕ → ℤ

abbrev pub pos_part : ℤ → ℕ
pos_part (pos n) = n
pos_part (negsuc n) = 0

abbrev pub neg_part : ℤ → ℕ
neg_part (pos n) = 0
neg_part (negsuc n) = suc n

infix 50 ◌≤ℤ◌
abbrev pub ◌≤ℤ◌ : ℤ → ℤ → Type 0
a ≤ℤ b = pos_part a + neg_part b ≤ pos_part b + neg_part a

abbrev pub ltb_ℤ : ℤ → ℤ → Bool
ltb_ℤ a b = ltb (pos_part a + neg_part b) (pos_part b + neg_part a)

abbrev pub leb_ℤ : ℤ → ℤ → Bool
leb_ℤ a b = leb (pos_part a + neg_part b) (pos_part b + neg_part a)

-- `unsigned long` arithmetic wraps around.
abbrev pub ulong_mod : ℕ
ulong_mod = 2 ^ 64

abbrev pub uint_mod : ℕ
uint_mod = 2 ^ 32

abbrev pub int_max : ℕ
int_max = 2 ^ 31 - 1

abbrev pub add_ulong : ℕ → ℕ → ℕ
add_ulong a b = (a + b) % ulong_mod

abbrev pub sub_ulong : ℕ → ℕ → ℕ
sub_ulong a b = (a + ulong_mod - b) % ulong_mod

-- The conversions of an `int` to `unsigned long` and to `unsigned int`.
abbrev pub to_ulong : ℤ → ℕ
to_ulong (pos n) = n % ulong_mod
to_ulong (negsuc n) = (ulong_mod - 1 - n % ulong_mod) % ulong_mod

abbrev pub to_uint : ℤ → ℕ
to_uint (pos n) = n % uint_mod
to_uint (negsuc n) = (uint_mod - 1 - n % uint_mod) % uint_mod
