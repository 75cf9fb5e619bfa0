-- ===== src/Report/Number.antt =====
-- Decimal output: `tm_print_unsigned_long` and `tm_print_int` of src/tm_report.c. A print is the
-- list of the bytes that it hands to `tm_putchar`, in order; `none` is a write outside `buf`.
pub mod Decimal
use thread_metric_benchmark.Base.{
  ℕ, zero, suc, ◌+◌, ◌-◌, ◌/◌, ◌%◌, Option, none, some, [], ◌∷◌, ◌>>=◌, ℤ, pos, negsuc, uint_mod,
  to_ulong, to_uint, Bytes,
}

-- `char buf[21]`
abbrev pub buf_size : ℕ
buf_size = 21

-- `while (val > 0)`: `room` is `sizeof buf - i`, and `buf` is what `buf[i - 1]` down to `buf[0]`
-- hold, the order in which the second loop reads it.
unfoldable pub fill_buf : (room val : ℕ) → Bytes → Option Bytes
fill_buf room zero buf = some buf
fill_buf zero (suc val) buf = none
fill_buf (suc room) (suc val) buf = fill_buf room (suc val / 10) ((b'0' + suc val % 10) ∷ buf)

unfoldable pub print_unsigned_long : ℕ → Option Bytes
unfolding fill_buf
print_unsigned_long zero = some (b'0' ∷ [])
print_unsigned_long (suc val) = fill_buf buf_size (suc val) []

-- `-(unsigned) val` is computed in 32 bits, then converted.
unfoldable pub print_int : ℤ → Option Bytes
print_int (negsuc n) = do
  digits ← print_unsigned_long ((uint_mod - to_uint (negsuc n)) % uint_mod)
  some (b'-' ∷ digits)
print_int (pos n) = print_unsigned_long (to_ulong (pos n))
