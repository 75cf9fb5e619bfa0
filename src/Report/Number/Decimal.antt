-- ===== src/Report/Number/Decimal.antt =====
-- What the decimal prints of src/tm_report.c spell.
use mathlib.Core.Option.{get_or}
use native.Mathlib.Nat.{pow-suc}
use thread_metric_benchmark.Base.{
  ℕ, zero, suc, ◌+◌, ◌-◌, ◌*◌, ◌/◌, ◌%◌, ◌^◌, ◌≤◌, ◌<◌, ◌≡◌, refl, ◌≢◌, Option, some, [], ◌∷◌, ◌++◌,
  append_assoc, append-nil, arith, length, length-append, All, ℤ, pos, negsuc, ulong_mod, uint_mod,
  int_max, to_ulong, to_uint, Bytes, codes,
}
use thread_metric_benchmark.Report.Number.{fill_buf, print_unsigned_long, print_int, buf_size}

abbrev pub IsDigit : ℕ → Type 0
IsDigit c = (b'0' ≤ c) × (c ≤ b'9')

-- The number that digits spell behind `acc`.
abbrev pub value : ℕ → Bytes → ℕ
value acc [] = acc
value acc (c ∷ s) = value (acc * 10 + (c - b'0')) s

abbrev pub NoLeadingZero : Bytes → Type 0
NoLeadingZero [] = Unit
NoLeadingZero (c ∷ s) = c ≢ b'0'

-- `ds` is the decimal print of a positive `n`.
pub record Spells (n : ℕ) (ds : Bytes) : Type 0 where
  pub digits : All IsDigit ds
  pub spelt : value 0 ds ≡ n
  pub leading : NoLeadingZero ds

value-append : (acc : ℕ) (xs ys : Bytes) → value acc (xs ++ ys) ≡ value (value acc xs) ys
value-append acc [] ys = refl
value-append acc (x ∷ xs) ys = value-append (acc * 10 + (x - b'0')) xs ys

All-IsDigit-append : (xs ys : Bytes) → All IsDigit xs → All IsDigit ys → All IsDigit (xs ++ ys)
All-IsDigit-append [] ys hx hy = hy
All-IsDigit-append (x ∷ xs) ys hx hy = (hx.0, All-IsDigit-append xs ys hx.1 hy)

last_leading :
    (n d : ℕ) (ds : Bytes)
    → value 0 ds ≡ n
    → NoLeadingZero ds
    → 0 < n * 10 + d
    → NoLeadingZero (ds ++ (b'0' + d) ∷ [])
last_leading n d [] h l p = ground arith
last_leading n d (c ∷ ds) h l p = l

no_digits : Spells 0 []
no_digits = record { digits = tt; spelt = refl; leading = tt }

-- One more digit behind the print of the tenth.
Spells-append :
    (n : ℕ) (ds : Bytes) → Spells (n / 10) ds → 0 < n → Spells n (ds ++ (b'0' + n % 10) ∷ [])
Spells-append n ds s p = record {
  digits = All-IsDigit-append ds _ s.digits (omega arith);
  spelt = rw value-append (omega (arith, s.spelt));
  leading = last_leading (n / 10) (n % 10) ds s.spelt s.leading (omega arith);
}

-- A number below 10 ^ k takes k places at most.
fill_buf_lem :
    (k room n : ℕ) (buf : Bytes)
    → n < 10 ^ k
    → k ≤ room
    → (ds : Bytes) × (fill_buf room n buf ≡ some (ds ++ buf)) × Spells n ds × (length ds ≤ k)
unfolding fill_buf
fill_buf_lem k zero zero buf h r = ([], refl, no_digits, omega arith)
fill_buf_lem k (suc room) zero buf h r = ([], refl, no_digits, omega arith)
fill_buf_lem zero room (suc v) buf h r = absurd (omega arith)
fill_buf_lem (suc k) zero (suc v) buf h r = absurd (omega arith)
fill_buf_lem (suc k) (suc room) (suc v) buf h r =
    let (ds, e, s, l) =
      fill_buf_lem k room (suc v / 10) ((b'0' + suc v % 10) ∷ buf) (omega (arith, pow-suc 10 k))
        (omega arith) in
    (
      ds ++ (b'0' + suc v % 10) ∷ [],
      rw append_assoc e,
      Spells-append (suc v) ds s (omega arith),
      omega (arith, length-append ds ((b'0' + suc v % 10) ∷ [])),
    )

-- For a positive n below 2 ^ 64 the print writes the decimal digits of n without a leading zero,
-- at most twenty of them, and does not write outside its buffer of 21 bytes.
pub print_unsigned_long_lem :
    (n : ℕ)
    → 0 < n
    → n < ulong_mod
    → (ds : Bytes) × (print_unsigned_long n ≡ some ds) × Spells n ds × (length ds ≤ 20)
unfolding print_unsigned_long
print_unsigned_long_lem zero p h = absurd (omega arith)
print_unsigned_long_lem (suc v) p h =
    let (ds, e, s, l) = fill_buf_lem 20 buf_size (suc v) [] (omega arith) (omega arith) in
    (ds, rw append-nil at e, s, l)

print_int_step :
    (n m : ℕ) (ds : Bytes)
    → (uint_mod - to_uint (negsuc n)) % uint_mod ≡ m
    → print_unsigned_long m ≡ some ds
    → print_int (negsuc n) ≡ some (b'-' ∷ ds)
unfolding print_int
print_int_step n m ds magnitude e = rw (magnitude, e)

-- A negative int, the least one included, is printed as a minus sign and the decimal digits of its
-- magnitude, without a leading zero.
pub print_int-negsuc :
    (n : ℕ)
    → n ≤ int_max
    → (ds : Bytes) × (print_int (negsuc n) ≡ some (b'-' ∷ ds)) × Spells (n + 1) ds
print_int-negsuc n h =
    let (ds, e, s, l) = print_unsigned_long_lem (n + 1) (omega arith) (omega arith) in
    (ds, print_int_step n (n + 1) ds (omega arith) e, s)

-- The bytes that a print gives, for statements.
abbrev pub shown : ℕ → Bytes
shown n = get_or (print_unsigned_long n) []

abbrev pub shown_int : ℤ → Bytes
shown_int z = get_or (print_int z) []

abbrev pub IsInt : ℤ → Type 0
IsInt (pos n) = n ≤ int_max
IsInt (negsuc n) = n ≤ int_max

get_or-some : {o : Option Bytes} {s : Bytes} → o ≡ some s → o ≡ some (get_or o [])
get_or-some e = rw e

pub print_unsigned_long-shown : (n : ℕ) → n < ulong_mod → print_unsigned_long n ≡ some (shown n)
print_unsigned_long-shown zero h = unfold print_unsigned_long in refl
print_unsigned_long-shown (suc v) h =
    get_or-some (print_unsigned_long_lem (suc v) (omega arith) h).1

print_int-pos :
    (n m : ℕ) (ds : Bytes)
    → to_ulong (pos n) ≡ m
    → print_unsigned_long m ≡ some ds
    → print_int (pos n) ≡ some ds
unfolding print_int
print_int-pos n m ds small e = rw (small, e)

pub print_int-shown : (z : ℤ) → IsInt z → print_int z ≡ some (shown_int z)
print_int-shown (pos n) h =
    get_or-some (print_int-pos n n _ (omega arith) (print_unsigned_long-shown n (omega arith)))
print_int-shown (negsuc n) h = get_or-some (print_int-negsuc n h).1

max_ulong_runs : print_unsigned_long (2 ^ 64 - 1) ≡ some (codes "18446744073709551615")
unfolding print_unsigned_long
max_ulong_runs = refl

int_min_runs : print_int (negsuc int_max) ≡ some (codes "-2147483648")
unfolding print_int print_unsigned_long
int_min_runs = refl
