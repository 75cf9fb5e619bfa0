-- ===== src/Report/Options.antt =====
-- The run-time parameters of src/tm_report.c: `tm_report_init` and `tm_report_init_argv`.
pub mod Accepted
use thread_metric_benchmark.Base.{
  ℕ, zero, suc, ◌+◌, ◌-◌, ◌*◌, ◌^◌, Bool, true, false, not, ◌&&◌, ◌||◌, Option, none, some, List,
  [], ◌∷◌, leb, ◌==◌, if◌then◌else◌, ℤ, pos, negsuc, ltb_ℤ, leb_ℤ, int_max, Bytes, codes,
}

-- `tm_test_duration` and `tm_test_cycles`.
pub record Params : Type 0 where
  pub duration : ℤ
  pub cycles : ℤ

-- What the C library's `strtol` reports: the value, where `*end` points, whether anything was
-- read (`end != str`), and whether `errno` is ERANGE.
pub record Strtol : Type 0 where
  pub val : ℤ
  pub rest : Bytes
  pub consumed : Bool
  pub range_error : Bool

abbrev pub is_space : ℕ → Bool
is_space c = c == b' ' || leb 9 c && leb c 13

abbrev pub is_digit : ℕ → Bool
is_digit c = leb b'0' c && leb c b'9'

abbrev pub long_max : ℕ
long_max = 2 ^ 63 - 1

-- `*end == '\0'`
abbrev pub is_nil : Bytes → Bool
is_nil [] = true
is_nil (c ∷ s) = false

unfoldable pub skip_spaces : Bytes → Bytes
skip_spaces [] = []
skip_spaces (c ∷ s) = if is_space c then skip_spaces s else c ∷ s

-- The digits at the front, behind `acc`, and what follows them.
unfoldable pub scan_digits : ℕ → Bytes → ℕ × Bytes
scan_digits acc [] = (acc, [])
scan_digits acc (c ∷ s) = elim (is_digit c) [
  | true ↦ scan_digits (acc * 10 + (c - b'0')) s
  | false ↦ (acc, c ∷ s)
]

-- `- m`, in the range of `long`.
unfoldable pub negated : ℕ → ℤ
negated zero = pos 0
negated (suc m) = negsuc m

unfoldable pub signed_value : Bool → ℕ → Bytes → Strtol
unfolding negated
signed_value false m rest =
    if leb m long_max
    then record { val = pos m; rest = rest; consumed = true; range_error = false }
    else record { val = pos long_max; rest = rest; consumed = true; range_error = true }
signed_value true m rest =
    if leb m (long_max + 1)
    then record { val = negated m; rest = rest; consumed = true; range_error = false }
    else record { val = negsuc long_max; rest = rest; consumed = true; range_error = true }

-- Behind the sign; `str` is the whole text, which is where `end` points if no digit is found.
unfoldable pub strtol_digits : Bytes → Bool → Bytes → Strtol
unfolding scan_digits signed_value
strtol_digits str minus [] = record {
  val = pos 0;
  rest = str;
  consumed = false;
  range_error = false;
}
strtol_digits str minus (c ∷ s) =
    if is_digit c
    then (let (m, rest) = scan_digits 0 (c ∷ s) in signed_value minus m rest)
    else record { val = pos 0; rest = str; consumed = false; range_error = false }

unfoldable pub strtol_sign : Bytes → Bytes → Strtol
unfolding strtol_digits
strtol_sign str [] = strtol_digits str false []
strtol_sign str (c ∷ s) =
    if c == b'-'
    then strtol_digits str true s
    else if c == b'+'
    then strtol_digits str false s
    else strtol_digits str false (c ∷ s)

-- `strtol (str, &end, 10)` with a 64-bit `long`.
unfoldable pub strtol : Bytes → Strtol
unfolding strtol_sign skip_spaces
strtol str = strtol_sign str (skip_spaces str)

-- The test of both parameters, given the outcome of its lower bound: `errno == 0 && end != env &&
-- *end == '\0' && (the lower bound) && val <= INT_MAX`.
unfoldable pub acceptable : Bool → Strtol → Bool
acceptable lower r =
    not r.range_error && (r.consumed && (is_nil r.rest && (lower && leb_ℤ r.val (pos int_max))))

unfoldable pub set_duration : Bytes → Params → Params
unfolding acceptable
set_duration env p =
    let r = strtol env in
    if acceptable (ltb_ℤ (pos 0) r.val) r then record p { duration = r.val } else p

unfoldable pub set_cycles : Bytes → Params → Params
unfolding acceptable
set_cycles env p =
    let r = strtol env in
    if acceptable (leb_ℤ (pos 0) r.val) r then record p { cycles = r.val } else p

-- `if (env)`: a variable that is not set leaves the parameters alone.
unfoldable pub with_env : Option Bytes → (Bytes → Params → Params) → Params → Params
with_env none f p = p
with_env (some env) f p = f env p

-- On hosted platforms.
unfoldable pub tm_report_init : (getenv : Bytes → Option Bytes) → Params → Params
tm_report_init getenv p =
    with_env (getenv (codes "TM_TEST_CYCLES")) set_cycles
      (with_env (getenv (codes "TM_TEST_DURATION")) set_duration p)

-- `strncmp (arg, prefix, strlen (prefix)) == 0`, with what follows the prefix.
unfoldable pub strip_prefix : Bytes → Bytes → Option Bytes
strip_prefix [] arg = some arg
strip_prefix (c ∷ prefix) [] = none
strip_prefix (c ∷ prefix) (d ∷ arg) = if c == d then strip_prefix prefix arg else none

-- One round of the loop over the arguments.
unfoldable pub init_arg : Bytes → Params → Params
unfolding strip_prefix with_env set_duration set_cycles
init_arg arg p = elim (strip_prefix (codes "--duration=") arg) [
  | some env ↦ set_duration env p
  | none ↦ with_env (strip_prefix (codes "--cycles=") arg) set_cycles p
]

unfoldable pub init_args : List Bytes → Params → Params
unfolding init_arg
init_args [] p = p
init_args (arg ∷ args) p = init_args args (init_arg arg p)

-- On semihosting targets; `argv[0]` is skipped.
unfoldable pub tm_report_init_argv : List Bytes → Params → Params
unfolding init_args
tm_report_init_argv [] p = p
tm_report_init_argv (program ∷ args) p = init_args args p
