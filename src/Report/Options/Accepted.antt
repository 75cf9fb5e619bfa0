-- ===== src/Report/Options/Accepted.antt =====
-- Which texts the run-time parameters accept.
use thread_metric_benchmark.Base.{
  ℕ, ◌+◌, ◌-◌, ◌*◌, ◌≤◌, ◌<◌, ◌≡◌, refl, true, false, Option, none, some, List, [], ◌∷◌, arith, All,
  pos, ◌≤ℤ◌, int_max, Bytes, codes,
}
use thread_metric_benchmark.Report.Number.Decimal.{IsDigit, value, Spells}
use thread_metric_benchmark.Report.Options.{
  Params, set_duration, set_cycles, with_env, tm_report_init, strtol, init_arg, strip_prefix,
  init_args, tm_report_init_argv, scan_digits,
}

-- The parameters that the tests rely on: a positive duration, and a number of cycles that is not
-- negative, both within `int`.
pub record IsValid (p : Params) : Type 0 where
  pub positive : pos 1 ≤ℤ p.duration
  pub duration_max : p.duration ≤ℤ pos int_max
  pub nonneg : pos 0 ≤ℤ p.cycles
  pub cycles_max : p.cycles ≤ℤ pos int_max

pub set_duration-IsValid : (env : Bytes) (p : Params) → IsValid p → IsValid (set_duration env p)
unfolding set_duration
set_duration-IsValid env p v = ground arith

pub set_cycles-IsValid : (env : Bytes) (p : Params) → IsValid p → IsValid (set_cycles env p)
unfolding set_cycles
set_cycles-IsValid env p v = ground arith

with_env-IsValid :
    (env : Option Bytes) (f : Bytes → Params → Params) (p : Params)
    → ((s : Bytes) (q : Params) → IsValid q → IsValid (f s q))
    → IsValid p
    → IsValid (with_env env f p)
unfolding with_env
with_env-IsValid none f p keep v = v
with_env-IsValid (some s) f p keep v = keep s p v

-- Whatever the environment holds, parameters with a positive duration and a number of cycles that
-- is not negative, both within int, are so again behind tm_report_init.
pub tm_report_init-IsValid :
    (getenv : Bytes → Option Bytes) (p : Params) → IsValid p → IsValid (tm_report_init getenv p)
unfolding tm_report_init
tm_report_init-IsValid getenv p v =
    with_env-IsValid _ set_cycles _ set_cycles-IsValid
      (with_env-IsValid _ set_duration p set_duration-IsValid v)

init_arg-IsValid : (arg : Bytes) (p : Params) → IsValid p → IsValid (init_arg arg p)
unfolding init_arg
init_arg-IsValid arg p v = branch (strip_prefix (codes "--duration=") arg)
  where
    branch :
        (o : Option Bytes)
        → IsValid (elim o [
          | some env ↦ set_duration env p
          | none ↦ with_env (strip_prefix (codes "--cycles=") arg) set_cycles p
        ])
    branch (some env) = set_duration-IsValid env p v
    branch none = with_env-IsValid _ set_cycles p set_cycles-IsValid v

init_args-IsValid : (args : List Bytes) (p : Params) → IsValid p → IsValid (init_args args p)
unfolding init_args
init_args-IsValid [] p v = v
init_args-IsValid (arg ∷ args) p v = init_args-IsValid args _ (init_arg-IsValid arg p v)

-- Whatever the command line holds, parameters with a positive duration and a number of cycles that
-- is not negative, both within int, are so again behind tm_report_init_argv.
pub tm_report_init_argv-IsValid :
    (argv : List Bytes) (p : Params) → IsValid p → IsValid (tm_report_init_argv argv p)
unfolding tm_report_init_argv
tm_report_init_argv-IsValid [] p v = v
tm_report_init_argv-IsValid (program ∷ args) p v = init_args-IsValid args p v

scan_digits-value :
    (acc : ℕ) (ds : Bytes) → All IsDigit ds → scan_digits acc ds ≡ (value acc ds, [])
unfolding scan_digits
scan_digits-value acc [] h = refl
scan_digits-value acc (c ∷ ds) h = ground (arith, scan_digits-value (acc * 10 + (c - b'0')) ds h.1)

-- `strtol` reads the decimal print of a positive number back.
strtol-Spells :
    (n : ℕ) (ds : Bytes)
    → Spells n ds
    → 0 < n
    → n ≤ int_max
    → strtol ds ≡ record { val = pos n; rest = []; consumed = true; range_error = false }
unfolding strtol
strtol-Spells n [] s p h = absurd (omega (arith, s.spelt))
strtol-Spells n (c ∷ ds) s p h =
    ground (arith, s.digits, s.leading, s.spelt, scan_digits-value 0 (c ∷ ds) s.digits)

set_duration-Spells :
    (n : ℕ) (ds : Bytes) (p : Params)
    → Spells n ds
    → 0 < n
    → n ≤ int_max
    → set_duration ds p ≡ record p { duration = pos n }
unfolding set_duration
set_duration-Spells n ds p s h m = rw (strtol-Spells n ds s h m) (ground arith)

set_cycles-Spells :
    (n : ℕ) (ds : Bytes) (p : Params)
    → Spells n ds
    → 0 < n
    → n ≤ int_max
    → set_cycles ds p ≡ record p { cycles = pos n }
unfolding set_cycles
set_cycles-Spells n ds p s h m = rw (strtol-Spells n ds s h m) (ground arith)

-- If both variables are set to decimal notations without a leading zero, of numbers from 1 to
-- INT_MAX, then tm_report_init sets both parameters to these numbers.
pub tm_report_init-Spells :
    (getenv : Bytes → Option Bytes) (p : Params) (n m : ℕ) (ds es : Bytes)
    → getenv (codes "TM_TEST_DURATION") ≡ some ds
    → getenv (codes "TM_TEST_CYCLES") ≡ some es
    → Spells n ds
    → Spells m es
    → (0 < n) × (n ≤ int_max)
    → (0 < m) × (m ≤ int_max)
    → tm_report_init getenv p ≡ record { duration = pos n; cycles = pos m }
tm_report_init-Spells getenv p n m ds es e f s t hn hm =
    unfold tm_report_init with_env in
    rw (e, f, set_duration-Spells n ds p s hn.0 hn.1, set_cycles-Spells m es _ t hm.0 hm.1)

-- With neither variable set the compile-time values stay.
tm_report_init-unset :
    (getenv : Bytes → Option Bytes) (p : Params)
    → ((name : Bytes) → getenv name ≡ none)
    → tm_report_init getenv p ≡ p
tm_report_init-unset getenv p h =
    unfold tm_report_init with_env in rw (h (codes "TM_TEST_DURATION"), h (codes "TM_TEST_CYCLES"))

hex_rejected :
    tm_report_init_argv
      (codes "tm" ∷ codes "--duration=5x" ∷ codes "--cycles= +3" ∷ [])
      (record { duration = pos 30; cycles = pos 0 })
    ≡ record { duration = pos 30; cycles = pos 3 }
unfolding tm_report_init_argv strtol
hex_rejected = refl
