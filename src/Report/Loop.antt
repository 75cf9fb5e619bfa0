-- ===== src/Report/Loop.antt =====
-- TM_REPORT_LOOP and TM_REPORT_FINISH of include/tm_api.h with `tm_report_finish` of
-- src/tm_report.c: the loop of every reporting thread, and what such a thread does to be seen.
pub mod Cycles
use thread_metric_benchmark.Base.{
  ℕ, zero, suc, ◌+◌, Bool, true, false, ◌||◌, Option, none, some, List, [], ◌∷◌, ◌++◌, ◌==◌,
  if◌then◌else◌, ℤ, pos, negsuc, ltb_ℤ, Bytes,
}
use thread_metric_benchmark.Report.Options.{Params}

-- What a reporting thread does to its surroundings, in order.
pub data Event : Type 0 where
  sleep : ℤ → Event  -- tm_thread_sleep
  write : Bytes → Event  -- tm_printf
  exit : ℕ → Event  -- exit or tm_semihosting_exit

abbrev pub is_zero : ℤ → Bool
is_zero (pos n) = n == 0
is_zero (negsuc n) = false

-- `!tm_test_cycles || _tm_cycle < tm_test_cycles`
unfoldable pub loop_test : ℤ → ℤ → Bool
loop_test cycles cycle = is_zero cycles || ltb_ℤ cycle cycles

-- `tm_test_cycles ? _tm_cycle++ : 0`
unfoldable pub loop_next : ℤ → ℕ → ℕ
loop_next cycles cycle = if is_zero cycles then cycle else cycle + 1

-- What a reporting thread has done after some rounds: it is at work with its locals, has left the
-- loop and exited, or met undefined behaviour.
pub data Progress {ℓ} (Local : Type ℓ) : Type ℓ where
  looping : ℕ → Local → List Event → Progress Local
  finished : List Event → Progress Local
  undefined : Progress Local

-- `round k` is the body of the loop in its k-th run, with what it reads of the counters then. The
-- thread is followed for `rounds` tests of the loop.
module _ {ℓ} {Local : Type ℓ} (p : Params) (round : ℕ → Local → Option (List Event × Local)) where
  unfoldable pub report_loop : (rounds k cycle : ℕ) → Local → List Event → Progress Local
  report_loop zero k cycle st trace = looping cycle st trace
  report_loop (suc rounds) k cycle st trace = elim (loop_test p.cycles (pos cycle)) [
    | true ↦ elim (round k st) [
      | some (out, st') ↦ report_loop rounds (k + 1) (loop_next p.cycles cycle) st' (trace ++ out)
      | none ↦ undefined
    ]
    | false ↦ finished (trace ++ exit 0 ∷ [])
  ]
