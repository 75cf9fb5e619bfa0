-- ===== src/Suite/InterruptPreemption.antt =====
-- src/interrupt_preemption_processing.c: the initialization and the reporting thread.
pub mod System
pub mod Phases
pub mod Safety
use thread_metric_benchmark.Base.{
  ℕ, ◌/◌, ◌≡◌, refl, Bool, ◌&&◌, ◌||◌, Option, some, List, [], ◌∷◌, ◌++◌, arith, ltb, if◌then◌else◌,
  ◌>>=◌, pos, add_ulong, sub_ulong, to_ulong, codes,
}
use thread_metric_benchmark.Report.Printf.{ulong}
use thread_metric_benchmark.Report.Number.Decimal.{shown}
use thread_metric_benchmark.Report.Options.{Params}
use thread_metric_benchmark.Report.Loop.{Event, sleep, write, Progress, report_loop}
use thread_metric_benchmark.Api.{Api}
use thread_metric_benchmark.Api.Check.{Outcome, checked, tm_check, ◌>>◌}
use thread_metric_benchmark.Suite.Rounds.{
  Local, local_init, writes, when, three_messages, writes_number, writes_text, out_of_range,
}

-- The entry functions of the threads.
pub data Entry : Type 0 where
  thread_0_entry : Entry
  thread_1_entry : Entry
  thread_report : Entry

unfoldable pub tm_interrupt_preemption_processing_initialize :
    {S : Type 0} → Api Entry S → S → Outcome S
unfolding checked
tm_interrupt_preemption_processing_initialize api = do
  tm_check (codes "tm_thread_create(0, 3, tm_interrupt_preemption_thread_0_entry)")
      (api.thread_create (pos 0) (pos 3) thread_0_entry)
  tm_check (codes "tm_thread_create(1, 10, tm_interrupt_preemption_thread_1_entry)")
      (api.thread_create (pos 1) (pos 10) thread_1_entry)
  tm_check (codes "tm_thread_resume(1)") (api.thread_resume (pos 1))
  tm_check (codes "tm_thread_create(5, 2, tm_interrupt_preemption_thread_report)")
      (api.thread_create (pos 5) (pos 2) thread_report)
  tm_check (codes "tm_thread_resume(5)") (api.thread_resume (pos 5))

-- The values of the counters that a round takes.
pub record Counters : Type 0 where
  pub c0 : ℕ
  pub c1 : ℕ
  pub ch : ℕ

-- The sum of the counters.
unfoldable pub interrupt_preemption_total : Counters → ℕ
interrupt_preemption_total r = add_ulong (add_ulong r.c0 r.c1) r.ch

-- The test for errors, on the snapshot.
unfoldable pub interrupt_preemption_invalid : Counters → Bool
interrupt_preemption_invalid r =
    let average = interrupt_preemption_total r / 3 in
    ltb 0 average
    && (out_of_range average r.c0 || (out_of_range average r.c1 || out_of_range average r.ch))

-- One round of the reporting loop.
unfoldable pub interrupt_preemption_round : Params → Counters → Local → Option (List Event × Local)
interrupt_preemption_round p r st = do
  let time = add_ulong st.relative_time (to_ulong p.duration)
  header ←
      writes
        (codes "**** Thread-Metric Interrupt Preemption Processing Test **** Relative Time: %lu\n")
        (ulong time ∷ [])
  error ←
      when (interrupt_preemption_invalid r) (
        writes (codes "ERROR: Invalid counter value(s). Interrupt processing test has failed!\n")
          [])
  total ← writes (codes "Time Period Total:  %lu\n\n") (ulong (sub_ulong r.ch st.last) ∷ [])
  some (
    sleep p.duration ∷ (header ++ (error ++ total)),
    record { last = r.ch; relative_time = time },
  )

-- The reporting thread, with the snapshot of each round.
unfoldable pub tm_interrupt_preemption_thread_report : Params → (ℕ → Counters) → ℕ → Progress Local
tm_interrupt_preemption_thread_report p snapshots rounds =
    report_loop p (λ k. interrupt_preemption_round p (snapshots k)) rounds 0 0 local_init []

-- A round is always defined: it sleeps for the duration, writes the header with the advanced time,
-- the error message exactly if the snapshot of the counters is invalid, and the difference modulo
-- 2 ^ 64 between the handler's counter and the last one saved, in decimal; it then saves the
-- handler's counter and the time.
pub interrupt_preemption_round_lem :
    (p : Params) (r : Counters) (st : Local)
    → interrupt_preemption_round p r st
      ≡ some (
        sleep p.duration
            ∷ (write (
                  codes
                    "**** Thread-Metric Interrupt Preemption Processing Test **** Relative Time: "
                  ++ (shown (add_ulong st.relative_time (to_ulong p.duration)) ++ codes "\n"))
                ∷ ((if interrupt_preemption_invalid r
                      then write (
                          codes
                            "ERROR: Invalid counter value(s). Interrupt processing test has failed!\n")
                        ∷ []
                      else [])
                    ++ write (
                        codes "Time Period Total:  "
                        ++ (shown (sub_ulong r.ch st.last) ++ codes "\n\n"))
                      ∷ [])),
        record { last = r.ch; relative_time = add_ulong st.relative_time (to_ulong p.duration) },
      )
unfolding interrupt_preemption_round
interrupt_preemption_round_lem p r st =
    three_messages (interrupt_preemption_invalid r) (sleep p.duration) _
      (writes_number
        (codes "**** Thread-Metric Interrupt Preemption Processing Test **** Relative Time: ")
        (codes "\n") (add_ulong st.relative_time (to_ulong p.duration)) refl refl (omega arith))
      (writes_text _ refl)
      (writes_number (codes "Time Period Total:  ") (codes "\n\n") (sub_ulong r.ch st.last) refl
        refl (omega arith))
