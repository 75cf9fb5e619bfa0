-- ===== src/Suite/Preemptive.antt =====
-- src/preemptive_scheduling.c: the initialization and the reporting thread.
pub mod System
pub mod Turns
pub mod Advance
pub mod Safety
pub mod Liveness
pub mod Start
use thread_metric_benchmark.Base.{
  ℕ, ◌/◌, ◌≡◌, refl, Bool, ◌&&◌, ◌||◌, Option, some, List, [], ◌∷◌, ◌++◌, arith, ltb, if◌then◌else◌,
  ◌>>=◌, pos, add_ulong, sub_ulong, to_ulong, codes,
}
use thread_metric_benchmark.Report.Printf.{ulong}
use thread_metric_benchmark.Report.Number.Decimal.{shown}
use thread_metric_benchmark.Report.Options.{Params}
use thread_metric_benchmark.Report.Loop.{Event, sleep, write, Progress, report_loop}
use thread_metric_benchmark.Api.{Api}
use thread_metric_benchmark.Api.Check.{Outcome, checked, tm_check, ◌>>◌}
use thread_metric_benchmark.Suite.Rounds.{
  Local, local_init, writes, when, three_messages, writes_number, writes_text, out_of_range,
}

-- The entry functions of the threads.
pub data Entry : Type 0 where
  thread_0_entry : Entry
  thread_1_entry : Entry
  thread_2_entry : Entry
  thread_3_entry : Entry
  thread_4_entry : Entry
  thread_report : Entry

unfoldable pub tm_preemptive_scheduling_initialize : {S : Type 0} → Api Entry S → S → Outcome S
unfolding checked
tm_preemptive_scheduling_initialize api = do
  tm_check (codes "tm_thread_create(0, 10, tm_preemptive_thread_0_entry)")
      (api.thread_create (pos 0) (pos 10) thread_0_entry)
  tm_check (codes "tm_thread_create(1, 9, tm_preemptive_thread_1_entry)")
      (api.thread_create (pos 1) (pos 9) thread_1_entry)
  tm_check (codes "tm_thread_create(2, 8, tm_preemptive_thread_2_entry)")
      (api.thread_create (pos 2) (pos 8) thread_2_entry)
  tm_check (codes "tm_thread_create(3, 7, tm_preemptive_thread_3_entry)")
      (api.thread_create (pos 3) (pos 7) thread_3_entry)
  tm_check (codes "tm_thread_create(4, 6, tm_preemptive_thread_4_entry)")
      (api.thread_create (pos 4) (pos 6) thread_4_entry)
  tm_check (codes "tm_thread_resume(0)") (api.thread_resume (pos 0))
  tm_check (codes "tm_thread_create(5, 2, tm_preemptive_thread_report)")
      (api.thread_create (pos 5) (pos 2) thread_report)
  tm_check (codes "tm_thread_resume(5)") (api.thread_resume (pos 5))

-- The values of the counters that a round takes.
pub record Counters : Type 0 where
  pub c0 : ℕ
  pub c1 : ℕ
  pub c2 : ℕ
  pub c3 : ℕ
  pub c4 : ℕ

-- The sum of the counters.
unfoldable pub preemptive_total : Counters → ℕ
preemptive_total r = add_ulong (add_ulong (add_ulong (add_ulong r.c0 r.c1) r.c2) r.c3) r.c4

-- The test for errors, on the snapshot.
unfoldable pub preemptive_invalid : Counters → Bool
preemptive_invalid r =
    let average = preemptive_total r / 5 in
    ltb 0 average
    && (out_of_range average r.c0
        || (out_of_range average r.c1
            || (out_of_range average r.c2
                || (out_of_range average r.c3 || out_of_range average r.c4))))

-- One round of the reporting loop.
unfoldable pub preemptive_round : Params → Counters → Local → Option (List Event × Local)
preemptive_round p r st = do
  let time = add_ulong st.relative_time (to_ulong p.duration)
  header ←
      writes (codes "**** Thread-Metric Preemptive Scheduling Test **** Relative Time: %lu\n")
        (ulong time ∷ [])
  error ← when (preemptive_invalid r) (
      writes
        (codes
          "ERROR: Invalid counter value(s). Preemptive counters should not be more that 1 different than the average!\n")
        [])
  total ←
      writes (codes "Time Period Total:  %lu\n\n")
        (ulong (sub_ulong (preemptive_total r) st.last) ∷ [])
  some (
    sleep p.duration ∷ (header ++ (error ++ total)),
    record { last = (preemptive_total r); relative_time = time },
  )

-- The reporting thread, with the snapshot of each round.
unfoldable pub tm_preemptive_thread_report : Params → (ℕ → Counters) → ℕ → Progress Local
tm_preemptive_thread_report p snapshots rounds =
    report_loop p (λ k. preemptive_round p (snapshots k)) rounds 0 0 local_init []

-- A round is always defined: it sleeps for the duration, writes the header with the advanced time,
-- the error message exactly if the snapshot of the counters is invalid, and the difference modulo
-- 2 ^ 64 between the total and the last one saved, in decimal; it then saves the total and the
-- time.
pub preemptive_round_lem :
    (p : Params) (r : Counters) (st : Local)
    → preemptive_round p r st
      ≡ some (
        sleep p.duration
            ∷ (write (
                  codes "**** Thread-Metric Preemptive Scheduling Test **** Relative Time: "
                  ++ (shown (add_ulong st.relative_time (to_ulong p.duration)) ++ codes "\n"))
                ∷ ((if preemptive_invalid r
                      then write (
                          codes
                            "ERROR: Invalid counter value(s). Preemptive counters should not be more that 1 different than the average!\n")
                        ∷ []
                      else [])
                    ++ write (
                        codes "Time Period Total:  "
                        ++ (shown (sub_ulong (preemptive_total r) st.last) ++ codes "\n\n"))
                      ∷ [])),
        record {
          last = (preemptive_total r);
          relative_time = add_ulong st.relative_time (to_ulong p.duration);
        },
      )
unfolding preemptive_round
preemptive_round_lem p r st =
    three_messages (preemptive_invalid r) (sleep p.duration) _
      (writes_number (codes "**** Thread-Metric Preemptive Scheduling Test **** Relative Time: ")
        (codes "\n") (add_ulong st.relative_time (to_ulong p.duration)) refl refl (omega arith))
      (writes_text _ refl)
      (writes_number (codes "Time Period Total:  ") (codes "\n\n")
        (sub_ulong (preemptive_total r) st.last) refl refl (omega arith))
