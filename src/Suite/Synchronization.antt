-- ===== src/Suite/Synchronization.antt =====
-- src/synchronization_processing.c: the initialization and the reporting thread, and below them the worker thread.
pub mod Worker
use thread_metric_benchmark.Base.{
  ℕ, ◌≡◌, refl, Option, some, List, [], ◌∷◌, ◌++◌, arith, ◌==◌, if◌then◌else◌, ◌>>=◌, pos,
  add_ulong, sub_ulong, to_ulong, codes,
}
use thread_metric_benchmark.Report.Printf.{ulong}
use thread_metric_benchmark.Report.Number.Decimal.{shown}
use thread_metric_benchmark.Report.Options.{Params}
use thread_metric_benchmark.Report.Loop.{Event, sleep, write, Progress, report_loop}
use thread_metric_benchmark.Api.{Api}
use thread_metric_benchmark.Api.Check.{Outcome, checked, tm_check, ◌>>◌}
use thread_metric_benchmark.Suite.Rounds.{
  Local, local_init, Reads, writes, when, three_messages, writes_number, writes_text,
}

-- The entry functions of the threads 0 and 5.
pub data Entry : Type 0 where
  thread_0_entry : Entry
  thread_report : Entry

unfoldable pub tm_synchronization_processing_initialize : {S : Type 0} → Api Entry S → S → Outcome S
unfolding checked
tm_synchronization_processing_initialize api = do
  tm_check (codes "tm_thread_create(0, 10, tm_synchronization_processing_thread_0_entry)")
      (api.thread_create (pos 0) (pos 10) thread_0_entry)
  tm_check (codes "tm_thread_resume(0)") (api.thread_resume (pos 0))
  tm_check (codes "tm_semaphore_create(0)") (api.semaphore_create (pos 0))
  tm_check (codes "tm_thread_create(5, 2, tm_synchronization_processing_thread_report)")
      (api.thread_create (pos 5) (pos 2) thread_report)
  tm_check (codes "tm_thread_resume(5)") (api.thread_resume (pos 5))

-- One round of the reporting loop.
unfoldable pub synchronization_processing_round :
    Params → Reads → Local → Option (List Event × Local)
synchronization_processing_round p r st = do
  let time = add_ulong st.relative_time (to_ulong p.duration)
  header ←
      writes (codes "**** Thread-Metric Synchronization Processing Test **** Relative Time: %lu\n")
        (ulong time ∷ [])
  error ←
      when (r.tested == st.last)
        (writes (codes "ERROR: Invalid counter value(s). Error getting/putting semaphore!\n") [])
  total ← writes (codes "Time Period Total:  %lu\n\n") (ulong (sub_ulong r.totalled st.last) ∷ [])
  some (
    sleep p.duration ∷ (header ++ (error ++ total)),
    record { last = r.saved; relative_time = time },
  )

-- The reporting thread, with what it reads in each round.
unfoldable pub tm_synchronization_processing_thread_report :
    Params → (ℕ → Reads) → ℕ → Progress Local
tm_synchronization_processing_thread_report p reads rounds =
    report_loop p (λ k. synchronization_processing_round p (reads k)) rounds 0 0 local_init []

-- A round is always defined: it sleeps for the duration, writes the header with the advanced time,
-- the error message exactly if the counter equals the last one saved, and the difference modulo 2
-- ^ 64 between the counter and that one, in decimal; it then saves the counter and the time.
pub synchronization_processing_round_lem :
    (p : Params) (r : Reads) (st : Local)
    → synchronization_processing_round p r st
      ≡ some (
        sleep p.duration
            ∷ (write (
                  codes "**** Thread-Metric Synchronization Processing Test **** Relative Time: "
                  ++ (shown (add_ulong st.relative_time (to_ulong p.duration)) ++ codes "\n"))
                ∷ ((if r.tested == st.last
                      then write (
                          codes
                            "ERROR: Invalid counter value(s). Error getting/putting semaphore!\n")
                        ∷ []
                      else [])
                    ++ write (
                        codes "Time Period Total:  "
                        ++ (shown (sub_ulong r.totalled st.last) ++ codes "\n\n"))
                      ∷ [])),
        record { last = r.saved; relative_time = add_ulong st.relative_time (to_ulong p.duration) },
      )
unfolding synchronization_processing_round
synchronization_processing_round_lem p r st =
    three_messages (r.tested == st.last) (sleep p.duration) _
      (writes_number
        (codes "**** Thread-Metric Synchronization Processing Test **** Relative Time: ")
        (codes "\n") (add_ulong st.relative_time (to_ulong p.duration)) refl refl (omega arith))
      (writes_text _ refl)
      (writes_number (codes "Time Period Total:  ") (codes "\n\n") (sub_ulong r.totalled st.last)
        refl refl (omega arith))
