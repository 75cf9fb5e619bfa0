-- ===== src/Suite/Reports.antt =====
-- The rounds of the eight reporting threads of src/*.c against one description.
use thread_metric_benchmark.Base.{
  ℕ, ◌≡◌, ◌∙◌, Bool, some, List, [], ◌∷◌, ◌++◌, ◌==◌, if◌then◌else◌, add_ulong, sub_ulong, to_ulong,
  Bytes, codes,
}
use thread_metric_benchmark.Report.Number.Decimal.{shown}
use thread_metric_benchmark.Report.Options.{Params}
use thread_metric_benchmark.Report.Loop.{Event, sleep, write}
use thread_metric_benchmark.Suite.Snapshot.{
  total, disagree, cooperative_list, preemptive_list, interrupt_list, interrupt_preemption_list,
  cooperative_total-total, cooperative_invalid-disagree, preemptive_total-total,
  preemptive_invalid-disagree, interrupt_invalid-disagree, interrupt_preemption_invalid-disagree,
}
use thread_metric_benchmark.Suite.Rounds.{Local, Reads}
use thread_metric_benchmark.Suite.Basic
use thread_metric_benchmark.Suite.Message
use thread_metric_benchmark.Suite.Memory
use thread_metric_benchmark.Suite.Synchronization
use thread_metric_benchmark.Suite.Cooperative
use thread_metric_benchmark.Suite.Preemptive
use thread_metric_benchmark.Suite.Interrupt
use thread_metric_benchmark.Suite.InterruptPreemption

-- What a round is to do: sleep, write the header with the time, the error if there is one, and how
-- far `total` is above the last one; and keep `saved` and the time.
abbrev pub described :
    (title error : Bytes) (bad : Bool) (total saved : ℕ) → Params → Local → List Event × Local
described title error bad total saved p st =
    let time = add_ulong st.relative_time (to_ulong p.duration) in
    (
      sleep p.duration
          ∷ (write (title ++ (shown time ++ codes "\n"))
              ∷ ((if bad then write error ∷ [] else [])
                  ++ write (
                      codes "Time Period Total:  "
                      ++ (shown (sub_ulong total st.last) ++ codes "\n\n"))
                    ∷ [])),
      record { last = saved; relative_time = time },
    )

-- A round of the tests with one counter is always defined, in each of the four tests: it sleeps for
-- the duration, writes the header with the advanced time, the error message exactly if the counter
-- equals the last one saved, and the difference modulo 2 ^ 64 between the counter and that one, in
-- decimal; it then saves the counter and the time.
pub single_counter_rounds :
    (p : Params) (r : Reads) (st : Local)
    → (Basic.basic_processing_round p r st
        ≡ some (
            described
              (codes "**** Thread-Metric Basic Single Thread Processing Test **** Relative Time: ")
              (codes "ERROR: Invalid counter value(s). Basic processing thread died!\n")
              (r.tested == st.last)
              r.totalled
              r.saved
              p
              st))
      × (Message.message_processing_round p r st
          ≡ some (
              described
                (codes "**** Thread-Metric Message Processing Test **** Relative Time: ")
                (codes "ERROR: Invalid counter value(s). Error sending/receiving messages!\n")
                (r.tested == st.last)
                r.totalled
                r.saved
                p
                st))
      × (Memory.memory_allocation_round p r st
          ≡ some (
              described
                (codes "**** Thread-Metric Memory Allocation Test **** Relative Time: ")
                (codes "ERROR: Invalid counter value(s). Error allocating/deallocating memory!\n")
                (r.tested == st.last)
                r.totalled
                r.saved
                p
                st))
      × (Synchronization.synchronization_processing_round p r st
          ≡ some (
              described
                (codes "**** Thread-Metric Synchronization Processing Test **** Relative Time: ")
                (codes "ERROR: Invalid counter value(s). Error getting/putting semaphore!\n")
                (r.tested == st.last)
                r.totalled
                r.saved
                p
                st))
single_counter_rounds p r st = (
  Basic.basic_processing_round_lem p r st,
  Message.message_processing_round_lem p r st,
  Memory.memory_allocation_round_lem p r st,
  Synchronization.synchronization_processing_round_lem p r st,
)

-- A round of the tests with several counters is always defined, in each of the four tests: it sleeps
-- for the duration, writes the header with the advanced time, the error message exactly if the total
-- of the counters modulo 2 ^ 64, divided by their number, is above 0 and one of them is more than 1
-- below or above that, and the difference modulo 2 ^ 64 between that total, or the handler's counter
-- in the interrupt tests, and the last number saved, in decimal; it then saves that number and the
-- time.
pub snapshot_rounds :
    (p : Params) (c : Cooperative.Counters) (s : Preemptive.Counters) (i : Interrupt.Counters)
    (j : InterruptPreemption.Counters) (st : Local)
    → (Cooperative.cooperative_round p c st
        ≡ some (
            described
              (codes "**** Thread-Metric Cooperative Scheduling Test **** Relative Time: ")
              (codes
                "ERROR: Invalid counter value(s). Cooperative counters should not be more that 1 different than the average!\n")
              (disagree (cooperative_list c))
              (total (cooperative_list c))
              (total (cooperative_list c))
              p
              st))
      × (Preemptive.preemptive_round p s st
          ≡ some (
              described
                (codes "**** Thread-Metric Preemptive Scheduling Test **** Relative Time: ")
                (codes
                  "ERROR: Invalid counter value(s). Preemptive counters should not be more that 1 different than the average!\n")
                (disagree (preemptive_list s))
                (total (preemptive_list s))
                (total (preemptive_list s))
                p
                st))
      × (Interrupt.interrupt_round p i st
          ≡ some (
              described
                (codes "**** Thread-Metric Interrupt Processing Test **** Relative Time: ")
                (codes "ERROR: Invalid counter value(s). Interrupt processing test has failed!\n")
                (disagree (interrupt_list i))
                i.ch
                i.ch
                p
                st))
      × (InterruptPreemption.interrupt_preemption_round p j st
          ≡ some (
              described
                (codes
                  "**** Thread-Metric Interrupt Preemption Processing Test **** Relative Time: ")
                (codes "ERROR: Invalid counter value(s). Interrupt processing test has failed!\n")
                (disagree (interrupt_preemption_list j))
                j.ch
                j.ch
                p
                st))
snapshot_rounds p c s i j st = (
  Cooperative.cooperative_round_lem p c st ∙ (λ k. some (
      described (codes "**** Thread-Metric Cooperative Scheduling Test **** Relative Time: ")
        (codes
          "ERROR: Invalid counter value(s). Cooperative counters should not be more that 1 different than the average!\n")
        (cooperative_invalid-disagree c k) (cooperative_total-total c k)
        (cooperative_total-total c k) p st)),
  Preemptive.preemptive_round_lem p s st ∙ (λ k. some (
      described (codes "**** Thread-Metric Preemptive Scheduling Test **** Relative Time: ")
        (codes
          "ERROR: Invalid counter value(s). Preemptive counters should not be more that 1 different than the average!\n")
        (preemptive_invalid-disagree s k) (preemptive_total-total s k) (preemptive_total-total s k)
        p st)),
  Interrupt.interrupt_round_lem p i st ∙ (λ k. some (
      described (codes "**** Thread-Metric Interrupt Processing Test **** Relative Time: ")
        (codes "ERROR: Invalid counter value(s). Interrupt processing test has failed!\n")
        (interrupt_invalid-disagree i k) i.ch i.ch p st)),
  InterruptPreemption.interrupt_preemption_round_lem p j st ∙ (λ k. some (
      described
        (codes "**** Thread-Metric Interrupt Preemption Processing Test **** Relative Time: ")
        (codes "ERROR: Invalid counter value(s). Interrupt processing test has failed!\n")
        (interrupt_preemption_invalid-disagree j k) j.ch j.ch p st)),
)
