-- ===== src/Checks/Examples/Threads.antt =====
-- The threads of src/*.c on the small layer.
use thread_metric_benchmark.Base.{
  ◌+◌, ◌-◌, ◌*◌, ◌%◌, ◌≤◌, ◌≡◌, refl, Bool, true, false, some, [], ◌∷◌, arith, leb, ◌==◌,
  if◌then◌else◌, replicate, length-replicate, ulong_mod,
}
use thread_metric_benchmark.Api.Check.{running}
use thread_metric_benchmark.Suite.Preemptive
use thread_metric_benchmark.Suite.Preemptive.System
use thread_metric_benchmark.Suite.Preemptive.Turns
use thread_metric_benchmark.Suite.Preemptive.Safety
use thread_metric_benchmark.Suite.Preemptive.Liveness
use thread_metric_benchmark.Suite.Preemptive.Start
use thread_metric_benchmark.Suite.Message.Worker as MessageWorker
use thread_metric_benchmark.Suite.Basic.Worker as BasicWorker
use thread_metric_benchmark.Checks.Machine.{Machine, machine_api, empty_machine}
use thread_metric_benchmark.Checks.Scheduler.{thread_laws}

abbrev pub started : Bool → Machine
started on = record {
  created = λ j. leb j 5;
  ready = λ j. if j == 5 then on else j == 0;
  priority = λ j. if j == 5 then 2 else 10 - j;
  queue = some [];
  ring = 0 ∷ 1 ∷ 2 ∷ 3 ∷ 4 ∷ [];
}

started-Kernel :
    (on : Bool) → Turns.Kernel (thread_laws {Entry = Preemptive.Entry}) on 0 (started on)
unfolding thread_laws
started-Kernel on = record {
  all_created = λ j l. ground arith;
  all_ready = λ j. ground arith;
  all_priority = λ j l. ground arith;
  report_priority = refl;
}

-- The reporting thread goes to sleep, thread 0 resumes thread 1, thread 1 resumes thread 2.
abbrev asleep : System.System Machine
asleep = record (Safety.initial (started true)) { rtos = started false }

abbrev one_up : System.System Machine
one_up = System.run_thread (machine_api {Entry = Preemptive.Entry}) 0 asleep

abbrev two_up : System.System Machine
two_up = System.run_thread (machine_api {Entry = Preemptive.Entry}) 1 one_up

two_up-Reach :
    System.Reach (thread_laws {Entry = Preemptive.Entry}) (Safety.initial (started true)) two_up
unfolding thread_laws System.run_thread System.tm_preemptive_thread_0_entry
    System.tm_preemptive_thread_1_entry
two_up-Reach =
    System.later
      (System.later
        (System.later System.here (
          System.report (started false) refl (record {
            same_created = λ j. refl;
            same_priority = λ j. refl;
            same_ready = λ j. ground arith;
          })))
        (System.work 0 refl (omega arith)))
      (System.work 1 refl (omega arith))

preemptive_never_invalid_example : Preemptive.preemptive_invalid two_up.counters ≡ false
unfolding System.run_thread System.tm_preemptive_thread_0_entry System.tm_preemptive_thread_1_entry
preemptive_never_invalid_example =
    Safety.preemptive_never_invalid thread_laws (started true) (started-Kernel true) two_up-Reach
      (omega arith)

counters_ordered_example :
    (two_up.counters.c0 ≤ two_up.counters.c1)
    × (two_up.counters.c1 ≤ two_up.counters.c2)
    × (two_up.counters.c2 ≤ two_up.counters.c3)
    × (two_up.counters.c3 ≤ two_up.counters.c4)
    × (two_up.counters.c4 ≤ two_up.counters.c0 + 1)
unfolding System.run_thread System.tm_preemptive_thread_0_entry System.tm_preemptive_thread_1_entry
counters_ordered_example =
    Safety.counters_ordered thread_laws (started true) (started-Kernel true) two_up-Reach
      (omega arith)

preemptive_rounds_lem_example :
    (Liveness.execute
      (thread_laws {Entry = Preemptive.Entry})
      (13 * 2)
      (Safety.initial (started false))).counters
    ≡ record {
      c0 = 2 % ulong_mod;
      c1 = 2 % ulong_mod;
      c2 = 2 % ulong_mod;
      c3 = 2 % ulong_mod;
      c4 = 2 % ulong_mod;
    }
preemptive_rounds_lem_example =
    Liveness.preemptive_rounds_lem thread_laws 2 (started false) (started-Kernel false)

empty_machine-IsBlank : Start.IsBlank (thread_laws {Entry = Preemptive.Entry}) empty_machine
unfolding thread_laws
empty_machine-IsBlank = record {
  created_at = λ j. refl;
  ready_at = λ j. ground arith;
  priority_at = λ j. refl;
}

preemptive_initialize_lem_example :
    (s' : Machine) × (Preemptive.tm_preemptive_scheduling_initialize machine_api empty_machine
      ≡ running s')
    × Turns.Kernel (thread_laws {Entry = Preemptive.Entry}) true 0 s'
preemptive_initialize_lem_example =
    Start.preemptive_initialize_lem thread_laws empty_machine empty_machine-IsBlank

abbrev zero_message : MessageWorker.Globals
zero_message = record {
  counter = 0;
  sent = MessageWorker.first_message;
  received = MessageWorker.first_message;
}

basic_processing_thread_lem_example :
    BasicWorker.tm_basic_processing_thread_0_entry 2
      (record { counter = 0; array = replicate BasicWorker.array_size 7 })
    ≡ BasicWorker.state_after 2
basic_processing_thread_lem_example =
    BasicWorker.basic_processing_thread_lem 2
      (record { counter = 0; array = replicate BasicWorker.array_size 7 }) refl
      (length-replicate BasicWorker.array_size 7)
