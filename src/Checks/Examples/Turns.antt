-- ===== src/Checks/Examples/Turns.antt =====
-- The cooperative test and the interrupt preemption test on the small layer.
use thread_metric_benchmark.Base.{
  ℕ, ◌+◌, ◌≤◌, ◌≡◌, refl, Bool, true, false, none, [], arith, leb, ◌==◌, if◌then◌else◌,
}
use thread_metric_benchmark.Suite.InterruptPreemption
use thread_metric_benchmark.Suite.InterruptPreemption.System as InterruptSystem
use thread_metric_benchmark.Suite.InterruptPreemption.Phases as InterruptPhases
use thread_metric_benchmark.Suite.InterruptPreemption.Safety as InterruptSafety
use thread_metric_benchmark.Suite.Cooperative
use thread_metric_benchmark.Suite.Cooperative.System as CooperativeSystem
use thread_metric_benchmark.Suite.Cooperative.Safety as CooperativeSafety
use thread_metric_benchmark.Checks.Machine.{Machine, machine_api}
use thread_metric_benchmark.Checks.Scheduler.{thread_laws, ring_laws}
use thread_metric_benchmark.Checks.Examples.Threads.{started}

-- Thread 0 relinquishes, then thread 1.
abbrev turn : ℕ → CooperativeSystem.System Machine → CooperativeSystem.System Machine
turn = CooperativeSystem.run_thread (machine_api {Entry = Cooperative.Entry})

abbrev two_turns : CooperativeSystem.System Machine
two_turns = turn 1 (turn 0 (CooperativeSafety.initial (started true)))

two_turns-Reach :
    CooperativeSystem.Reach
      (ring_laws {Entry = Cooperative.Entry})
      (CooperativeSafety.initial (started true))
      two_turns
unfolding ring_laws CooperativeSystem.run_thread CooperativeSystem.tm_cooperative_thread_0_entry
    CooperativeSystem.tm_cooperative_thread_1_entry
two_turns-Reach =
    CooperativeSystem.later
      (CooperativeSystem.later CooperativeSystem.here (CooperativeSystem.work 0 _ refl))
      (CooperativeSystem.work 1 _ refl)

cooperative_never_invalid_example :
    (two_turns.counters.c4 ≤ two_turns.counters.c3)
    × (two_turns.counters.c3 ≤ two_turns.counters.c2)
    × (two_turns.counters.c2 ≤ two_turns.counters.c1)
    × (two_turns.counters.c1 ≤ two_turns.counters.c0)
    × (two_turns.counters.c0 ≤ two_turns.counters.c4 + 1)
    × (Cooperative.cooperative_invalid two_turns.counters ≡ false)
unfolding ring_laws CooperativeSystem.run_thread CooperativeSystem.tm_cooperative_thread_0_entry
    CooperativeSystem.tm_cooperative_thread_1_entry
cooperative_never_invalid_example =
    CooperativeSafety.cooperative_never_invalid ring_laws (started true) refl two_turns-Reach
      (omega arith)

-- The layer of the interrupt preemption test, whose trigger calls the handler and does no more.
abbrev preempting : Bool → Machine
preempting on = record {
  created = λ j. leb j 5;
  ready = λ j. if j == 5 then on else j == 1;
  priority = λ j. if j == 5 then 2 else if j == 0 then 3 else 10;
  queue = none;
  ring = [];
}

preempting-Kernel :
    InterruptPhases.Kernel
      (thread_laws {Entry = InterruptPreemption.Entry})
      true
      false
      (preempting true)
unfolding thread_laws
preempting-Kernel = record {
  created_0 = refl;
  all_ready = λ j. ground arith;
  priority_0 = refl;
  priority_1 = refl;
}

abbrev call_handler : InterruptSystem.Trigger Machine
call_handler handler w = handler w

call_handler-RunsHandler :
    InterruptSystem.RunsHandler (thread_laws {Entry = InterruptPreemption.Entry}) call_handler
call_handler-RunsHandler = record {
  same_counters = λ w. refl;
  same_created = λ w j. refl;
  same_ready = λ w j. refl;
  same_priority = λ w j. refl;
}

-- The reporting thread goes to sleep, then thread 1 interrupts.
abbrev interrupted : InterruptSystem.System Machine
interrupted =
    InterruptSystem.run_thread (machine_api {Entry = InterruptPreemption.Entry}) call_handler 1
      (record {
        p0 = InterruptSystem.first;
        p1 = InterruptSystem.first;
        world = (record { c0 = 0; c1 = 0; ch = 0 }, preempting false);
      })

interrupted-Reach :
    InterruptSystem.Reach
      (thread_laws {Entry = InterruptPreemption.Entry})
      call_handler
      (InterruptSafety.initial (preempting true))
      interrupted
unfolding thread_laws
interrupted-Reach =
    InterruptSystem.later
      (InterruptSystem.later InterruptSystem.here (
        InterruptSystem.report (preempting false) refl (record {
          same_created = λ j. refl;
          same_priority = λ j. refl;
          same_ready = λ j. ground arith;
        })))
      (InterruptSystem.work 1 refl (omega arith))

interrupt_preemption_never_invalid_example :
    (interrupted.world.0.c1 ≤ interrupted.world.0.c0)
    × (interrupted.world.0.c0 ≤ interrupted.world.0.ch)
    × (interrupted.world.0.ch ≤ interrupted.world.0.c1 + 1)
    × (InterruptPreemption.interrupt_preemption_invalid interrupted.world.0 ≡ false)
unfolding InterruptSystem.run_thread InterruptSystem.tm_interrupt_preemption_thread_1_entry
    InterruptSystem.tm_interrupt_preemption_handler
interrupt_preemption_never_invalid_example =
    InterruptSafety.interrupt_preemption_never_invalid thread_laws call_handler
      call_handler-RunsHandler (preempting true) preempting-Kernel interrupted-Reach (omega arith)
