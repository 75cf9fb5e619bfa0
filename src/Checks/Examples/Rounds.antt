-- ===== src/Checks/Examples/Rounds.antt =====
-- The rounds of the reporting threads and the initializations, at concrete inputs.
use thread_metric_benchmark.Base.{◌≡◌, some, ◌==◌, pos, codes}
use thread_metric_benchmark.Report.Options.{Params}
use thread_metric_benchmark.Suite.Snapshot.{
  total, disagree, cooperative_list, preemptive_list, interrupt_list, interrupt_preemption_list,
}
use thread_metric_benchmark.Suite.Rounds.{Reads, Local}
use thread_metric_benchmark.Suite.Reports.{described, single_counter_rounds, snapshot_rounds}
use thread_metric_benchmark.Suite.Initialize.{initialize-follow}
use thread_metric_benchmark.Suite.Calls.{
  follow, basic_processing_calls, cooperative_scheduling_calls, preemptive_scheduling_calls,
  interrupt_processing_calls, interrupt_preemption_processing_calls, message_processing_calls,
  synchronization_processing_calls, memory_allocation_calls,
}
use thread_metric_benchmark.Checks.Machine.{machine_api, empty_machine}
use thread_metric_benchmark.Suite.Basic
use thread_metric_benchmark.Suite.Message
use thread_metric_benchmark.Suite.Memory
use thread_metric_benchmark.Suite.Synchronization
use thread_metric_benchmark.Suite.Cooperative
use thread_metric_benchmark.Suite.Preemptive
use thread_metric_benchmark.Suite.Interrupt
use thread_metric_benchmark.Suite.InterruptPreemption

abbrev params : Params
params = record { duration = pos 30; cycles = pos 0 }

abbrev local : Local
local = record { last = 100; relative_time = 30 }

-- The counter stands still.
abbrev stuck : Reads
stuck = record { tested = 100; totalled = 100; saved = 101 }

abbrev cooperative_counters : Cooperative.Counters
cooperative_counters = record { c0 = 9; c1 = 9; c2 = 9; c3 = 9; c4 = 1 }

abbrev preemptive_counters : Preemptive.Counters
preemptive_counters = record { c0 = 9; c1 = 9; c2 = 9; c3 = 9; c4 = 1 }

abbrev interrupt_counters : Interrupt.Counters
interrupt_counters = record { ct = 9; ch = 2 }

abbrev interrupt_preemption_counters : InterruptPreemption.Counters
interrupt_preemption_counters = record { c0 = 9; c1 = 2; ch = 5 }

initialize-follow_example :
    (Basic.tm_basic_processing_initialize machine_api empty_machine
      ≡ follow (basic_processing_calls machine_api) empty_machine)
    × (Cooperative.tm_cooperative_scheduling_initialize machine_api empty_machine
        ≡ follow (cooperative_scheduling_calls machine_api) empty_machine)
    × (Preemptive.tm_preemptive_scheduling_initialize machine_api empty_machine
        ≡ follow (preemptive_scheduling_calls machine_api) empty_machine)
    × (Interrupt.tm_interrupt_processing_initialize machine_api empty_machine
        ≡ follow (interrupt_processing_calls machine_api) empty_machine)
    × (InterruptPreemption.tm_interrupt_preemption_processing_initialize machine_api empty_machine
        ≡ follow (interrupt_preemption_processing_calls machine_api) empty_machine)
    × (Message.tm_message_processing_initialize machine_api empty_machine
        ≡ follow (message_processing_calls machine_api) empty_machine)
    × (Synchronization.tm_synchronization_processing_initialize machine_api empty_machine
        ≡ follow (synchronization_processing_calls machine_api) empty_machine)
    × (Memory.tm_memory_allocation_initialize machine_api empty_machine
        ≡ follow (memory_allocation_calls machine_api) empty_machine)
initialize-follow_example =
    initialize-follow machine_api machine_api machine_api machine_api machine_api machine_api
      machine_api machine_api empty_machine

single_counter_rounds_example :
    (Basic.basic_processing_round params stuck local
      ≡ some (
          described
            (codes "**** Thread-Metric Basic Single Thread Processing Test **** Relative Time: ")
            (codes "ERROR: Invalid counter value(s). Basic processing thread died!\n")
            (stuck.tested == local.last)
            stuck.totalled
            stuck.saved
            params
            local))
    × (Message.message_processing_round params stuck local
        ≡ some (
            described
              (codes "**** Thread-Metric Message Processing Test **** Relative Time: ")
              (codes "ERROR: Invalid counter value(s). Error sending/receiving messages!\n")
              (stuck.tested == local.last)
              stuck.totalled
              stuck.saved
              params
              local))
    × (Memory.memory_allocation_round params stuck local
        ≡ some (
            described
              (codes "**** Thread-Metric Memory Allocation Test **** Relative Time: ")
              (codes "ERROR: Invalid counter value(s). Error allocating/deallocating memory!\n")
              (stuck.tested == local.last)
              stuck.totalled
              stuck.saved
              params
              local))
    × (Synchronization.synchronization_processing_round params stuck local
        ≡ some (
            described
              (codes "**** Thread-Metric Synchronization Processing Test **** Relative Time: ")
              (codes "ERROR: Invalid counter value(s). Error getting/putting semaphore!\n")
              (stuck.tested == local.last)
              stuck.totalled
              stuck.saved
              params
              local))
single_counter_rounds_example = single_counter_rounds params stuck local

snapshot_rounds_example :
    (Cooperative.cooperative_round params cooperative_counters local
      ≡ some (
          described
            (codes "**** Thread-Metric Cooperative Scheduling Test **** Relative Time: ")
            (codes
              "ERROR: Invalid counter value(s). Cooperative counters should not be more that 1 different than the average!\n")
            (disagree (cooperative_list cooperative_counters))
            (total (cooperative_list cooperative_counters))
            (total (cooperative_list cooperative_counters))
            params
            local))
    × (Preemptive.preemptive_round params preemptive_counters local
        ≡ some (
            described
              (codes "**** Thread-Metric Preemptive Scheduling Test **** Relative Time: ")
              (codes
                "ERROR: Invalid counter value(s). Preemptive counters should not be more that 1 different than the average!\n")
              (disagree (preemptive_list preemptive_counters))
              (total (preemptive_list preemptive_counters))
              (total (preemptive_list preemptive_counters))
              params
              local))
    × (Interrupt.interrupt_round params interrupt_counters local
        ≡ some (
            described
              (codes "**** Thread-Metric Interrupt Processing Test **** Relative Time: ")
              (codes "ERROR: Invalid counter value(s). Interrupt processing test has failed!\n")
              (disagree (interrupt_list interrupt_counters))
              interrupt_counters.ch
              interrupt_counters.ch
              params
              local))
    × (InterruptPreemption.interrupt_preemption_round params interrupt_preemption_counters local
        ≡ some (
            described
              (codes "**** Thread-Metric Interrupt Preemption Processing Test **** Relative Time: ")
              (codes "ERROR: Invalid counter value(s). Interrupt processing test has failed!\n")
              (disagree (interrupt_preemption_list interrupt_preemption_counters))
              interrupt_preemption_counters.ch
              interrupt_preemption_counters.ch
              params
              local))
snapshot_rounds_example =
    snapshot_rounds params cooperative_counters preemptive_counters interrupt_counters
      interrupt_preemption_counters local
