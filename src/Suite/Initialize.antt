-- ===== src/Suite/Initialize.antt =====
-- The initializations of src/*.c as lists of calls, whatever a layer answers to them.
use thread_metric_benchmark.Base.{◌≡◌, refl, List, [], ◌∷◌, ◌++◌, Bytes, codes}
use thread_metric_benchmark.Api.{Status, tm_success, tm_error, Api}
use thread_metric_benchmark.Api.Check.{
  Outcome, running, aborted, checked, tm_check_fail, tm_check, ◌>>◌,
}
use thread_metric_benchmark.Report.Loop.{write, exit}
use thread_metric_benchmark.Suite.Basic
use thread_metric_benchmark.Suite.Cooperative
use thread_metric_benchmark.Suite.Preemptive
use thread_metric_benchmark.Suite.Interrupt
use thread_metric_benchmark.Suite.InterruptPreemption
use thread_metric_benchmark.Suite.Message
use thread_metric_benchmark.Suite.Synchronization
use thread_metric_benchmark.Suite.Memory
use thread_metric_benchmark.Suite.Calls.{
  Call, follow, basic_processing_calls, cooperative_scheduling_calls, preemptive_scheduling_calls,
  interrupt_processing_calls, interrupt_preemption_processing_calls, message_processing_calls,
  synchronization_processing_calls, memory_allocation_calls,
}

record Follows {S : Type 0} (m : S → Outcome S) (calls : List (Call S)) : Type 0 where
  pub from : (s : S) → m s ≡ follow calls s

last-Follows :
    {S : Type 0} (text : Bytes) (call : S → Status × S)
    → Follows (tm_check text call) ((text, call) ∷ [])
unfolding tm_check follow checked tm_check_fail
last-Follows {S} text call = record { from = λ s. answered (call s).0 (call s).1 }
  where
    answered :
        (status : Status) (s' : S)
        → checked text status s' ≡ elim status [
          | tm_success ↦ running s'
          | tm_error ↦
              aborted (write (codes "FATAL: " ++ (text ++ codes " failed\n")) ∷ exit 1 ∷ [])
        ]
    answered tm_success s' = refl
    answered tm_error s' = refl

next-Follows :
    {S : Type 0} (text : Bytes) (call : S → Status × S) (k : S → Outcome S) (rest : List (Call S))
    → Follows k rest
    → Follows (tm_check text call >> k) ((text, call) ∷ rest)
unfolding ◌>>◌ tm_check follow checked tm_check_fail
next-Follows {S} text call k rest f = record { from = λ s. answered (call s).0 (call s).1 }
  where
    answered :
        (status : Status) (s' : S)
        → (elim (checked text status s') [ running s ↦ k s | aborted out ↦ aborted out ])
          ≡ elim status [
            | tm_success ↦ follow rest s'
            | tm_error ↦
                aborted (write (codes "FATAL: " ++ (text ++ codes " failed\n")) ∷ exit 1 ∷ [])
          ]
    answered tm_success s' = f.from s'
    answered tm_error s' = refl

ruleset following = (next-Follows, last-Follows)

basic_processing-Follows :
    {S : Type 0} (api : Api Basic.Entry S)
    → Follows (Basic.tm_basic_processing_initialize api) (basic_processing_calls api)
unfolding Basic.tm_basic_processing_initialize
basic_processing-Follows api = search following depth 14

cooperative_scheduling-Follows :
    {S : Type 0} (api : Api Cooperative.Entry S)
    → Follows
        (Cooperative.tm_cooperative_scheduling_initialize api)
        (cooperative_scheduling_calls api)
unfolding Cooperative.tm_cooperative_scheduling_initialize
cooperative_scheduling-Follows api = search following depth 14

preemptive_scheduling-Follows :
    {S : Type 0} (api : Api Preemptive.Entry S)
    → Follows (Preemptive.tm_preemptive_scheduling_initialize api) (preemptive_scheduling_calls api)
unfolding Preemptive.tm_preemptive_scheduling_initialize
preemptive_scheduling-Follows api = search following depth 14

interrupt_processing-Follows :
    {S : Type 0} (api : Api Interrupt.Entry S)
    → Follows (Interrupt.tm_interrupt_processing_initialize api) (interrupt_processing_calls api)
unfolding Interrupt.tm_interrupt_processing_initialize
interrupt_processing-Follows api = search following depth 14

interrupt_preemption_processing-Follows :
    {S : Type 0} (api : Api InterruptPreemption.Entry S)
    → Follows
        (InterruptPreemption.tm_interrupt_preemption_processing_initialize api)
        (interrupt_preemption_processing_calls api)
unfolding InterruptPreemption.tm_interrupt_preemption_processing_initialize
interrupt_preemption_processing-Follows api = search following depth 14

message_processing-Follows :
    {S : Type 0} (api : Api Message.Entry S)
    → Follows (Message.tm_message_processing_initialize api) (message_processing_calls api)
unfolding Message.tm_message_processing_initialize
message_processing-Follows api = search following depth 14

synchronization_processing-Follows :
    {S : Type 0} (api : Api Synchronization.Entry S)
    → Follows
        (Synchronization.tm_synchronization_processing_initialize api)
        (synchronization_processing_calls api)
unfolding Synchronization.tm_synchronization_processing_initialize
synchronization_processing-Follows api = search following depth 14

memory_allocation-Follows :
    {S : Type 0} (api : Api Memory.Entry S)
    → Follows (Memory.tm_memory_allocation_initialize api) (memory_allocation_calls api)
unfolding Memory.tm_memory_allocation_initialize
memory_allocation-Follows api = search following depth 14

-- Whatever the services of a layer answer, the initialization of each of the eight tests makes its
-- calls in the order of the list that is given for it, each from the state that the one before it
-- left. If all of them succeed, then the initialization does; the first one that does not ends the
-- program, with one message "FATAL: ... failed" that holds the text of that call, and exit code 1.
pub initialize-follow :
    {S : Type 0} (api0 : Api Basic.Entry S) (api1 : Api Cooperative.Entry S)
    (api2 : Api Preemptive.Entry S) (api3 : Api Interrupt.Entry S)
    (api4 : Api InterruptPreemption.Entry S) (api5 : Api Message.Entry S)
    (api6 : Api Synchronization.Entry S) (api7 : Api Memory.Entry S) (s : S)
    → (Basic.tm_basic_processing_initialize api0 s ≡ follow (basic_processing_calls api0) s)
      × (Cooperative.tm_cooperative_scheduling_initialize api1 s
          ≡ follow (cooperative_scheduling_calls api1) s)
      × (Preemptive.tm_preemptive_scheduling_initialize api2 s
          ≡ follow (preemptive_scheduling_calls api2) s)
      × (Interrupt.tm_interrupt_processing_initialize api3 s
          ≡ follow (interrupt_processing_calls api3) s)
      × (InterruptPreemption.tm_interrupt_preemption_processing_initialize api4 s
          ≡ follow (interrupt_preemption_processing_calls api4) s)
      × (Message.tm_message_processing_initialize api5 s ≡ follow (message_processing_calls api5) s)
      × (Synchronization.tm_synchronization_processing_initialize api6 s
          ≡ follow (synchronization_processing_calls api6) s)
      × (Memory.tm_memory_allocation_initialize api7 s ≡ follow (memory_allocation_calls api7) s)
initialize-follow api0 api1 api2 api3 api4 api5 api6 api7 s = (
  (basic_processing-Follows api0).from s,
  (cooperative_scheduling-Follows api1).from s,
  (preemptive_scheduling-Follows api2).from s,
  (interrupt_processing-Follows api3).from s,
  (interrupt_preemption_processing-Follows api4).from s,
  (message_processing-Follows api5).from s,
  (synchronization_processing-Follows api6).from s,
  (memory_allocation-Follows api7).from s,
)
