-- ===== src/Suite/Calls.antt =====
-- The calls that the initializations of src/*.c make, as lists, and what becomes of such a list.
use thread_metric_benchmark.Base.{List, [], ◌∷◌, ◌++◌, pos, Bytes, codes}
use thread_metric_benchmark.Api.{Status, tm_success, tm_error, Api}
use thread_metric_benchmark.Api.Check.{Outcome, running, aborted}
use thread_metric_benchmark.Report.Loop.{write, exit}
use thread_metric_benchmark.Suite.Basic
use thread_metric_benchmark.Suite.Cooperative
use thread_metric_benchmark.Suite.Preemptive
use thread_metric_benchmark.Suite.Interrupt
use thread_metric_benchmark.Suite.InterruptPreemption
use thread_metric_benchmark.Suite.Message
use thread_metric_benchmark.Suite.Synchronization
use thread_metric_benchmark.Suite.Memory

-- A call of a service, with its text.
abbrev pub Call : Type 0 → Type 0
Call S = Bytes × (S → Status × S)

-- The calls in turn. One that succeeds hands its state to the next; the first that fails ends the
-- program with the message "FATAL: ", its text and " failed", and exit code 1.
unfoldable pub follow : {S : Type 0} → List (Call S) → S → Outcome S
follow [] s = running s
follow ((text, call) ∷ rest) s =
    let (status, s') = call s in
    elim status [
      | tm_success ↦ follow rest s'
      | tm_error ↦ aborted (write (codes "FATAL: " ++ (text ++ codes " failed\n")) ∷ exit 1 ∷ [])
    ]

abbrev pub basic_processing_calls : {S : Type 0} → Api Basic.Entry S → List (Call S)
basic_processing_calls api =
    (
      codes "tm_thread_create(0, 10, tm_basic_processing_thread_0_entry)",
      api.thread_create (pos 0) (pos 10) Basic.thread_0_entry,
    )
    ∷ (codes "tm_thread_resume(0)", api.thread_resume (pos 0))
    ∷ (
      codes "tm_thread_create(5, 2, tm_basic_processing_thread_report)",
      api.thread_create (pos 5) (pos 2) Basic.thread_report,
    )
    ∷ (codes "tm_thread_resume(5)", api.thread_resume (pos 5))
    ∷ []

abbrev pub cooperative_scheduling_calls : {S : Type 0} → Api Cooperative.Entry S → List (Call S)
cooperative_scheduling_calls api =
    (
      codes "tm_thread_create(0, 3, tm_cooperative_thread_0_entry)",
      api.thread_create (pos 0) (pos 3) Cooperative.thread_0_entry,
    )
    ∷ (
      codes "tm_thread_create(1, 3, tm_cooperative_thread_1_entry)",
      api.thread_create (pos 1) (pos 3) Cooperative.thread_1_entry,
    )
    ∷ (
      codes "tm_thread_create(2, 3, tm_cooperative_thread_2_entry)",
      api.thread_create (pos 2) (pos 3) Cooperative.thread_2_entry,
    )
    ∷ (
      codes "tm_thread_create(3, 3, tm_cooperative_thread_3_entry)",
      api.thread_create (pos 3) (pos 3) Cooperative.thread_3_entry,
    )
    ∷ (
      codes "tm_thread_create(4, 3, tm_cooperative_thread_4_entry)",
      api.thread_create (pos 4) (pos 3) Cooperative.thread_4_entry,
    )
    ∷ (codes "tm_thread_resume(0)", api.thread_resume (pos 0))
    ∷ (codes "tm_thread_resume(1)", api.thread_resume (pos 1))
    ∷ (codes "tm_thread_resume(2)", api.thread_resume (pos 2))
    ∷ (codes "tm_thread_resume(3)", api.thread_resume (pos 3))
    ∷ (codes "tm_thread_resume(4)", api.thread_resume (pos 4))
    ∷ (
      codes "tm_thread_create(5, 2, tm_cooperative_thread_report)",
      api.thread_create (pos 5) (pos 2) Cooperative.thread_report,
    )
    ∷ (codes "tm_thread_resume(5)", api.thread_resume (pos 5))
    ∷ []

abbrev pub preemptive_scheduling_calls : {S : Type 0} → Api Preemptive.Entry S → List (Call S)
preemptive_scheduling_calls api =
    (
      codes "tm_thread_create(0, 10, tm_preemptive_thread_0_entry)",
      api.thread_create (pos 0) (pos 10) Preemptive.thread_0_entry,
    )
    ∷ (
      codes "tm_thread_create(1, 9, tm_preemptive_thread_1_entry)",
      api.thread_create (pos 1) (pos 9) Preemptive.thread_1_entry,
    )
    ∷ (
      codes "tm_thread_create(2, 8, tm_preemptive_thread_2_entry)",
      api.thread_create (pos 2) (pos 8) Preemptive.thread_2_entry,
    )
    ∷ (
      codes "tm_thread_create(3, 7, tm_preemptive_thread_3_entry)",
      api.thread_create (pos 3) (pos 7) Preemptive.thread_3_entry,
    )
    ∷ (
      codes "tm_thread_create(4, 6, tm_preemptive_thread_4_entry)",
      api.thread_create (pos 4) (pos 6) Preemptive.thread_4_entry,
    )
    ∷ (codes "tm_thread_resume(0)", api.thread_resume (pos 0))
    ∷ (
      codes "tm_thread_create(5, 2, tm_preemptive_thread_report)",
      api.thread_create (pos 5) (pos 2) Preemptive.thread_report,
    )
    ∷ (codes "tm_thread_resume(5)", api.thread_resume (pos 5))
    ∷ []

abbrev pub interrupt_processing_calls : {S : Type 0} → Api Interrupt.Entry S → List (Call S)
interrupt_processing_calls api =
    (
      codes "tm_thread_create(0, 10, tm_interrupt_thread_0_entry)",
      api.thread_create (pos 0) (pos 10) Interrupt.thread_0_entry,
    )
    ∷ (codes "tm_semaphore_create(0)", api.semaphore_create (pos 0))
    ∷ (codes "tm_thread_resume(0)", api.thread_resume (pos 0))
    ∷ (
      codes "tm_thread_create(5, 2, tm_interrupt_thread_report)",
      api.thread_create (pos 5) (pos 2) Interrupt.thread_report,
    )
    ∷ (codes "tm_thread_resume(5)", api.thread_resume (pos 5))
    ∷ []

abbrev pub interrupt_preemption_processing_calls :
    {S : Type 0} → Api InterruptPreemption.Entry S → List (Call S)
interrupt_preemption_processing_calls api =
    (
      codes "tm_thread_create(0, 3, tm_interrupt_preemption_thread_0_entry)",
      api.thread_create (pos 0) (pos 3) InterruptPreemption.thread_0_entry,
    )
    ∷ (
      codes "tm_thread_create(1, 10, tm_interrupt_preemption_thread_1_entry)",
      api.thread_create (pos 1) (pos 10) InterruptPreemption.thread_1_entry,
    )
    ∷ (codes "tm_thread_resume(1)", api.thread_resume (pos 1))
    ∷ (
      codes "tm_thread_create(5, 2, tm_interrupt_preemption_thread_report)",
      api.thread_create (pos 5) (pos 2) InterruptPreemption.thread_report,
    )
    ∷ (codes "tm_thread_resume(5)", api.thread_resume (pos 5))
    ∷ []

abbrev pub message_processing_calls : {S : Type 0} → Api Message.Entry S → List (Call S)
message_processing_calls api =
    (
      codes "tm_thread_create(0, 10, tm_message_processing_thread_0_entry)",
      api.thread_create (pos 0) (pos 10) Message.thread_0_entry,
    )
    ∷ (codes "tm_thread_resume(0)", api.thread_resume (pos 0))
    ∷ (codes "tm_queue_create(0)", api.queue_create (pos 0))
    ∷ (
      codes "tm_thread_create(5, 2, tm_message_processing_thread_report)",
      api.thread_create (pos 5) (pos 2) Message.thread_report,
    )
    ∷ (codes "tm_thread_resume(5)", api.thread_resume (pos 5))
    ∷ []

abbrev pub synchronization_processing_calls :
    {S : Type 0} → Api Synchronization.Entry S → List (Call S)
synchronization_processing_calls api =
    (
      codes "tm_thread_create(0, 10, tm_synchronization_processing_thread_0_entry)",
      api.thread_create (pos 0) (pos 10) Synchronization.thread_0_entry,
    )
    ∷ (codes "tm_thread_resume(0)", api.thread_resume (pos 0))
    ∷ (codes "tm_semaphore_create(0)", api.semaphore_create (pos 0))
    ∷ (
      codes "tm_thread_create(5, 2, tm_synchronization_processing_thread_report)",
      api.thread_create (pos 5) (pos 2) Synchronization.thread_report,
    )
    ∷ (codes "tm_thread_resume(5)", api.thread_resume (pos 5))
    ∷ []

abbrev pub memory_allocation_calls : {S : Type 0} → Api Memory.Entry S → List (Call S)
memory_allocation_calls api =
    (
      codes "tm_thread_create(0, 10, tm_memory_allocation_thread_0_entry)",
      api.thread_create (pos 0) (pos 10) Memory.thread_0_entry,
    )
    ∷ (codes "tm_thread_resume(0)", api.thread_resume (pos 0))
    ∷ (codes "tm_memory_pool_create(0)", api.memory_pool_create (pos 0))
    ∷ (
      codes "tm_thread_create(5, 2, tm_memory_allocation_thread_report)",
      api.thread_create (pos 5) (pos 2) Memory.thread_report,
    )
    ∷ (codes "tm_thread_resume(5)", api.thread_resume (pos 5))
    ∷ []
