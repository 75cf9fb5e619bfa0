-- ===== src/Checks/Examples/ThreadX.antt =====
-- The layer for ThreadX on the small kernel.
use thread_metric_benchmark.Base.{◌<◌, ◌≡◌, refl, ◌≢◌, false, not, ◌&&◌, ◌||◌, arith, ◌==◌, pos}
use thread_metric_benchmark.Api.{tm_success, Message}
use thread_metric_benchmark.Api.Check.{Outcome, running, tm_check, ◌>>◌}
use thread_metric_benchmark.Suite.Preemptive
use thread_metric_benchmark.Suite.Preemptive.System
use thread_metric_benchmark.Suite.Preemptive.Safety
use thread_metric_benchmark.Suite.Interrupt
use thread_metric_benchmark.Suite.Interrupt.Worker as InterruptWorker
use thread_metric_benchmark.Suite.Interrupt.Safety as InterruptSafety
use thread_metric_benchmark.Suite.Message.Worker as MessageWorker
use thread_metric_benchmark.Port.ThreadX.Kernel.{
  Port, cortex_m, posix_host, tm_thread, returned, out_of_bounds,
}
use thread_metric_benchmark.Port.ThreadX.Interrupt.{
  bracketed, tm_cause_interrupt_sync, called, in_context,
}
use thread_metric_benchmark.Port.ThreadX.Services
use thread_metric_benchmark.Port.ThreadX.Queue
use thread_metric_benchmark.Port.ThreadX.Threads
use thread_metric_benchmark.Port.ThreadX.Bracket.{entered, bracketed_counters}
use thread_metric_benchmark.Port.ThreadX.Programs.{preemptive_on_threadx, interrupt_on_threadx}
use thread_metric_benchmark.Checks.Scheduler as Scheduler
use thread_metric_benchmark.Checks.ThreadXMachine.{Rtos, rtos, set_ready, new_port}
use thread_metric_benchmark.Checks.ThreadXLaws.{rtos_counters, rtos_semaphores, rtos_threads}

abbrev state_of : {S : Type 0} → S → Outcome S → S
state_of s (running s') = s'
state_of s _ = s

abbrev initialized : Port Preemptive.Entry Unit Rtos
initialized =
    state_of new_port (
      Preemptive.tm_preemptive_scheduling_initialize (Services.threadx_api rtos posix_host)
        new_port)

initialized-running :
    Preemptive.tm_preemptive_scheduling_initialize (Services.threadx_api rtos posix_host) new_port
    ≡ running initialized
unfolding Preemptive.tm_preemptive_scheduling_initialize tm_check ◌>>◌ Services.threadx_api
    Services.tm_thread_create Services.tm_thread_resume out_of_bounds called in_context returned
initialized-running = refl

-- The reporting thread goes to sleep, and thread 0 resumes thread 1.
abbrev asleep : System.System (Port Preemptive.Entry Unit Rtos)
asleep = record (Safety.initial initialized) {
  rtos = record initialized { kernel = set_ready (tm_thread 5) false initialized.kernel };
}

abbrev one_up : System.System (Port Preemptive.Entry Unit Rtos)
one_up = System.run_thread (Services.threadx_api rtos posix_host) 0 asleep

one_up-Reach :
    System.Reach
      (Threads.thread_laws rtos posix_host rtos_threads)
      (Safety.initial initialized)
      one_up
unfolding Threads.thread_laws Scheduler.thread_laws rtos_threads
    Preemptive.tm_preemptive_scheduling_initialize tm_check ◌>>◌ Services.threadx_api
    Services.tm_thread_create Services.tm_thread_resume out_of_bounds called in_context returned
one_up-Reach =
    System.later
      (System.later System.here (
        System.report asleep.rtos refl (record {
          same_created = λ j. refl;
          same_priority = λ j. refl;
          same_ready = λ j. ground arith;
        })))
      (System.work 0 refl (omega arith))

preemptive_on_threadx_example : Preemptive.preemptive_invalid one_up.counters ≡ false
unfolding rtos_threads System.run_thread System.tm_preemptive_thread_0_entry Scheduler.thread_laws
preemptive_on_threadx_example =
    preemptive_on_threadx rtos rtos_threads new_port initialized (λ j. refl) (λ j. ground arith)
      initialized-running one_up-Reach (omega arith)

abbrev with_semaphore : Port Interrupt.Entry Unit Rtos
with_semaphore = (Services.tm_semaphore_create rtos (pos 0) new_port).1

with_semaphore-created :
    Services.tm_semaphore_create rtos (pos 0) new_port ≡ (tm_success, with_semaphore)
unfolding Services.tm_semaphore_create out_of_bounds called returned
with_semaphore-created = refl

abbrev five_statements : InterruptWorker.Pc × InterruptWorker.World (Port Interrupt.Entry Unit Rtos)
five_statements =
    InterruptWorker.run (Services.threadx_api rtos posix_host)
      (tm_cause_interrupt_sync rtos posix_host) 5 (InterruptSafety.start with_semaphore)

five_statements-count : five_statements.1.0.thread_0_counter ≡ 1
unfolding InterruptWorker.run InterruptWorker.tm_interrupt_thread_0_entry
    InterruptWorker.tm_interrupt_handler tm_cause_interrupt_sync Services.threadx_api
    Services.tm_semaphore_create Services.tm_semaphore_get Services.tm_semaphore_put
five_statements-count = refl

interrupt_on_threadx_example :
    (five_statements.0 ≢ InterruptWorker.returned)
    × (Interrupt.interrupt_invalid (InterruptSafety.snapshot five_statements.1.0) ≡ false)
unfolding rtos_semaphores
interrupt_on_threadx_example =
    interrupt_on_threadx rtos rtos_semaphores 5 new_port with_semaphore five_statements refl
      with_semaphore-created refl (omega (arith, five_statements-count))

bracketed_counters_example :
    (0 < rtos.system_state (entered rtos (new_port {Entry = Unit}).kernel))
    × (0 < rtos.preempt_disable (entered rtos (new_port {Entry = Unit}).kernel))
    × ((bracketed rtos cortex_m (rtos.thread_resume (tm_thread 3)) (new_port {Entry = Unit})).0
        ≡ returned
            (rtos.thread_resume (tm_thread 3) (entered rtos (new_port {Entry = Unit}).kernel)).0)
    × ((bracketed rtos cortex_m
          (rtos.thread_resume (tm_thread 3))
          (new_port {Entry = Unit})).1.primask
        ≡ 0)
    × (rtos.system_state
          (bracketed rtos cortex_m
            (rtos.thread_resume (tm_thread 3))
            (new_port {Entry = Unit})).1.kernel
        ≡ 0)
    × (rtos.preempt_disable
          (bracketed rtos cortex_m
            (rtos.thread_resume (tm_thread 3))
            (new_port {Entry = Unit})).1.kernel
        ≡ 0)
    × ((bracketed rtos cortex_m
          (rtos.thread_resume (tm_thread 3))
          (new_port {Entry = Unit})).1.preemption_pending
        ≡ ((not (
                rtos.runs_best
                  (bracketed rtos cortex_m
                    (rtos.thread_resume (tm_thread 3))
                    (new_port {Entry = Unit})).1.kernel)
              && (rtos.preempt_disable
                    (bracketed rtos cortex_m
                      (rtos.thread_resume (tm_thread 3))
                      (new_port {Entry = Unit})).1.kernel
                  == 0))
            || false))
bracketed_counters_example =
    bracketed_counters rtos rtos_counters (rtos.thread_resume (tm_thread 3)) new_port (omega arith)
      (omega arith) (λ k. refl) (λ k. refl)

abbrev port : Port Unit Unit Rtos
port = new_port

abbrev message : Message
message = record { word_0 = 1; word_1 = 2; word_2 = 3; word_3 = 4 }
