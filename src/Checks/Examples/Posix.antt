-- ===== src/Checks/Examples/Posix.antt =====
-- The shells of the layer for ThreadX, and the kernel's port to POSIX hosts, at concrete inputs.
use thread_metric_benchmark.Base.{
  ℕ, ◌+◌, ◌-◌, ◌*◌, ◌^◌, ◌≤◌, ◌≡◌, refl, Bool, true, false, Option, none, some, List, [], ◌∷◌,
  arith, ◌==◌, if◌then◌else◌, All, pos,
}
use thread_metric_benchmark.Port.ThreadX.Kernel.{Port, cortex_m, posix_host}
use thread_metric_benchmark.Port.ThreadX.Services.{tm_thread_create}
use thread_metric_benchmark.Port.ThreadX.Entry.{
  tm_isr_thread_round, tm_cause_interrupt, cause_then_round,
}
use thread_metric_benchmark.Port.ThreadX.Posix.Lock.{Mutex, Context, is_stale}
use thread_metric_benchmark.Port.ThreadX.Posix.Sections.{MutexLaws, IsLive}
use thread_metric_benchmark.Port.ThreadX.Posix.Nested.{
  work, both, critical, run, ran, critical_section_lem,
}
use thread_metric_benchmark.Port.ThreadX.Posix.Nesting.{
  resume, Scheduler, waits_for, done, waiting, tx_thread_context_save, tx_thread_context_restore,
}
use thread_metric_benchmark.Port.ThreadX.Posix.Interrupted.{preempted}
use thread_metric_benchmark.Port.ThreadX.Posix.Ticked.{ticked, tick_preempts}
use thread_metric_benchmark.Port.ThreadX.LowLevel.{timer_interrupt_round}
use thread_metric_benchmark.Port.ThreadX.Posix.Schedule.{handed, schedule_round}
use thread_metric_benchmark.Port.ThreadX.Posix.Slices.{preempted_slice_returns}
use thread_metric_benchmark.Port.ThreadX.Posix.Timer.{Timer, TimerKernel, tick, ticks}
use thread_metric_benchmark.Port.ThreadX.Posix.Wheel.{IsCalm, later, slice_runs_out}
use thread_metric_benchmark.Checks.ThreadXMachine.{Rtos, rtos, new_port}
use thread_metric_benchmark.Checks.ThreadXLaws.{rtos_isr}

-- Two threads, which write their number.
abbrev run_number : Bool → Port Bool Unit Rtos → ℕ
run_number true s = 1
run_number false s = 0

abbrev one_thread : Port Bool Unit Rtos
one_thread = (tm_thread_create rtos (pos 4) (pos 9) true new_port).1

-- The first handler adds one, the second doubles.
abbrev add_one : ℕ × Port Unit Unit Rtos → ℕ × Port Unit Unit Rtos
add_one (n, s) = (n + 1, s)

abbrev double : ℕ × Port Unit Unit Rtos → ℕ × Port Unit Unit Rtos
double (n, s) = (2 * n, s)

cause_then_round_example :
    (tm_isr_thread_round rtos add_one double (3, new_port) ≡ none)
    × (tm_isr_thread_round rtos add_one double
          (tm_cause_interrupt rtos posix_host add_one double (3, new_port))
        ≡ some (tm_cause_interrupt rtos cortex_m add_one double (3, new_port)))
    × (tm_isr_thread_round rtos add_one double
          (tm_cause_interrupt rtos cortex_m add_one double (3, new_port))
        ≡ none)
unfolding rtos_isr
cause_then_round_example = cause_then_round rtos rtos_isr add_one double (3, new_port) refl refl

-- A mutex that is its count.
abbrev counter : Mutex ℕ
counter = record { lock = λ n. n + 1; unlock = λ n. n - 1 }

unfoldable pub counter_laws : MutexLaws counter
counter_laws = record { depth = λ n. n; depth-lock = λ n. refl; depth-unlock = λ n. refl }

-- Thread 7 runs.
abbrev thread_7 : Context ℕ
thread_7 = record {
  mutex = 0;
  lock_count = 0;
  threadx_thread = true;
  self = 7;
  current = some 7;
  system_state = 0;
  thread_id = λ t. t;
  int_disabled = λ t. false;
  global_int_disabled = false;
}

thread_7-IsLive : IsLive counter_laws thread_7
unfolding counter_laws is_stale
thread_7-IsLive = record { counted = refl; fresh = refl; inside = λ e. (7, refl) }

critical_section_lem_example :
    (held : List ℕ) × (s' : Context ℕ) × (run counter
        (critical (both (critical work) work))
        thread_7
      ≡ ran held s')
    × All (λ n. 1 ≤ n) held
    × IsLive counter_laws s'
    × (s'.lock_count ≡ 0)
    × (counter_laws.depth s'.mutex ≡ 0)
critical_section_lem_example =
    critical_section_lem counter_laws (both (critical work) work) thread_7 thread_7-IsLive refl

-- Four places, of which the last holds a timer. A timer that runs out is taken off; a thread gets
-- slices of five ticks.
abbrev wheel : TimerKernel ℕ
wheel = record {
  size = 4;
  occupied = λ k i. i == k;
  timer_expiration_process = λ t. record t { kernel = 9; expired = false };
  thread_time_slice = λ t. record t { time_slice = 5; expired_time_slice = false };
}

-- At the third place, with the timer at the place `k`.
abbrev timer_at : (k time_slice : ℕ) → Timer ℕ
timer_at k time_slice = record {
  system_clock = 2 ^ 32 - 1;
  time_slice = time_slice;
  expired_time_slice = false;
  expired = false;
  current = 2;
  kernel = k;
}

timer_at-IsCalm : (k time_slice : ℕ) → IsCalm wheel (timer_at k time_slice)
timer_at-IsCalm k time_slice = record {
  clock = omega arith;
  place = omega arith;
  no_timer = refl;
  no_slice = refl;
}

slice_runs_out_example :
    (ticks wheel 1 (timer_at 9 2) ≡ later wheel 1 (timer_at 9 2))
    × (ticks wheel 2 (timer_at 9 2)
        ≡ wheel.thread_time_slice
            (record (later wheel 2 (timer_at 9 2)) { expired_time_slice = true }))
slice_runs_out_example =
    slice_runs_out wheel 1 1 (timer_at 9 2) (timer_at-IsCalm 9 2) refl (λ m l. ground arith)
      (omega arith)

-- Thread 7 runs, with three ticks left; thread 2 is wanted, and waits for its semaphore.
abbrev wants_2 : Scheduler
wants_2 = record {
  execute = some 2;
  preempt_disable = 0;
  timer_slice = 3;
  time_slice = λ t. 5;
  suspension_type = λ t. 0;
  semaphore = 4;
  isr_semaphore = 0;
  timer_waiting = 0;
  run_semaphore = λ t. 0;
  run_count = λ t. 0;
  terminated = λ t. false;
  signals = [];
}

-- Behind the tick the kernel, which is the number 2, wants thread 2.
abbrev wants_state : ℕ → Option ℕ
wants_state k = some k

abbrev calm_timer : Timer ℕ
calm_timer = timer_at 2 3

abbrev wheel_of_2 : TimerKernel ℕ
wheel_of_2 = record wheel { occupied = λ k i. false }

-- Thread 2 is wanted, and t stays until the tick.
abbrev two_left : Scheduler
two_left = record wants_2 { timer_slice = 2 }

tick_preempts_example :
    (m : ℕ) × (timer_interrupt_round counter wheel_of_2 wants_state
        ((thread_7, record wants_2 { execute = some 7 }), calm_timer)
      ≡ (
        (if waits_for (preempted counter 7 two_left)
            then waiting
                (record thread_7 { mutex = m; lock_count = 0; current = none })
                (preempted counter 7 two_left)
            else done
                (record thread_7 { mutex = m; lock_count = 0; current = none })
                (record (preempted counter 7 two_left) { timer_waiting = 0 })),
        ticked counter wheel_of_2 wants_state wants_2 calm_timer,
      ))
unfolding tick
tick_preempts_example =
    tick_preempts counter wheel_of_2 wants_state 7 thread_7 (record wants_2 { execute = some 7 })
      calm_timer refl refl refl

-- Thread 7 is wanted again.
abbrev wants_7 : Scheduler
wants_7 = record (preempted counter 7 two_left) { execute = some 7 }

preempted_slice_returns_example :
    (s' : Context ℕ) × (w' : Scheduler) × (schedule_round counter
        (record thread_7 { current = none }, wants_7)
      ≡ handed s' w')
    × (s'.current ≡ some 7)
    × (w'.timer_slice ≡ 2)
    × (w'.signals ≡ resume 7 ∷ wants_7.signals)
    × (w'.run_semaphore ≡ wants_7.run_semaphore)
unfolding tick timer_interrupt_round tx_thread_context_save tx_thread_context_restore
preempted_slice_returns_example =
    preempted_slice_returns counter wheel_of_2 wants_state 7 thread_7
      (record wants_2 { execute = some 7 }) calm_timer (record thread_7 { current = none }) wants_7
      refl refl refl (omega arith) refl refl refl refl
