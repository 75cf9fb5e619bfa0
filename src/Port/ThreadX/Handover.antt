-- ===== src/Port/ThreadX/Handover.antt =====
-- The scheduler, the threads and the timer's interrupt of ports/threadx/posix-host as pthreads that
-- run side by side: tx_thread_schedule.c, tx_thread_system_return.c, tx_thread_context_save.c,
-- tx_thread_context_restore.c and _tx_posix_thread_entry. A step is the work of one pthread between
-- two waits, under the mutex, or in the system return the drain outside it. Only the scheduler waits with the mutex held, at `handing`: then no
-- other pthread takes a step that needs the mutex.
pub mod Owner
pub mod Facts
pub mod Steps
pub mod Threads
pub mod Yields
pub mod Interrupts
pub mod Preemptions
pub mod Safety
pub mod Progress
use thread_metric_benchmark.Base.{
  ℕ, ◌≡◌, ◌≢◌, Bool, true, false, not, ◌&&◌, Option, none, some, ◌==◌, if◌then◌else◌,
}
use thread_metric_benchmark.Port.ThreadX.Posix.Semaphore.{
  tx_posix_sem_post, tx_posix_sem_wait, drain,
}
use thread_metric_benchmark.Port.ThreadX.Posix.Nesting.{
  resume, Scheduler, update, is, send, suspend_current, post_scheduler, drain_scheduler,
  preempt_thread, waits_for,
}
use thread_metric_benchmark.Port.ThreadX.Posix.Schedule.{
  select, post_run, hold_timer, release_timer,
}
use thread_metric_benchmark.Port.ThreadX.Posix.Return.{give_up}

-- Where the scheduler stands: at the choice of a thread, at the wait for that thread to take over,
-- with the mutex, or at the wait for the processor to come back.
pub data SchedulerPc : Type 0 where
  choosing : SchedulerPc
  handing : SchedulerPc
  handed : SchedulerPc

-- Where the timer's pthread stands: outside the interrupt, between save and restore, or at the wait
-- for `_tx_posix_isr_semaphore`.
pub data TimerPc : Type 0 where
  outside : TimerPc
  inside : TimerPc
  held : TimerPc

-- Where the pthread of a thread stands: at the wait for its run semaphore, behind it, in the code
-- of the thread, behind the mutex in the system return, behind the loop there that drains the
-- semaphore of the scheduler, at its end. The state that the thread has under the mutex is kept.
pub data ThreadPc : Type 0 where
  parked : ThreadPc
  woken : ThreadPc
  running : ThreadPc
  yielding : (terminated : Bool) → ThreadPc
  drained : (terminated : Bool) → ThreadPc
  exited : ThreadPc

pub record System : Type 0 where
  pub sched : SchedulerPc
  pub timer : TimerPc
  pub pc : ℕ → ThreadPc
  pub stopped : ℕ → Bool  -- the pthread is in the handler of the signal to suspend
  pub current : Option ℕ  -- _tx_thread_current_ptr
  pub kernel : Scheduler

-- The pthread of a thread takes its steps.
abbrev pub Goes : System → ℕ → ThreadPc → Type 0
Goes s t p = (s.pc t ≡ p) × (s.stopped t ≡ false)

-- The thread that an interrupt finds is stopped by a signal.
abbrev pub stop : Option ℕ → (ℕ → Bool) → ℕ → Bool
stop none stopped = stopped
stop (some t) stopped = update stopped t true

-- The code of the threads and of the interrupts changes the kernel's variables, but not those by
-- which the processor is handed over.
pub record IsKernelWork (v w : Scheduler) : Type 0 where
  pub semaphore : w.semaphore ≡ v.semaphore
  pub run_semaphore : w.run_semaphore ≡ v.run_semaphore
  pub suspension_type : w.suspension_type ≡ v.suspension_type
  pub timer_waiting : w.timer_waiting ≡ v.timer_waiting
  pub isr_semaphore : w.isr_semaphore ≡ v.isr_semaphore

pub data Step (s : System) : System → Type 0 where
  -- _tx_thread_schedule: a thread that waits for its semaphore is chosen.
  offer :
      (t : ℕ)
      → s.sched ≡ choosing
      → s.timer ≢ inside
      → s.kernel.execute ≡ some t
      → s.kernel.suspension_type t ≡ 0
      → Step s (record s {
        sched = handing;
        current = some t;
        kernel = hold_timer (post_run t (select t s.kernel));
      })
  -- _tx_thread_schedule: a preempted thread is chosen.
  wake :
      (t : ℕ)
      → s.sched ≡ choosing
      → s.timer ≢ inside
      → s.kernel.execute ≡ some t
      → s.kernel.suspension_type t ≢ 0
      → Step s (record s {
        sched = handed;
        current = some t;
        stopped = update s.stopped t false;
        kernel = send (resume t) (select t s.kernel);
      })
  -- _tx_thread_schedule: the thread has taken over.
  hand_over :
      (count : ℕ)
      → s.sched ≡ handing
      → tx_posix_sem_wait s.kernel.semaphore ≡ some count
      → Step s (record s {
        sched = handed;
        kernel = release_timer (record (s.kernel) { semaphore = count });
      })
  -- _tx_thread_schedule: the processor has come back.
  come_back :
      (count : ℕ)
      → s.sched ≡ handed
      → tx_posix_sem_wait s.kernel.semaphore ≡ some count
      → Step s (record s { sched = choosing; kernel = record (s.kernel) { semaphore = count } })
  -- _tx_thread_system_return and _tx_posix_thread_entry: the thread gets its semaphore.
  take :
      (t count : ℕ)
      → Goes s t parked
      → tx_posix_sem_wait (s.kernel.run_semaphore t) ≡ some count
      → Step s (record s {
        pc = update s.pc t woken;
        kernel = record (s.kernel) { run_semaphore = update s.kernel.run_semaphore t count };
      })
  -- The same: it tells the scheduler.
  tell :
      (t : ℕ)
      → Goes s t woken
      → Step s (record s { pc = update s.pc t running; kernel = post_scheduler s.kernel })
  -- _tx_thread_system_return: the thread that runs gives the processor up.
  yield :
      (t : ℕ)
      → Goes s t running
      → s.sched ≢ handing
      → s.current ≡ some t
      → Step s (record s {
        pc = update s.pc t (yielding (s.kernel.terminated t));
        current = none;
        kernel = give_up t s.kernel;
      })
  -- The same, and behind the wait: another thread is taken for the one that runs.
  stale :
      (t : ℕ)
      → Goes s t running
      → s.sched ≢ handing
      → s.current ≢ some t
      → Step s (record s { pc = update s.pc t exited })
  -- _tx_thread_system_return: the semaphore of the scheduler is drained, outside the mutex.
  empty :
      (t : ℕ) (terminated : Bool)
      → Goes s t (yielding terminated)
      → Step s
          (record s { pc = update s.pc t (drained terminated); kernel = drain_scheduler s.kernel })
  -- _tx_thread_system_return: the scheduler is told, under the mutex, and the thread waits for its
  -- semaphore or ends.
  notify :
      (t : ℕ) (terminated : Bool)
      → Goes s t (drained terminated)
      → s.sched ≢ handing
      → Step s (record s {
        pc = update s.pc t (if terminated then exited else parked);
        kernel = post_scheduler s.kernel;
      })
  -- _tx_thread_context_save
  save :
      s.timer ≡ outside
      → s.sched ≢ handing
      → Step s (record s {
        timer = inside;
        stopped = stop s.current s.stopped;
        kernel = suspend_current s.current 0 s.kernel;
      })
  -- _tx_thread_context_restore: no thread runs.
  restore_idle :
      s.timer ≡ inside
      → s.sched ≢ handing
      → s.current ≡ none
      → Step s (record s { timer = outside })
  -- _tx_thread_context_restore: the thread goes on.
  restore_same :
      (t : ℕ)
      → s.timer ≡ inside
      → s.sched ≢ handing
      → s.current ≡ some t
      → (s.kernel.preempt_disable == 0) && not (is s.kernel.execute t) ≡ false
      → Step s (record s {
        timer = outside;
        stopped = update s.stopped t false;
        kernel = send (resume t) s.kernel;
      })
  -- _tx_thread_context_restore: the thread is preempted, and the timer's pthread waits or goes on.
  restore_other :
      (t : ℕ)
      → s.timer ≡ inside
      → s.sched ≢ handing
      → s.current ≡ some t
      → (s.kernel.preempt_disable == 0) && not (is s.kernel.execute t) ≡ true
      → Step s (
          let w = post_scheduler (preempt_thread t s.kernel) in
          record s {
            timer = if waits_for w then held else outside;
            current = none;
            kernel = if waits_for w then w else record w { timer_waiting = 0 };
          })
  -- _tx_thread_context_restore: the wait is over.
  interrupt_over :
      (count : ℕ)
      → s.timer ≡ held
      → s.sched ≢ handing
      → tx_posix_sem_wait s.kernel.isr_semaphore ≡ some count
      → Step s (record s {
        timer = outside;
        kernel = record (s.kernel) { isr_semaphore = drain count count; timer_waiting = 0 };
      })
  -- Whatever the code of the threads and of the interrupt does to the kernel.
  work :
      (w : Scheduler)
      → s.sched ≢ handing
      → IsKernelWork s.kernel w
      → Step s (record s { kernel = w })

pub data Reach (s : System) : System → Type 0 where
  here : Reach s s
  later : {t u : System} → Reach s t → Step t u → Reach s u
