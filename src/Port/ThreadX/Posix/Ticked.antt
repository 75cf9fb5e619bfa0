-- ===== src/Port/ThreadX/Posix/Ticked.antt =====
-- A timer interrupt of ports/threadx/posix-host that preempts the thread that runs:
-- tx_initialize_low_level.c, tx_timer_interrupt.c, tx_thread_context_save.c and
-- tx_thread_context_restore.c together.
use thread_metric_benchmark.Base.{
  ℕ, ◌≡◌, ap, ◌∙◌, true, not, ◌&&◌, Option, none, some, ◌==◌, if◌then◌else◌,
}
use thread_metric_benchmark.Port.ThreadX.Posix.Lock.{Mutex, Context}
use thread_metric_benchmark.Port.ThreadX.Posix.Timer.{Timer, TimerKernel, tick}
use thread_metric_benchmark.Port.ThreadX.Posix.Nesting.{
  Scheduler, is, waits_for, Restored, done, waiting, tx_thread_context_restore,
}
use thread_metric_benchmark.Port.ThreadX.Posix.Interrupted.{preempted, saved, restore_preempts}
use thread_metric_benchmark.Port.ThreadX.LowLevel.{timer_interrupt_round}

module _ {M K : Type 0} (posix : Mutex M) (kernel : TimerKernel K) (wanted : K → Option ℕ) where
  -- The kernel's timer behind its tick, which counts the time slice down.
  abbrev pub ticked : Scheduler → Timer K → Timer K
  ticked v timer = tick kernel (record timer { time_slice = v.timer_slice })

  -- The scheduler's variables behind the tick.
  abbrev pub after_tick : Scheduler → Timer K → Scheduler
  after_tick v timer = record v {
    timer_slice = (ticked v timer).time_slice;
    execute = wanted (ticked v timer).kernel;
  }

  abbrev between : Timer K → Context M × Scheduler → Restored posix × Timer K
  between timer x = (tx_thread_context_restore posix (x.0, after_tick x.1 timer), ticked x.1 timer)

  -- On the ThreadX port for POSIX hosts, a round of the timer's pthread, that is, the save, the tick
  -- of the kernel and the restore, that finds the thread t running, outside every other interrupt,
  -- with preemption allowed, and whose tick leaves another thread, or none, as the wanted one: it
  -- leaves t stopped and marked so, and no thread running. What the tick has left of the time slice,
  -- if anything, is kept with t, the semaphore of the scheduler has the count 1 whatever it had, and
  -- the mutex is not counted as held. The interrupt then waits for the scheduler if the wanted thread
  -- waits for its own semaphore, and else it is done.
  pub tick_preempts :
      (t : ℕ) (s : Context M) (v : Scheduler) (timer : Timer K)
      → s.current ≡ some t
      → s.system_state ≡ 0
      → ((v.preempt_disable == 0) && not (is (wanted (ticked v timer).kernel) t)) ≡ true
      → (m : M) × (timer_interrupt_round posix kernel wanted ((s, v), timer) ≡ (
        (if waits_for (preempted posix t (after_tick v timer))
            then waiting
                (record s { mutex = m; lock_count = 0; current = none })
                (preempted posix t (after_tick v timer))
            else done
                (record s { mutex = m; lock_count = 0; current = none })
                (record (preempted posix t (after_tick v timer)) { timer_waiting = 0 })),
        ticked v timer,
      ))
  unfolding timer_interrupt_round
  tick_preempts t s v timer e z other =
      let (m, back) = restore_preempts posix t s (after_tick v timer) e z other in
      (
        m,
        ap (between timer) (saved posix t s v e z)
            ∙ ap (λ (r : Restored posix). (r, ticked v timer)) back,
      )
