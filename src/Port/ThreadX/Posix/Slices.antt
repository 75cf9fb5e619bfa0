-- ===== src/Port/ThreadX/Posix/Slices.antt =====
-- Time slices over preemption in ports/threadx/posix-host.
use thread_metric_benchmark.Base.{
  ℕ, ◌<◌, ◌≡◌, refl, ap, ◌∙◌, Bool, true, false, not, ◌&&◌, Option, none, some, ◌∷◌, arith, ◌==◌,
  if◌then◌else◌,
}
use thread_metric_benchmark.Port.ThreadX.Posix.Lock.{
  Mutex, Context, tx_posix_mutex_lock, tx_posix_mutex_unlock,
}
use thread_metric_benchmark.Port.ThreadX.Posix.Nesting.{
  resume, Scheduler, update, is, at_update, send, waits_for, Restored, done, waiting,
}
use thread_metric_benchmark.Port.ThreadX.Posix.Interrupted.{preempted}
use thread_metric_benchmark.Port.ThreadX.Posix.Ticked.{ticked, after_tick, tick_preempts}
use thread_metric_benchmark.Port.ThreadX.Posix.Timer.{Timer, TimerKernel}
use thread_metric_benchmark.Port.ThreadX.LowLevel.{timer_interrupt_round}
use thread_metric_benchmark.Port.ThreadX.Posix.Schedule.{
  handed, select, dispatch, choose, schedule_round,
}

module _ {M : Type 0} (posix : Mutex M) where
  resumed_round :
      (t : ℕ) (s : Context M) (w : Scheduler)
      → w.execute ≡ some t
      → s.system_state ≡ 0
      → (w.suspension_type t == 0) ≡ false
      → schedule_round posix (s, w)
        ≡ handed
            (tx_posix_mutex_unlock posix
              (record (tx_posix_mutex_lock posix s) { current = some t }))
            (send (resume t) (select t w))
  unfolding schedule_round choose dispatch tx_posix_mutex_lock
  resumed_round t s w e z marked = rw (e, z, marked)

  -- The scheduler's variables that an interrupt leaves.
  abbrev pub left_by : Restored posix → Scheduler
  left_by (done s v) = v
  left_by (waiting s v) = v

  -- Whether the interrupt waits or not, the slices and the marks are the same.
  slices_left :
      (b : Bool) (s : Context M) (v : Scheduler) (t : ℕ)
      → ((left_by (if b then waiting s v else done s (record v { timer_waiting = 0 }))).time_slice t
          ≡ v.time_slice t)
        × ((left_by (
                if b then waiting s v else done s (record v { timer_waiting = 0 }))).suspension_type
              t
            ≡ v.suspension_type t)
  slices_left true s v t = (refl, refl)
  slices_left false s v t = (refl, refl)

  marked_thread :
      (t n : ℕ) (v : Scheduler) → n ≡ (preempted posix t v).suspension_type t → (n == 0) ≡ false
  marked_thread t n v e = rw (e, at_update (update v.suspension_type t 1) t 1)

  kept_slice :
      (t : ℕ) (v : Scheduler)
      → 0 < v.timer_slice
      → (preempted posix t v).time_slice t ≡ v.timer_slice
  kept_slice t v h = ground arith

  -- On the ThreadX port for POSIX hosts: a round of the timer's pthread finds the thread t running,
  -- outside every other interrupt, with preemption allowed, and its tick leaves a part of the time
  -- slice and another thread, or none, as the wanted one. Whatever the other threads do then, if they
  -- touch neither t's slice nor its mark: as soon as t is the wanted thread and no interrupt runs, a
  -- round of the scheduler makes t the thread that runs, resumes its pthread by a signal, without its
  -- semaphore, and gives it the slice that the tick had left.
  pub preempted_slice_returns :
      {K : Type 0} (kernel : TimerKernel K) (wanted : K → Option ℕ) (t : ℕ) (s : Context M)
      (v : Scheduler) (timer : Timer K) (s' : Context M) (w : Scheduler)
      → s.current ≡ some t
      → s.system_state ≡ 0
      → ((v.preempt_disable == 0)
          && not (is (wanted (ticked posix kernel wanted v timer).kernel) t))
        ≡ true
      → 0 < (ticked posix kernel wanted v timer).time_slice
      → w.execute ≡ some t
      → w.time_slice t
        ≡ (left_by (timer_interrupt_round posix kernel wanted ((s, v), timer)).0).time_slice t
      → w.suspension_type t
        ≡ (left_by (timer_interrupt_round posix kernel wanted ((s, v), timer)).0).suspension_type t
      → s'.system_state ≡ 0
      → (s'' : Context M) × (w' : Scheduler) × (schedule_round posix (s', w) ≡ handed s'' w')
        × (s''.current ≡ some t)
        × (w'.timer_slice ≡ (ticked posix kernel wanted v timer).time_slice)
        × (w'.signals ≡ resume t ∷ w.signals)
        × (w'.run_semaphore ≡ w.run_semaphore)
  unfolding select send tx_posix_mutex_unlock
  preempted_slice_returns kernel wanted t s v timer s' w e z other some_slice again slice mark z' =
      let (m, stopped) = tick_preempts posix kernel wanted t s v timer e z other in
      let v' = after_tick posix kernel wanted v timer in
      let (slice', mark') =
        slices_left (waits_for (preempted posix t v'))
          (record s { mutex = m; lock_count = 0; current = none }) (preempted posix t v') t in
      let same = ap (λ (x : Restored posix × Timer _). left_by x.0) stopped in
      (
        _,
        _,
        resumed_round t s' w again z' (
            marked_thread t (w.suspension_type t) v'
              (mark ∙ (ap (λ x. x.suspension_type t) same ∙ mark'))),
        refl,
        slice ∙ (ap (λ x. x.time_slice t) same ∙ (slice' ∙ kept_slice t v' some_slice)),
        refl,
        refl,
      )
