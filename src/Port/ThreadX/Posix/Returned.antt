-- ===== src/Port/ThreadX/Posix/Returned.antt =====
-- A thread of ports/threadx/posix-host gives the processor up and gets it back.
use thread_metric_benchmark.Base.{ℕ, ◌+◌, ◌<◌, ◌≡◌, refl, ap, ◌∙◌, false, none, some, arith}
use thread_metric_benchmark.Port.ThreadX.Posix.Lock.{
  Mutex, Context, is_stale, tx_posix_mutex_lock, tx_posix_mutex_unlock,
  tx_posix_mutex_recursive_unlock,
}
use thread_metric_benchmark.Port.ThreadX.Posix.Semaphore.{
  tx_posix_sem_post, tx_posix_sem_wait, drain_lem,
}
use thread_metric_benchmark.Port.ThreadX.Posix.Nesting.{
  Scheduler, update, at_update, keep_slice, drain_scheduler, post_scheduler, post_sched,
}
use thread_metric_benchmark.Port.ThreadX.Posix.Schedule.{
  handing, select, post_run, hold_timer, hold_timer-keeps, dispatch, choose, schedule_round,
}
use thread_metric_benchmark.Port.ThreadX.Posix.Return.{
  waits, give_up, take_over, hand_back, return_from, tx_thread_system_return,
}

-- What the thread leaves behind.
abbrev pub given_up : ℕ → Scheduler → Scheduler
given_up t v = post_scheduler (drain_scheduler (give_up t v))

given_up-semaphore : (t : ℕ) (v : Scheduler) → (given_up t v).semaphore ≡ 1
unfolding post_scheduler drain_scheduler tx_posix_sem_post
given_up-semaphore t v =
    ap (λ n. n + 1) (drain_lem (give_up t v).semaphore (give_up t v).semaphore (omega arith))

given_up-slice :
    (t : ℕ) (v : Scheduler) → 0 < v.timer_slice → (given_up t v).time_slice t ≡ v.timer_slice
unfolding post_scheduler drain_scheduler give_up keep_slice
given_up-slice t v h = ground arith

given_up-mark : (t : ℕ) (v : Scheduler) → (given_up t v).suspension_type t ≡ 0
unfolding post_scheduler drain_scheduler give_up
given_up-mark t v = at_update (keep_slice t v).suspension_type t 0

module _ {M : Type 0} (posix : Mutex M) where
  -- With the mutex given back, after it was taken for the post.
  abbrev pub let_go : Context M → Context M
  let_go s = tx_posix_mutex_unlock posix (
      tx_posix_mutex_lock posix (
        tx_posix_mutex_recursive_unlock posix
          (record (tx_posix_mutex_lock posix s) { current = none })))

  returning :
      (t : ℕ) (s : Context M) (v : Scheduler)
      → s.current ≡ some t
      → is_stale s.threadx_thread s.thread_id s.self (some t) ≡ false
      → v.terminated t ≡ false
      → tx_thread_system_return posix (s, v) ≡ waits t (let_go s) (given_up t v)
  unfolding tx_thread_system_return return_from hand_back post_sched tx_posix_mutex_lock
  returning t s v e live alive = rw (e, live, alive)

  offering :
      (t : ℕ) (c : Context M) (w : Scheduler)
      → w.execute ≡ some t
      → w.suspension_type t ≡ 0
      → c.system_state ≡ 0
      → schedule_round posix (c, w)
        ≡ handing
            (tx_posix_mutex_unlock posix (
              tx_posix_mutex_lock posix
                (record (tx_posix_mutex_lock posix c) { current = some t })))
            (hold_timer (post_run t (select t w)))
  unfolding schedule_round choose dispatch tx_posix_mutex_lock
  offering t c w e m z = rw (e, z, m)

taking :
    (t : ℕ) (w : Scheduler)
    → w.run_semaphore t ≡ 1
    → take_over t w
      ≡ some (record w { run_semaphore = update w.run_semaphore t 0; semaphore = w.semaphore + 1 })
unfolding take_over tx_posix_sem_wait tx_posix_sem_post
taking t w e = rw (take_over, e) refl

posted : (t : ℕ) (w : Scheduler) → (hold_timer (post_run t w)).run_semaphore t ≡ 1
unfolding post_run tx_posix_sem_post
posted t w =
    (λ i. (hold_timer-keeps (post_run t w)).1 i t)
    ∙ at_update w.run_semaphore t _
    ∙ ap (λ n. n + 1) (drain_lem (w.run_semaphore t) (w.run_semaphore t) (omega arith))

module _ {M : Type 0} (posix : Mutex M) where
  -- On the ThreadX port for POSIX hosts: if the thread t, which runs and has not ended, gives the
  -- processor up with a time slice left, then it waits for its run semaphore, and the scheduler's
  -- semaphore has the count 1. Whatever the other threads have done since, if they have touched
  -- neither t's slice nor its mark: as soon as t is the wanted thread and no interrupt runs, a round
  -- of the scheduler makes t the current thread, with the slice that it had left, and raises t's run
  -- semaphore, so that t goes on, leaves that semaphore at 0, and tells the scheduler once.
  pub yielded_slice_returns :
      (t : ℕ) (s c : Context M) (v w : Scheduler)
      → s.current ≡ some t
      → is_stale s.threadx_thread s.thread_id s.self (some t) ≡ false
      → v.terminated t ≡ false
      → 0 < v.timer_slice
      → w.execute ≡ some t
      → w.time_slice t ≡ (given_up t v).time_slice t
      → w.suspension_type t ≡ (given_up t v).suspension_type t
      → c.system_state ≡ 0
      → (tx_thread_system_return posix (s, v) ≡ waits t (let_go posix s) (given_up t v))
        × ((given_up t v).semaphore ≡ 1)
        × ((c' : Context M) × (w' : Scheduler) × (w'' : Scheduler) × (schedule_round posix (c, w)
              ≡ handing c' w')
            × (c'.current ≡ some t)
            × (w'.timer_slice ≡ v.timer_slice)
            × (take_over t w' ≡ some w'')
            × (w''.run_semaphore t ≡ 0)
            × (w''.semaphore ≡ w.semaphore + 1))
  unfolding select post_run tx_posix_mutex_lock tx_posix_mutex_unlock
  yielded_slice_returns t s c v w e live alive some_slice wanted slice mark z =
      let (semaphore, run, marks, timer_slice) = hold_timer-keeps (post_run t (select t w)) in
      (
        returning posix t s v e live alive,
        given_up-semaphore t v,
        (
          _,
          _,
          _,
          offering posix t c w wanted (mark ∙ given_up-mark t v) z,
          refl,
          timer_slice ∙ slice ∙ given_up-slice t v some_slice,
          taking t _ (posted t (select t w)),
          at_update (hold_timer (post_run t (select t w))).run_semaphore t 0,
          ap (λ n. n + 1) semaphore,
        ),
      )
