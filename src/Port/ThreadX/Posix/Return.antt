-- ===== src/Port/ThreadX/Posix/Return.antt =====
-- How a thread gives the processor to the scheduler and gets it back in ports/threadx/posix-host:
-- tx_thread_system_return.c, and the first lines of _tx_posix_thread_entry.
use thread_metric_benchmark.Base.{ℕ, true, Option, none, some, if◌then◌else◌}
use thread_metric_benchmark.Port.ThreadX.Posix.Lock.{
  Mutex, Context, is_stale, tx_posix_mutex_lock, tx_posix_mutex_recursive_unlock,
}
use thread_metric_benchmark.Port.ThreadX.Posix.Semaphore.{tx_posix_sem_post, tx_posix_sem_wait}
use thread_metric_benchmark.Port.ThreadX.Posix.Nesting.{
  Scheduler, update, keep_slice, drain_scheduler, post_sched,
}

-- How far the thread gets: its pthread ends, or waits for the thread's run semaphore. A pthread
-- that is not one of ThreadX follows the pointer although no thread runs.
pub data Return (M : Type 0) : Type 0 where
  exits : Context M → Scheduler → Return M
  waits : (t : ℕ) → Context M → Scheduler → Return M
  null_pointer : Return M

-- Behind the wait: the thread goes on, or its pthread ends after all.
pub data Resumed (M : Type 0) : Type 0 where
  resumes : Context M → Scheduler → Resumed M
  ends : Context M → Scheduler → Resumed M

-- What the thread leaves in its control block.
unfoldable pub give_up : ℕ → Scheduler → Scheduler
unfolding keep_slice
give_up t v = let w = keep_slice t v in record w { suspension_type = update w.suspension_type t 0 }

-- The wait for the run semaphore of the thread, and the post that tells the scheduler; nothing as
-- long as it waits.
unfoldable pub take_over : ℕ → Scheduler → Option Scheduler
unfolding tx_posix_sem_wait tx_posix_sem_post
take_over t v = elim (tx_posix_sem_wait (v.run_semaphore t)) [
  | none ↦ none
  | some count ↦ some (record v {
    run_semaphore = update v.run_semaphore t count;
    semaphore = tx_posix_sem_post v.semaphore;
  })
]

module _ {M : Type 0} (posix : Mutex M) where
  -- The thread lets go of the mutex, and the scheduler is told.
  unfoldable pub hand_back : ℕ → Context M × Scheduler → Context M × Scheduler
  unfolding tx_posix_mutex_recursive_unlock give_up drain_scheduler post_sched
  hand_back t (s, v) = post_sched posix (
    tx_posix_mutex_recursive_unlock posix (record s { current = none }),
    drain_scheduler (give_up t v),
  )

  unfoldable pub return_from : Option ℕ → Context M × Scheduler → Return M
  unfolding hand_back
  return_from none w = null_pointer
  return_from (some t) (s, v) =
      let (s', v') = hand_back t (s, v) in if v.terminated t then exits s' v' else waits t s' v'

  -- _tx_thread_system_return, up to the wait
  unfoldable pub tx_thread_system_return : Context M × Scheduler → Return M
  unfolding tx_posix_mutex_lock tx_posix_mutex_recursive_unlock is_stale return_from
  tx_thread_system_return (s₀, v) =
      let s = tx_posix_mutex_lock posix s₀ in
      if is_stale s.threadx_thread s.thread_id s.self s.current
      then exits (tx_posix_mutex_recursive_unlock posix s) v
      else return_from s.current (s, v)

  -- The thread keeps the mutex if it was inside a critical section when it gave the processor up.
  unfoldable pub keep_lock : Option ℕ → Context M → Context M
  unfolding tx_posix_mutex_recursive_unlock
  keep_lock none s = tx_posix_mutex_recursive_unlock posix s
  keep_lock (some t) s = if s.int_disabled t then s else tx_posix_mutex_recursive_unlock posix s

  unfoldable pub woken : Context M × Scheduler → Resumed M
  unfolding tx_posix_mutex_lock tx_posix_mutex_recursive_unlock is_stale keep_lock
  woken (s₀, v) =
      let s = tx_posix_mutex_lock posix s₀ in
      if is_stale s.threadx_thread s.thread_id s.self s.current
      then ends (tx_posix_mutex_recursive_unlock posix s) v
      else resumes (keep_lock s.current s) v

  -- _tx_thread_system_return, from the wait on; nothing as long as it waits
  unfoldable pub system_returned : (t : ℕ) → Context M × Scheduler → Option (Resumed M)
  unfolding take_over woken
  system_returned t (s, v) = elim (take_over t v) [ none ↦ none | some v' ↦ some (woken (s, v')) ]

  -- _tx_posix_thread_entry, up to _tx_thread_shell_entry; nothing as long as it waits
  unfoldable pub tx_posix_thread_entry :
      (t : ℕ) → Context M × Scheduler → Option (Context M × Scheduler)
  unfolding take_over
  tx_posix_thread_entry t (s, v) = elim (take_over t v) [
    | none ↦ none
    | some v' ↦ some (record s { threadx_thread = true }, v')
  ]
