-- ===== src/Port/ThreadX/Posix/Schedule.antt =====
-- The scheduler of ports/threadx/posix-host: a round of the loop of _tx_thread_schedule.
use thread_metric_benchmark.Base.{ℕ, ◌≡◌, Option, none, some, arith, ◌==◌, if◌then◌else◌}
use thread_metric_benchmark.Port.ThreadX.Kernel.{increment}
use thread_metric_benchmark.Port.ThreadX.Posix.Lock.{
  Mutex, Context, tx_posix_mutex_lock, tx_posix_mutex_unlock,
}
use thread_metric_benchmark.Port.ThreadX.Posix.Semaphore.{
  tx_posix_sem_post, tx_posix_sem_wait, drain,
}
use thread_metric_benchmark.Port.ThreadX.Posix.Nesting.{
  resume, suspend_timer, resume_timer, Scheduler, update, send,
}

-- How far a round gets: it sleeps and tries again, it has handed the processor over and waits for
-- `_tx_posix_semaphore`, or it first waits for the thread to take it over.
pub data Round (M : Type 0) : Type 0 where
  idle : Context M → Scheduler → Round M
  handed : Context M → Scheduler → Round M
  handing : Context M → Scheduler → Round M

-- The thread is taken as the one that runs.
unfoldable pub select : ℕ → Scheduler → Scheduler
select t v = record v {
  run_count = update v.run_count t (increment (v.run_count t));
  timer_slice = v.time_slice t;
}

-- The run semaphore of the thread is drained and posted.
unfoldable pub post_run : ℕ → Scheduler → Scheduler
unfolding tx_posix_sem_post
post_run t v =
    let left = drain (v.run_semaphore t) (v.run_semaphore t) in
    record v { run_semaphore = update v.run_semaphore t (tx_posix_sem_post left) }

-- The timer's pthread is stopped meanwhile, if it does not wait itself.
unfoldable pub hold_timer : Scheduler → Scheduler
unfolding send
hold_timer v = if v.timer_waiting == 0 then send suspend_timer v else v

unfoldable pub release_timer : Scheduler → Scheduler
unfolding send tx_posix_sem_post
release_timer v =
    if v.timer_waiting == 0
    then send resume_timer v
    else record v { isr_semaphore = tx_posix_sem_post v.isr_semaphore }

-- Neither touches what the hand-over goes by.
pub hold_timer-keeps :
    (v : Scheduler)
    → ((hold_timer v).semaphore ≡ v.semaphore)
      × ((hold_timer v).run_semaphore ≡ v.run_semaphore)
      × ((hold_timer v).suspension_type ≡ v.suspension_type)
      × ((hold_timer v).timer_slice ≡ v.timer_slice)
unfolding hold_timer send
hold_timer-keeps v = ground arith

pub release_timer-keeps :
    (v : Scheduler)
    → ((release_timer v).semaphore ≡ v.semaphore)
      × ((release_timer v).run_semaphore ≡ v.run_semaphore)
      × ((release_timer v).suspension_type ≡ v.suspension_type)
      × ((release_timer v).timer_slice ≡ v.timer_slice)
unfolding release_timer send
release_timer-keeps v = ground arith

module _ {M : Type 0} (posix : Mutex M) where
  -- The part with the mutex held.
  unfoldable pub dispatch : ℕ → Context M → Scheduler → Round M
  unfolding tx_posix_mutex_lock tx_posix_mutex_unlock select post_run hold_timer send
  dispatch t s v =
      if v.suspension_type t == 0
      then handing
          (tx_posix_mutex_unlock posix (tx_posix_mutex_lock posix (record s { current = some t })))
          (hold_timer (post_run t (select t v)))
      else handed (tx_posix_mutex_unlock posix (record s { current = some t }))
          (send (resume t) (select t v))

  unfoldable pub choose : Option ℕ → Context M → Scheduler → Round M
  unfolding tx_posix_mutex_unlock dispatch
  choose none s v = idle (tx_posix_mutex_unlock posix s) v
  choose (some t) s v =
      if s.system_state == 0 then dispatch t s v else idle (tx_posix_mutex_unlock posix s) v

  unfoldable pub schedule_round : Context M × Scheduler → Round M
  unfolding tx_posix_mutex_lock choose
  schedule_round (s, v) = choose v.execute (tx_posix_mutex_lock posix s) v

  -- The rest of a round that waits for the thread to take over; nothing as long as it waits.
  unfoldable pub taken_over : Context M × Scheduler → Option (Round M)
  unfolding tx_posix_sem_wait release_timer tx_posix_mutex_unlock
  taken_over (s, v) = elim (tx_posix_sem_wait v.semaphore) [
    | none ↦ none
    | some count ↦
        some
          (handed (tx_posix_mutex_unlock posix s) (release_timer (record v { semaphore = count })))
  ]
