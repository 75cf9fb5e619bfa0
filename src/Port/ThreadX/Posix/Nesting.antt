-- ===== src/Port/ThreadX/Posix/Nesting.antt =====
-- Interrupts of ports/threadx/posix-host: tx_thread_context_save.c and tx_thread_context_restore.c.
use thread_metric_benchmark.Base.{
  ℕ, ◌≡◌, refl, Bool, false, not, ◌&&◌, Option, none, some, List, ◌∷◌, arith, ◌==◌, if◌then◌else◌,
}
use thread_metric_benchmark.Port.ThreadX.Kernel.{increment, decrement}
use thread_metric_benchmark.Port.ThreadX.Posix.Lock.{
  Mutex, Context, tx_posix_mutex_lock, tx_posix_mutex_unlock, tx_posix_mutex_recursive_unlock,
}
use thread_metric_benchmark.Port.ThreadX.Posix.Semaphore.{
  tx_posix_sem_post, tx_posix_sem_wait, drain,
}

-- What is sent to the pthread of a thread, or to that of the timer.
pub data Signal : Type 0 where
  suspend : ℕ → Signal  -- _tx_posix_thread_suspend
  resume : ℕ → Signal  -- _tx_posix_thread_resume
  suspend_timer : Signal  -- with _tx_posix_timer_id
  resume_timer : Signal

-- The variables of the kernel beside those of the lockout; threads are numbers.
pub record Scheduler : Type 0 where
  pub execute : Option ℕ  -- _tx_thread_execute_ptr
  pub preempt_disable : ℕ  -- _tx_thread_preempt_disable
  pub timer_slice : ℕ  -- _tx_timer_time_slice
  pub time_slice : ℕ → ℕ  -- tx_thread_time_slice
  pub suspension_type : ℕ → ℕ  -- tx_thread_posix_suspension_type
  pub semaphore : ℕ  -- _tx_posix_semaphore
  pub isr_semaphore : ℕ  -- _tx_posix_isr_semaphore
  pub timer_waiting : ℕ  -- _tx_posix_timer_waiting
  pub run_semaphore : ℕ → ℕ  -- tx_thread_posix_run_semaphore
  pub run_count : ℕ → ℕ  -- tx_thread_run_count
  pub terminated : ℕ → Bool  -- tx_thread_state == TX_TERMINATED
  pub signals : List Signal  -- the last one first

abbrev pub update {ℓ} : {A : Type ℓ} → (ℕ → A) → ℕ → A → ℕ → A
update f i v j = if i == j then v else f j

pub at_update {ℓ} : {A : Type ℓ} (f : ℕ → A) (i : ℕ) (v : A) → update f i v i ≡ v
at_update f i v = ground arith

pub off_update {ℓ} :
    {A : Type ℓ} (f : ℕ → A) (i j : ℕ) (v : A) → (i == j) ≡ false → update f i v j ≡ f j
off_update f i j v h = rw h refl

abbrev pub is : Option ℕ → ℕ → Bool
is none t = false
is (some u) t = u == t

unfoldable pub send : Signal → Scheduler → Scheduler
send signal v = record v { signals = signal ∷ v.signals }

-- `if (_tx_timer_time_slice) ...`
unfoldable pub keep_slice : ℕ → Scheduler → Scheduler
keep_slice t v =
    if v.timer_slice == 0
    then v
    else record v { time_slice = update v.time_slice t v.timer_slice; timer_slice = 0 }

-- What an interrupt does to the thread that it finds, if it finds one.
unfoldable pub suspend_current : Option ℕ → ℕ → Scheduler → Scheduler
unfolding send
suspend_current none system_state v = v
suspend_current (some t) system_state v =
    if system_state == 0
    then record (send (suspend t) v) { suspension_type = update v.suspension_type t 1 }
    else v

-- The count of the scheduler's semaphore goes up.
unfoldable pub post_scheduler : Scheduler → Scheduler
unfolding tx_posix_sem_post
post_scheduler v = record v { semaphore = tx_posix_sem_post v.semaphore }

-- The semaphore of the scheduler is drained, for as many rounds as its count.
unfoldable pub drain_scheduler : Scheduler → Scheduler
drain_scheduler v = record v { semaphore = drain v.semaphore v.semaphore }

-- A preempted thread is marked as suspended by an interrupt, which will wait for the scheduler.
unfoldable pub preempt_thread : ℕ → Scheduler → Scheduler
unfolding keep_slice drain_scheduler
preempt_thread t v =
    let w = keep_slice t (record v { suspension_type = update v.suspension_type t 1 }) in
    record (drain_scheduler w) { timer_waiting = 1 }

-- The scheduler wakes the next thread by its semaphore, not by a signal, and the interrupt waits
-- until it has.
abbrev pub waits_for : Scheduler → Bool
waits_for v = elim v.execute [ some t ↦ v.suspension_type t == 0 | none ↦ false ]

module _ {M : Type 0} (posix : Mutex M) where
  -- _tx_thread_context_save
  unfoldable pub tx_thread_context_save : Context M × Scheduler → Context M × Scheduler
  unfolding tx_posix_mutex_lock tx_posix_mutex_unlock suspend_current
  tx_thread_context_save (s, v) =
      let s₁ = tx_posix_mutex_lock posix s in
      (
        tx_posix_mutex_unlock posix (record s₁ { system_state = increment s₁.system_state }),
        suspend_current s₁.current s₁.system_state v,
      )

  -- tx_posix_sem_post_sched, on the scheduler's semaphore
  unfoldable pub post_sched : Context M × Scheduler → Context M × Scheduler
  unfolding tx_posix_mutex_lock tx_posix_mutex_unlock post_scheduler
  post_sched (s, v) = (tx_posix_mutex_unlock posix (tx_posix_mutex_lock posix s), post_scheduler v)

  -- The thread is preempted, and the scheduler is told.
  unfoldable pub preempt : ℕ → Context M × Scheduler → Context M × Scheduler
  unfolding preempt_thread post_sched
  preempt t (s, v) = post_sched (record s { current = none }, preempt_thread t v)

  -- How an interrupt ends: at once, or it waits for `_tx_posix_isr_semaphore` first.
  pub data Restored : Type 0 where
    done : Context M → Scheduler → Restored
    waiting : Context M → Scheduler → Restored

  unfoldable pub end_interrupt : Context M × Scheduler → Restored
  unfolding tx_posix_mutex_recursive_unlock
  end_interrupt (s, v) = done (tx_posix_mutex_recursive_unlock posix s) v

  unfoldable pub after_preempt : Context M × Scheduler → Restored
  unfolding tx_posix_mutex_recursive_unlock end_interrupt
  after_preempt (s, v) =
      if waits_for v
      then waiting (tx_posix_mutex_recursive_unlock posix s) v
      else end_interrupt (s, record v { timer_waiting = 0 })

  unfoldable pub restore_thread : Option ℕ → Context M × Scheduler → Restored
  unfolding after_preempt end_interrupt preempt send
  restore_thread none w = end_interrupt w
  restore_thread (some t) (s, v) =
      if (v.preempt_disable == 0) && not (is v.execute t)
      then after_preempt (preempt t (s, v))
      else end_interrupt (s, send (resume t) v)

  -- _tx_thread_context_restore, up to the wait
  unfoldable pub tx_thread_context_restore : Context M × Scheduler → Restored
  unfolding tx_posix_mutex_lock restore_thread end_interrupt
  tx_thread_context_restore (s₀, v) =
      let s₁ = tx_posix_mutex_lock posix s₀ in
      let s = record s₁ { system_state = decrement s₁.system_state } in
      if s.system_state == 0 then restore_thread s.current (s, v) else end_interrupt (s, v)

  -- _tx_thread_context_restore, from the wait on; nothing as long as it waits
  unfoldable pub context_restored : Context M × Scheduler → Option Restored
  unfolding tx_posix_sem_wait tx_posix_mutex_lock end_interrupt
  context_restored (s, v) = elim (tx_posix_sem_wait v.isr_semaphore) [
    | none ↦ none
    | some count ↦ some (
        end_interrupt (
          tx_posix_mutex_lock posix s,
          record v { isr_semaphore = drain count count; timer_waiting = 0 },
        ))
  ]
