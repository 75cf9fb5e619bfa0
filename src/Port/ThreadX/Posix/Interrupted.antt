-- ===== src/Port/ThreadX/Posix/Interrupted.antt =====
-- What an interrupt of ports/threadx/posix-host does to the thread that runs.
use thread_metric_benchmark.Base.{
  ℕ, zero, suc, ◌+◌, ◌-◌, ◌≡◌, ap, ◌∙◌, true, false, not, ◌&&◌, none, some, ◌∷◌, arith, ◌==◌,
  if◌then◌else◌,
}
use thread_metric_benchmark.Port.ThreadX.Kernel.{increment, decrement}
use thread_metric_benchmark.Port.ThreadX.Posix.Lock.{
  Mutex, Context, tx_posix_mutex_lock, tx_posix_mutex_unlock, unlock_times,
  tx_posix_mutex_recursive_unlock,
}
use thread_metric_benchmark.Port.ThreadX.Posix.Semaphore.{drain_lem, tx_posix_sem_post}
use thread_metric_benchmark.Port.ThreadX.Posix.Nesting.{
  suspend, resume, Scheduler, update, is, send, keep_slice, suspend_current, post_scheduler,
  drain_scheduler, preempt_thread, tx_thread_context_save, post_sched, preempt, waits_for, Restored,
  done, waiting, end_interrupt, after_preempt, restore_thread, tx_thread_context_restore,
}

module _ {M : Type 0} (posix : Mutex M) where
  -- Only the mutex and its count change.
  unlocked :
      (rc : ℕ) (s : Context M)
      → unlock_times posix rc s
        ≡ record s { mutex = (unlock_times posix rc s).mutex; lock_count = s.lock_count - rc }
  unfolding unlock_times tx_posix_mutex_unlock
  unlocked zero s = λ i. record s { lock_count = minus_zero s.lock_count i }
    where
      minus_zero : (n : ℕ) → n ≡ n - 0
      minus_zero n = omega arith
  unlocked (suc rc) s = unlocked rc (tx_posix_mutex_unlock posix s) ∙ (λ i. record s {
    mutex = (unlock_times posix rc (tx_posix_mutex_unlock posix s)).mutex;
    lock_count = minus_suc s.lock_count rc i;
  })
    where
      minus_suc : (n m : ℕ) → n - 1 - m ≡ n - suc m
      minus_suc n m = omega arith

  released :
      (s : Context M)
      → (m : M) × (tx_posix_mutex_recursive_unlock posix s ≡ record s { mutex = m; lock_count = 0 })
  unfolding tx_posix_mutex_recursive_unlock
  released s = (
    (unlock_times posix s.lock_count s).mutex,
    unlocked s.lock_count s ∙ (λ i. record s {
      mutex = (unlock_times posix s.lock_count s).mutex;
      lock_count = minus_self s.lock_count i;
    }),
  )
    where
      minus_self : (n : ℕ) → n - n ≡ 0
      minus_self n = omega arith

  -- Inside a first interrupt of the thread.
  abbrev pub interrupted : ℕ → Scheduler → Scheduler
  interrupted t v = record v {
    signals = suspend t ∷ v.signals;
    suspension_type = update v.suspension_type t 1;
  }

  -- With the mutex taken and given back `n` times less than taken.
  abbrev pub inside : Context M → Context M
  inside s = record s {
    mutex = posix.unlock (posix.lock s.mutex);
    lock_count = s.lock_count + 1 - 1;
    system_state = increment s.system_state;
  }

  pub saved :
      (t : ℕ) (s : Context M) (v : Scheduler)
      → s.current ≡ some t
      → s.system_state ≡ 0
      → tx_thread_context_save posix (s, v) ≡ (inside s, interrupted t v)
  unfolding tx_thread_context_save suspend_current send tx_posix_mutex_lock tx_posix_mutex_unlock
  saved t s v e z = rw (e, z)

  -- At the restore, with the mutex taken.
  abbrev outside : Context M → Context M
  outside s = record (tx_posix_mutex_lock posix (inside s)) {
    system_state = decrement (increment s.system_state);
  }

  no_interrupt : (n : ℕ) → n ≡ 0 → (decrement (increment n) == 0) ≡ true
  no_interrupt n z = rw z

  restored :
      (t : ℕ) (s : Context M) (v : Scheduler)
      → s.current ≡ some t
      → s.system_state ≡ 0
      → tx_thread_context_restore posix (inside s, v) ≡ restore_thread posix (some t) (outside s, v)
  unfolding tx_thread_context_restore tx_posix_mutex_lock
  restored t s v e z = rw (no_interrupt s.system_state z, e)

  same_state : (n : ℕ) → n ≡ 0 → decrement (increment n) ≡ n
  same_state n z = omega arith

  -- The context behind an interrupt.
  left_context :
      (s : Context M)
      → s.system_state ≡ 0
      → (m : M) × (tx_posix_mutex_recursive_unlock posix (outside s)
          ≡ record s { mutex = m; lock_count = 0 })
  unfolding tx_posix_mutex_lock
  left_context s z =
      let (m, e) = released (outside s) in
      (
        m,
        e ∙ (λ i. record s {
          mutex = m;
          lock_count = 0;
          system_state = same_state s.system_state z i;
        }),
      )

  -- On the ThreadX port for POSIX hosts: an interrupt that finds the thread t running, outside
  -- every other interrupt, and after which no preemption is wanted or allowed (its processing left
  -- the rest as it was), stops and resumes the pthread of t, once each and in this order. Behind it
  -- t is marked as stopped by an interrupt, nothing else has changed, and the mutex is not counted
  -- as held.
  pub interrupt_resumes :
      (t : ℕ) (s : Context M) (v : Scheduler)
      → s.current ≡ some t
      → s.system_state ≡ 0
      → ((v.preempt_disable == 0) && not (is v.execute t)) ≡ false
      → (m : M) × (tx_thread_context_restore posix (tx_thread_context_save posix (s, v))
          ≡ done
              (record s { mutex = m; lock_count = 0 })
              (record v {
                signals = resume t ∷ suspend t ∷ v.signals;
                suspension_type = update v.suspension_type t 1;
              }))
  unfolding restore_thread end_interrupt send
  interrupt_resumes t s v e z stays =
      let (m, back) = left_context s z in
      (m, rw (saved t s v e z, restored t s (interrupted t v) e z, stays, back))

  -- The scheduler's variables behind the preemption of thread t.
  abbrev pub preempted : ℕ → Scheduler → Scheduler
  preempted t v = record v {
    signals = suspend t ∷ v.signals;
    suspension_type = update (update v.suspension_type t 1) t 1;
    time_slice = if v.timer_slice == 0 then v.time_slice else update v.time_slice t v.timer_slice;
    timer_slice = 0;
    semaphore = 1;
    timer_waiting = 1;
  }

  slice_kept :
      (t : ℕ) (v : Scheduler)
      → keep_slice t v ≡ record v {
        time_slice =
            if v.timer_slice == 0 then v.time_slice else update v.time_slice t v.timer_slice;
        timer_slice = 0;
      }
  unfolding keep_slice
  slice_kept t v = ground arith

  preempt_step :
      (t : ℕ) (s : Context M) (v : Scheduler)
      → (m : M) × (n : ℕ) × (preempt posix t (s, interrupted t v)
          ≡ (record s { mutex = m; lock_count = n; current = none }, preempted t v))
  unfolding preempt preempt_thread drain_scheduler post_sched post_scheduler tx_posix_mutex_lock
      tx_posix_mutex_unlock tx_posix_sem_post
  preempt_step t s v = (
    posix.unlock (posix.lock s.mutex),
    s.lock_count + 1 - 1,
    rw (
      slice_kept t (record (interrupted t v) {
        suspension_type = update (update v.suspension_type t 1) t 1;
      }),
      drain_lem v.semaphore v.semaphore (omega arith),
    ),
  )

  -- The context behind an interrupt that preempts.
  left_idle :
      (s : Context M) (m : M) (n : ℕ)
      → s.system_state ≡ 0
      → (m' : M) × (tx_posix_mutex_recursive_unlock posix
            (record (outside s) { mutex = m; lock_count = n; current = none })
          ≡ record s { mutex = m'; lock_count = 0; current = none })
  unfolding tx_posix_mutex_lock
  left_idle s m n z =
      let (m', e) = released (record (outside s) { mutex = m; lock_count = n; current = none }) in
      (
        m',
        e ∙ (λ i. record s {
          mutex = m';
          lock_count = 0;
          current = none;
          system_state = same_state s.system_state z i;
        }),
      )

  ended : Context M → Scheduler → Restored posix
  ended s v = if waits_for v then waiting s v else done s (record v { timer_waiting = 0 })

  after_step :
      (s s' : Context M) (v : Scheduler)
      → tx_posix_mutex_recursive_unlock posix s ≡ s'
      → after_preempt posix (s, v) ≡ ended s' v
  unfolding after_preempt end_interrupt ended
  after_step s s' v e = ap (λ c. ended c v) e

  leads_to_preempt :
      (t : ℕ) (s : Context M) (v : Scheduler)
      → s.current ≡ some t
      → s.system_state ≡ 0
      → ((v.preempt_disable == 0) && not (is v.execute t)) ≡ true
      → tx_thread_context_restore posix (inside s, interrupted t v)
        ≡ after_preempt posix (preempt posix t (outside s, interrupted t v))
  unfolding restore_thread
  leads_to_preempt t s v e z wanted = rw (restored t s (interrupted t v) e z, wanted)

  -- On the ThreadX port for POSIX hosts, the end of an interrupt that found the thread t running,
  -- outside every other interrupt, where another thread is wanted now and preemption is allowed.
  pub restore_preempts :
      (t : ℕ) (s : Context M) (v : Scheduler)
      → s.current ≡ some t
      → s.system_state ≡ 0
      → ((v.preempt_disable == 0) && not (is v.execute t)) ≡ true
      → (m : M) × (tx_thread_context_restore posix (inside s, interrupted t v) ≡ (
          if waits_for (preempted t v)
          then waiting (record s { mutex = m; lock_count = 0; current = none }) (preempted t v)
          else done
              (record s { mutex = m; lock_count = 0; current = none })
              (record (preempted t v) { timer_waiting = 0 })))
  unfolding ended
  restore_preempts t s v e z wanted =
      let (m, n, stopped) = preempt_step t (outside s) v in
      let (m', back) = left_idle s m n z in
      (
        m',
        leads_to_preempt t s v e z wanted
            ∙ (ap (after_preempt posix) stopped
                ∙ after_step (record (outside s) { mutex = m; lock_count = n; current = none }) _
                    (preempted t v) back),
      )
