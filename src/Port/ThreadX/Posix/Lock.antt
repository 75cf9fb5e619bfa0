-- ===== src/Port/ThreadX/Posix/Lock.antt =====
-- The interrupt lockout of ports/threadx/posix-host: the recursive mutex of tx_port.h and
-- tx_thread_interrupt_control.c.
use thread_metric_benchmark.Base.{
  ℕ, zero, suc, ◌+◌, ◌-◌, Bool, true, false, not, ◌&&◌, Option, none, some, ◌==◌, if◌then◌else◌,
}

-- A recursive POSIX mutex, as the pthread that calls sees it.
pub record Mutex (M : Type 0) : Type 0 where
  pub lock : M → M  -- pthread_mutex_lock
  pub unlock : M → M  -- pthread_mutex_unlock

pub data Interrupts : Type 0 where
  int_enable : Interrupts  -- TX_INT_ENABLE
  int_disable : Interrupts  -- TX_INT_DISABLE

-- What the functions use: the mutex, the variables of the calling pthread (its lock count, whether
-- it is one of ThreadX, itself), and those of the kernel. Threads are numbers.
pub record Context (M : Type 0) : Type 0 where
  pub mutex : M  -- _tx_posix_mutex
  pub lock_count : ℕ  -- _tx_posix_mutex_lock_count
  pub threadx_thread : Bool  -- _tx_posix_threadx_thread
  pub self : ℕ  -- pthread_self ()
  pub current : Option ℕ  -- _tx_thread_current_ptr
  pub system_state : ℕ  -- _tx_thread_system_state
  pub thread_id : ℕ → ℕ  -- tx_thread_posix_thread_id
  pub int_disabled : ℕ → Bool  -- tx_thread_posix_int_disabled_flag
  pub global_int_disabled : Bool  -- _tx_posix_global_int_disabled_flag

abbrev update {ℓ} : {A : Type ℓ} → (ℕ → A) → ℕ → A → ℕ → A
update f i v j = if i == j then v else f j

-- The pthread is not, or no longer, the one that ThreadX runs.
unfoldable pub is_stale :
    (threadx_thread : Bool) (thread_id : ℕ → ℕ) (self : ℕ) (current : Option ℕ) → Bool
is_stale threadx_thread thread_id self none = threadx_thread
is_stale threadx_thread thread_id self (some t) = threadx_thread && not (thread_id t == self)

-- What the lockout leaves: the posture of before, or the pthread's end.
pub data Outcome (M : Type 0) : Type 0 where
  returned : Interrupts → Context M → Outcome M
  exited : Context M → Outcome M

module _ {M : Type 0} (posix : Mutex M) where
  unfoldable pub tx_posix_mutex_lock : Context M → Context M
  tx_posix_mutex_lock s = record s { mutex = posix.lock s.mutex; lock_count = s.lock_count + 1 }

  -- Each unlock follows a lock, so that the count does not get below 0.
  unfoldable pub tx_posix_mutex_unlock : Context M → Context M
  tx_posix_mutex_unlock s = record s { mutex = posix.unlock s.mutex; lock_count = s.lock_count - 1 }

  -- The loop of tx_posix_mutex_recursive_unlock.
  unfoldable pub unlock_times : (rc : ℕ) → Context M → Context M
  unfolding tx_posix_mutex_unlock
  unlock_times zero s = s
  unlock_times (suc rc) s = unlock_times rc (tx_posix_mutex_unlock s)

  unfoldable pub tx_posix_mutex_recursive_unlock : Context M → Context M
  unfolding unlock_times
  tx_posix_mutex_recursive_unlock s = unlock_times s.lock_count s

  -- The part for an interrupt or for the initialization, in which the system state is not 0.
  unfoldable pub set_global : Interrupts → Context M → Context M
  unfolding tx_posix_mutex_recursive_unlock
  set_global int_enable s =
      tx_posix_mutex_recursive_unlock (record s { global_int_disabled = false })
  set_global int_disable s = record s { global_int_disabled = true }

  -- The part for a thread.
  unfoldable pub set_thread : Option ℕ → Interrupts → Context M → Context M
  unfolding tx_posix_mutex_recursive_unlock
  set_thread none posture s = s
  set_thread (some t) int_enable s =
      tx_posix_mutex_recursive_unlock (record s { int_disabled = update s.int_disabled t false })
  set_thread (some t) int_disable s = record s { int_disabled = update s.int_disabled t true }

  -- _tx_thread_interrupt_control
  unfoldable pub tx_thread_interrupt_control : Interrupts → Context M → Outcome M
  unfolding tx_posix_mutex_lock is_stale set_global set_thread
  tx_thread_interrupt_control new_posture s₀ =
      let s = tx_posix_mutex_lock s₀ in
      if is_stale s.threadx_thread s.thread_id s.self s.current
      then exited (tx_posix_mutex_recursive_unlock s)
      else returned (if s.lock_count == 1 then int_enable else int_disable) (
          if s.system_state == 0
          then set_thread s.current new_posture s
          else set_global new_posture s)

  -- _tx_thread_interrupt_disable, TX_DISABLE
  unfoldable pub tx_thread_interrupt_disable : Context M → Outcome M
  unfolding tx_thread_interrupt_control
  tx_thread_interrupt_disable s = tx_thread_interrupt_control int_disable s

  -- _tx_thread_interrupt_restore, TX_RESTORE
  unfoldable pub tx_thread_interrupt_restore :
      (previous_posture : Interrupts) → Context M → Outcome M
  unfolding tx_thread_interrupt_control
  tx_thread_interrupt_restore previous_posture s = tx_thread_interrupt_control previous_posture s
