-- ===== src/Port/ThreadX/Posix/Timer.antt =====
-- The timer interrupt of ports/threadx/posix-host/tx_timer_interrupt.c: the clock, the time slice
-- and the wheel of timers.
use thread_metric_benchmark.Base.{
  ℕ, zero, suc, ◌+◌, ◌-◌, ◌%◌, Bool, true, ◌||◌, ◌==◌, if◌then◌else◌, uint_mod,
}
use thread_metric_benchmark.Port.ThreadX.Posix.Lock.{
  Mutex, Context, tx_posix_mutex_lock, tx_posix_mutex_unlock,
}

-- The variables of the kernel that the interrupt reads and writes; `K` is the rest of the kernel.
-- The list of timers has places 0 to `size` - 1.
pub record Timer (K : Type 0) : Type 0 where
  pub system_clock : ℕ  -- _tx_timer_system_clock, a ULONG of 32 bits
  pub time_slice : ℕ  -- _tx_timer_time_slice
  pub expired_time_slice : Bool  -- _tx_timer_expired_time_slice
  pub expired : Bool  -- _tx_timer_expired
  pub current : ℕ  -- _tx_timer_current_ptr
  pub kernel : K

-- What the interrupt calls of the kernel, and the list.
pub record TimerKernel (K : Type 0) : Type 0 where
  pub size : ℕ
  pub occupied : K → ℕ → Bool  -- a place of the list is not NULL
  pub timer_expiration_process : Timer K → Timer K
  pub thread_time_slice : Timer K → Timer K

module _ {K : Type 0} (kernel : TimerKernel K) where
  unfoldable pub count_slice : Timer K → Timer K
  count_slice t = if t.time_slice == 0 then t else record t {
    time_slice = t.time_slice - 1;
    expired_time_slice = if t.time_slice - 1 == 0 then true else t.expired_time_slice;
  }

  unfoldable pub turn_wheel : Timer K → Timer K
  turn_wheel t =
      if kernel.occupied t.kernel t.current
      then record t { expired = true }
      else record t { current = if t.current + 1 == kernel.size then 0 else t.current + 1 }

  unfoldable pub process_timers : Timer K → Timer K
  process_timers t = if t.expired then kernel.timer_expiration_process t else t

  unfoldable pub end_slice : Timer K → Timer K
  end_slice t = if t.expired_time_slice then kernel.thread_time_slice t else t

  -- What is done with the mutex held.
  unfoldable pub tick : Timer K → Timer K
  unfolding count_slice turn_wheel process_timers end_slice
  tick t =
      let t' =
        turn_wheel (count_slice (record t { system_clock = (t.system_clock + 1) % uint_mod })) in
      if t'.expired_time_slice || t'.expired then end_slice (process_timers t') else t'

  unfoldable pub tx_timer_interrupt :
      {M : Type 0} → Mutex M → Context M × Timer K → Context M × Timer K
  unfolding tx_posix_mutex_lock tx_posix_mutex_unlock tick
  tx_timer_interrupt posix (s, t) =
      (tx_posix_mutex_unlock posix (tx_posix_mutex_lock posix s), tick t)

  unfoldable pub ticks : ℕ → Timer K → Timer K
  ticks zero t = t
  ticks (suc n) t = tick (ticks n t)
