-- ===== src/Port/FreeRtos/Guards.antt =====
-- Arguments out of range, and priorities, in ports/freertos/tm_port.c.
use thread_metric_benchmark.Base.{ℕ, ◌≤◌, ◌<◌, ◌≡◌, true, none, arith, ℤ, pos, negsuc}
use thread_metric_benchmark.Api.{tm_error, Message}
use thread_metric_benchmark.Port.Target.{IsOutside}
use thread_metric_benchmark.Port.FreeRtos.Kernel.{Kernel, Target, Port, out_of_bounds}
use thread_metric_benchmark.Port.FreeRtos.Pool.{
  tm_memory_pool_create, tm_memory_pool_allocate, tm_memory_pool_deallocate,
}
use thread_metric_benchmark.Port.FreeRtos.Services.{
  freertos_priority, tm_thread_create, tm_thread_resume, tm_thread_suspend, tm_queue_create,
  tm_queue_send, tm_queue_receive, tm_semaphore_create, tm_semaphore_get, tm_semaphore_put,
}

-- Of two priorities from 1 to 31 the one that is better for Thread-Metric, the lesser, gets the
-- greater FreeRTOS priority, which is below that of the thread that simulates interrupts, 31.
pub freertos_priority-lt :
    (p q : ℕ)
    → 1 ≤ p
    → p < q
    → q ≤ 31
    → (freertos_priority q < freertos_priority p) × (freertos_priority p < 31)
unfolding freertos_priority
freertos_priority-lt p q h1 h2 h3 = omega arith

IsOutside-out_of_bounds : (bound : ℕ) (id : ℤ) → IsOutside bound id → out_of_bounds bound id ≡ true
unfolding out_of_bounds
IsOutside-out_of_bounds bound (pos n) h = ground arith
IsOutside-out_of_bounds bound (negsuc n) h = ground arith

module _ {Entry K : Type 0} (kernel : Kernel K) (target : Target) where
  -- With a thread identifier outside 0 to 9, create, resume and suspend fail and change nothing.
  pub thread_outside :
      (id priority : ℤ) (e : Entry) (s : Port Entry K)
      → IsOutside 10 id
      → (tm_thread_create kernel id priority e s ≡ (tm_error, s))
        × (tm_thread_resume kernel target id s ≡ (tm_error, s))
        × (tm_thread_suspend kernel id s ≡ (tm_error, s))
  thread_outside id priority e s h =
      unfold tm_thread_create tm_thread_resume tm_thread_suspend in
      (
        rw (IsOutside-out_of_bounds 10 id h),
        rw (IsOutside-out_of_bounds 10 id h),
        rw (IsOutside-out_of_bounds 10 id h),
      )

  -- With an identifier other than 0, all nine services of queues, semaphores and pools fail and
  -- change nothing.
  pub object_outside :
      (id : ℤ) (m : Message) (block : ℕ) (s : Port Entry K)
      → IsOutside 1 id
      → (tm_queue_create kernel target id s ≡ (tm_error, s))
        × (tm_queue_send kernel id m s ≡ (tm_error, s))
        × (tm_queue_receive kernel id s ≡ (tm_error, none, s))
        × (tm_semaphore_create kernel id s ≡ (tm_error, s))
        × (tm_semaphore_get kernel id s ≡ (tm_error, s))
        × (tm_semaphore_put kernel target id s ≡ (tm_error, s))
        × (tm_memory_pool_create id s ≡ (tm_error, s))
        × (tm_memory_pool_allocate id s ≡ (tm_error, none, s))
        × (tm_memory_pool_deallocate id block s ≡ (tm_error, s))
  object_outside id m block s h =
      unfold tm_queue_create tm_queue_send tm_queue_receive tm_semaphore_create tm_semaphore_get
        tm_semaphore_put tm_memory_pool_create tm_memory_pool_allocate tm_memory_pool_deallocate in
      (let o = IsOutside-out_of_bounds 1 id h in
        (rw o, rw o, rw o, rw o, rw o, rw o, rw o, rw o, rw o))
