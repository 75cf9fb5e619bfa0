-- ===== src/Port/ThreadX/Guards.antt =====
-- Arguments out of range in ports/threadx/tm_port.c.
use thread_metric_benchmark.Base.{
  ℕ, zero, suc, ◌<◌, ◌≡◌, refl, ◌⊎◌, inl, inr, true, ◌||◌, none, arith, or_true, ℤ, pos, negsuc,
  ltb_ℤ,
}
use thread_metric_benchmark.Api.{tm_error, Message}
use thread_metric_benchmark.Port.Target.{IsOutside}
use thread_metric_benchmark.Port.ThreadX.Kernel.{Kernel, Target, Port, out_of_bounds}
use thread_metric_benchmark.Port.ThreadX.Services.{
  tm_thread_create, tm_thread_resume, tm_thread_suspend, tm_queue_create, tm_queue_send,
  tm_queue_receive, tm_semaphore_create, tm_semaphore_get, tm_semaphore_put, tm_memory_pool_create,
  tm_memory_pool_allocate, tm_memory_pool_deallocate,
}

outside_bounds : (bound : ℕ) (id : ℤ) → IsOutside bound id → out_of_bounds bound id ≡ true
unfolding out_of_bounds
outside_bounds bound (pos n) h = ground arith
outside_bounds bound (negsuc n) h = ground arith

-- A priority that Thread-Metric does not have: below 1 or above 31.
abbrev pub IsNoPriority : ℤ → Type 0
IsNoPriority (pos q) = (q < 1) ⊎ (31 < q)
IsNoPriority (negsuc n) = Unit

no_priority : (q : ℤ) → IsNoPriority q → (ltb_ℤ q (pos 1) || ltb_ℤ (pos 31) q) ≡ true
no_priority (pos zero) h = refl
no_priority (pos (suc q)) (inl h) = absurd (omega arith)
no_priority (pos (suc q)) (inr h) = ground arith
no_priority (negsuc n) h = ground arith

module _ {Entry Init K : Type 0} (kernel : Kernel K) (target : Target) where
  -- On the ThreadX layer, with a thread identifier outside 0 to 9, create, resume and suspend fail
  -- and change nothing, and so does create with a priority outside 1 to 31.
  pub thread_outside_threadx :
      (id id' q priority : ℤ) (e : Entry) (s : Port Entry Init K)
      → IsOutside 10 id
      → IsNoPriority q
      → (tm_thread_create kernel id priority e s ≡ (tm_error, s))
        × (tm_thread_create kernel id' q e s ≡ (tm_error, s))
        × (tm_thread_resume kernel target id s ≡ (tm_error, s))
        × (tm_thread_suspend kernel id s ≡ (tm_error, s))
  thread_outside_threadx id id' q priority e s h h' =
      unfold tm_thread_create tm_thread_resume tm_thread_suspend in
      (let o = outside_bounds 10 id h in
        (rw o, rw (no_priority q h', or_true (out_of_bounds 10 id')), rw o, rw o))

  -- On the ThreadX layer, with an identifier other than 0, all nine services of queues, semaphores and pools fail and
  -- change nothing.
  pub object_outside_threadx :
      (id : ℤ) (m : Message) (block : ℕ) (s : Port Entry Init K)
      → IsOutside 1 id
      → (tm_queue_create kernel target id s ≡ (tm_error, s))
        × (tm_queue_send kernel id m s ≡ (tm_error, s))
        × (tm_queue_receive kernel id s ≡ (tm_error, none, s))
        × (tm_semaphore_create kernel id s ≡ (tm_error, s))
        × (tm_semaphore_get kernel id s ≡ (tm_error, s))
        × (tm_semaphore_put kernel target id s ≡ (tm_error, s))
        × (tm_memory_pool_create kernel id s ≡ (tm_error, s))
        × (tm_memory_pool_allocate kernel id s ≡ (tm_error, none, s))
        × (tm_memory_pool_deallocate kernel id block s ≡ (tm_error, s))
  object_outside_threadx id m block s h =
      unfold tm_queue_create tm_queue_send tm_queue_receive tm_semaphore_create tm_semaphore_get
        tm_semaphore_put tm_memory_pool_create tm_memory_pool_allocate tm_memory_pool_deallocate in
      (let o = outside_bounds 1 id h in (rw o, rw o, rw o, rw o, rw o, rw o, rw o, rw o, rw o))
