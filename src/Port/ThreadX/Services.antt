-- ===== src/Port/ThreadX/Services.antt =====
-- The services of ports/threadx/tm_port.c.
use thread_metric_benchmark.Base.{
  ℕ, ◌*◌, ◌%◌, ◌||◌, Option, none, some, if◌then◌else◌, ℤ, pos, pos_part, ltb_ℤ, uint_mod, to_uint,
}
use thread_metric_benchmark.Api.{Status, tm_error, Message, Api}
use thread_metric_benchmark.Port.ThreadX.Kernel.{
  Kernel, Target, Port, tm_thread, tm_semaphore, tm_thread_entry, dont_start, update, out_of_bounds,
  returned, max_threads, stack_size, queue_size, pool_size, ticks_per_second, queue_msg_words,
}
use thread_metric_benchmark.Port.ThreadX.Interrupt.{in_context, called}

-- The offset of an identifier that has passed the bounds test.
abbrev pub index : ℤ → ℕ
index = pos_part

module _ {Entry Init K : Type 0} (kernel : Kernel K) where
  unfoldable pub tm_thread_create : ℤ → ℤ → Entry → Port Entry Init K → Status × Port Entry Init K
  unfolding out_of_bounds called
  tm_thread_create thread_id priority entry s =
      let i = index thread_id in
      let q = pos_part priority in
      if out_of_bounds max_threads thread_id || (ltb_ℤ priority (pos 1) || ltb_ℤ (pos 31) priority)
      then (tm_error, s)
      else called
          (kernel.thread_create (tm_thread i) (tm_thread_entry i) (i * stack_size) stack_size q q
            dont_start)
          (record s { entries = update s.entries i (some entry) })

  unfoldable pub tm_thread_resume : Target → ℤ → Port Entry Init K → Status × Port Entry Init K
  unfolding out_of_bounds in_context
  tm_thread_resume target thread_id s =
      if out_of_bounds max_threads thread_id
      then (tm_error, s)
      else in_context kernel target (kernel.thread_resume (tm_thread (index thread_id))) s

  unfoldable pub tm_thread_suspend : ℤ → Port Entry Init K → Status × Port Entry Init K
  unfolding out_of_bounds called
  tm_thread_suspend thread_id s =
      if out_of_bounds max_threads thread_id
      then (tm_error, s)
      else called (kernel.thread_suspend (tm_thread (index thread_id))) s

  unfoldable pub tm_thread_relinquish : Port Entry Init K → Port Entry Init K
  tm_thread_relinquish s = record s { kernel = kernel.thread_relinquish s.kernel }

  -- The product is a `UINT`.
  unfoldable pub tm_thread_sleep : ℤ → Port Entry Init K → Port Entry Init K
  tm_thread_sleep seconds s = record s {
    kernel = kernel.thread_sleep (to_uint seconds * ticks_per_second % uint_mod) s.kernel;
  }

  unfoldable pub tm_queue_create : Target → ℤ → Port Entry Init K → Status × Port Entry Init K
  unfolding out_of_bounds called
  tm_queue_create target queue_id s =
      let i = index queue_id in
      if out_of_bounds 1 queue_id
      then (tm_error, s)
      else called (kernel.queue_create i (queue_msg_words target) (i * queue_size) queue_size) s

  unfoldable pub tm_queue_send : ℤ → Message → Port Entry Init K → Status × Port Entry Init K
  unfolding out_of_bounds called
  tm_queue_send queue_id message s =
      if out_of_bounds 1 queue_id
      then (tm_error, s)
      else called (kernel.queue_send (index queue_id) message) s

  unfoldable pub tm_queue_receive :
      ℤ → Port Entry Init K → Status × Option Message × Port Entry Init K
  unfolding out_of_bounds returned
  tm_queue_receive queue_id s =
      if out_of_bounds 1 queue_id
      then (tm_error, none, s)
      else (let (status, message, k) = kernel.queue_receive (index queue_id) s.kernel in
          (returned status, message, record s { kernel = k }))

  unfoldable pub tm_semaphore_create : ℤ → Port Entry Init K → Status × Port Entry Init K
  unfolding out_of_bounds called
  tm_semaphore_create semaphore_id s =
      if out_of_bounds 1 semaphore_id
      then (tm_error, s)
      else called (kernel.semaphore_create (tm_semaphore (index semaphore_id)) 1) s

  unfoldable pub tm_semaphore_get : ℤ → Port Entry Init K → Status × Port Entry Init K
  unfolding out_of_bounds called
  tm_semaphore_get semaphore_id s =
      if out_of_bounds 1 semaphore_id
      then (tm_error, s)
      else called (kernel.semaphore_get (tm_semaphore (index semaphore_id))) s

  unfoldable pub tm_semaphore_put : Target → ℤ → Port Entry Init K → Status × Port Entry Init K
  unfolding out_of_bounds in_context
  tm_semaphore_put target semaphore_id s =
      if out_of_bounds 1 semaphore_id
      then (tm_error, s)
      else in_context kernel target (kernel.semaphore_put (tm_semaphore (index semaphore_id))) s

  unfoldable pub tm_memory_pool_create : ℤ → Port Entry Init K → Status × Port Entry Init K
  unfolding out_of_bounds called
  tm_memory_pool_create pool_id s =
      let i = index pool_id in
      if out_of_bounds 1 pool_id
      then (tm_error, s)
      else called (kernel.block_pool_create i 128 (i * pool_size) pool_size) s

  unfoldable pub tm_memory_pool_allocate :
      ℤ → Port Entry Init K → Status × Option ℕ × Port Entry Init K
  unfolding out_of_bounds returned
  tm_memory_pool_allocate pool_id s =
      if out_of_bounds 1 pool_id
      then (tm_error, none, s)
      else (let (status, block, k) = kernel.block_allocate (index pool_id) s.kernel in
          (returned status, block, record s { kernel = k }))

  -- The kernel finds the pool of a block by itself.
  unfoldable pub tm_memory_pool_deallocate : ℤ → ℕ → Port Entry Init K → Status × Port Entry Init K
  unfolding out_of_bounds called
  tm_memory_pool_deallocate pool_id block s =
      if out_of_bounds 1 pool_id then (tm_error, s) else called (kernel.block_release block) s

  -- The layer as the tests see it.
  unfoldable pub threadx_api : Target → Api Entry (Port Entry Init K)
  threadx_api target = record {
    thread_create = tm_thread_create;
    thread_resume = tm_thread_resume target;
    thread_suspend = tm_thread_suspend;
    thread_relinquish = tm_thread_relinquish;
    queue_create = tm_queue_create target;
    queue_send = tm_queue_send;
    queue_receive = tm_queue_receive;
    semaphore_create = tm_semaphore_create;
    semaphore_get = tm_semaphore_get;
    semaphore_put = tm_semaphore_put target;
    memory_pool_create = tm_memory_pool_create;
    memory_pool_allocate = tm_memory_pool_allocate;
    memory_pool_deallocate = tm_memory_pool_deallocate;
  }
