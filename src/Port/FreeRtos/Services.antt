-- ===== src/Port/FreeRtos/Services.antt =====
-- Threads, queue and semaphore of ports/freertos/tm_port.c, and its services as one interface.
use thread_metric_benchmark.Base.{
  ℕ, ◌-◌, ◌*◌, ◌%◌, Bool, true, false, ◌||◌, Option, none, some, if◌then◌else◌, ℤ, pos, pos_part,
  ltb_ℤ, uint_mod, to_uint,
}
use thread_metric_benchmark.Api.{Status, tm_success, tm_error, Message, Api}
use thread_metric_benchmark.Port.FreeRtos.Kernel.{
  Kernel, Target, cortex_m, posix_host, Port, update, out_of_bounds, max_threads, max_priorities,
}
use thread_metric_benchmark.Port.FreeRtos.Pool.{
  tm_memory_pool_create, tm_memory_pool_allocate, tm_memory_pool_deallocate,
}

-- `(UBaseType_t) ((configMAX_PRIORITIES - 1) - priority)`, used for priorities from 1 to 31.
unfoldable pub freertos_priority : ℕ → ℕ
freertos_priority priority = (max_priorities - 1) - priority

-- The offset of an identifier that has passed the bounds test.
abbrev pub index : ℤ → ℕ
index = pos_part

unfoldable pub of_bool : Bool → Status
of_bool true = tm_success
of_bool false = tm_error

-- `tm_queue_array[queue_id] == NULL`
unfoldable pub has_handle : Option ℕ → Status
has_handle none = tm_error
has_handle (some h) = tm_success

-- TM_FREERTOS_QUEUE_MSG_SIZE, that is, 4 * sizeof (unsigned long).
unfoldable pub queue_msg_size : Target → ℕ
queue_msg_size cortex_m = 4 * 4
queue_msg_size posix_host = 4 * 8

module _ {Entry K : Type 0} (kernel : Kernel K) where
  -- Behind xTaskCreate, which writes the handle if it succeeds: the task is then suspended, before
  -- the scheduler can run it.
  unfoldable pub created_task : ℕ → Bool → Option ℕ → Port Entry K → Status × Port Entry K
  created_task i false handle s = (tm_error, s)
  created_task i true handle s = (
    tm_success,
    record s { threads = update s.threads i handle; kernel = kernel.task_suspend handle s.kernel },
  )

  unfoldable pub tm_thread_create : ℤ → ℤ → Entry → Port Entry K → Status × Port Entry K
  unfolding created_task freertos_priority out_of_bounds
  tm_thread_create thread_id priority entry s =
      let i = index thread_id in
      let (passed, handle, k) =
        kernel.task_create 512 i (freertos_priority (pos_part priority)) s.kernel in
      if out_of_bounds max_threads thread_id || (ltb_ℤ priority (pos 1) || ltb_ℤ (pos 31) priority)
      then (tm_error, s)
      else created_task i passed handle
          (record s { entries = update s.entries i (some entry); kernel = k })

  -- `xPortIsInsideInterrupt () || tm_benchmark_interrupt_context_active ()`, on the Cortex-M.
  unfoldable pub from_isr : Target → Port Entry K → Bool
  from_isr cortex_m s = kernel.inside_interrupt s.kernel || s.interrupt_active
  from_isr posix_host s = false

  unfoldable pub tm_thread_resume : Target → ℤ → Port Entry K → Status × Port Entry K
  unfolding from_isr out_of_bounds
  tm_thread_resume target thread_id s =
      let task = s.threads (index thread_id) in
      let (yield, k) = kernel.task_resume_from_isr task s.kernel in
      if out_of_bounds max_threads thread_id
      then (tm_error, s)
      else if from_isr target s
      then (tm_success, record s { kernel = kernel.yield_from_isr yield k })
      else (tm_success, record s { kernel = kernel.task_resume task s.kernel })

  unfoldable pub tm_thread_suspend : ℤ → Port Entry K → Status × Port Entry K
  unfolding out_of_bounds
  tm_thread_suspend thread_id s = if out_of_bounds max_threads thread_id then (tm_error, s) else (
    tm_success,
    record s { kernel = kernel.task_suspend (s.threads (index thread_id)) s.kernel },
  )

  unfoldable pub tm_thread_relinquish : Port Entry K → Port Entry K
  tm_thread_relinquish s = record s { kernel = kernel.task_yield s.kernel }

  -- `vTaskDelay (pdMS_TO_TICKS (seconds * 1000U))`: the product is an `unsigned int`.
  unfoldable pub tm_thread_sleep : ℤ → Port Entry K → Port Entry K
  tm_thread_sleep seconds s = record s {
    kernel = kernel.task_delay (kernel.ms_to_ticks (to_uint seconds * 1000 % uint_mod)) s.kernel;
  }

  unfoldable pub tm_queue_create : Target → ℤ → Port Entry K → Status × Port Entry K
  unfolding out_of_bounds has_handle queue_msg_size
  tm_queue_create target queue_id s =
      let (handle, k) = kernel.queue_create 10 (queue_msg_size target) s.kernel in
      if out_of_bounds 1 queue_id
      then (tm_error, s)
      else (has_handle handle, record s { queue = handle; kernel = k })

  unfoldable pub tm_queue_send : ℤ → Message → Port Entry K → Status × Port Entry K
  unfolding out_of_bounds of_bool
  tm_queue_send queue_id message s =
      let (sent, k) = kernel.queue_send_to_back s.queue message s.kernel in
      if out_of_bounds 1 queue_id then (tm_error, s) else (of_bool sent, record s { kernel = k })

  unfoldable pub tm_queue_receive : ℤ → Port Entry K → Status × Option Message × Port Entry K
  unfolding out_of_bounds of_bool
  tm_queue_receive queue_id s =
      let (received, message, k) = kernel.queue_receive s.queue s.kernel in
      if out_of_bounds 1 queue_id
      then (tm_error, none, s)
      else (of_bool received, message, record s { kernel = k })

  -- Behind xSemaphoreCreateBinary: a semaphore that exists is given, so that it starts available.
  unfoldable pub created_semaphore : Option ℕ → Port Entry K → Status × Port Entry K
  created_semaphore none s = (tm_error, s)
  created_semaphore (some h) s =
      (tm_success, record s { kernel = (kernel.semaphore_give s.semaphore s.kernel).1 })

  unfoldable pub tm_semaphore_create : ℤ → Port Entry K → Status × Port Entry K
  unfolding out_of_bounds created_semaphore
  tm_semaphore_create semaphore_id s =
      let (handle, k) = kernel.semaphore_create_binary s.kernel in
      if out_of_bounds 1 semaphore_id
      then (tm_error, s)
      else created_semaphore handle (record s { semaphore = handle; kernel = k })

  unfoldable pub tm_semaphore_get : ℤ → Port Entry K → Status × Port Entry K
  unfolding out_of_bounds of_bool
  tm_semaphore_get semaphore_id s =
      let (taken, k) = kernel.semaphore_take s.semaphore s.kernel in
      if out_of_bounds 1 semaphore_id
      then (tm_error, s)
      else (of_bool taken, record s { kernel = k })

  -- Behind xSemaphoreGiveFromISR: the yield is requested only if the semaphore was given.
  unfoldable pub given_from_isr : (given woken : Bool) → Port Entry K → Status × Port Entry K
  given_from_isr false woken s = (tm_error, s)
  given_from_isr true woken s =
      (tm_success, record s { kernel = kernel.yield_from_isr woken s.kernel })

  unfoldable pub tm_semaphore_put : Target → ℤ → Port Entry K → Status × Port Entry K
  unfolding out_of_bounds of_bool from_isr given_from_isr
  tm_semaphore_put target semaphore_id s =
      let (given, woken, k) = kernel.semaphore_give_from_isr s.semaphore s.kernel in
      let (given', k') = kernel.semaphore_give s.semaphore s.kernel in
      if out_of_bounds 1 semaphore_id
      then (tm_error, s)
      else if from_isr target s
      then given_from_isr given woken (record s { kernel = k })
      else (of_bool given', record s { kernel = k' })

  -- The layer as the tests see it.
  unfoldable pub freertos_api : Target → Api Entry (Port Entry K)
  freertos_api target = record {
    thread_create = tm_thread_create;
    thread_resume = tm_thread_resume target;
    thread_suspend = tm_thread_suspend;
    thread_relinquish = tm_thread_relinquish;
    queue_create = tm_queue_create target;
    queue_send = tm_queue_send;
    queue_receive = tm_queue_receive;
    semaphore_create = tm_semaphore_create;
    semaphore_get = tm_semaphore_get;
    semaphore_put = tm_semaphore_put target;
    memory_pool_create = tm_memory_pool_create;
    memory_pool_allocate = tm_memory_pool_allocate;
    memory_pool_deallocate = tm_memory_pool_deallocate;
  }
