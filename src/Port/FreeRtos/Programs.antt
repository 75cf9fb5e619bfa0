-- ===== src/Port/FreeRtos/Programs.antt =====
-- Tests of src/*.c put on ports/freertos/tm_port.c.
use thread_metric_benchmark.Base.{ℕ, ◌%◌, ◌≡◌, some, [], pos, ulong_mod}
use thread_metric_benchmark.Api.{tm_success}
use thread_metric_benchmark.Suite.Rounds.{working}
use thread_metric_benchmark.Suite.Message.Worker as MessageWorker
use thread_metric_benchmark.Suite.Memory.Worker.{
  Globals, globals_at, tm_memory_allocation_thread_0_entry, memory_allocation_thread_lem,
}
use thread_metric_benchmark.Suite.Synchronization.Worker.{
  tm_synchronization_processing_thread_0_entry, synchronization_processing_thread_lem,
}
use thread_metric_benchmark.Port.FreeRtos.Kernel.{Kernel, posix_host, Port}
use thread_metric_benchmark.Port.FreeRtos.Pool.{tm_memory_pool_create}
use thread_metric_benchmark.Port.FreeRtos.Pool.FreeList
use thread_metric_benchmark.Port.FreeRtos.Services.{
  freertos_api, tm_queue_create, tm_semaphore_create,
}
use thread_metric_benchmark.Port.FreeRtos.Semaphore.{
  SemaphoreKernel, handle_count, create_count, semaphore_laws,
}
use thread_metric_benchmark.Port.FreeRtos.Queue.{QueueKernel, Holds, create_queued, queue_laws}
use thread_metric_benchmark.Port.FreeRtos.Promises.{pool_laws}

module _ {Entry K : Type 0} (kernel : Kernel K) where
  -- On the FreeRTOS layer of the POSIX build, over any kernel, from a zero counter: the creation of the pool succeeds,
  -- and after n rounds the memory test's thread is still in its loop, has counted n allocations
  -- modulo 2 ^ 64, used the block at offset 0 in each of them, and left all sixteen blocks free.
  pub memory_allocation_on_freertos :
      (n : ℕ) (g : Globals) (s : Port Entry K)
      → g.counter ≡ 0
      → (s₁ s₂ : Port Entry K) × (tm_memory_pool_create (pos 0) s ≡ (tm_success, s₁))
        × (tm_memory_allocation_thread_0_entry (freertos_api kernel posix_host) n g s₁
            ≡ working (globals_at g.memory_ptr 0 n) s₂)
        × FreeList.Free s₂ (FreeList.blocks_from 16 0)
  memory_allocation_on_freertos n g s c =
      let (s₁, created, free) = FreeList.create_Free s in
      let (s₂, runs, free') =
        memory_allocation_thread_lem (freertos_api kernel posix_host) (pool_laws kernel posix_host)
          n 0 (FreeList.blocks_from 15 1) g s₁ c (unfold FreeList.blocks_from pool_laws in free) in
      (s₁, s₂, created, runs, unfold FreeList.blocks_from pool_laws in free')

  -- On the FreeRTOS layer of the POSIX build, over a kernel with the documented binary semaphores: the creation of the
  -- semaphore succeeds, and after n rounds the semaphore test's thread is still in its loop, has
  -- counted n rounds modulo 2 ^ 64, and the semaphore is available again.
  pub synchronization_processing_on_freertos :
      (sem : SemaphoreKernel kernel) (n : ℕ) (s : Port Entry K)
      → (s₁ s₂ : Port Entry K) × (tm_semaphore_create kernel (pos 0) s ≡ (tm_success, s₁))
        × (tm_synchronization_processing_thread_0_entry (freertos_api kernel posix_host) n 0 s₁
            ≡ working (n % ulong_mod) s₂)
        × (handle_count sem s₂.semaphore s₂.kernel ≡ some 1)
  synchronization_processing_on_freertos sem n s =
      let (s₁, created, full) = create_count kernel posix_host sem s in
      let (s₂, runs, full') =
        synchronization_processing_thread_lem (freertos_api kernel posix_host)
          (semaphore_laws kernel posix_host sem) n s₁ (unfold semaphore_laws in full) in
      (s₁, s₂, created, runs, unfold semaphore_laws in full')

  -- The message test on the FreeRTOS layer of the POSIX build, over a kernel with the documented queues, from a zero
  -- counter: the creation of the queue succeeds, and after n rounds the thread is still in its
  -- loop, has counted n messages modulo 2 ^ 64, has received the last message as it was sent, and
  -- the queue is empty again.
  pub message_processing_on_freertos :
      (q : QueueKernel kernel) (n : ℕ) (g : MessageWorker.Globals) (s : Port Entry K)
      → g.counter ≡ 0
      → (s₁ s₂ : Port Entry K) × (tm_queue_create kernel posix_host (pos 0) s ≡ (tm_success, s₁))
        × (MessageWorker.tm_message_processing_thread_0_entry
              (freertos_api kernel posix_host)
              n
              g
              s₁
            ≡ working (MessageWorker.globals_at g.received n) s₂)
        × Holds q s₂ []
  message_processing_on_freertos q n g s c =
      let (s₁, created, empty) = create_queued kernel posix_host q s in
      let (s₂, runs, idle) =
        MessageWorker.message_processing_thread_lem (freertos_api kernel posix_host)
          (queue_laws kernel posix_host q) n g s₁ c (unfold queue_laws in empty) in
      (s₁, s₂, created, runs, unfold queue_laws in idle)
