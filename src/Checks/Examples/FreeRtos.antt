-- ===== src/Checks/Examples/FreeRtos.antt =====
-- The layer for FreeRTOS on the small kernel.
use thread_metric_benchmark.Base.{
  ◌≡◌, refl, ◌≢◌, Bool, true, false, none, some, List, [], ◌∷◌, arith, ◌==◌, if◌then◌else◌, pos,
}
use thread_metric_benchmark.Api.{tm_success, Message}
use thread_metric_benchmark.Suite.Rounds.{working}
use thread_metric_benchmark.Suite.Interrupt
use thread_metric_benchmark.Suite.Interrupt.Worker as InterruptWorker
use thread_metric_benchmark.Suite.Interrupt.Safety as InterruptSafety
use thread_metric_benchmark.Suite.Memory.Worker as MemoryWorker
use thread_metric_benchmark.Port.FreeRtos.Kernel.{Port, cortex_m, posix_host}
use thread_metric_benchmark.Port.FreeRtos.Pool
use thread_metric_benchmark.Port.FreeRtos.Pool.FreeList
use thread_metric_benchmark.Port.FreeRtos.Services
use thread_metric_benchmark.Port.FreeRtos.Semaphore
use thread_metric_benchmark.Port.FreeRtos.Interrupt.{tm_cause_interrupt_sync, trigger_laws}
use thread_metric_benchmark.Port.FreeRtos.Programs.{memory_allocation_on_freertos}
use thread_metric_benchmark.Checks.Machine.{kernel, semaphore_kernel, empty_port}

abbrev port : Port Unit Bool
port = empty_port

-- The blocks 128 and 0 are free, in this order; the semaphore 0 is full.
abbrev two_blocks : Port Unit Bool
two_blocks = record port {
  next = λ b. if b == 128 then some 0 else none;
  pool_free = some 128;
  semaphore = some 0;
  kernel = true;
}

two_blocks-Free : FreeList.Free two_blocks (128 ∷ 0 ∷ [])
two_blocks-Free = (refl, (omega arith, tt), (refl, tt, refl))

deallocate-allocate_example :
    (s'' : Port Unit Bool) × (Pool.tm_memory_pool_deallocate
        (pos 0)
        128
        (record two_blocks { pool_free = some 0 })
      ≡ (tm_success, s''))
    × FreeList.Free s'' (128 ∷ 0 ∷ [])
unfolding Pool.tm_memory_pool_allocate
deallocate-allocate_example =
    FreeList.deallocate-allocate 128 (0 ∷ []) two_blocks (record two_blocks { pool_free = some 0 })
      two_blocks-Free refl

put_count_example :
    (s' : Port Unit Bool) × (Services.tm_semaphore_put kernel cortex_m
        (pos 0)
        (record two_blocks { kernel = false })
      ≡ (tm_success, s'))
    × (Semaphore.handle_count semaphore_kernel s'.semaphore s'.kernel ≡ some 1)
    × (s'.kernel ≡ true)
unfolding semaphore_kernel
put_count_example =
    Semaphore.put_count kernel cortex_m semaphore_kernel (record two_blocks { kernel = false }) refl

memory_allocation_on_freertos_example :
    (s₁ s₂ : Port Unit Bool) × (Pool.tm_memory_pool_create (pos 0) port ≡ (tm_success, s₁))
    × (MemoryWorker.tm_memory_allocation_thread_0_entry
          (Services.freertos_api kernel posix_host)
          5
          (record { counter = 0; memory_ptr = none })
          s₁
        ≡ working (MemoryWorker.globals_at none 0 5) s₂)
    × FreeList.Free s₂ (FreeList.blocks_from 16 0)
memory_allocation_on_freertos_example =
    memory_allocation_on_freertos kernel 5 (record { counter = 0; memory_ptr = none }) port refl

-- The interrupt test: its semaphore is full at the start.
abbrev interrupt_port : Port Interrupt.Entry Bool
interrupt_port = record empty_port { semaphore = some 0; kernel = true }

abbrev five_statements : InterruptWorker.Pc × InterruptWorker.World (Port Interrupt.Entry Bool)
five_statements =
    InterruptWorker.run (Services.freertos_api kernel posix_host)
      (tm_cause_interrupt_sync posix_host) 5
      (
        InterruptWorker.first_get,
        (record { thread_0_counter = 0; handler_counter = 0 }, interrupt_port),
      )

five_statements-count : five_statements.1.0.thread_0_counter ≡ 1
unfolding InterruptWorker.run InterruptWorker.tm_interrupt_thread_0_entry
    InterruptWorker.tm_interrupt_handler tm_cause_interrupt_sync Services.freertos_api
    Services.tm_semaphore_get Services.tm_semaphore_put
five_statements-count = refl

interrupt_never_invalid_example :
    (five_statements.0 ≢ InterruptWorker.returned)
    × (Interrupt.interrupt_invalid (InterruptSafety.snapshot five_statements.1.0) ≡ false)
unfolding Semaphore.semaphore_laws semaphore_kernel
interrupt_never_invalid_example =
    InterruptSafety.interrupt_never_invalid (Services.freertos_api kernel posix_host)
      (Semaphore.semaphore_laws kernel posix_host semaphore_kernel)
      (tm_cause_interrupt_sync posix_host) (trigger_laws kernel semaphore_kernel posix_host) 5
      interrupt_port refl (omega (arith, five_statements-count))

abbrev message : Message
message = record { word_0 = 1; word_1 = 2; word_2 = 3; word_3 = 4 }

-- The layer on the kernel with a queue, which still holds an old message.
abbrev queue_port : Port Unit (List Message)
queue_port = record {
  threads = λ i. none;
  entries = λ i. none;
  queue = none;
  semaphore = none;
  next = λ b. none;
  pool_free = none;
  interrupt_active = false;
  kernel = message ∷ [];
}
