-- ===== src/Port/FreeRtos/Kernel.antt =====
-- What ports/freertos/tm_port.c calls of the FreeRTOS kernel, and the state that the layer keeps.
use thread_metric_benchmark.Base.{ℕ, Bool, ◌||◌, Option, ◌==◌, if◌then◌else◌, ℤ, pos, ltb_ℤ, leb_ℤ}
use thread_metric_benchmark.Api.{Message}
pub use thread_metric_benchmark.Port.Target.{Target, cortex_m, posix_host}

-- The kernel's state is `K`. A handle is a number, `none` for NULL; `true` is pdPASS or pdTRUE.
pub record Kernel (K : Type 0) : Type 0 where
  pub task_create : (depth param priority : ℕ) → K → Bool × Option ℕ × K  -- xTaskCreate
  pub task_suspend : Option ℕ → K → K  -- vTaskSuspend
  pub task_resume : Option ℕ → K → K  -- vTaskResume
  pub task_resume_from_isr : Option ℕ → K → Bool × K  -- xTaskResumeFromISR
  pub yield_from_isr : Bool → K → K  -- portYIELD_FROM_ISR
  pub inside_interrupt : K → Bool  -- xPortIsInsideInterrupt
  pub task_yield : K → K  -- taskYIELD
  pub task_delay : ℕ → K → K  -- vTaskDelay
  pub ms_to_ticks : ℕ → ℕ  -- pdMS_TO_TICKS
  pub queue_create : (depth size : ℕ) → K → Option ℕ × K  -- xQueueCreate
  pub queue_send_to_back : Option ℕ → Message → K → Bool × K  -- with no wait
  pub queue_receive : Option ℕ → K → Bool × Option Message × K  -- with no wait
  pub semaphore_create_binary : K → Option ℕ × K  -- xSemaphoreCreateBinary
  pub semaphore_give : Option ℕ → K → Bool × K  -- xSemaphoreGive
  pub semaphore_give_from_isr : Option ℕ → K → Bool × Bool × K  -- status, task woken
  pub semaphore_take : Option ℕ → K → Bool × K  -- with no wait

-- The static data of the layer. Every array but the threads' has one place. A block of the pool is
-- the offset of its first byte in `tm_pool_area`, and `next` is the pointer stored there.
pub record Port (Entry K : Type 0) : Type 0 where
  pub threads : ℕ → Option ℕ  -- tm_thread_array
  pub entries : ℕ → Option Entry  -- tm_thread_entry_functions
  pub queue : Option ℕ  -- tm_queue_array
  pub semaphore : Option ℕ  -- tm_semaphore_array
  pub next : ℕ → Option ℕ
  pub pool_free : Option ℕ  -- tm_pool_free
  pub interrupt_active : Bool  -- tm_benchmark_interrupt_active
  pub kernel : K

abbrev pub update {ℓ} : {A : Type ℓ} → (ℕ → A) → ℕ → A → ℕ → A
update f i v j = if i == j then v else f j

-- `id < 0 || id >= bound`
unfoldable pub out_of_bounds : (bound : ℕ) → ℤ → Bool
out_of_bounds bound id = ltb_ℤ id (pos 0) || leb_ℤ (pos bound) id

abbrev pub max_threads : ℕ
max_threads = 10

abbrev pub max_priorities : ℕ
max_priorities = 32  -- configMAX_PRIORITIES
