-- ===== src/Port/ThreadX/Kernel.antt =====
-- What ports/threadx/tm_port.c calls of the ThreadX kernel, and the state that the layer keeps.
use thread_metric_benchmark.Base.{
  ℕ, ◌+◌, ◌-◌, ◌*◌, ◌/◌, ◌%◌, Bool, ◌||◌, Option, ◌==◌, if◌then◌else◌, ℤ, pos, ltb_ℤ, leb_ℤ,
  uint_mod,
}
use thread_metric_benchmark.Api.{Status, tm_success, tm_error, Message}
pub use thread_metric_benchmark.Port.Target.{Target, cortex_m, posix_host}

-- The control blocks, which are static: tm_thread_array and tm_isr_thread, tm_semaphore_array and
-- tm_isr_semaphore. Queues and pools have one array each, and go by their index.
pub data ThreadBlock : Type 0 where
  tm_thread : ℕ → ThreadBlock
  tm_isr_thread : ThreadBlock

pub data SemaphoreBlock : Type 0 where
  tm_semaphore : ℕ → SemaphoreBlock
  tm_isr_semaphore : SemaphoreBlock

-- The functions that the layer gives to the kernel as threads, with their input.
pub data Shell : Type 0 where
  tm_thread_entry : ℕ → Shell
  tm_isr_thread_entry : ℕ → Shell

pub data Start : Type 0 where
  dont_start : Start  -- TX_DONT_START
  auto_start : Start  -- TX_AUTO_START

-- The kernel's state is `K`. A status is the kernel's code, 0 for TX_SUCCESS. No other call
-- waits, and no thread has a time slice.
pub record Kernel (K : Type 0) : Type 0 where
  -- tx_thread_create: block, shell, stack's offset and size, priority, preemption threshold
  pub thread_create : ThreadBlock → Shell → (stack size priority threshold : ℕ) → Start → K → ℕ × K
  pub thread_resume : ThreadBlock → K → ℕ × K  -- tx_thread_resume
  pub thread_suspend : ThreadBlock → K → ℕ × K  -- tx_thread_suspend
  pub thread_relinquish : K → K  -- tx_thread_relinquish
  pub thread_sleep : ℕ → K → K  -- tx_thread_sleep
  pub queue_create : (queue words memory size : ℕ) → K → ℕ × K  -- tx_queue_create
  pub queue_send : ℕ → Message → K → ℕ × K  -- tx_queue_send
  pub queue_receive : ℕ → K → ℕ × Option Message × K  -- tx_queue_receive
  pub semaphore_create : SemaphoreBlock → ℕ → K → ℕ × K  -- tx_semaphore_create
  pub semaphore_get : SemaphoreBlock → K → ℕ × K  -- tx_semaphore_get
  -- tx_semaphore_get with TX_WAIT_FOREVER: nothing as long as the thread waits
  pub semaphore_wait : SemaphoreBlock → K → Option K
  pub semaphore_put : SemaphoreBlock → K → ℕ × K  -- tx_semaphore_put
  pub block_pool_create : (pool block memory size : ℕ) → K → ℕ × K  -- tx_block_pool_create
  pub block_allocate : ℕ → K → ℕ × Option ℕ × K  -- tx_block_allocate
  pub block_release : ℕ → K → ℕ × K  -- tx_block_release
  pub system_state : K → ℕ  -- _tx_thread_system_state
  pub set_system_state : ℕ → K → K
  pub preempt_disable : K → ℕ  -- _tx_thread_preempt_disable
  pub set_preempt_disable : ℕ → K → K
  -- the thread that runs is _tx_thread_execute_ptr, the one that should
  pub runs_best : K → Bool
  pub system_return : K → K  -- _tx_thread_system_return

-- The static data of the layer, and PRIMASK of the processor. `Init` names the initialization
-- functions of the program.
pub record Port (Entry Init K : Type 0) : Type 0 where
  pub entries : ℕ → Option Entry  -- tm_thread_entry_functions
  pub initialization : Option Init  -- tm_initialization_function
  pub interrupt_active : Bool  -- tm_benchmark_interrupt_active
  pub preemption_pending : Bool  -- tm_threadx_benchmark_preemption_pending
  pub primask : ℕ
  pub kernel : K

abbrev pub update {ℓ} : {A : Type ℓ} → (ℕ → A) → ℕ → A → ℕ → A
update f i v j = if i == j then v else f j

-- `id < 0 || id >= bound`
unfoldable pub out_of_bounds : (bound : ℕ) → ℤ → Bool
out_of_bounds bound id = ltb_ℤ id (pos 0) || leb_ℤ (pos bound) id

-- `if (status == TX_SUCCESS) return TM_SUCCESS; else return TM_ERROR;`
unfoldable pub returned : ℕ → Status
returned status = if status == 0 then tm_success else tm_error

abbrev pub max_threads : ℕ
max_threads = 10

abbrev pub stack_size : ℕ
stack_size = 2096

abbrev pub queue_size : ℕ
queue_size = 400

abbrev pub pool_size : ℕ
pool_size = 2048

abbrev pub ticks_per_second : ℕ
ticks_per_second = 100

-- sizeof (unsigned long), and sizeof (ULONG), by the target.
abbrev pub unsigned_long_size : Target → ℕ
unsigned_long_size cortex_m = 4
unsigned_long_size posix_host = 8

abbrev pub ulong_size : ℕ
ulong_size = 4

-- TM_THREADX_QUEUE_MSG_WORDS
unfoldable pub queue_msg_words : Target → ℕ
queue_msg_words target = 4 * unsigned_long_size target / ulong_size

-- The layer's use of `UINT` counters.
abbrev pub increment : ℕ → ℕ
increment n = (n + 1) % uint_mod

abbrev pub decrement : ℕ → ℕ
decrement n = (n + uint_mod - 1) % uint_mod
