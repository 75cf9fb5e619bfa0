-- ===== src/Port/FreeRtos/Entry.antt =====
-- How tests get into the FreeRTOS kernel and back out of it: tm_initialize, the trampoline of the
-- tasks and the asynchronous triggers of ports/freertos/tm_port.c and of
-- ports/freertos/cortex-m/tm_isr_dispatch.c.
use mathlib.Core.Option
use thread_metric_benchmark.Base.{
  ℕ, zero, suc, ◌+◌, ◌-◌, ◌*◌, ◌/◌, ◌%◌, ◌^◌, Bool, false, ◌&&◌, ◌||◌, Option, none, some, ◌==◌,
  if◌then◌else◌, codes,
}
use thread_metric_benchmark.Api.Check.{Outcome, running, aborted, tm_check_fail, ◌>>◌}
use thread_metric_benchmark.Port.FreeRtos.Kernel.{
  Kernel, Target, cortex_m, posix_host, Port, max_priorities,
}

-- What the layer calls beside its services.
pub record EntryKernel (K : Type 0) : Type 0 where
  -- xTaskCreate, with tm_isr_task_entry
  pub isr_task_create : (depth priority : ℕ) → K → Bool × Option ℕ × K
  -- xSemaphoreTake, with portMAX_DELAY: nothing as long as the task waits
  pub take_forever : Option ℕ → K → Option K
  pub delete_self : K → K  -- vTaskDelete (NULL)
  pub start_scheduler : K → K  -- vTaskStartScheduler

-- The registers of the interrupt controller that the layer writes. A bit written as 1 to a set
-- register sets that bit, one written as 0 leaves it.
pub record Registers : Type 0 where
  pub shpr3 : ℕ  -- at 0xE000ED20
  pub ipr7 : ℕ  -- NVIC_IPR7
  pub enabled : ℕ → Bool  -- NVIC_ISER0
  pub pending : ℕ → Bool  -- NVIC_ISPR0

-- The layer, with its static data for interrupts.
pub record Layer (Entry K : Type 0) : Type 0 where
  pub port : Port Entry K
  pub isr_task : Option ℕ  -- tm_isr_task
  pub isr_semaphore : Option ℕ  -- tm_isr_sem
  pub registers : Registers

-- Whether the bit `i` of a word is 1.
unfoldable pub bit : (word i : ℕ) → Bool
bit word zero = word % 2 == 1
bit word (suc i) = bit (word / 2) i

unfoldable pub set_bits : ℕ → (ℕ → Bool) → ℕ → Bool
unfolding bit
set_bits word bits i = bits i || bit word i

abbrev pub isr_irq : ℕ
isr_irq = 31  -- TM_ISR_IRQ

-- configKERNEL_INTERRUPT_PRIORITY: the least priority, 7, in the three upper bits of a byte
unfoldable pub kernel_interrupt_priority : ℕ
kernel_interrupt_priority = 7 * 2 ^ (8 - 3)

-- A byte, with the three upper bits set.
unfoldable pub or_priority : ℕ → ℕ
unfolding kernel_interrupt_priority
or_priority byte = kernel_interrupt_priority + byte % 2 ^ 5

-- PendSV and SysTick get the least priority: bytes 2 and 3 of the word.
unfoldable pub lower_priorities : ℕ → ℕ
unfolding or_priority
lower_priorities word =
    word % 2 ^ 16
    + or_priority (word / 2 ^ 16 % 2 ^ 8) * 2 ^ 16
    + or_priority (word / 2 ^ 24 % 2 ^ 8) * 2 ^ 24

-- tm_isr_dispatch_init
unfoldable pub tm_isr_dispatch_init : Registers → Registers
unfolding set_bits
tm_isr_dispatch_init r = record r {
  ipr7 = r.ipr7 % 2 ^ 24 + 0xE0 * 2 ^ 24;
  enabled = set_bits (2 ^ isr_irq) r.enabled;
}

-- IRQ31_Handler, and a round of tm_isr_task_entry
unfoldable pub both_handlers :
    {W : Type 0} → (tm_interrupt_handler tm_interrupt_preemption_handler : W → W) → W → W
both_handlers tm_interrupt_handler tm_interrupt_preemption_handler w =
    tm_interrupt_preemption_handler (tm_interrupt_handler w)

-- The task's function, if its number has one; behind its return the task is deleted. `run` is what
-- the function does when it returns.
unfoldable pub tm_task_trampoline :
    {Entry K : Type 0}
    → EntryKernel K
    → (Entry → Port Entry K → Port Entry K)
    → ℕ
    → Port Entry K
    → Option (Port Entry K)
tm_task_trampoline entries run id s =
    Option.map
      (λ entry. let s' = run entry s in record s' { kernel = entries.delete_self s'.kernel })
      (s.entries id)

module _ {Entry K : Type 0} (kernel : Kernel K) (entries : EntryKernel K) where
  -- The semaphore is there or not; the task is created only if it is.
  unfoldable pub isr_task : Option ℕ → Layer Entry K → Outcome (Layer Entry K)
  isr_task none s = aborted (tm_check_fail (codes "FATAL: ISR simulation setup failed\n"))
  isr_task (some semaphore) s =
      let (passed, task, k) = entries.isr_task_create 512 (max_priorities - 1) s.port.kernel in
      if passed
      then running (record s { isr_task = task; port = record (s.port) { kernel = k } })
      else aborted (tm_check_fail (codes "FATAL: ISR simulation setup failed\n"))

  unfoldable pub isr_simulation : Layer Entry K → Outcome (Layer Entry K)
  unfolding isr_task
  isr_simulation s =
      let (semaphore, k) = kernel.semaphore_create_binary s.port.kernel in
      isr_task semaphore
        (record s { isr_semaphore = semaphore; port = record (s.port) { kernel = k } })

  unfoldable pub start_scheduler : Layer Entry K → Layer Entry K
  start_scheduler s = record s {
    port = record (s.port) { kernel = entries.start_scheduler s.port.kernel };
  }

  -- What the initialization of the test has done, and the start of the scheduler.
  unfoldable pub started : Layer Entry K → Outcome (Port Entry K) → Outcome (Layer Entry K)
  unfolding start_scheduler
  started s (aborted out) = aborted out
  started s (running p) = running (start_scheduler (record s { port = p }))

  -- On the Cortex-M, the interrupts are set up around the initialization of the test.
  unfoldable pub with_registers : Layer Entry K → Layer Entry K
  unfolding lower_priorities tm_isr_dispatch_init
  with_registers s =
      let r = record (s.registers) { shpr3 = lower_priorities s.registers.shpr3 } in
      record s { registers = tm_isr_dispatch_init r }

  -- tm_initialize; `test_initialization_function` works on the layer's own data, not on the
  -- registers.
  unfoldable pub tm_initialize :
      Target → (Port Entry K → Outcome (Port Entry K)) → Layer Entry K → Outcome (Layer Entry K)
  unfolding isr_simulation with_registers started
  tm_initialize posix_host test_initialization_function s =
      (isr_simulation >> (λ s'. started s' (test_initialization_function s'.port))) s
  tm_initialize cortex_m test_initialization_function s =
      started (with_registers s) (test_initialization_function s.port)

  -- A round of tm_isr_task_entry; nothing as long as it waits.
  unfoldable pub tm_isr_task_round :
      {G : Type 0}
      → (tm_interrupt_handler tm_interrupt_preemption_handler : G × Layer Entry K
          → G × Layer Entry K)
      → G × Layer Entry K
      → Option (G × Layer Entry K)
  unfolding both_handlers
  tm_isr_task_round tm_interrupt_handler tm_interrupt_preemption_handler (g, s) =
      Option.map
        (λ k.
          both_handlers tm_interrupt_handler tm_interrupt_preemption_handler
            (g, record s { port = record (s.port) { kernel = k } }))
        (entries.take_forever s.isr_semaphore s.port.kernel)

  -- tm_cause_interrupt
  unfoldable pub tm_cause_interrupt : Target → Layer Entry K → Layer Entry K
  unfolding set_bits
  tm_cause_interrupt posix_host s = record s {
    port = record (s.port) { kernel = (kernel.semaphore_give s.isr_semaphore s.port.kernel).1 };
  }
  tm_cause_interrupt cortex_m s = record s {
    registers = record (s.registers) { pending = set_bits (2 ^ isr_irq) s.registers.pending };
  }

-- The processor enters IRQ31_Handler when the interrupt is pending and enabled, and clears the
-- pending bit.
unfoldable pub irq_round :
    {Entry K G : Type 0}
    → (tm_interrupt_handler tm_interrupt_preemption_handler : G × Layer Entry K → G × Layer Entry K)
    → G × Layer Entry K
    → Option (G × Layer Entry K)
unfolding both_handlers
irq_round tm_interrupt_handler tm_interrupt_preemption_handler (g, s) =
    if s.registers.enabled isr_irq && s.registers.pending isr_irq
    then some (
        both_handlers tm_interrupt_handler tm_interrupt_preemption_handler (
          g,
          record s {
            registers = record (s.registers) {
              pending = λ i. if i == isr_irq then false else s.registers.pending i;
            };
          },
        ))
    else none
