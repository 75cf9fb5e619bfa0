-- ===== src/Checks/Examples/Entry.antt =====
-- The way into and out of the FreeRTOS kernel, on the small kernel.
use thread_metric_benchmark.Base.{
  ℕ, ◌+◌, ◌*◌, ◌/◌, ◌%◌, ◌^◌, ◌<◌, ◌≡◌, refl, ◌⊎◌, Bool, true, false, Option, none, some, arith,
  if◌then◌else◌,
}
use thread_metric_benchmark.Api.Check.{Outcome, running}
use thread_metric_benchmark.Port.FreeRtos.Kernel.{Port, cortex_m, posix_host}
use thread_metric_benchmark.Port.FreeRtos.Entry.{
  EntryKernel, Layer, isr_irq, tm_initialize, tm_cause_interrupt,
}
use thread_metric_benchmark.Port.FreeRtos.Trigger.{IsrKernel, interrupt_round, cause_then_handlers}
use thread_metric_benchmark.Port.FreeRtos.Initialize.{
  setup_failed, set_up, initialize_on_posix, initialize_on_cortex_m,
}
use thread_metric_benchmark.Checks.Machine.{kernel, empty_port}

-- The one semaphore of the small kernel, as the one that the task for interrupts waits for.
abbrev entry_kernel : EntryKernel Bool
entry_kernel = record {
  isr_task_create = λ depth priority k. (true, some 11, k);
  take_forever = λ h k. if k then some false else none;
  delete_self = λ k. k;
  start_scheduler = λ k. k;
}

isr_kernel : IsrKernel kernel entry_kernel
isr_kernel = record { given = λ k h. k; waits = λ k h e. rw e refl; wakes = λ k h e. rw e refl }

-- The semaphore is 0, and every interrupt is enabled.
abbrev layer : Layer Unit Bool
layer = record {
  port = empty_port;
  isr_task = some 11;
  isr_semaphore = some 0;
  registers = record {
    shpr3 = 0x12345678;
    ipr7 = 0x01020304;
    enabled = λ i. true;
    pending = λ i. false;
  };
}

-- The first handler adds one, the second doubles.
abbrev add_one : ℕ × Layer Unit Bool → ℕ × Layer Unit Bool
add_one (n, s) = (n + 1, s)

abbrev double : ℕ × Layer Unit Bool → ℕ × Layer Unit Bool
double (n, s) = (2 * n, s)

cause_then_handlers_example :
    (interrupt_round kernel entry_kernel posix_host add_one double (3, layer) ≡ none)
    × (interrupt_round kernel entry_kernel posix_host add_one double
          (3, tm_cause_interrupt kernel entry_kernel posix_host layer)
        ≡ some (double (add_one (3, layer))))
    × (interrupt_round kernel entry_kernel posix_host add_one double (double (add_one (3, layer)))
        ≡ none)
unfolding isr_kernel
cause_then_handlers_example =
    cause_then_handlers isr_kernel posix_host add_one double (3, layer) (0, refl, refl)
      (0, refl, refl)

-- The initialization of a test, which creates nothing.
abbrev nothing : Port Unit Bool → Outcome (Port Unit Bool)
nothing s = running s

initialize_on_posix_example :
    ((◌≡◌ {A = Option ℕ} (some 0) none)
      × (tm_initialize kernel entry_kernel posix_host nothing layer
          ≡ setup_failed kernel entry_kernel))
    ⊎ ((h : ℕ) × (◌≡◌ {A = Option ℕ} (some 0) (some h))
        × (true ≡ false)
        × (tm_initialize kernel entry_kernel posix_host nothing layer
            ≡ setup_failed kernel entry_kernel))
    ⊎ ((h : ℕ) × (◌≡◌ {A = Option ℕ} (some 0) (some h))
        × (true ≡ true)
        × (tm_initialize kernel entry_kernel posix_host nothing layer
            ≡ running (set_up kernel entry_kernel layer h false)))
initialize_on_posix_example =
    initialize_on_posix kernel entry_kernel nothing layer (some 0) false refl

initialize_on_cortex_m_example :
    (s' : Layer Unit Bool) × (tm_initialize kernel entry_kernel cortex_m nothing layer ≡ running s')
    × (s'.registers.shpr3 < 2 ^ 32)
    × (s'.registers.shpr3 % 2 ^ 16 ≡ 0x12345678 % 2 ^ 16)
    × (s'.registers.shpr3 / 2 ^ 21 % 2 ^ 3 ≡ 7)
    × (s'.registers.shpr3 / 2 ^ 29 ≡ 7)
    × (s'.registers.shpr3 / 2 ^ 16 % 2 ^ 5 ≡ 0x12345678 / 2 ^ 16 % 2 ^ 5)
    × (s'.registers.shpr3 / 2 ^ 24 % 2 ^ 5 ≡ 0x12345678 / 2 ^ 24 % 2 ^ 5)
    × (s'.registers.ipr7 / 2 ^ 24 ≡ 0xE0)
    × (s'.registers.ipr7 % 2 ^ 24 ≡ 0x01020304 % 2 ^ 24)
    × (s'.registers.enabled isr_irq ≡ true)
    × (s'.registers.pending ≡ layer.registers.pending)
initialize_on_cortex_m_example =
    initialize_on_cortex_m kernel entry_kernel nothing layer layer.port (omega arith) refl
