-- ===== src/Port/FreeRtos/Interrupt.antt =====
-- `tm_cause_interrupt_sync` of ports/freertos/tm_port.c (POSIX host) and of
-- ports/freertos/cortex-m/tm_isr_dispatch.c (Cortex-M), which call the handler in-line.
use thread_metric_benchmark.Base.{◌≡◌, refl, true, false}
use thread_metric_benchmark.Suite.Interrupt.{Entry}
use thread_metric_benchmark.Suite.Interrupt.Worker.{Globals, World, TriggerLaws}
use thread_metric_benchmark.Port.FreeRtos.Kernel.{Kernel, Target, cortex_m, posix_host, Port}
use thread_metric_benchmark.Port.FreeRtos.Services.{freertos_api}
use thread_metric_benchmark.Port.FreeRtos.Semaphore.{SemaphoreKernel, semaphore_laws}

-- The handler may change the globals and the layer. On the Cortex-M it runs with the interrupts
-- masked and with the mark that selects the calls for interrupts.
unfoldable pub tm_cause_interrupt_sync :
    {G Entry K : Type 0}
    → Target
    → (G × Port Entry K → G × Port Entry K)
    → G × Port Entry K
    → G × Port Entry K
tm_cause_interrupt_sync posix_host handler w = handler w
tm_cause_interrupt_sync cortex_m handler (g, s) =
    let (g', s') = handler (g, record s { interrupt_active = true }) in
    (g', record s' { interrupt_active = false })

module _ {K : Type 0} (kernel : Kernel K) (sem : SemaphoreKernel kernel) where
  -- On both targets the synchronous trigger runs any handler exactly once, in-line, and changes the
  -- count of the semaphore only by that.
  pub trigger_laws :
      (target : Target)
      → TriggerLaws
          (freertos_api {Entry = Entry} kernel target)
          (semaphore_laws kernel target sem)
          (tm_cause_interrupt_sync target)
  unfolding tm_cause_interrupt_sync semaphore_laws
  trigger_laws target = record { cause_lem = in_line target }
    where
      in_line :
          (target : Target) (handler : World (Port Entry K) → World (Port Entry K)) (g : Globals)
          (s : Port Entry K)
          → (s₀ s₁ : Port Entry K) × ((semaphore_laws {Entry = Entry} kernel target sem).count s₀
              ≡ (semaphore_laws {Entry = Entry} kernel target sem).count s)
            × (tm_cause_interrupt_sync target handler (g, s) ≡ ((handler (g, s₀)).0, s₁))
            × ((semaphore_laws {Entry = Entry} kernel target sem).count s₁
                ≡ (semaphore_laws {Entry = Entry} kernel target sem).count (handler (g, s₀)).1)
      in_line posix_host handler g s = (s, (handler (g, s)).1, refl, refl, refl)
      in_line cortex_m handler g s =
          let s₀ = record s { interrupt_active = true } in
          (s₀, record ((handler (g, s₀)).1) { interrupt_active = false }, refl, refl, refl)
