-- ===== src/Port/ThreadX/Trigger.antt =====
-- The synchronous triggers of ports/threadx/tm_port.c (POSIX host) and of
-- ports/threadx/cortex-m/tm_isr_dispatch.c (Cortex-M), with any handler.
use thread_metric_benchmark.Base.{◌≡◌, refl, ◌∙◌, true, false}
use thread_metric_benchmark.Suite.Interrupt.{Entry}
use thread_metric_benchmark.Suite.Interrupt.Worker.{Globals, World, TriggerLaws}
use thread_metric_benchmark.Port.ThreadX.Kernel.{Kernel, Target, cortex_m, posix_host, Port}
use thread_metric_benchmark.Port.ThreadX.Interrupt.{
  tm_threadx_benchmark_sync_complete, tm_cause_interrupt_sync,
}
use thread_metric_benchmark.Port.ThreadX.Bracket.{sync_complete_lem}
use thread_metric_benchmark.Port.ThreadX.Services.{threadx_api}
use thread_metric_benchmark.Port.ThreadX.Semaphore.{SemaphoreKernel, semaphore_laws}

module _ {Init K : Type 0} (kernel : Kernel K) (sem : SemaphoreKernel kernel) where
  -- On both targets the synchronous trigger runs any handler exactly once, in-line, and changes the
  -- count of the semaphore only by that.
  pub trigger_laws :
      (target : Target)
      → TriggerLaws
          (threadx_api {Entry = Entry} {Init = Init} kernel target)
          (semaphore_laws kernel target sem)
          (tm_cause_interrupt_sync kernel target)
  unfolding tm_cause_interrupt_sync semaphore_laws
  trigger_laws target = record { cause_lem = in_line target }
    where
      in_line :
          (target : Target) (handler : World (Port Entry Init K) → World (Port Entry Init K))
          (g : Globals) (s : Port Entry Init K)
          → (s₀ s₁ : Port Entry Init K) × ((semaphore_laws {Entry = Entry} {Init = Init} kernel
                  target sem).count
                s₀
              ≡ (semaphore_laws {Entry = Entry} {Init = Init} kernel target sem).count s)
            × (tm_cause_interrupt_sync kernel target handler (g, s) ≡ ((handler (g, s₀)).0, s₁))
            × ((semaphore_laws {Entry = Entry} {Init = Init} kernel target sem).count s₁
                ≡ (semaphore_laws {Entry = Entry} {Init = Init} kernel target sem).count
                    (handler (g, s₀)).1)
      in_line posix_host handler g s =
          let s₀ = record s { interrupt_active = true } in
          (s₀, record ((handler (g, s₀)).1) { interrupt_active = false }, refl, refl, refl)
      in_line cortex_m handler g s =
          let s₀ = record s { interrupt_active = true; primask = 1 } in
          let s' = (handler (g, s₀)).1 in
          let s₂ = record s' { interrupt_active = false; primask = 0 } in
          (
            s₀,
            tm_threadx_benchmark_sync_complete kernel cortex_m s₂,
            refl,
            refl,
            sync_complete_lem kernel (λ k. sem.count k 0 ≡ sem.count s'.kernel 0) cortex_m s₂
                (λ k p. sem.return_lem 0 k ∙ p) refl,
          )
