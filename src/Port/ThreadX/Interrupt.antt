-- ===== src/Port/ThreadX/Interrupt.antt =====
-- The synthetic interrupt context of ports/threadx/tm_port.c, and the synchronous triggers of that
-- file and of ports/threadx/cortex-m/tm_isr_dispatch.c.
use thread_metric_benchmark.Base.{ℕ, Bool, true, false, not, ◌&&◌, ◌||◌, ◌==◌, if◌then◌else◌}
use thread_metric_benchmark.Api.{Status}
use thread_metric_benchmark.Port.ThreadX.Kernel.{
  Kernel, Target, cortex_m, posix_host, Port, returned, increment, decrement,
}

-- `(current_thread != _tx_thread_execute_ptr) && (_tx_thread_preempt_disable == 0)`
unfoldable pub wants_preemption : {K : Type 0} → Kernel K → K → Bool
wants_preemption kernel k = not (kernel.runs_best k) && (kernel.preempt_disable k == 0)

-- A service that is called as it is, and its status.
unfoldable pub called :
    {Entry Init K : Type 0} → (K → ℕ × K) → Port Entry Init K → Status × Port Entry Init K
unfolding returned
called service s = let (status, k) = service s.kernel in (returned status, record s { kernel = k })

module _ {Entry Init K : Type 0} (kernel : Kernel K) where
  -- Returns the mask to restore.
  unfoldable pub tm_threadx_benchmark_isr_enter : Target → Port Entry Init K → ℕ × Port Entry Init K
  tm_threadx_benchmark_isr_enter posix_host s = (0, s)
  tm_threadx_benchmark_isr_enter cortex_m s =
      let k = kernel.set_system_state (increment (kernel.system_state s.kernel)) s.kernel in
      let k' = kernel.set_preempt_disable (increment (kernel.preempt_disable k)) k in
      (s.primask, record s { primask = 1; kernel = k' })

  unfoldable pub tm_threadx_benchmark_isr_exit : Target → ℕ → Port Entry Init K → Port Entry Init K
  unfolding wants_preemption
  tm_threadx_benchmark_isr_exit posix_host mask s = s
  tm_threadx_benchmark_isr_exit cortex_m mask s =
      let k = kernel.set_preempt_disable (decrement (kernel.preempt_disable s.kernel)) s.kernel in
      let k' = kernel.set_system_state (decrement (kernel.system_state k)) k in
      record s {
        preemption_pending = wants_preemption kernel k' || s.preemption_pending;
        primask = mask;
        kernel = k';
      }

  unfoldable pub tm_threadx_benchmark_sync_complete : Target → Port Entry Init K → Port Entry Init K
  unfolding wants_preemption
  tm_threadx_benchmark_sync_complete posix_host s = s
  tm_threadx_benchmark_sync_complete cortex_m s =
      if s.preemption_pending
      then (let k = s.kernel in
          record s {
            preemption_pending = false;
            kernel =
                if wants_preemption kernel k && (kernel.system_state k == 0)
                then kernel.system_return k
                else k;
          })
      else s

  -- A service inside the bracket, and its status.
  unfoldable pub bracketed : Target → (K → ℕ × K) → Port Entry Init K → Status × Port Entry Init K
  unfolding tm_threadx_benchmark_isr_enter tm_threadx_benchmark_isr_exit returned
  bracketed target service s =
      let (mask, s₁) = tm_threadx_benchmark_isr_enter target s in
      let (status, k) = service s₁.kernel in
      (returned status, tm_threadx_benchmark_isr_exit target mask (record s₁ { kernel = k }))

  -- Inside the handler of a synchronous trigger the service is bracketed.
  unfoldable pub in_context : Target → (K → ℕ × K) → Port Entry Init K → Status × Port Entry Init K
  unfolding bracketed called
  in_context target service s =
      if s.interrupt_active then bracketed target service s else called service s

  -- The handler may change the globals and the layer.
  unfoldable pub tm_cause_interrupt_sync :
      {G : Type 0}
      → Target
      → (G × Port Entry Init K → G × Port Entry Init K)
      → G × Port Entry Init K
      → G × Port Entry Init K
  unfolding tm_threadx_benchmark_sync_complete
  tm_cause_interrupt_sync posix_host handler (g, s) =
      let (g', s') = handler (g, record s { interrupt_active = true }) in
      (g', record s' { interrupt_active = false })
  tm_cause_interrupt_sync cortex_m handler (g, s) =
      let (g', s') = handler (g, record s { interrupt_active = true; primask = 1 }) in
      (
        g',
        tm_threadx_benchmark_sync_complete cortex_m
            (record s' { interrupt_active = false; primask = 0 }),
      )
