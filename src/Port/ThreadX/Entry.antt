-- ===== src/Port/ThreadX/Entry.antt =====
-- How tests get into the ThreadX kernel and back out of it: tm_initialize, the shells of
-- ports/threadx/tm_port.c, and the asynchronous triggers of that file and of
-- ports/threadx/cortex-m/tm_isr_dispatch.c.
use thread_metric_benchmark.Base.{ℕ, ◌≡◌, Option, none, some}
use mathlib.Core.Option
use thread_metric_benchmark.Api.Check.{Outcome}
use thread_metric_benchmark.Port.ThreadX.Kernel.{
  Kernel, Target, cortex_m, posix_host, Port, tm_isr_thread, tm_isr_semaphore, tm_isr_thread_entry,
  auto_start, stack_size,
}

-- The thread's function, if its number has one. `run` is what it does.
unfoldable pub tm_thread_entry :
    {Entry Init K R : Type 0} → (Entry → Port Entry Init K → R) → ℕ → Port Entry Init K → Option R
tm_thread_entry run thread_input s = Option.map (λ entry. run entry s) (s.entries thread_input)

-- What the POSIX build sets up for its interrupts, whatever the statuses.
unfoldable pub isr_simulation : {K : Type 0} → Kernel K → Target → K → K
isr_simulation kernel cortex_m k = k
isr_simulation kernel posix_host k =
    (kernel.thread_create tm_isr_thread (tm_isr_thread_entry 0) 0 stack_size 0 0 auto_start
      (kernel.semaphore_create tm_isr_semaphore 0 k).1).1

unfoldable pub svc_handler :
    {W : Type 0} → (tm_interrupt_handler tm_interrupt_preemption_handler : W → W) → W → W
svc_handler tm_interrupt_handler tm_interrupt_preemption_handler w =
    tm_interrupt_preemption_handler (tm_interrupt_handler w)

module _ {Entry Init K : Type 0} (kernel : Kernel K) where
  -- `run` is what the initialization functions of the tests do.
  unfoldable pub tm_initialize :
      Target
      → (Init → Port Entry Init K → Outcome (Port Entry Init K))
      → Init
      → Port Entry Init K
      → Outcome (Port Entry Init K)
  unfolding isr_simulation
  tm_initialize target run test_initialization_function s =
      run test_initialization_function (record s {
        initialization = some test_initialization_function;
        kernel = isr_simulation kernel target s.kernel;
      })

  -- A round of the thread that simulates interrupts; nothing as long as it waits. A test that has
  -- only one of the two handlers leaves the other empty.
  unfoldable pub tm_isr_thread_round :
      {G : Type 0}
      → (tm_interrupt_handler tm_interrupt_preemption_handler : G × Port Entry Init K
          → G × Port Entry Init K)
      → G × Port Entry Init K
      → Option (G × Port Entry Init K)
  tm_isr_thread_round tm_interrupt_handler tm_interrupt_preemption_handler (g, s) =
      Option.map
        (λ k. tm_interrupt_preemption_handler (tm_interrupt_handler (g, record s { kernel = k })))
        (kernel.semaphore_wait tm_isr_semaphore s.kernel)

  -- The processor enters its handler of the instruction `svc` at once.
  unfoldable pub tm_cause_interrupt :
      {G : Type 0}
      → Target
      → (tm_interrupt_handler tm_interrupt_preemption_handler : G × Port Entry Init K
          → G × Port Entry Init K)
      → G × Port Entry Init K
      → G × Port Entry Init K
  unfolding svc_handler
  tm_cause_interrupt cortex_m tm_interrupt_handler tm_interrupt_preemption_handler w =
      svc_handler tm_interrupt_handler tm_interrupt_preemption_handler w
  tm_cause_interrupt posix_host tm_interrupt_handler tm_interrupt_preemption_handler (g, s) =
      (g, record s { kernel = (kernel.semaphore_put tm_isr_semaphore s.kernel).1 })

-- The semaphore of the thread that simulates interrupts, which waits for it. A call on it leaves
-- all else as it is.
pub record IsrKernel {K : Type 0} (kernel : Kernel K) : Type 0 where
  pub pending : K → ℕ
  pub waits : (k : K) → pending k ≡ 0 → kernel.semaphore_wait tm_isr_semaphore k ≡ none
  pub wakes :
      (k : K)
      → pending k ≡ 0
      → kernel.semaphore_wait tm_isr_semaphore (kernel.semaphore_put tm_isr_semaphore k).1 ≡ some k

module _ {Entry Init K : Type 0} (kernel : Kernel K) (isr : IsrKernel kernel) where
  -- On the ThreadX layer of the POSIX build, over a kernel with the documented semaphores, of which
  -- the one of the simulated interrupts is not given: the thread that simulates them waits, and an
  -- asynchronous trigger lets it run the two handlers, in this order and once, with the outcome that
  -- the trigger of the Cortex-M has at once; then it waits again, if the handlers have triggered no
  -- interrupt themselves.
  pub cause_then_round :
      {G : Type 0} (handler preemption_handler : G × Port Entry Init K → G × Port Entry Init K)
      (w : G × Port Entry Init K)
      → isr.pending w.1.kernel ≡ 0
      → isr.pending (preemption_handler (handler w)).1.kernel ≡ 0
      → (tm_isr_thread_round kernel handler preemption_handler w ≡ none)
        × (tm_isr_thread_round kernel handler preemption_handler
              (tm_cause_interrupt kernel posix_host handler preemption_handler w)
            ≡ some (tm_cause_interrupt kernel cortex_m handler preemption_handler w))
        × (tm_isr_thread_round kernel handler preemption_handler
              (tm_cause_interrupt kernel cortex_m handler preemption_handler w)
            ≡ none)
  cause_then_round handler preemption_handler w idle idle' =
      unfold tm_isr_thread_round tm_cause_interrupt svc_handler in
      (
        rw (isr.waits w.1.kernel idle),
        rw (isr.wakes w.1.kernel idle),
        rw (isr.waits (preemption_handler (handler w)).1.kernel idle'),
      )
