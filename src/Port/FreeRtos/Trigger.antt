-- ===== src/Port/FreeRtos/Trigger.antt =====
-- The asynchronous trigger of ports/freertos on both targets, and the registers that it goes by.
use thread_metric_benchmark.Base.{
  ℕ, zero, suc, ◌/◌, ◌%◌, ◌^◌, ◌≡◌, refl, sym, ap, ◌∙◌, inl, inr, Bool, true, false, ◌||◌, Option,
  none, some, arith, ◌==◌, if◌then◌else◌, ==_iff, Bool-cases, or_true,
}
use thread_metric_benchmark.Port.FreeRtos.Kernel.{Kernel, Target, cortex_m, posix_host}
use thread_metric_benchmark.Port.FreeRtos.Entry.{
  EntryKernel, Layer, bit, set_bits, isr_irq, both_handlers, tm_isr_task_round, tm_cause_interrupt,
  irq_round,
}

bit_of_none : (i : ℕ) → bit 0 i ≡ false
unfolding bit
bit_of_none zero = refl
bit_of_none (suc i) = bit_of_none i

double_power : (n : ℕ) → 2 ^ suc n / 2 ≡ 2 ^ n
double_power n = ground (arith)

even_power : (n : ℕ) → 2 ^ suc n % 2 ≡ 0
even_power n = ground arith

same_succ : (n i : ℕ) → (n == i) ≡ (suc n == suc i)
same_succ n i = ground arith

-- A word that is a power of two has one bit.
bit_of_power : (n i : ℕ) → bit (2 ^ n) i ≡ (n == i)
unfolding bit
bit_of_power zero zero = refl
bit_of_power zero (suc i) = bit_of_none i ∙ ground arith
bit_of_power (suc n) zero = rw (even_power n) (ground arith)
bit_of_power (suc n) (suc i) = ap (λ w. bit w i) (double_power n) ∙ bit_of_power n i ∙ same_succ n i

-- The semaphore of the task that simulates interrupts, by its handle. A give and a take of it leave
-- all else as it is.
pub record IsrKernel {K : Type 0} (kernel : Kernel K) (entries : EntryKernel K) : Type 0 where
  pub given : K → ℕ → Bool
  pub waits : (k : K) (h : ℕ) → given k h ≡ false → entries.take_forever (some h) k ≡ none
  pub wakes :
      (k : K) (h : ℕ)
      → given k h ≡ false
      → entries.take_forever (some h) (kernel.semaphore_give (some h) k).1 ≡ some k

module _ {Entry K : Type 0} {kernel : Kernel K} {entries : EntryKernel K} where
  -- No interrupt is under way: the semaphore is there and not given, or the interrupt 31 is enabled
  -- and not pending.
  abbrev pub IsIdle : IsrKernel kernel entries → Target → Layer Entry K → Type 0
  IsIdle isr posix_host s =
      (h : ℕ) × (s.isr_semaphore ≡ some h) × (isr.given s.port.kernel h ≡ false)
  IsIdle isr cortex_m s =
      (s.registers.enabled isr_irq ≡ true) × (s.registers.pending isr_irq ≡ false)

module _ {Entry K : Type 0} (kernel : Kernel K) (entries : EntryKernel K) where
  -- What runs the handlers: the task, or the processor.
  unfoldable pub interrupt_round :
      {G : Type 0}
      → Target
      → (tm_interrupt_handler tm_interrupt_preemption_handler : G × Layer Entry K
          → G × Layer Entry K)
      → G × Layer Entry K
      → Option (G × Layer Entry K)
  unfolding tm_isr_task_round irq_round
  interrupt_round posix_host handler preemption_handler w =
      tm_isr_task_round kernel entries handler preemption_handler w
  interrupt_round cortex_m handler preemption_handler w = irq_round handler preemption_handler w

-- The bit that is set is cleared again.
cleared_at :
    (pending : ℕ → Bool) (i : ℕ)
    → pending isr_irq ≡ false
    → (if i == isr_irq then false else set_bits (2 ^ isr_irq) pending i) ≡ pending i
unfolding set_bits
cleared_at pending i e = elim (Bool-cases (i == isr_irq)) [
  | inl same ↦ rw same (sym e ∙ ap pending (sym ((==_iff i isr_irq).0 same)))
  | inr other ↦ rw (other, bit_of_power isr_irq i) (other_bit i (pending i) other)
]
  where
    other_bit : (i : ℕ) (b : Bool) → (i == isr_irq) ≡ false → (b || (isr_irq == i)) ≡ b
    other_bit i true h = refl
    other_bit i false h = ground arith

pub set_own : (pending : ℕ → Bool) → set_bits (2 ^ isr_irq) pending isr_irq ≡ true
unfolding set_bits
set_own pending = rw (bit_of_power isr_irq isr_irq) (or_true (pending isr_irq))

module _ {Entry K : Type 0} {kernel : Kernel K} {entries : EntryKernel K}
    (isr : IsrKernel kernel entries) where
  waits_first :
      {G : Type 0} (target : Target)
      (handler preemption_handler : G × Layer Entry K → G × Layer Entry K) (g : G)
      (s : Layer Entry K)
      → IsIdle isr target s
      → interrupt_round kernel entries target handler preemption_handler (g, s) ≡ none
  unfolding interrupt_round tm_isr_task_round irq_round
  waits_first posix_host handler preemption_handler g s (h, e, n) =
      rw (e, isr.waits s.port.kernel h n) refl
  waits_first cortex_m handler preemption_handler g s (e, p) = rw (e, p) refl

  runs_then :
      {G : Type 0} (target : Target)
      (handler preemption_handler : G × Layer Entry K → G × Layer Entry K) (g : G)
      (s : Layer Entry K)
      → IsIdle isr target s
      → interrupt_round kernel entries target handler preemption_handler
          (g, tm_cause_interrupt kernel entries target s)
        ≡ some (both_handlers handler preemption_handler (g, s))
  unfolding interrupt_round tm_isr_task_round irq_round tm_cause_interrupt
  runs_then posix_host handler preemption_handler g s (h, e, n) =
      rw (e, isr.wakes s.port.kernel h n) refl
  runs_then cortex_m handler preemption_handler g s (e, p) =
      rw (e, set_own s.registers.pending)
        (λ j. some (
          both_handlers handler preemption_handler (
            g,
            record s {
              registers = record (s.registers) {
                pending = λ i. cleared_at s.registers.pending i p j;
              };
            },
          )))

  -- On the FreeRTOS layer, over a kernel with the documented semaphores, with no interrupt under
  -- way, that is, the semaphore of the task that simulates interrupts there and not given (POSIX),
  -- or the interrupt 31 enabled and not pending (Cortex-M): nothing runs the handlers; behind an
  -- asynchronous trigger they run both, in this order and once, from the state before the trigger;
  -- and if no interrupt is under way behind them, nothing runs them again.
  pub cause_then_handlers :
      {G : Type 0} (target : Target)
      (handler preemption_handler : G × Layer Entry K → G × Layer Entry K) (w : G × Layer Entry K)
      → IsIdle isr target w.1
      → IsIdle isr target (preemption_handler (handler w)).1
      → (interrupt_round kernel entries target handler preemption_handler w ≡ none)
        × (interrupt_round kernel entries target handler preemption_handler
              (w.0, tm_cause_interrupt kernel entries target w.1)
            ≡ some (preemption_handler (handler w)))
        × (interrupt_round kernel entries target handler preemption_handler
              (preemption_handler (handler w))
            ≡ none)
  unfolding both_handlers
  cause_then_handlers target handler preemption_handler w idle idle' =
      let w' = preemption_handler (handler w) in
      (
        waits_first target handler preemption_handler w.0 w.1 idle,
        runs_then target handler preemption_handler w.0 w.1 idle,
        waits_first target handler preemption_handler w'.0 w'.1 idle',
      )
