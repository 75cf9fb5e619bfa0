-- ===== src/Port/FreeRtos/Initialize.antt =====
-- How tm_initialize of ports/freertos/tm_port.c ends, on both targets.
use thread_metric_benchmark.Base.{
  ℕ, ◌/◌, ◌%◌, ◌^◌, ◌<◌, ◌≡◌, refl, ap, ◌∙◌, ◌⊎◌, inl, inr, true, false, Option, none, some, arith,
  Bool-cases, codes,
}
use thread_metric_benchmark.Api.Check.{Outcome, running, aborted, tm_check_fail, ◌>>◌}
use thread_metric_benchmark.Port.FreeRtos.Kernel.{Kernel, cortex_m, posix_host, Port}
use thread_metric_benchmark.Port.FreeRtos.Entry.{
  EntryKernel, Layer, isr_irq, kernel_interrupt_priority, or_priority, lower_priorities,
  tm_isr_dispatch_init, isr_task, isr_simulation, start_scheduler, with_registers, started,
  tm_initialize,
}
use thread_metric_benchmark.Port.FreeRtos.Trigger.{set_own}

-- The upper three bits of the bytes 2 and 3 are set; all else of the word stays.
pub lower_priorities_lem :
    (word : ℕ)
    → word < 2 ^ 32
    → (lower_priorities word < 2 ^ 32)
      × (lower_priorities word % 2 ^ 16 ≡ word % 2 ^ 16)
      × (lower_priorities word / 2 ^ 21 % 2 ^ 3 ≡ 7)
      × (lower_priorities word / 2 ^ 29 ≡ 7)
      × (lower_priorities word / 2 ^ 16 % 2 ^ 5 ≡ word / 2 ^ 16 % 2 ^ 5)
      × (lower_priorities word / 2 ^ 24 % 2 ^ 5 ≡ word / 2 ^ 24 % 2 ^ 5)
unfolding lower_priorities or_priority kernel_interrupt_priority
lower_priorities_lem word h =
    (omega arith, omega arith, omega arith, omega arith, omega arith, omega arith)

module _ {Entry K : Type 0} (kernel : Kernel K) (entries : EntryKernel K) where
  -- On the FreeRTOS layer for the Cortex-M, whose registers have 32 bits: if the initialization of
  -- the test succeeds, then tm_initialize succeeds. It sets the upper three bits of the priorities
  -- of PendSV and of SysTick, which makes them the least ones, and leaves the rest of that register;
  -- it sets the priority of the interrupt 31 to 0xE0 and leaves the other three in that register;
  -- it enables the interrupt 31, and leaves the pending interrupts as they are.
  pub initialize_on_cortex_m :
      (test : Port Entry K → Outcome (Port Entry K)) (s : Layer Entry K) (p : Port Entry K)
      → s.registers.shpr3 < 2 ^ 32
      → test s.port ≡ running p
      → (s' : Layer Entry K) × (tm_initialize kernel entries cortex_m test s ≡ running s')
        × (s'.registers.shpr3 < 2 ^ 32)
        × (s'.registers.shpr3 % 2 ^ 16 ≡ s.registers.shpr3 % 2 ^ 16)
        × (s'.registers.shpr3 / 2 ^ 21 % 2 ^ 3 ≡ 7)
        × (s'.registers.shpr3 / 2 ^ 29 ≡ 7)
        × (s'.registers.shpr3 / 2 ^ 16 % 2 ^ 5 ≡ s.registers.shpr3 / 2 ^ 16 % 2 ^ 5)
        × (s'.registers.shpr3 / 2 ^ 24 % 2 ^ 5 ≡ s.registers.shpr3 / 2 ^ 24 % 2 ^ 5)
        × (s'.registers.ipr7 / 2 ^ 24 ≡ 0xE0)
        × (s'.registers.ipr7 % 2 ^ 24 ≡ s.registers.ipr7 % 2 ^ 24)
        × (s'.registers.enabled isr_irq ≡ true)
        × (s'.registers.pending ≡ s.registers.pending)
  unfolding tm_initialize with_registers started tm_isr_dispatch_init start_scheduler
  initialize_on_cortex_m test s p h e =
      let (below, low, pendsv, systick, five, six) = lower_priorities_lem s.registers.shpr3 h in
      (
        start_scheduler kernel entries (record (with_registers kernel entries s) { port = p }),
        ap (started kernel entries (with_registers kernel entries s)) e,
        below,
        low,
        pendsv,
        systick,
        five,
        six,
        omega arith,
        omega arith,
        set_own s.registers.enabled,
        refl,
      )

  abbrev pub setup_failed : Outcome (Layer Entry K)
  setup_failed = aborted (tm_check_fail (codes "FATAL: ISR simulation setup failed\n"))

  -- The layer behind the creation of the semaphore `h`, and then of the task from the state `k`.
  abbrev pub set_up : Layer Entry K → (h : ℕ) → K → Layer Entry K
  set_up s h k = record s {
    isr_semaphore = some h;
    isr_task = (entries.isr_task_create 512 31 k).1;
    port = record (s.port) { kernel = (entries.isr_task_create 512 31 k).2 };
  }

  -- How the initialization ends that goes on from the state `s` with the test: if the test's own
  -- initialization succeeds, then the scheduler is started from the kernel that it leaves.
  abbrev pub goes_on : Layer Entry K → Outcome (Port Entry K) → Outcome (Layer Entry K)
  goes_on s (aborted out) = aborted out
  goes_on s (running p) =
      running (record s { port = record p { kernel = entries.start_scheduler p.kernel } })

  started-goes_on :
      (s : Layer Entry K) (o : Outcome (Port Entry K)) → started kernel entries s o ≡ goes_on s o
  unfolding started start_scheduler
  started-goes_on s (aborted out) = refl
  started-goes_on s (running p) = refl

  abbrev behind :
      (Port Entry K → Outcome (Port Entry K)) → Outcome (Layer Entry K) → Outcome (Layer Entry K)
  behind test (running s') = started kernel entries s' (test s'.port)
  behind test (aborted out) = aborted out

  posix_initialize :
      (test : Port Entry K → Outcome (Port Entry K)) (s : Layer Entry K)
      → tm_initialize kernel entries posix_host test s
        ≡ behind test (isr_simulation kernel entries s)
  unfolding tm_initialize ◌>>◌
  posix_initialize test s = refl

  -- The creation of the task behind that of the semaphore.
  task_behind :
      (o : Option ℕ) (k : K) (s : Layer Entry K)
      → kernel.semaphore_create_binary s.port.kernel ≡ (o, k)
      → isr_simulation kernel entries s
        ≡ isr_task kernel entries o
            (record s { isr_semaphore = o; port = record (s.port) { kernel = k } })
  unfolding isr_simulation
  task_behind o k s e =
      ap
        (λ (x : Option ℕ × K).
          isr_task kernel entries x.0
            (record s { isr_semaphore = x.0; port = record (s.port) { kernel = x.1 } }))
        e

  -- On the FreeRTOS layer of the POSIX build, after the answer of the kernel: without a semaphore,
  -- and with one but without the task (a stack of 512, the priority 31), tm_initialize ends the
  -- program with the message "FATAL: ISR simulation setup failed", before the initialization of the
  -- test. With both, it keeps their handles, runs the initialization of the test from the layer's
  -- other data as they were and the kernel that the two calls leave, and ends as it does, with the
  -- scheduler started if it succeeds.
  pub initialize_on_posix :
      (test : Port Entry K → Outcome (Port Entry K)) (s : Layer Entry K) (o : Option ℕ) (k : K)
      → kernel.semaphore_create_binary s.port.kernel ≡ (o, k)
      → ((o ≡ none) × (tm_initialize kernel entries posix_host test s ≡ setup_failed))
        ⊎ ((h : ℕ) × (o ≡ some h)
            × ((entries.isr_task_create 512 31 k).0 ≡ false)
            × (tm_initialize kernel entries posix_host test s ≡ setup_failed))
        ⊎ ((h : ℕ) × (o ≡ some h)
            × ((entries.isr_task_create 512 31 k).0 ≡ true)
            × (tm_initialize kernel entries posix_host test s
                ≡ goes_on (set_up s h k) (test (set_up s h k).port)))
  unfolding isr_task
  initialize_on_posix test s none k e =
      inl (refl, posix_initialize test s ∙ ap (behind test) (task_behind none k s e))
  initialize_on_posix test s (some h) k e =
      let first = posix_initialize test s ∙ ap (behind test) (task_behind (some h) k s e) in
      elim (Bool-cases (entries.isr_task_create 512 31 k).0) [
        | inl passed ↦ inr (
            inr (
              h,
              refl,
              passed,
              first ∙ (rw passed refl ∙ started-goes_on (set_up s h k) (test (set_up s h k).port)),
            ))
        | inr failed ↦ inr (inl (h, refl, failed, first ∙ rw failed refl))
      ]
