-- ===== src/Port/ThreadX/LowLevel/Outcomes.antt =====
-- How tx_initialize_low_level.c of ports/threadx/posix-host ends.
use mathlib.Core.Path.{subst}
use thread_metric_benchmark.Base.{
  ℕ, ◌≡◌, refl, sym, ◌⊎◌, inl, inr, false, Option, none, some, [], ◌∷◌, Bytes, codes,
}
use thread_metric_benchmark.Port.ThreadX.LowLevel.{
  Posix, resume_sig, Pipe, Boot, Booted, goes_on, hangs, then_boot, open_pipe, install_signals,
  timer_interrupt, tx_posix_thread_init, initialize_objects, elevate_on_linux, create_timer,
  allocate, tx_initialize_low_level,
}

-- Why the initialization stops.
pub data IsBootMessage : Bytes → Type 0 where
  memory : IsBootMessage (codes "ThreadX POSIX error allocating memory!\n")
  pipes : IsBootMessage (codes "ThreadX POSIX error creating pipes!\n")
  timer : IsBootMessage (codes "ThreadX POSIX error creating timer thread!\n")

-- The memory, both pipes and the timer's pthread are there; no semaphore is up, the interrupts are
-- not disabled, and only the signal to resume ends a suspension.
pub record IsReady {P : Type 0} (b : Boot P) : Type 0 where
  pub unused_memory : (a : ℕ) × (b.unused_memory ≡ some a)
  pub timer_pipe : (p : Pipe) × (b.timer_pipe ≡ some p)
  pub other_pipe : (p : Pipe) × (b.other_pipe ≡ some p)
  pub timer_id : (i : ℕ) × (b.timer_id ≡ some i)
  pub semaphores : (b.semaphore ≡ 0) × (b.timer_semaphore ≡ 0) × (b.isr_semaphore ≡ 0)
  pub interrupts : b.global_int_disabled ≡ false
  pub wait_mask : b.wait_mask ≡ resume_sig ∷ []

-- A message of those, or a state of a kind.
abbrev pub Ends : {P : Type 0} → (Boot P → Type 0) → Booted P → Type 0
Ends {P} Q r =
    ((message : Bytes) × (b : Boot P) × (r ≡ hangs message b) × IsBootMessage message)
    ⊎ ((b : Boot P) × (r ≡ goes_on b) × Q b)

Ends-then :
    {P : Type 0} {Q R : Boot P → Type 0} {r : Booted P} {k : Boot P → Booted P}
    → Ends Q r
    → ((b : Boot P) → Q b → Ends R (k b))
    → Ends R (then_boot r k)
unfolding then_boot
Ends-then (inl (m, b, e, h)) f = inl (m, b, rw e refl, h)
Ends-then {R} {k} (inr (b, e, q)) f = subst (λ r. Ends R (then_boot r k)) (sym e) (f b q)

abbrev HasMemory : {P : Type 0} → Boot P → Type 0
HasMemory b = (a : ℕ) × (b.unused_memory ≡ some a)

abbrev HasPipe : Option Pipe → Type 0
HasPipe fds = (p : Pipe) × (fds ≡ some p)

module _ {P : Type 0} (posix : Posix P) where
  allocate-Ends : (b : Boot P) → Ends HasMemory (allocate posix b)
  unfolding allocate
  allocate-Ends b = split (posix.malloc 64000 b.process).0
    where
      split :
          (made : Option ℕ)
          → Ends HasMemory (
              let c = record b {
                process = (posix.malloc 64000 b.process).1;
                unused_memory = made;
              } in
              elim made [
                | none ↦ hangs (codes "ThreadX POSIX error allocating memory!\n") c
                | some a ↦ goes_on c
              ])
      split none = inl (_, _, refl, memory)
      split (some a) = inr (_, refl, (a, refl))

  open_pipe-Ends :
      (store : Option Pipe → Boot P → Boot P) (b : Boot P) (Q : Boot P → Type 0)
      → ((fds : Pipe) (process : P) → Q (store (some fds) (record b { process = process })))
      → Ends Q (open_pipe posix store b)
  unfolding open_pipe
  open_pipe-Ends store b Q q = split (posix.pipe b.process).0
    where
      split :
          (made : Option Pipe)
          → Ends Q (elim made [
            | none ↦
                hangs
                  (codes "ThreadX POSIX error creating pipes!\n")
                  (record b { process = (posix.pipe b.process).1 })
            | some fds ↦
                goes_on (store (some fds) (record b { process = (posix.pipe b.process).1 }))
          ])
      split none = inl (_, _, refl, pipes)
      split (some fds) = inr (_, refl, q fds (posix.pipe b.process).1)

  -- Memory, both pipes and the mask.
  abbrev HasSignals : Boot P → Type 0
  HasSignals b =
      HasMemory b × HasPipe b.timer_pipe × HasPipe b.other_pipe × (b.wait_mask ≡ resume_sig ∷ [])

  thread_init-Ends : (b : Boot P) → HasMemory b → Ends HasSignals (tx_posix_thread_init posix b)
  unfolding tx_posix_thread_init install_signals
  thread_init-Ends b m =
      Ends-then
        (open_pipe-Ends (λ fds c. record c { timer_pipe = fds }) b
          (λ c. HasMemory c × HasPipe c.timer_pipe) (λ fds process. (m, (fds, refl))))
        (λ c q.
          Ends-then
            (open_pipe-Ends (λ fds d. record d { other_pipe = fds }) c
              (λ d. HasMemory d × HasPipe d.timer_pipe × HasPipe d.other_pipe)
              (λ fds process. (q.0, q.1, (fds, refl))))
            (λ d r. inr (_, refl, (r.0, r.1, r.2, refl))))

  abbrev IsInitial : Boot P → Type 0
  IsInitial b =
      (b.semaphore ≡ 0)
      × (b.timer_semaphore ≡ 0)
      × (b.isr_semaphore ≡ 0)
      × (b.global_int_disabled ≡ false)

  create_timer-Ends :
      (b : Boot P) → HasSignals b → IsInitial b → Ends IsReady (create_timer posix b)
  unfolding create_timer
  create_timer-Ends b q z = split (posix.create timer_interrupt b.process).0
    where
      process : P
      process = (posix.create timer_interrupt b.process).1

      split :
          (made : Option ℕ)
          → Ends {P = P} IsReady (elim made [
            | none ↦
                hangs
                  (codes "ThreadX POSIX error creating timer thread!\n")
                  (record b { process = process })
            | some i ↦
                goes_on
                  (record b { process = elevate_on_linux posix 2 i process; timer_id = some i })
          ])
      split none = inl (_, _, refl, timer)
      split (some i) = inr (
        _,
        refl,
        record {
          unused_memory = q.0;
          timer_pipe = q.1;
          other_pipe = q.2;
          timer_id = (i, refl);
          semaphores = (z.0, z.1, z.2);
          interrupts = z.3;
          wait_mask = q.3;
        },
      )

  -- On the ThreadX port for POSIX hosts, whatever the C library and the system answer: the
  -- low-level initialization either writes one of its three messages, about the memory, the pipes
  -- or the timer's pthread, and loops forever, or it goes on with the memory, both pipes and that
  -- pthread there, the three semaphores at 0, the interrupts not disabled, and the signal to resume
  -- as the only one that ends a suspension.
  pub tx_initialize_low_level-Ends : (b : Boot P) → Ends IsReady (tx_initialize_low_level posix b)
  unfolding tx_initialize_low_level initialize_objects
  tx_initialize_low_level-Ends b = Ends-then (allocate-Ends b) (λ c m.
      Ends-then (thread_init-Ends c m)
        (λ d q. create_timer-Ends (initialize_objects posix d) q (refl, refl, refl, refl)))
