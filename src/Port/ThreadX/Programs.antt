-- ===== src/Port/ThreadX/Programs.antt =====
-- Tests of src/*.c put on ports/threadx/tm_port.c.
use thread_metric_benchmark.Base.{
  ℕ, ◌+◌, ◌*◌, ◌%◌, ◌<◌, ◌≡◌, refl, sym, ap, ◌∙◌, ◌≢◌, true, false, none, some, List, [], ◌∷◌,
  arith, length, pos, ulong_mod,
}
use mathlib.Core.Path.{subst}
use thread_metric_benchmark.Api.{Status, tm_success}
use thread_metric_benchmark.Api.Check.{running}
use thread_metric_benchmark.Suite.Rounds.{working}
use thread_metric_benchmark.Suite.Message.Worker as MessageWorker
use thread_metric_benchmark.Suite.Memory.Worker as MemoryWorker
use thread_metric_benchmark.Suite.Synchronization.Worker.{
  tm_synchronization_processing_thread_0_entry, synchronization_processing_thread_lem,
}
use thread_metric_benchmark.Suite.Preemptive.{
  tm_preemptive_scheduling_initialize, preemptive_invalid,
}
use thread_metric_benchmark.Suite.Preemptive as Preemptive
use thread_metric_benchmark.Suite.Preemptive.System.{System, Reach}
use thread_metric_benchmark.Suite.Preemptive.Turns as PreemptiveTurns
use thread_metric_benchmark.Suite.Preemptive.Start.{preemptive_initialize_lem}
use thread_metric_benchmark.Suite.Preemptive.Safety.{initial, preemptive_never_invalid}
use thread_metric_benchmark.Suite.Interrupt as Interrupt
use thread_metric_benchmark.Suite.Interrupt.Worker as InterruptWorker
use thread_metric_benchmark.Suite.Interrupt.Safety as InterruptSafety
use thread_metric_benchmark.Port.ThreadX.Kernel.{Kernel, posix_host, Port}
use thread_metric_benchmark.Port.ThreadX.Interrupt.{tm_cause_interrupt_sync}
use thread_metric_benchmark.Port.ThreadX.Services.{
  threadx_api, tm_semaphore_create, tm_memory_pool_create,
}
use thread_metric_benchmark.Port.ThreadX.Semaphore.{
  SemaphoreKernel, create_semaphore, semaphore_laws,
}
use thread_metric_benchmark.Port.ThreadX.Trigger.{trigger_laws}
use thread_metric_benchmark.Port.ThreadX.Pool.{PoolKernel, create_pool, pool_laws}
use thread_metric_benchmark.Port.ThreadX.Threads.{ThreadKernel, thread_laws}

-- The free blocks of a pool that has one.
some_block : (bs : List ℕ) → 0 < length bs → (b : ℕ) × (rest : List ℕ) × (bs ≡ b ∷ rest)
some_block [] h = absurd (omega arith)
some_block (b ∷ rest) h = (b, rest, refl)

module _ {Entry Init K : Type 0} (kernel : Kernel K) where
  -- On the ThreadX layer of the POSIX build, over a kernel with the documented block pools, from a zero counter and
  -- without the pool: its creation succeeds, and after n rounds the memory test's thread is still in
  -- its loop, has counted n allocations modulo 2 ^ 64, used one block in all of them, and left the
  -- free blocks that it found, that one among them.
  pub memory_allocation_on_threadx :
      (pool : PoolKernel kernel) (n : ℕ) (g : MemoryWorker.Globals) (s : Port Entry Init K)
      → g.counter ≡ 0
      → pool.Absent s.kernel 0
      → (b : ℕ) × (bs : List ℕ) × (s₁ s₂ : Port Entry Init K) × (tm_memory_pool_create kernel
            (pos 0)
            s
          ≡ (tm_success, s₁))
        × pool.Free s₁.kernel 0 (b ∷ bs)
        × (MemoryWorker.tm_memory_allocation_thread_0_entry (threadx_api kernel posix_host) n g s₁
            ≡ working (MemoryWorker.globals_at g.memory_ptr b n) s₂)
        × pool.Free s₂.kernel 0 (b ∷ bs)
  memory_allocation_on_threadx pool n g s c new =
      let (s₁, all, created, many, free) = create_pool kernel pool s new in
      let (b, bs, e) = some_block all many in
      let free' = subst (pool.Free s₁.kernel 0) e free in
      let (s₂, runs, back) =
        MemoryWorker.memory_allocation_thread_lem (threadx_api kernel posix_host)
          (pool_laws kernel pool posix_host) n b bs g s₁ c (unfold pool_laws in free') in
      (b, bs, s₁, s₂, created, free', runs, unfold pool_laws in back)

  -- On the ThreadX layer of the POSIX build, over a kernel with the documented semaphores, without the semaphore: its
  -- creation succeeds, and after n rounds the semaphore test's thread is still in its loop, has
  -- counted n rounds modulo 2 ^ 64, and the semaphore's count is 1 again.
  pub synchronization_processing_on_threadx :
      (sem : SemaphoreKernel kernel) (n : ℕ) (s : Port Entry Init K)
      → sem.count s.kernel 0 ≡ none
      → (s₁ s₂ : Port Entry Init K) × (tm_semaphore_create kernel (pos 0) s ≡ (tm_success, s₁))
        × (tm_synchronization_processing_thread_0_entry (threadx_api kernel posix_host) n 0 s₁
            ≡ working (n % ulong_mod) s₂)
        × (sem.count s₂.kernel 0 ≡ some 1)
  synchronization_processing_on_threadx sem n s new =
      let (s₁, created, full) = create_semaphore kernel posix_host sem s new in
      let (s₂, runs, full') =
        synchronization_processing_thread_lem (threadx_api kernel posix_host)
          (semaphore_laws kernel posix_host sem) n s₁ (unfold semaphore_laws in full) in
      (s₁, s₂, created, runs, unfold semaphore_laws in full')

running-injective : {S : Type 0} {s t : S} → running s ≡ running t → s ≡ t
running-injective e = cc

created-same :
    {S : Type 0} {x : Status × S} {s t : S} → x ≡ (tm_success, s) → x ≡ (tm_success, t) → s ≡ t
created-same e f = ap (λ y. y.1) (sym e ∙ f)

module _ {Init K : Type 0} (kernel : Kernel K) where
  -- On the ThreadX layer of the POSIX build, over a kernel with the documented threads, none of which exists or is
  -- ready before the initialization of the preemptive test: in every state that the test reaches
  -- behind the initialization by single statements of the thread that the scheduler chooses, and by
  -- wakes and reports of the reporting thread, the report's test finds no invalid counter, as long
  -- as 5 * c0 + 4 is below 2 ^ 64.
  pub preemptive_on_threadx :
      (threads : ThreadKernel kernel) (s s' : Port Preemptive.Entry Init K)
      {t : System (Port Preemptive.Entry Init K)}
      → ((j : ℕ) → threads.views.created s.kernel j ≡ false)
      → ((j : ℕ) → threads.views.ready s.kernel j ≡ false)
      → tm_preemptive_scheduling_initialize (threadx_api kernel posix_host) s ≡ running s'
      → Reach (thread_laws kernel posix_host threads) (initial s') t
      → 5 * t.counters.c0 + 4 < ulong_mod
      → preemptive_invalid t.counters ≡ false
  preemptive_on_threadx threads s s' new idle initialized reach h =
      let laws = thread_laws {Entry = Preemptive.Entry} {Init = Init} kernel posix_host threads in
      let (s'', e, v) = preemptive_initialize_lem laws s (
        unfold thread_laws in
        record { created_at = new; ready_at = idle; priority_at = λ j. refl }) in
      preemptive_never_invalid laws s'
        (subst (PreemptiveTurns.Kernel laws true 0) (running-injective (sym e ∙ initialized)) v)
        reach h

  -- On the ThreadX layer of the POSIX build, over a kernel with the documented semaphores, behind the creation of the
  -- semaphore and from zero counters: after any number of statements of the interrupt test's thread,
  -- which triggers its interrupts synchronously, the thread has not returned, and the report's test
  -- finds the counters valid, as long as twice the thread's counter plus 1 is below 2 ^ 64.
  pub interrupt_on_threadx :
      (sem : SemaphoreKernel kernel) (n : ℕ) (s s' : Port Interrupt.Entry Init K)
      (w : InterruptWorker.Pc × InterruptWorker.World (Port Interrupt.Entry Init K))
      → sem.count s.kernel 0 ≡ none
      → tm_semaphore_create kernel (pos 0) s ≡ (tm_success, s')
      → w
        ≡ InterruptWorker.run
            (threadx_api kernel posix_host)
            (tm_cause_interrupt_sync kernel posix_host)
            n
            (InterruptSafety.start s')
      → 2 * w.1.0.thread_0_counter + 1 < ulong_mod
      → (w.0 ≢ InterruptWorker.returned)
        × (Interrupt.interrupt_invalid (InterruptSafety.snapshot w.1.0) ≡ false)
  interrupt_on_threadx sem n s s' w new e ran h =
      let (s'', created, full) = create_semaphore kernel posix_host sem s new in
      let full' =
        subst (λ (t : Port Interrupt.Entry Init K). sem.count t.kernel 0 ≡ some 1)
          (created-same created e) full in
      subst
        (λ (v : InterruptWorker.Pc × InterruptWorker.World (Port Interrupt.Entry Init K)).
          (v.0 ≢ InterruptWorker.returned)
          × (Interrupt.interrupt_invalid (InterruptSafety.snapshot v.1.0) ≡ false))
        (sym ran)
        (InterruptSafety.interrupt_never_invalid (threadx_api kernel posix_host)
          (semaphore_laws kernel posix_host sem) (tm_cause_interrupt_sync kernel posix_host)
          (trigger_laws kernel sem posix_host) n s' (unfold semaphore_laws in full')
          (subst
            (λ (v : InterruptWorker.Pc × InterruptWorker.World (Port Interrupt.Entry Init K)).
              2 * v.1.0.thread_0_counter + 1 < ulong_mod)
            ran h))
