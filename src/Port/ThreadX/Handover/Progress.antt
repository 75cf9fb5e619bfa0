-- ===== src/Port/ThreadX/Handover/Progress.antt =====
-- A thread that the kernel of ports/threadx/posix-host wants gets the processor.
use mathlib.Core.Path.{subst}
use thread_metric_benchmark.Base.{
  ℕ, zero, suc, ◌+◌, ◌≡◌, refl, ap, ◌∙◌, ◌≢◌, inl, inr, false, some, arith,
}
use thread_metric_benchmark.Port.ThreadX.Posix.Semaphore.{tx_posix_sem_post, tx_posix_sem_wait}
use thread_metric_benchmark.Port.ThreadX.Posix.Nesting.{update, send, post_scheduler, at_update}
use thread_metric_benchmark.Port.ThreadX.Posix.Schedule.{
  select, post_run, hold_timer-keeps, release_timer-keeps,
}
use thread_metric_benchmark.Port.ThreadX.Handover.{
  choosing, handing, handed, inside, parked, exited, running, System, Goes, offer, wake, hand_over,
  take, tell, Reach, here, later,
}
use thread_metric_benchmark.Port.ThreadX.Handover.Owner.{Holds, Choosing, At}
use thread_metric_benchmark.Port.ThreadX.Handover.Steps.{offers, offer-Holds, marked_place}
use thread_metric_benchmark.Port.ThreadX.Handover.Safety.{
  IsStart, IsStart-IsHandedOver, Reach-IsHandedOver,
}

-- The thread has the processor, with its time slice.
abbrev pub IsRun : System → ℕ → Type 0
IsRun s t = (s.sched ≡ handed) × (s.current ≡ some t) × Goes s t running

one_up : (n : ℕ) → n ≡ 1 → tx_posix_sem_wait n ≡ some 0
unfolding tx_posix_sem_wait
one_up n e = rw e refl

Reach-trans : {s u w : System} → Reach s u → Reach u w → Reach s w
Reach-trans r here = r
Reach-trans r (later r' st) = later (Reach-trans r r') st

offered_runs :
    (s : System) (t : ℕ)
    → s.sched ≡ handing
    → s.current ≡ some t
    → Holds s t parked false 1 0
    → (u : System) × Reach s u × IsRun u t × (u.kernel.timer_slice ≡ s.kernel.timer_slice)
unfolding post_scheduler tx_posix_sem_post
offered_runs s t e c h = (
  _,
  later
      (later (later here (take t 0 (h.pc, h.stop) (one_up (s.kernel.run_semaphore t) h.run_lem)))
        (tell t (at_update s.pc t _, h.stop)))
      (hand_over 0 e (one_up (s.kernel.semaphore + 1) (ap (λ n. n + 1) h.semaphore_lem))),
  (refl, c, (at_update (update s.pc t _) t running, h.stop)),
  (release_timer-keeps _).3,
)

-- The scheduler's choice of a thread, and what follows.
chosen_runs :
    (s : System) (t : ℕ)
    → Choosing s
    → s.sched ≡ choosing
    → s.timer ≢ inside
    → s.kernel.execute ≡ some t
    → s.pc t ≢ exited
    → (m : ℕ) → s.kernel.suspension_type t ≡ m
    → (u : System) × Reach s u × IsRun u t × (u.kernel.timer_slice ≡ s.kernel.time_slice t)
unfolding post_run select send
chosen_runs s t h e quiet x alive (suc m) mark =
    let (p, b, z) = marked_place s t h (λ n. omega (arith, mark, n)) in
    (
      _,
      later here (wake t e quiet x (λ n. omega (arith, mark, n))),
      (refl, refl, (p, at_update s.stopped t false)),
      refl,
    )
chosen_runs s t h e quiet x alive zero mark =
    let (place, held) = offer-Holds s t h mark in
    let waits : s.pc t ≡ parked = elim place [ inl p ↦ p | inr p ↦ absurd (alive p) ] in
    let (u, r, done, slice) =
      offered_runs (offers s t) t refl refl
        (subst (λ p. Holds (offers s t) t p false 1 0) waits held) in
    (
      u,
      Reach-trans (later here (offer t e quiet x mark)) r,
      done,
      slice ∙ (hold_timer-keeps (post_run t (select t s.kernel))).3,
    )

-- On the ThreadX port for POSIX hosts, in every state that is reached from the scheduler's first
-- choice by steps in any order, while no thread is created, reset or deleted, and in which the
-- scheduler chooses and no interrupt runs: if the kernel
-- wants a thread that has not ended, then whether the thread waits for its semaphore or was
-- preempted, there are steps that lead to a state in which it is the current thread, its pthread
-- runs, and the scheduler waits for the processor, with the thread's time slice.
pub wanted_thread_runs :
    (s : System) {u : System} (t : ℕ)
    → IsStart s
    → Reach s u
    → u.sched ≡ choosing
    → u.timer ≢ inside
    → u.kernel.execute ≡ some t
    → u.pc t ≢ exited
    → (w : System) × Reach u w × IsRun w t × (w.kernel.timer_slice ≡ u.kernel.time_slice t)
unfolding At
wanted_thread_runs s {u} t h r e quiet x alive =
    chosen_runs u t (subst (λ p. At p u) e (Reach-IsHandedOver (IsStart-IsHandedOver s h) r)) e
      quiet x alive (u.kernel.suspension_type t) refl
