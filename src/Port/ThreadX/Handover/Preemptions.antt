-- ===== src/Port/ThreadX/Handover/Preemptions.antt =====
-- How an interrupt of ports/threadx/posix-host that preempts ends, and the kernel's own work.
use mathlib.Core.Path.{subst}
use thread_metric_benchmark.Base.{
  ℕ, ◌+◌, ◌≡◌, refl, sym, ap, ◌∙◌, ◌≢◌, ◌⊎◌, inl, inr, Bool, true, none, some, arith, ◌==◌,
  if◌then◌else◌, ==_iff, Bool-cases,
}
use thread_metric_benchmark.Port.ThreadX.Posix.Semaphore.{tx_posix_sem_post, drain_lem}
use thread_metric_benchmark.Port.ThreadX.Posix.Nesting.{
  Scheduler, update, keep_slice, post_scheduler, drain_scheduler, preempt_thread, waits_for,
  at_update, off_update,
}
use thread_metric_benchmark.Port.ThreadX.Handover.{
  SchedulerPc, choosing, handing, handed, TimerPc, outside, inside, held, ThreadPc, running, System,
}
use thread_metric_benchmark.Port.ThreadX.Handover.Owner.{
  rests, IsResting, Holds, free, runs, halts, yields, drains, back, At,
}
use thread_metric_benchmark.Port.ThreadX.Handover.Facts.{same_rests}
use thread_metric_benchmark.Port.ThreadX.Handover.Interrupts.{inside-halts, outside-quiet}

abbrev told : System → ℕ → Scheduler
told s t = post_scheduler (preempt_thread t s.kernel)

abbrev ended : Scheduler → Scheduler
ended w = if waits_for w then w else record w { timer_waiting = 0 }

abbrev preempts : System → ℕ → System
preempts s t = record s {
  timer = if waits_for (told s t) then held else outside;
  current = none;
  kernel = ended (told s t);
}

ended-keeps :
    (w : Scheduler)
    → ((ended w).semaphore ≡ w.semaphore)
      × ((ended w).run_semaphore ≡ w.run_semaphore)
      × ((ended w).suspension_type ≡ w.suspension_type)
ended-keeps w = elim (Bool-cases (waits_for w)) [
  | inl e ↦ rw e (refl, refl, refl)
  | inr e ↦ rw e (refl, refl, refl)
]

drained_posted : (v : Scheduler) → (post_scheduler (drain_scheduler v)).semaphore ≡ 1
unfolding post_scheduler drain_scheduler tx_posix_sem_post
drained_posted v = ap (λ n. n + 1) (drain_lem v.semaphore v.semaphore (omega arith))

told-keeps :
    (s : System) (t : ℕ)
    → ((told s t).semaphore ≡ 1)
      × ((told s t).run_semaphore ≡ s.kernel.run_semaphore)
      × ((told s t).suspension_type ≡ update s.kernel.suspension_type t 1)
unfolding preempt_thread post_scheduler drain_scheduler keep_slice
told-keeps s t = (
  drained_posted
      (keep_slice t (record (s.kernel) { suspension_type = update s.kernel.suspension_type t 1 })),
  ground arith,
  ground arith,
)

-- The preempted thread rests: it is stopped, and marked so.
preempted_rests :
    (p : ThreadPc) (stopped : Bool) (run mark : ℕ)
    → p ≡ running
    → stopped ≡ true
    → run ≡ 0
    → mark ≡ 1
    → rests p stopped run mark ≡ true
unfolding rests
preempted_rests p stopped run mark e f g h = rw (e, f, g, h)

all_rest : (s : System) (t : ℕ) → Holds s t running true 0 0 → (i : ℕ) → IsResting (preempts s t) i
all_rest s t h i =
    let (q, r, m) = ended-keeps (told s t) in
    let (q', r', m') = told-keeps s t in
    elim (Bool-cases (t == i)) [
      | inl same ↦ subst (IsResting (preempts s t)) ((==_iff t i).0 same) (
          preempted_rests (s.pc t) (s.stopped t) _ _ h.pc h.stop ((λ j. (r ∙ r') j t) ∙ h.run_lem)
            ((λ j. (m ∙ m') j t) ∙ at_update s.kernel.suspension_type t 1))
      | inr other ↦
          same_rests refl refl (λ j. (r ∙ r') j i)
            ((λ j. (m ∙ m') j i) ∙ off_update s.kernel.suspension_type t i 1 other)
            (h.others i other)
    ]

pub restore_other-At :
    (s : System) (p : SchedulerPc) (t : ℕ)
    → At p s
    → s.timer ≡ inside
    → p ≢ handing
    → s.current ≡ some t
    → At p (preempts s t)
unfolding At
restore_other-At s p t a i n c =
    let (e, h) = inside-halts s p t a i n c in
    subst (λ p. At p (preempts s t)) (sym e)
      (back refl ((ended-keeps (told s t)).0 ∙ (told-keeps s t).0) (all_rest s t h))

-- What is left alone, if the kernel keeps what the hand-over goes by and the timer is outside or
-- where it was.
kept-Holds :
    {s : System} {t run semaphore : ℕ} {p : ThreadPc} {stopped : Bool} (next : TimerPc)
    (w : Scheduler)
    → w.semaphore ≡ s.kernel.semaphore
    → w.run_semaphore ≡ s.kernel.run_semaphore
    → w.suspension_type ≡ s.kernel.suspension_type
    → Holds s t p stopped run semaphore
    → Holds (record s { timer = next; kernel = w }) t p stopped run semaphore
kept-Holds {t} next w q r m h = record {
  pc = h.pc;
  stop = h.stop;
  run_lem = (λ j. r j t) ∙ h.run_lem;
  semaphore_lem = q ∙ h.semaphore_lem;
  others = λ i n. same_rests refl refl (λ j. r j i) (λ j. m j i) (h.others i n);
}

pub kept-At :
    (s : System) (p : SchedulerPc) (next : TimerPc) (w : Scheduler)
    → At p s
    → p ≢ handing
    → (next ≡ s.timer) ⊎ ((next ≡ outside) × (s.timer ≢ inside))
    → w.semaphore ≡ s.kernel.semaphore
    → w.run_semaphore ≡ s.kernel.run_semaphore
    → w.suspension_type ≡ s.kernel.suspension_type
    → At p (record s { timer = next; kernel = w })
unfolding At
kept-At s handing next w a n o q r m = absurd (n refl)
kept-At s choosing next w (free e sem all) n o q r m =
    free e (q ∙ sem) (λ i. same_rests refl refl (λ j. r j i) (λ j. m j i) (all i))
kept-At s handed next w (back e sem all) n o q r m =
    back e (q ∙ sem) (λ i. same_rests refl refl (λ j. r j i) (λ j. m j i) (all i))
kept-At s handed next w (yields t b e mark h) n o q r m =
    yields t b e ((λ j. m j t) ∙ mark) (kept-Holds next w q r m h)
kept-At s handed next w (drains t b e mark h) n o q r m =
    drains t b e ((λ j. m j t) ∙ mark) (kept-Holds next w q r m h)
kept-At s handed next w (halts t e i h) n (inl o) q r m =
    halts t e (o ∙ i) (kept-Holds next w q r m h)
kept-At s handed next w (halts t e i h) n (inr o) q r m = absurd (o.1 i)
kept-At s handed next w (runs t e quiet h) n (inl o) q r m =
    runs t e (λ i. quiet (sym o ∙ i)) (kept-Holds next w q r m h)
kept-At s handed next w (runs t e quiet h) n (inr o) q r m =
    runs t e (λ i. outside-quiet (sym o.0 ∙ i)) (kept-Holds next w q r m h)
