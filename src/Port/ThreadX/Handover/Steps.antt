-- ===== src/Port/ThreadX/Handover/Steps.antt =====
-- The scheduler's steps of the hand-over in ports/threadx/posix-host.
use mathlib.Core.Path.{subst}
use thread_metric_benchmark.Base.{ℕ, ◌+◌, ◌≡◌, refl, ap, ◌∙◌, ◌≢◌, ◌⊎◌, true, false, some, arith}
use thread_metric_benchmark.Port.ThreadX.Posix.Semaphore.{
  tx_posix_sem_post, tx_posix_sem_wait, drain_lem,
}
use thread_metric_benchmark.Port.ThreadX.Posix.Nesting.{resume, update, send, at_update, off_update}
use thread_metric_benchmark.Port.ThreadX.Posix.Schedule.{
  select, post_run, hold_timer, release_timer, hold_timer-keeps, release_timer-keeps,
}
use thread_metric_benchmark.Port.ThreadX.Handover.{
  choosing, handing, handed, inside, parked, running, exited, System,
}
use thread_metric_benchmark.Port.ThreadX.Handover.Owner.{
  rests, Holds, Choosing, free, Handing, offered, taken, told, Handed, runs, halts, yields, drains,
  back,
}
use thread_metric_benchmark.Port.ThreadX.Handover.Facts.{wait_some, unmarked, marked, same_rests}

-- The scheduler offers the processor to the thread, with the mutex.
abbrev pub offers : System → ℕ → System
offers s t = record s {
  sched = handing;
  current = some t;
  kernel = hold_timer (post_run t (select t s.kernel));
}

-- A thread that the scheduler may choose, and that is not marked.
pub offer-Holds :
    (s : System) (t : ℕ)
    → Choosing s
    → s.kernel.suspension_type t ≡ 0
    → ((s.pc t ≡ parked) ⊎ (s.pc t ≡ exited)) × Holds (offers s t) t (s.pc t) false 1 0
unfolding post_run select tx_posix_sem_post
offer-Holds s t (free none_runs sem all) mark =
    let (e, r, m, slice) = hold_timer-keeps (post_run t (select t s.kernel)) in
    let (p, b, z) = unmarked (s.pc t) (s.stopped t) (s.kernel.run_semaphore t) (
      subst (λ n. rests (s.pc t) (s.stopped t) (s.kernel.run_semaphore t) n ≡ true) mark (all t)) in
    (
      p,
      record {
        pc = refl;
        stop = b;
        run_lem =
            (λ i. r i t)
            ∙ at_update s.kernel.run_semaphore t _
            ∙ ap (λ n. n + 1)
                (drain_lem (s.kernel.run_semaphore t) (s.kernel.run_semaphore t) (omega arith));
        semaphore_lem = e ∙ sem;
        others = λ i h.
            same_rests refl refl ((λ j. r j i) ∙ off_update s.kernel.run_semaphore t i _ h)
              (λ j. m j i) (all i);
      },
    )

pub offer-Handing :
    (s : System) (t : ℕ)
    → Choosing s
    → s.timer ≢ inside
    → s.kernel.suspension_type t ≡ 0
    → Handing (offers s t)
offer-Handing s t h quiet mark =
    let (p, held) = offer-Holds s t h mark in offered t (s.pc t) refl quiet p held

-- A thread that the scheduler may choose, and that is marked.
pub marked_place :
    (s : System) (t : ℕ)
    → Choosing s
    → s.kernel.suspension_type t ≢ 0
    → (s.pc t ≡ running) × (s.stopped t ≡ true) × (s.kernel.run_semaphore t ≡ 0)
marked_place s t (free none_runs sem all) mark =
    marked (s.pc t) (s.stopped t) (s.kernel.run_semaphore t) (s.kernel.suspension_type t) mark
      (all t)

pub wake-Handed :
    (s : System) (t : ℕ)
    → Choosing s
    → s.timer ≢ inside
    → s.kernel.suspension_type t ≢ 0
    → Handed (record s {
      sched = handed;
      current = some t;
      stopped = update s.stopped t false;
      kernel = send (resume t) (select t s.kernel);
    })
unfolding send select
wake-Handed s t (free none_runs sem all) quiet mark =
    let (p, b, z) = marked_place s t (free none_runs sem all) mark in
    runs t refl quiet (record {
      pc = p;
      stop = at_update s.stopped t false;
      run_lem = z;
      semaphore_lem = sem;
      others = λ i h. same_rests refl (off_update s.stopped t i false h) refl refl (all i);
    })

some_taken : (n count : ℕ) → n ≡ 0 → tx_posix_sem_wait n ≢ some count
some_taken n count z e = grind (arith, wait_some n count e)

last_taken : (n count : ℕ) → n ≡ 1 → tx_posix_sem_wait n ≡ some count → count ≡ 0
last_taken n count o e = grind (arith, wait_some n count e)

pub hand_over-Handed :
    (s : System) (count : ℕ)
    → Handing s
    → tx_posix_sem_wait s.kernel.semaphore ≡ some count
    → Handed (record s {
      sched = handed;
      kernel = release_timer (record (s.kernel) { semaphore = count });
    })
hand_over-Handed s count (offered t p e quiet a h) w =
    absurd (some_taken s.kernel.semaphore count h.semaphore_lem w)
hand_over-Handed s count (taken t e quiet h) w =
    absurd (some_taken s.kernel.semaphore count h.semaphore_lem w)
hand_over-Handed s count (told t e quiet h) w =
    let (q, r, m, slice) = release_timer-keeps (record (s.kernel) { semaphore = count }) in
    runs t e quiet (record {
      pc = h.pc;
      stop = h.stop;
      run_lem = (λ i. r i t) ∙ h.run_lem;
      semaphore_lem = q ∙ last_taken s.kernel.semaphore count h.semaphore_lem w;
      others = λ i n. same_rests refl refl (λ j. r j i) (λ j. m j i) (h.others i n);
    })

pub come_back-Choosing :
    (s : System) (count : ℕ)
    → Handed s
    → tx_posix_sem_wait s.kernel.semaphore ≡ some count
    → Choosing (record s { sched = choosing; kernel = record (s.kernel) { semaphore = count } })
come_back-Choosing s count (back e sem all) w =
    free e (last_taken s.kernel.semaphore count sem w) all
come_back-Choosing s count (runs t e quiet h) w =
    absurd (some_taken s.kernel.semaphore count h.semaphore_lem w)
come_back-Choosing s count (halts t e quiet h) w =
    absurd (some_taken s.kernel.semaphore count h.semaphore_lem w)
come_back-Choosing s count (yields t b e mark h) w =
    absurd (some_taken s.kernel.semaphore count h.semaphore_lem w)
come_back-Choosing s count (drains t b e mark h) w =
    absurd (some_taken s.kernel.semaphore count h.semaphore_lem w)
