-- ===== src/Port/ThreadX/Handover/Yields.antt =====
-- The steps by which a thread of ports/threadx/posix-host gives the processor back.
use mathlib.Core.Path.{subst}
use thread_metric_benchmark.Base.{
  ℕ, ◌+◌, ◌≡◌, refl, sym, ap, ◌∙◌, ◌≢◌, inl, inr, Bool, true, false, none, some, arith, ◌==◌,
  if◌then◌else◌, ==_iff, Bool-cases,
}
use thread_metric_benchmark.Port.ThreadX.Posix.Semaphore.{tx_posix_sem_post, drain_lem}
use thread_metric_benchmark.Port.ThreadX.Posix.Nesting.{
  Scheduler, update, keep_slice, post_scheduler, drain_scheduler, at_update, off_update,
}
use thread_metric_benchmark.Port.ThreadX.Posix.Return.{give_up}
use thread_metric_benchmark.Port.ThreadX.Handover.{
  SchedulerPc, choosing, handing, handed, ThreadPc, parked, running, yielding, drained, exited,
  System, Goes,
}
use thread_metric_benchmark.Port.ThreadX.Handover.Owner.{
  rests, IsResting, Holds, free, offered, taken, told, runs, halts, yields, drains, back, At,
  active, not-IsResting,
}
use thread_metric_benchmark.Port.ThreadX.Handover.Facts.{same_rests}
use thread_metric_benchmark.Port.ThreadX.Handover.Threads.{owner-place}

give_up-keeps :
    (t : ℕ) (v : Scheduler)
    → ((give_up t v).semaphore ≡ v.semaphore)
      × ((give_up t v).run_semaphore ≡ v.run_semaphore)
      × ((give_up t v).suspension_type ≡ update v.suspension_type t 0)
unfolding give_up keep_slice
give_up-keeps t v = ground arith

abbrev gives_up : System → ℕ → System
gives_up s t = record s {
  pc = update s.pc t (yielding (s.kernel.terminated t));
  current = none;
  kernel = give_up t s.kernel;
}

-- While the scheduler does not hold the mutex, a thread that runs is the current one.
pub running-current :
    (s : System) (p : SchedulerPc) (t : ℕ)
    → At p s
    → p ≢ handing
    → Goes s t running
    → (p ≡ handed) × (s.current ≡ some t) × Holds s t running false 0 0
unfolding At active
running-current s handing t h n g = absurd (n refl)
running-current s choosing t (free e sem all) n g =
    absurd (not-IsResting s t running g refl (all t))
running-current s handed t (back e sem all) n g = absurd (not-IsResting s t running g refl (all t))
running-current s handed t (yields u b e mark h) n g = absurd (cc (owner-place h g refl).1)
running-current s handed t (drains u b e mark h) n g = absurd (cc (owner-place h g refl).1)
running-current s handed t (halts u e quiet h) n g = absurd (cc (owner-place h g refl).2)
running-current s handed t (runs u e quiet h) n g =
    let same = (owner-place h g refl).0 in
    (refl, e ∙ ap some same, subst (λ u. Holds s u running false 0 0) same h)

pub yield-At :
    (s : System) (p : SchedulerPc) (t : ℕ)
    → At p s
    → p ≢ handing
    → Goes s t running
    → At p (gives_up s t)
unfolding At
yield-At s p t a n g =
    let (e, current, h) = running-current s p t a n g in
    let (q, r, m) = give_up-keeps t s.kernel in
    subst (λ p. At p (gives_up s t)) (sym e)
      (yields t (s.kernel.terminated t) refl ((λ i. m i t) ∙ at_update s.kernel.suspension_type t 0)
        (record {
          pc = at_update s.pc t (yielding (s.kernel.terminated t));
          stop = h.stop;
          run_lem = (λ i. r i t) ∙ h.run_lem;
          semaphore_lem = q ∙ h.semaphore_lem;
          others = λ i n.
              same_rests (off_update s.pc t i (yielding (s.kernel.terminated t)) n) refl
                (λ j. r j i) ((λ j. m j i) ∙ off_update s.kernel.suspension_type t i 0 n)
                (h.others i n);
        }))

abbrev empties : System → ℕ → Bool → System
empties s t b = record s { pc = update s.pc t (drained b); kernel = drain_scheduler s.kernel }

-- The scheduler waits, and its semaphore is down: draining it changes nothing for the others.
empty-Handed :
    (s : System) (t u : ℕ) (b b' : Bool)
    → s.current ≡ none
    → s.kernel.suspension_type u ≡ 0
    → Holds s u (yielding b') false 0 0
    → Goes s t (yielding b)
    → At handed (empties s t b)
unfolding At active drain_scheduler
empty-Handed s t u b b' e mark h g =
    let same = (owner-place h g refl).0 in
    drains t b e (ap s.kernel.suspension_type (sym same) ∙ mark) (record {
      pc = at_update s.pc t (drained b);
      stop = g.1;
      run_lem = ap s.kernel.run_semaphore (sym same) ∙ h.run_lem;
      semaphore_lem = drain_lem s.kernel.semaphore s.kernel.semaphore (omega arith);
      others = λ i n.
          same_rests (off_update s.pc t i (drained b) n) refl refl refl
            (h.others i (ap (λ m. m == i) same ∙ n));
    })

-- The drain is outside the mutex; yet while the scheduler holds it, no thread is there.
pub empty-At :
    (s : System) (p : SchedulerPc) (t : ℕ) (b : Bool)
    → At p s
    → Goes s t (yielding b)
    → At p (empties s t b)
unfolding At active
empty-At s choosing t b (free e sem all) g = absurd (not-IsResting s t (yielding b) g refl (all t))
empty-At s handing t b (offered u p e q (inl a) h) g = absurd (cc (a, (owner-place h g refl).1))
empty-At s handing t b (offered u p e q (inr a) h) g = absurd (cc (a, (owner-place h g refl).1))
empty-At s handing t b (taken u e q h) g = absurd (cc (owner-place h g refl).1)
empty-At s handing t b (told u e q h) g = absurd (cc (owner-place h g refl).1)
empty-At s handed t b (back e sem all) g = absurd (not-IsResting s t (yielding b) g refl (all t))
empty-At s handed t b (runs u e quiet h) g = absurd (cc (owner-place h g refl).1)
empty-At s handed t b (halts u e quiet h) g = absurd (cc (owner-place h g refl).1)
empty-At s handed t b (drains u c e mark h) g = absurd (cc (owner-place h g refl).1)
empty-At s handed t b (yields u c e mark h) g = empty-Handed s t u b c e mark h g

abbrev notifies : System → ℕ → Bool → System
notifies s t b = record s {
  pc = update s.pc t (if b then exited else parked);
  kernel = post_scheduler s.kernel;
}

-- The thread waits for its semaphore, or has ended: it rests either way.
ended_rests :
    (b : Bool) (p : ThreadPc) (stopped : Bool) (run mark : ℕ)
    → p ≡ (if b then exited else parked)
    → stopped ≡ false
    → run ≡ 0
    → mark ≡ 0
    → rests p stopped run mark ≡ true
unfolding rests
ended_rests true p stopped run mark e f g h = rw (e, f, g, h)
ended_rests false p stopped run mark e f g h = rw (e, f, g, h)

notified_rests :
    (s : System) (t : ℕ) (b : Bool) (p : ThreadPc)
    → s.kernel.suspension_type t ≡ 0
    → Holds s t p false 0 0
    → (i : ℕ) → IsResting (notifies s t b) i
unfolding post_scheduler
notified_rests s t b p mark h i = elim (Bool-cases (t == i)) [
  | inl same ↦ subst (IsResting (notifies s t b)) ((==_iff t i).0 same) (
      ended_rests b _ (s.stopped t) (s.kernel.run_semaphore t) (s.kernel.suspension_type t)
        (at_update s.pc t _) h.stop h.run_lem mark)
  | inr other ↦ same_rests (off_update s.pc t i _ other) refl refl refl (h.others i other)
]

posted : (v : Scheduler) → v.semaphore ≡ 0 → (post_scheduler v).semaphore ≡ 1
unfolding post_scheduler tx_posix_sem_post
posted v e = ap (λ n. n + 1) e

pub notify-At :
    (s : System) (p : SchedulerPc) (t : ℕ) (b : Bool)
    → At p s
    → p ≢ handing
    → Goes s t (drained b)
    → At p (notifies s t b)
unfolding At active
notify-At s handing t b h n g = absurd (n refl)
notify-At s choosing t b (free e sem all) n g =
    absurd (not-IsResting s t (drained b) g refl (all t))
notify-At s handed t b (back e sem all) n g = absurd (not-IsResting s t (drained b) g refl (all t))
notify-At s handed t b (runs u e quiet h) n g = absurd (cc (owner-place h g refl).1)
notify-At s handed t b (halts u e quiet h) n g = absurd (cc (owner-place h g refl).1)
notify-At s handed t b (yields u c e mark h) n g = absurd (cc (owner-place h g refl).1)
notify-At s handed t b (drains u c e mark h) n g =
    let same = (owner-place h g refl).0 in
    back e (posted s.kernel h.semaphore_lem) (
      notified_rests s t b (drained c) (ap s.kernel.suspension_type (sym same) ∙ mark)
        (subst (λ u. Holds s u (drained c) false 0 0) same h))
