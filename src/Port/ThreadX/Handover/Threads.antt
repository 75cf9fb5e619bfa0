-- ===== src/Port/ThreadX/Handover/Threads.antt =====
-- The threads' steps of the hand-over in ports/threadx/posix-host.
use thread_metric_benchmark.Base.{
  ℕ, ◌+◌, ◌≡◌, refl, sym, ap, ◌∙◌, ◌≢◌, inl, inr, Bool, true, false, some, arith, ◌==◌, ==_iff,
  Bool-cases,
}
use thread_metric_benchmark.Port.ThreadX.Posix.Semaphore.{tx_posix_sem_post, tx_posix_sem_wait}
use thread_metric_benchmark.Port.ThreadX.Posix.Nesting.{
  update, post_scheduler, at_update, off_update,
}
use thread_metric_benchmark.Port.ThreadX.Handover.{
  SchedulerPc, choosing, handing, handed, ThreadPc, parked, woken, running, System, Goes,
}
use thread_metric_benchmark.Port.ThreadX.Handover.Owner.{
  IsResting, Holds, Choosing, free, Handing, offered, taken, told, Handed, runs, halts, yields,
  drains, back, At, active, not-IsResting, active-owner,
}
use thread_metric_benchmark.Port.ThreadX.Handover.Facts.{wait_some, resting_run, same_rests}

-- A thread whose semaphore is up does not rest.
not_up :
    (s : System) (i count : ℕ)
    → tx_posix_sem_wait (s.kernel.run_semaphore i) ≡ some count
    → ¬ IsResting s i
not_up s i count w r = omega (
  arith,
  wait_some (s.kernel.run_semaphore i) count w,
  resting_run (s.pc i) (s.stopped i) (s.kernel.run_semaphore i) (s.kernel.suspension_type i) r,
)

-- Only the thread that has the processor can have its semaphore up.
up-owner :
    (s : System) (t u count : ℕ)
    → ((i : ℕ) → (t == i) ≡ false → IsResting s i)
    → tx_posix_sem_wait (s.kernel.run_semaphore u) ≡ some count
    → t ≡ u
up-owner s t u count others w = elim (Bool-cases (t == u)) [
  | inl same ↦ (==_iff t u).0 same
  | inr other ↦ absurd (not_up s u count w (others u other))
]

not_up_zero :
    (s : System) (t u count : ℕ)
    → t ≡ u
    → s.kernel.run_semaphore t ≡ 0
    → tx_posix_sem_wait (s.kernel.run_semaphore u) ≢ some count
not_up_zero s t u count same z w =
    omega (arith, wait_some (s.kernel.run_semaphore u) count w, ap s.kernel.run_semaphore same)

abbrev takes : System → (t count : ℕ) → System
takes s t count = record s {
  pc = update s.pc t woken;
  kernel = record (s.kernel) { run_semaphore = update s.kernel.run_semaphore t count };
}

take-Handing :
    (s : System) (t count : ℕ)
    → Handing s
    → Goes s t parked
    → tx_posix_sem_wait (s.kernel.run_semaphore t) ≡ some count
    → Handing (takes s t count)
take-Handing s t count (taken u e quiet h) g w =
    absurd (not_up_zero s u t count (up-owner s u t count h.others w) h.run_lem w)
take-Handing s t count (told u e quiet h) g w =
    absurd (not_up_zero s u t count (up-owner s u t count h.others w) h.run_lem w)
take-Handing s t count (offered u p e quiet a h) g w =
    let same = up-owner s u t count h.others w in
    taken t (e ∙ ap some same) quiet (record {
      pc = at_update s.pc t woken;
      stop = g.1;
      run_lem =
          at_update s.kernel.run_semaphore t count
          ∙ omega (
            arith,
            wait_some (s.kernel.run_semaphore t) count w,
            ap s.kernel.run_semaphore same,
            h.run_lem,
          );
      semaphore_lem = h.semaphore_lem;
      others = λ i n.
          same_rests (off_update s.pc t i woken n) refl
            (off_update s.kernel.run_semaphore t i count n) refl
            (h.others i (ap (λ m. m == i) same ∙ n));
    })

take-Choosing :
    (s : System) (t count : ℕ)
    → Choosing s
    → tx_posix_sem_wait (s.kernel.run_semaphore t) ≢ some count
take-Choosing s t count (free e sem all) w = not_up s t count w (all t)

take-Handed :
    (s : System) (t count : ℕ)
    → Handed s
    → tx_posix_sem_wait (s.kernel.run_semaphore t) ≢ some count
take-Handed s t count (runs u e quiet h) w =
    not_up_zero s u t count (up-owner s u t count h.others w) h.run_lem w
take-Handed s t count (halts u e quiet h) w =
    not_up_zero s u t count (up-owner s u t count h.others w) h.run_lem w
take-Handed s t count (yields u b e mark h) w =
    not_up_zero s u t count (up-owner s u t count h.others w) h.run_lem w
take-Handed s t count (drains u b e mark h) w =
    not_up_zero s u t count (up-owner s u t count h.others w) h.run_lem w
take-Handed s t count (back e sem all) w = not_up s t count w (all t)

pub take-At :
    (s : System) (p : SchedulerPc) (t count : ℕ)
    → At p s
    → Goes s t parked
    → tx_posix_sem_wait (s.kernel.run_semaphore t) ≡ some count
    → At p (takes s t count)
unfolding At
take-At s choosing t count h g w = absurd (take-Choosing s t count h w)
take-At s handing t count h g w = take-Handing s t count h g w
take-At s handed t count h g w = absurd (take-Handed s t count h w)

-- A thread that goes behind its semaphore is where the owner is.
pub owner-place :
    {s : System} {t u run semaphore : ℕ} {p q : ThreadPc} {stopped : Bool}
    → Holds s t p stopped run semaphore
    → Goes s u q
    → active q ≡ true
    → (t ≡ u) × (p ≡ q) × (stopped ≡ false)
owner-place {s} {t} {u} {p} {q} h g a =
    let same = active-owner s t u q h.others g a in
    (same, sym h.pc ∙ ap s.pc same ∙ g.0, sym h.stop ∙ ap s.stopped same ∙ g.1)

abbrev tells : System → ℕ → System
tells s t = record s { pc = update s.pc t running; kernel = post_scheduler s.kernel }

tell-Handing : (s : System) (t : ℕ) → Handing s → Goes s t woken → Handing (tells s t)
unfolding active post_scheduler tx_posix_sem_post
tell-Handing s t (offered u p e quiet (inl a) h) g = absurd (cc (a, (owner-place h g refl).1))
tell-Handing s t (offered u p e quiet (inr a) h) g = absurd (cc (a, (owner-place h g refl).1))
tell-Handing s t (told u e quiet h) g = absurd (cc (owner-place h g refl).1)
tell-Handing s t (taken u e quiet h) g =
    let same = (owner-place h g refl).0 in
    told t (e ∙ ap some same) quiet (record {
      pc = at_update s.pc t running;
      stop = g.1;
      run_lem = ap s.kernel.run_semaphore (sym same) ∙ h.run_lem;
      semaphore_lem = ap (λ n. n + 1) h.semaphore_lem;
      others = λ i n.
          same_rests (off_update s.pc t i running n) refl refl refl
            (h.others i (ap (λ m. m == i) same ∙ n));
    })

tell-Handed : (s : System) (t : ℕ) → Handed s → ¬ Goes s t woken
unfolding active
tell-Handed s t (runs u e quiet h) g = cc (owner-place h g refl).1
tell-Handed s t (halts u e quiet h) g = cc (owner-place h g refl).1
tell-Handed s t (yields u b e mark h) g = cc (owner-place h g refl).1
tell-Handed s t (drains u b e mark h) g = cc (owner-place h g refl).1
tell-Handed s t (back e sem all) g = not-IsResting s t woken g refl (all t)

pub tell-At : (s : System) (p : SchedulerPc) (t : ℕ) → At p s → Goes s t woken → At p (tells s t)
unfolding At active
tell-At s choosing t (free e sem all) g = absurd (not-IsResting s t woken g refl (all t))
tell-At s handing t h g = tell-Handing s t h g
tell-At s handed t h g = absurd (tell-Handed s t h g)
