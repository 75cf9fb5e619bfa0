-- ===== src/Port/ThreadX/Handover/Interrupts.antt =====
-- The steps of the timer's interrupt in ports/threadx/posix-host, and the kernel's own work.
use mathlib.Core.Path.{subst}
use thread_metric_benchmark.Base.{ℕ, ◌≡◌, refl, sym, ◌≢◌, Bool, true, false, Option, none, some}
use thread_metric_benchmark.Port.ThreadX.Posix.Nesting.{
  resume, update, send, suspend_current, at_update, off_update,
}
use thread_metric_benchmark.Port.ThreadX.Handover.{
  SchedulerPc, choosing, handing, handed, TimerPc, outside, inside, ThreadPc, running, System, stop,
}
use thread_metric_benchmark.Port.ThreadX.Handover.Owner.{
  Holds, free, Handed, runs, halts, yields, drains, back, At,
}
use thread_metric_benchmark.Port.ThreadX.Handover.Facts.{same_rests}

abbrev saves : System → Option ℕ → System
saves s c = record s {
  timer = inside;
  stopped = stop c s.stopped;
  kernel = suspend_current c 0 s.kernel;
}

halted :
    (s : System) (t : ℕ)
    → s.current ≡ some t
    → Holds s t running false 0 0
    → Handed (saves s (some t))
unfolding suspend_current send
halted s t e h = halts t e refl (record {
  pc = h.pc;
  stop = at_update s.stopped t true;
  run_lem = h.run_lem;
  semaphore_lem = h.semaphore_lem;
  others = λ i n.
      same_rests refl (off_update s.stopped t i true n) refl
        (off_update s.kernel.suspension_type t i 1 n) (h.others i n);
})

pub save-At :
    (s : System) (p : SchedulerPc)
    → At p s
    → s.timer ≡ outside
    → p ≢ handing
    → At p (saves s s.current)
unfolding At suspend_current
save-At s handing a o n = absurd (n refl)
save-At s choosing (free e sem all) o n =
    subst (λ c. At choosing (saves s c)) (sym e) (free e sem all)
save-At s handed (back e sem all) o n = subst (λ c. At handed (saves s c)) (sym e) (back e sem all)
save-At s handed (yields t b e mark h) o n =
    subst (λ c. At handed (saves s c)) (sym e)
      (yields t b e mark (record {
        pc = h.pc;
        stop = h.stop;
        run_lem = h.run_lem;
        semaphore_lem = h.semaphore_lem;
        others = h.others;
      }))
save-At s handed (drains t b e mark h) o n =
    subst (λ c. At handed (saves s c)) (sym e)
      (drains t b e mark (record {
        pc = h.pc;
        stop = h.stop;
        run_lem = h.run_lem;
        semaphore_lem = h.semaphore_lem;
        others = h.others;
      }))
save-At s handed (halts t e quiet h) o n = absurd (cc (quiet, o))
save-At s handed (runs t e quiet h) o n =
    subst (λ c. At handed (saves s c)) (sym e) (halted s t e h)

-- What the threads' part is does not depend on the timer.
pub same-Holds :
    {s : System} {t run semaphore : ℕ} {p : ThreadPc} {stopped : Bool} (next : TimerPc)
    → Holds s t p stopped run semaphore
    → Holds (record s { timer = next }) t p stopped run semaphore
same-Holds next h = record {
  pc = h.pc;
  stop = h.stop;
  run_lem = h.run_lem;
  semaphore_lem = h.semaphore_lem;
  others = h.others;
}

pub restore_idle-At :
    (s : System) (p : SchedulerPc)
    → At p s
    → p ≢ handing
    → s.current ≡ none
    → At p (record s { timer = outside })
unfolding At
restore_idle-At s handing a n c = absurd (n refl)
restore_idle-At s choosing (free e sem all) n c = free e sem all
restore_idle-At s handed (back e sem all) n c = back e sem all
restore_idle-At s handed (yields t b e mark h) n c = yields t b e mark (same-Holds outside h)
restore_idle-At s handed (drains t b e mark h) n c = drains t b e mark (same-Holds outside h)
restore_idle-At s handed (halts t e quiet h) n c = absurd (cc (e, c))
restore_idle-At s handed (runs t e quiet h) n c = absurd (cc (e, c))

-- Inside an interrupt that finds a thread, that thread has the processor and is stopped.
pub inside-halts :
    (s : System) (p : SchedulerPc) (t : ℕ)
    → At p s
    → s.timer ≡ inside
    → p ≢ handing
    → s.current ≡ some t
    → (p ≡ handed) × Holds s t running true 0 0
unfolding At
inside-halts s handing t a i n c = absurd (n refl)
inside-halts s choosing t (free e sem all) i n c = absurd (cc (e, c))
inside-halts s handed t (back e sem all) i n c = absurd (cc (e, c))
inside-halts s handed t (yields u b e mark h) i n c = absurd (cc (e, c))
inside-halts s handed t (drains u b e mark h) i n c = absurd (cc (e, c))
inside-halts s handed t (runs u e quiet h) i n c = absurd (quiet i)
inside-halts s handed t (halts u e quiet h) i n c =
    (refl, subst (λ u. Holds s u running true 0 0) (cc (e, c)) h)

pub outside-quiet : outside ≢ inside
outside-quiet e = cc e

abbrev resumes : System → ℕ → System
resumes s t = record s {
  timer = outside;
  stopped = update s.stopped t false;
  kernel = send (resume t) s.kernel;
}

pub restore_same-At :
    (s : System) (p : SchedulerPc) (t : ℕ)
    → At p s
    → s.timer ≡ inside
    → p ≢ handing
    → s.current ≡ some t
    → At p (resumes s t)
unfolding At send
restore_same-At s p t a i n c =
    let (e, h) = inside-halts s p t a i n c in
    subst (λ p. At p (resumes s t)) (sym e)
      (runs t c outside-quiet (record {
        pc = h.pc;
        stop = at_update s.stopped t false;
        run_lem = h.run_lem;
        semaphore_lem = h.semaphore_lem;
        others = λ i n. same_rests refl (off_update s.stopped t i false n) refl refl (h.others i n);
      }))
