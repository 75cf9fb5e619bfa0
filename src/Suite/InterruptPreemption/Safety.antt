-- ===== src/Suite/InterruptPreemption/Safety.antt =====
-- The counters of the interrupt preemption test in the states that it reaches.
use thread_metric_benchmark.Base.{
  ℕ, ◌+◌, ◌*◌, ◌/◌, ◌≤◌, ◌<◌, ◌≡◌, refl, ◌∙◌, Bool, true, false, arith, ulong_mod,
}
use mathlib.Core.Path.{subst}
use thread_metric_benchmark.Api.{Api}
use thread_metric_benchmark.Api.Laws.{ThreadLaws}
use thread_metric_benchmark.Suite.Rounds.{in_range}
use thread_metric_benchmark.Suite.InterruptPreemption.{
  Counters, interrupt_preemption_invalid, interrupt_preemption_total,
}
use thread_metric_benchmark.Suite.InterruptPreemption.System.{
  first, World, System, Trigger, tm_interrupt_preemption_handler, run_thread, RunsHandler, Step,
  work, wake, report, Reach, here, later,
}
use thread_metric_benchmark.Suite.InterruptPreemption.Phases.{
  Phase, interrupt, count_0, suspend_0, count_1, up, runner, counters_at, next_phase, next_round,
  Kernel, resumed, suspended, reporter_changes, runs, At,
}

-- Before the scheduler starts: no thread has run.
abbrev pub initial : {S : Type 0} → S → System S
initial s = record { p0 = first; p1 = first; world = (record { c0 = 0; c1 = 0; ch = 0 }, s) }

Counters-ordered :
    (r : ℕ) (f : Phase) (c : Counters)
    → c ≡ counters_at r f
    → c.c1 + 1 < ulong_mod
    → (c.c1 ≤ c.c0) × (c.c0 ≤ c.ch) × (c.ch ≤ c.c1 + 1)
Counters-ordered r interrupt c e h = ground arith
Counters-ordered r count_0 c e h = ground arith
Counters-ordered r suspend_0 c e h = ground arith
Counters-ordered r count_1 c e h = ground arith

average-close :
    (c : Counters)
    → 3 * c.c1 + 2 < ulong_mod
    → (c.c1 ≤ c.c0) × (c.c0 ≤ c.ch) × (c.ch ≤ c.c1 + 1)
    → (c.c1 ≤ interrupt_preemption_total c / 3) × (interrupt_preemption_total c / 3 ≤ c.c1 + 1)
unfolding interrupt_preemption_total
average-close c h l = omega arith

invalid-close :
    (c : Counters)
    → 3 * c.c1 + 2 < ulong_mod
    → (c.c1 ≤ c.c0) × (c.c0 ≤ c.ch) × (c.ch ≤ c.c1 + 1)
    → interrupt_preemption_invalid c ≡ false
invalid-close c h l =
    unfold interrupt_preemption_invalid in
    ground (
      arith,
      average-close c h l,
      in_range (interrupt_preemption_total c / 3) c.c0,
      in_range (interrupt_preemption_total c / 3) c.c1,
      in_range (interrupt_preemption_total c / 3) c.ch,
    )

module _ {Entry S : Type 0} {api : Api Entry S} (laws : ThreadLaws api) where
  initial-At : (s : S) → Kernel laws true false s → At laws 0 interrupt true (initial s)
  initial-At s v = record { at_0 = refl; at_1 = refl; counters = ground arith; kernel = v }

  module _ (cause : Trigger S) (runs_handler : RunsHandler laws cause) where
    handler_counts :
        (r : ℕ) (t : System S)
        → t.world.0 ≡ counters_at r interrupt
        → (tm_interrupt_preemption_handler api t.world).0 ≡ counters_at r count_0
    unfolding tm_interrupt_preemption_handler
    handler_counts r t e = ground (arith, e)

    interrupted :
        (on u : Bool) (w : World S)
        → Kernel laws on u w.1
        → Kernel laws on true (cause (tm_interrupt_preemption_handler api) w).1
    interrupted on u w v =
        let k : Kernel laws on true (tm_interrupt_preemption_handler api w).1 =
          unfold tm_interrupt_preemption_handler in (resumed laws on u w.1 v) in
        record {
          created_0 = runs_handler.same_created w 0 ∙ k.created_0;
          all_ready = λ j. runs_handler.same_ready w j ∙ k.all_ready j;
          priority_0 = runs_handler.same_priority w 0 ∙ k.priority_0;
          priority_1 = runs_handler.same_priority w 1 ∙ k.priority_1;
        }

    advance :
        (r : ℕ) (f : Phase) (on : Bool) (t : System S)
        → At laws r f on t
        → At laws (next_round r f) (next_phase f) on (run_thread api cause (runner f) t)
    unfolding run_thread
    advance r interrupt on t a = record {
      at_0 = ground (arith, a.at_0);
      at_1 = ground (arith, a.at_1);
      counters = rw a.at_1 (runs_handler.same_counters t.world ∙ handler_counts r t a.counters);
      kernel = rw a.at_1 (interrupted on false t.world a.kernel);
    }
    advance r count_0 on t a = record {
      at_0 = ground (arith, a.at_0);
      at_1 = ground (arith, a.at_1);
      counters = rw a.at_0 (ground (arith, a.counters));
      kernel = rw a.at_0 a.kernel;
    }
    advance r suspend_0 on t a = record {
      at_0 = ground (arith, a.at_0);
      at_1 = ground (arith, a.at_1);
      counters = rw a.at_0 a.counters;
      kernel = rw a.at_0 (suspended laws on true t.world.1 a.kernel);
    }
    advance r count_1 on t a = record {
      at_0 = ground (arith, a.at_0);
      at_1 = ground (arith, a.at_1);
      counters = rw a.at_1 (ground (arith, a.counters));
      kernel = rw a.at_1 a.kernel;
    }

    abbrev IsPhase : System S → Type 0
    IsPhase t = (r : ℕ) × (f : Phase) × (on : Bool) × At laws r f on t

    Step-IsPhase : {t u : System S} → Step laws cause t u → IsPhase t → IsPhase u
    Step-IsPhase {t} (work i c hi) (r, f, on, a) = (
      next_round r f,
      next_phase f,
      on,
      subst (λ j. At laws (next_round r f) (next_phase f) on (run_thread api cause j t))
          (runs laws on f i t.world.1 a.kernel c hi) (advance r f on t a),
    )
    Step-IsPhase {t} (wake s w) (r, f, on, a) = (
      r,
      f,
      true,
      record {
        at_0 = a.at_0;
        at_1 = a.at_1;
        counters = a.counters;
        kernel = reporter_changes laws on true (up f) t.world.1 s a.kernel w;
      },
    )
    Step-IsPhase {t} (report s c w) (r, f, on, a) = (
      r,
      f,
      false,
      record {
        at_0 = a.at_0;
        at_1 = a.at_1;
        counters = a.counters;
        kernel = reporter_changes laws on false (up f) t.world.1 s a.kernel w;
      },
    )

    Reach-IsPhase : {t u : System S} → IsPhase t → Reach laws cause t u → IsPhase u
    Reach-IsPhase h here = h
    Reach-IsPhase h (later r st) = Step-IsPhase st (Reach-IsPhase h r)

    -- On a layer that keeps the laws of threads and whose trigger runs the handler once, from a
    -- state in which thread 1 and the reporting thread are ready and thread 0 is not: in every
    -- state that the test reaches by single statements of the thread that the scheduler chooses,
    -- and by wakes and reports of the reporting thread, the counters of thread 1, of thread 0 and
    -- of the handler, in this order, do not fall, the last is at most one above the first, and the
    -- report's test finds no invalid counter, as long as 3 * c1 + 2 is below 2 ^ 64.
    pub interrupt_preemption_never_invalid :
        (s : S) {t : System S}
        → Kernel laws true false s
        → Reach laws cause (initial s) t
        → 3 * t.world.0.c1 + 2 < ulong_mod
        → (t.world.0.c1 ≤ t.world.0.c0)
          × (t.world.0.c0 ≤ t.world.0.ch)
          × (t.world.0.ch ≤ t.world.0.c1 + 1)
          × (interrupt_preemption_invalid t.world.0 ≡ false)
    interrupt_preemption_never_invalid s {t} v reach h =
        let (r, f, on, a) = Reach-IsPhase (0, interrupt, true, initial-At s v) reach in
        let (l0, l1, near) = Counters-ordered r f t.world.0 a.counters (omega arith) in
        (l0, l1, near, invalid-close t.world.0 h (l0, l1, near))
