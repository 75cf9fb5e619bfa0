-- ===== src/Suite/Preemptive/Safety.antt =====
-- The counters of the preemptive test in the states that it reaches.
use thread_metric_benchmark.Base.{
  ℕ, ◌+◌, ◌*◌, ◌/◌, ◌≤◌, ◌<◌, ◌≡◌, sym, Bool, true, false, arith, ulong_mod,
}
use mathlib.Core.Path.{subst}
use thread_metric_benchmark.Api.{Api}
use thread_metric_benchmark.Api.Laws.{ThreadLaws}
use thread_metric_benchmark.Suite.Rounds.{in_range}
use thread_metric_benchmark.Suite.Preemptive.{Counters, preemptive_invalid, preemptive_total}
use thread_metric_benchmark.Suite.Preemptive.System.{
  Pc, top, resumed, counted, Pcs, System, run_thread, Step, work, wake, report, Reach, here, later,
}
use thread_metric_benchmark.Suite.Preemptive.Turns.{
  Stands, Memory, Kernel, reporter_changes, runs_highest,
}
use thread_metric_benchmark.Suite.Preemptive.Advance.{Place, next, At, advance}

pub Stands-le : (k : ℕ) (p : Pc) → Stands k p → k ≤ 4
Stands-le k top h = h
Stands-le k resumed h = omega arith
Stands-le k counted h = h.1

-- Before the scheduler starts: no thread has run, thread 0 and the reporting thread are ready.
abbrev pub initial : {S : Type 0} → S → System S
initial s = record {
  pcs = record { p0 = top; p1 = top; p2 = top; p3 = top; p4 = top };
  counters = record { c0 = 0; c1 = 0; c2 = 0; c3 = 0; c4 = 0 };
  rtos = s;
}

Memory-ordered :
    (r k : ℕ) (p : Pc) (pcs : Pcs) (c : Counters)
    → Stands k p
    → Memory r k p pcs c
    → c.c0 + 1 < ulong_mod
    → (c.c0 ≤ c.c1) × (c.c1 ≤ c.c2) × (c.c2 ≤ c.c3) × (c.c3 ≤ c.c4) × (c.c4 ≤ c.c0 + 1)
Memory-ordered r k top pcs c st m h = ground arith
Memory-ordered r k resumed pcs c st m h = ground arith
Memory-ordered r k counted pcs c st m h = ground arith

average-close :
    (c : Counters)
    → 5 * c.c0 + 4 < ulong_mod
    → (c.c0 ≤ c.c1) × (c.c1 ≤ c.c0 + 1)
    → (c.c0 ≤ c.c2) × (c.c2 ≤ c.c0 + 1)
    → (c.c0 ≤ c.c3) × (c.c3 ≤ c.c0 + 1)
    → (c.c0 ≤ c.c4) × (c.c4 ≤ c.c0 + 1)
    → (c.c0 ≤ preemptive_total c / 5) × (preemptive_total c / 5 ≤ c.c0 + 1)
unfolding preemptive_total
average-close c h h1 h2 h3 h4 = omega arith

preemptive_invalid-close :
    (c : Counters)
    → 5 * c.c0 + 4 < ulong_mod
    → (c.c0 ≤ c.c1) × (c.c1 ≤ c.c0 + 1)
    → (c.c0 ≤ c.c2) × (c.c2 ≤ c.c0 + 1)
    → (c.c0 ≤ c.c3) × (c.c3 ≤ c.c0 + 1)
    → (c.c0 ≤ c.c4) × (c.c4 ≤ c.c0 + 1)
    → preemptive_invalid c ≡ false
preemptive_invalid-close c h h1 h2 h3 h4 =
    unfold preemptive_invalid in
    ground (
      arith,
      average-close c h h1 h2 h3 h4,
      in_range (preemptive_total c / 5) c.c0,
      in_range (preemptive_total c / 5) c.c1,
      in_range (preemptive_total c / 5) c.c2,
      in_range (preemptive_total c / 5) c.c3,
      in_range (preemptive_total c / 5) c.c4,
    )

module _ {Entry S : Type 0} {api : Api Entry S} (laws : ThreadLaws api) where
  abbrev pub IsTurn : System S → Type 0
  IsTurn t = (q : Place) × (on : Bool) × At laws q on t

  pub At-initial :
      (on : Bool) (s : S)
      → Kernel laws on 0 s
      → At laws (record { round = 0; runner = 0; pc = top }) on (initial s)
  At-initial on s v = record { stands = omega arith; memory = ground arith; kernel = v }

  Step-IsTurn : {t u : System S} → Step laws t u → IsTurn t → IsTurn u
  Step-IsTurn {t} (work i c hi) (q, on, a) = (
    next q,
    on,
    subst (λ j. At laws (next q) on (run_thread api j t))
        (sym
          (runs_highest laws on q.runner i t.rtos (Stands-le q.runner q.pc a.stands) a.kernel c hi))
        (advance laws q on t a),
  )
  Step-IsTurn {t} (wake s w) (q, on, a) = (
    q,
    true,
    record {
      stands = a.stands;
      memory = a.memory;
      kernel = reporter_changes laws on true q.runner t.rtos s a.kernel w;
    },
  )
  Step-IsTurn {t} (report s c w) (q, on, a) = (
    q,
    false,
    record {
      stands = a.stands;
      memory = a.memory;
      kernel = reporter_changes laws on false q.runner t.rtos s a.kernel w;
    },
  )

  pub Reach-IsTurn : {t u : System S} → IsTurn t → Reach laws t u → IsTurn u
  Reach-IsTurn h here = h
  Reach-IsTurn h (later r st) = Step-IsTurn st (Reach-IsTurn h r)

  -- On a layer that keeps the laws of threads, from a state in which thread 0 and the reporting
  -- thread are ready: in every state that the test reaches by single statements of the thread that
  -- the scheduler chooses, and by wakes and reports of the reporting thread, the counters of the
  -- five threads, in order, do not fall, and the last is at most one above the first, as long as
  -- c0 + 1 is below 2 ^ 64.
  pub counters_ordered :
      (s : S) {t : System S}
      → Kernel laws true 0 s
      → Reach laws (initial s) t
      → t.counters.c0 + 1 < ulong_mod
      → (t.counters.c0 ≤ t.counters.c1)
        × (t.counters.c1 ≤ t.counters.c2)
        × (t.counters.c2 ≤ t.counters.c3)
        × (t.counters.c3 ≤ t.counters.c4)
        × (t.counters.c4 ≤ t.counters.c0 + 1)
  counters_ordered s {t} v reach h =
      let (q, on, a) = Reach-IsTurn (_, true, At-initial true s v) reach in
      Memory-ordered q.round q.runner q.pc t.pcs t.counters a.stands a.memory h

  -- On a layer that keeps the laws of threads, from a state in which thread 0 and the reporting
  -- thread are ready: in every state that the test reaches by single statements of the thread that
  -- the scheduler chooses, and by wakes and reports of the reporting thread, the report's test
  -- finds no invalid counter, as long as 5 * c0 + 4 is below 2 ^ 64.
  pub preemptive_never_invalid :
      (s : S) {t : System S}
      → Kernel laws true 0 s
      → Reach laws (initial s) t
      → 5 * t.counters.c0 + 4 < ulong_mod
      → preemptive_invalid t.counters ≡ false
  preemptive_never_invalid s {t} v reach h =
      let (q, on, a) = Reach-IsTurn (_, true, At-initial true s v) reach in
      let (le1, le2, le3, le4, le5) =
        Memory-ordered q.round q.runner q.pc t.pcs t.counters a.stands a.memory (omega arith) in
      preemptive_invalid-close t.counters h (omega arith) (omega arith) (omega arith) (omega arith)
