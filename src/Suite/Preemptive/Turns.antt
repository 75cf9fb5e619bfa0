-- ===== src/Suite/Preemptive/Turns.antt =====
-- The states that the preemptive test goes through: in round r the threads 0 to k are ready, k
-- runs, and those above it have had their turn if k is behind its resume.
use thread_metric_benchmark.Base.{
  ℕ, ◌+◌, ◌-◌, ◌%◌, ◌≤◌, ◌<◌, ◌≡◌, ◌∙◌, Bool, true, false, some, arith, ltb, leb, ◌==◌,
  if◌then◌else◌, pos, ulong_mod,
}
use thread_metric_benchmark.Api.{Api}
use thread_metric_benchmark.Api.Laws.{ThreadLaws}
use thread_metric_benchmark.Suite.Preemptive.{Counters}
use thread_metric_benchmark.Suite.Preemptive.System.{Pc, top, resumed, counted, Pcs, Reporter}

-- The value of a counter after r rounds, and whether the thread has had its turn in this one.
abbrev pub after : ℕ → Bool → ℕ
after r true = (r + 1) % ulong_mod
after r false = r % ulong_mod

abbrev pub done : ℕ → Pc → ℕ → Bool
done k top j = false
done k resumed j = ltb k j
done k counted j = leb k j

abbrev pub pc_at : ℕ → Pc → ℕ → Pc
pc_at k p j = if j == k then p else if ltb j k then resumed else top

-- The thread 0 never stands behind its increment, nor the thread 4 behind a resume.
abbrev pub Stands : ℕ → Pc → Type 0
Stands k top = k ≤ 4
Stands k resumed = k ≤ 3
Stands k counted = (1 ≤ k) × (k ≤ 4)

pub record Memory (r k : ℕ) (p : Pc) (pcs : Pcs) (c : Counters) : Type 0 where
  pub pc0 : pcs.p0 ≡ pc_at k p 0
  pub pc1 : pcs.p1 ≡ pc_at k p 1
  pub pc2 : pcs.p2 ≡ pc_at k p 2
  pub pc3 : pcs.p3 ≡ pc_at k p 3
  pub pc4 : pcs.p4 ≡ pc_at k p 4
  pub count0 : c.c0 ≡ after r (done k p 0)
  pub count1 : c.c1 ≡ after r (done k p 1)
  pub count2 : c.c2 ≡ after r (done k p 2)
  pub count3 : c.c3 ≡ after r (done k p 3)
  pub count4 : c.c4 ≡ after r (done k p 4)

module _ {Entry S : Type 0} {api : Api Entry S} (laws : ThreadLaws api) where
  open laws use {created, ready, priority, current}

  -- The threads 0 to k are ready, and the reporting thread if `on`.
  pub record Kernel (on : Bool) (k : ℕ) (s : S) : Type 0 where
    pub all_created : (j : ℕ) → j ≤ 5 → created s j ≡ true
    pub all_ready : (j : ℕ) → ready s j ≡ (if j == 5 then on else leb j k)
    pub all_priority : (j : ℕ) → j < 5 → priority s j ≡ 10 - j
    pub report_priority : priority s 5 ≡ 2

  pub resume_next :
      (on : Bool) (k : ℕ) (s : S)
      → k < 4
      → Kernel on k s
      → Kernel on (k + 1) (api.thread_resume (pos (k + 1)) s).1
  resume_next on k s h v = record {
    all_created = λ j l.
        laws.resume_created (k + 1) j s (omega arith) (v.all_created (k + 1) (omega arith))
        ∙ v.all_created j l;
    all_ready = λ j. ground (
      arith,
      laws.resume_ready (k + 1) j s (omega arith) (v.all_created (k + 1) (omega arith)),
      v.all_ready j,
    );
    all_priority = λ j l.
        laws.resume_priority (k + 1) j s (omega arith) (v.all_created (k + 1) (omega arith))
        ∙ v.all_priority j l;
    report_priority =
        laws.resume_priority (k + 1) 5 s (omega arith) (v.all_created (k + 1) (omega arith))
        ∙ v.report_priority;
  }

  pub suspend_self :
      (on : Bool) (k : ℕ) (s : S)
      → k < 4
      → Kernel on (k + 1) s
      → Kernel on k (api.thread_suspend (pos (k + 1)) s).1
  suspend_self on k s h v = record {
    all_created = λ j l.
        laws.suspend_created (k + 1) j s (omega arith) (v.all_created (k + 1) (omega arith))
        ∙ v.all_created j l;
    all_ready = λ j. ground (
      arith,
      laws.suspend_ready (k + 1) j s (omega arith) (v.all_created (k + 1) (omega arith)),
      v.all_ready j,
    );
    all_priority = λ j l.
        laws.suspend_priority (k + 1) j s (omega arith) (v.all_created (k + 1) (omega arith))
        ∙ v.all_priority j l;
    report_priority =
        laws.suspend_priority (k + 1) 5 s (omega arith) (v.all_created (k + 1) (omega arith))
        ∙ v.report_priority;
  }

  pub reporter_changes :
      (on on' : Bool) (k : ℕ) (s s' : S) → Kernel on k s → Reporter laws on' s s' → Kernel on' k s'
  reporter_changes on on' k s s' v w = record {
    all_created = λ j l. w.same_created j ∙ v.all_created j l;
    all_ready = λ j. ground (arith, w.same_ready j, v.all_ready j);
    all_priority = λ j l. w.same_priority j ∙ v.all_priority j l;
    report_priority = w.same_priority 5 ∙ v.report_priority;
  }

  -- The worker that runs is the ready one with the highest number.
  pub runs_highest :
      (on : Bool) (k i : ℕ) (s : S) → k ≤ 4 → Kernel on k s → current s ≡ some i → i < 5 → i ≡ k
  runs_highest on k i s hk v c hi = ground (
    arith,
    laws.current_ready s i c,
    laws.current_best s i k c,
    v.all_ready i,
    v.all_ready k,
    v.all_priority i hi,
    v.all_priority k (omega arith),
  )
