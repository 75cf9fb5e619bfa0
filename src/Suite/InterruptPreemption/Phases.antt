-- ===== src/Suite/InterruptPreemption/Phases.antt =====
-- The phases of a round of the interrupt preemption test, and what the kernel knows in them.
use thread_metric_benchmark.Base.{
  ℕ, ◌+◌, ◌%◌, ◌<◌, ◌≡◌, ◌∙◌, Bool, true, false, some, arith, ◌==◌, if◌then◌else◌, pos, ulong_mod,
}
use thread_metric_benchmark.Api.{Api}
use thread_metric_benchmark.Api.Laws.{ThreadLaws}
use thread_metric_benchmark.Suite.InterruptPreemption.{Counters}
use thread_metric_benchmark.Suite.Preemptive.System.{Reporter}
use thread_metric_benchmark.Suite.InterruptPreemption.System.{Pc, first, second, System}

-- A round: thread 1 interrupts, thread 0 counts, thread 0 suspends itself, thread 1 counts.
pub data Phase : Type 0 where
  interrupt : Phase
  count_0 : Phase
  suspend_0 : Phase
  count_1 : Phase

-- Whether thread 0 is ready in a phase, and which thread runs.
abbrev pub up : Phase → Bool
up interrupt = false
up count_0 = true
up suspend_0 = true
up count_1 = false

abbrev pub runner : Phase → ℕ
runner f = if up f then 0 else 1

abbrev pub pc_0 : Phase → Pc
pc_0 suspend_0 = second
pc_0 _ = first

abbrev pub pc_1 : Phase → Pc
pc_1 interrupt = first
pc_1 _ = second

abbrev pub counters_at : ℕ → Phase → Counters
counters_at r interrupt = record { c0 = r % ulong_mod; c1 = r % ulong_mod; ch = r % ulong_mod }
counters_at r count_0 = record { c0 = r % ulong_mod; c1 = r % ulong_mod; ch = (r + 1) % ulong_mod }
counters_at r _ = record { c0 = (r + 1) % ulong_mod; c1 = r % ulong_mod; ch = (r + 1) % ulong_mod }

abbrev pub next_phase : Phase → Phase
next_phase interrupt = count_0
next_phase count_0 = suspend_0
next_phase suspend_0 = count_1
next_phase count_1 = interrupt

abbrev pub next_round : ℕ → Phase → ℕ
next_round r count_1 = r + 1
next_round r _ = r

module _ {Entry S : Type 0} {api : Api Entry S} (laws : ThreadLaws api) where
  -- Thread 1 is ready, thread 0 if `u`, and the reporting thread if `on`.
  pub record Kernel (on u : Bool) (s : S) : Type 0 where
    pub created_0 : laws.created s 0 ≡ true
    pub all_ready : (j : ℕ) → laws.ready s j ≡ (if j == 5 then on else if j == 0 then u else j == 1)
    pub priority_0 : laws.priority s 0 ≡ 3
    pub priority_1 : laws.priority s 1 ≡ 10

  pub resumed :
      (on u : Bool) (s : S) → Kernel on u s → Kernel on true (api.thread_resume (pos 0) s).1
  resumed on u s v = record {
    created_0 = laws.resume_created 0 0 s (omega arith) v.created_0 ∙ v.created_0;
    all_ready =
        λ j. ground (arith, laws.resume_ready 0 j s (omega arith) v.created_0, v.all_ready j);
    priority_0 = laws.resume_priority 0 0 s (omega arith) v.created_0 ∙ v.priority_0;
    priority_1 = laws.resume_priority 0 1 s (omega arith) v.created_0 ∙ v.priority_1;
  }

  pub suspended :
      (on u : Bool) (s : S) → Kernel on u s → Kernel on false (api.thread_suspend (pos 0) s).1
  suspended on u s v = record {
    created_0 = laws.suspend_created 0 0 s (omega arith) v.created_0 ∙ v.created_0;
    all_ready =
        λ j. ground (arith, laws.suspend_ready 0 j s (omega arith) v.created_0, v.all_ready j);
    priority_0 = laws.suspend_priority 0 0 s (omega arith) v.created_0 ∙ v.priority_0;
    priority_1 = laws.suspend_priority 0 1 s (omega arith) v.created_0 ∙ v.priority_1;
  }

  pub reporter_changes :
      (on on' u : Bool) (s s' : S) → Kernel on u s → Reporter laws on' s s' → Kernel on' u s'
  reporter_changes on on' u s s' v w = record {
    created_0 = w.same_created 0 ∙ v.created_0;
    all_ready = λ j. ground (arith, w.same_ready j, v.all_ready j);
    priority_0 = w.same_priority 0 ∙ v.priority_0;
    priority_1 = w.same_priority 1 ∙ v.priority_1;
  }

  -- Thread 0 runs if it is ready, else thread 1.
  pub runs :
      (on : Bool) (f : Phase) (i : ℕ) (s : S)
      → Kernel on (up f) s
      → laws.current s ≡ some i
      → i < 5
      → runner f ≡ i
  runs on f i s v c h = ground (
    arith,
    laws.current_ready s i c,
    laws.current_best s i 0 c,
    v.all_ready i,
    v.all_ready 0,
    v.priority_0,
    v.priority_1,
  )

  pub record At (r : ℕ) (f : Phase) (on : Bool) (t : System S) : Type 0 where
    pub at_0 : t.p0 ≡ pc_0 f
    pub at_1 : t.p1 ≡ pc_1 f
    pub counters : t.world.0 ≡ counters_at r f
    pub kernel : Kernel on (up f) t.world.1
