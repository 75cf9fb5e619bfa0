-- ===== src/Suite/Cooperative/Safety.antt =====
-- The counters of the cooperative test in the states that it reaches.
use thread_metric_benchmark.Base.{
  ℕ, zero, suc, ◌+◌, ◌*◌, ◌/◌, ◌≤◌, ◌<◌, ◌≡◌, sym, ◌∙◌, false, List, [], ◌∷◌, arith, ulong_mod,
}
use mathlib.Core.Path.{subst}
use thread_metric_benchmark.Api.{Api}
use thread_metric_benchmark.Suite.Rounds.{in_range}
use thread_metric_benchmark.Suite.Cooperative.{Counters, cooperative_invalid, cooperative_total}
use thread_metric_benchmark.Suite.Cooperative.System.{
  Pc, top, relinquished, Pcs, System, RingLaws, run_thread, Step, work, report, Reach, here, later,
}
use thread_metric_benchmark.Suite.Cooperative.Turns.{
  Place, rotation, Stands, Memory, next_of, At, advance,
}

-- Before the scheduler starts: no thread has run.
abbrev pub initial : {S : Type 0} → S → System S
initial s = record {
  pcs = record { p0 = top; p1 = top; p2 = top; p3 = top; p4 = top };
  counters = record { c0 = 0; c1 = 0; c2 = 0; c3 = 0; c4 = 0 };
  rtos = s;
}

-- The thread at the head of the ring is the one whose turn it is.
head_of_rotation :
    (r k i : ℕ) (p : Pc) (rest : List ℕ) → Stands r k p → rotation k ≡ i ∷ rest → k ≡ i
head_of_rotation r zero i p rest st e = cc
head_of_rotation r (suc zero) i p rest st e = cc
head_of_rotation r (suc (suc zero)) i p rest st e = cc
head_of_rotation r (suc (suc (suc zero))) i p rest st e = cc
head_of_rotation r (suc (suc (suc (suc zero)))) i p rest st e = cc
head_of_rotation r (suc (suc (suc (suc (suc k))))) i top rest st e = absurd (omega arith)
head_of_rotation r (suc (suc (suc (suc (suc k))))) i relinquished rest st e = absurd (omega arith)

Memory-ordered :
    (r k : ℕ) (p : Pc) (pcs : Pcs) (c : Counters)
    → Stands r k p
    → Memory r k p pcs c
    → c.c4 + 1 < ulong_mod
    → (c.c4 ≤ c.c3) × (c.c3 ≤ c.c2) × (c.c2 ≤ c.c1) × (c.c1 ≤ c.c0) × (c.c0 ≤ c.c4 + 1)
Memory-ordered zero k top pcs c st m h = ground arith
Memory-ordered zero k relinquished pcs c st m h = absurd (omega arith)
Memory-ordered (suc r) k top pcs c st m h = ground arith
Memory-ordered (suc r) k relinquished pcs c st m h = ground arith

average-close :
    (c : Counters)
    → 5 * c.c4 + 4 < ulong_mod
    → (c.c4 ≤ c.c3) × (c.c3 ≤ c.c2) × (c.c2 ≤ c.c1) × (c.c1 ≤ c.c0) × (c.c0 ≤ c.c4 + 1)
    → (c.c4 ≤ cooperative_total c / 5) × (cooperative_total c / 5 ≤ c.c4 + 1)
unfolding cooperative_total
average-close c h l = omega arith

cooperative_invalid-close :
    (c : Counters)
    → 5 * c.c4 + 4 < ulong_mod
    → (c.c4 ≤ c.c3) × (c.c3 ≤ c.c2) × (c.c2 ≤ c.c1) × (c.c1 ≤ c.c0) × (c.c0 ≤ c.c4 + 1)
    → cooperative_invalid c ≡ false
cooperative_invalid-close c h l =
    unfold cooperative_invalid in
    ground (
      arith,
      average-close c h l,
      in_range (cooperative_total c / 5) c.c0,
      in_range (cooperative_total c / 5) c.c1,
      in_range (cooperative_total c / 5) c.c2,
      in_range (cooperative_total c / 5) c.c3,
      in_range (cooperative_total c / 5) c.c4,
    )

module _ {Entry S : Type 0} {api : Api Entry S} (laws : RingLaws api) where
  abbrev IsTurn : System S → Type 0
  IsTurn t = (q : Place) × At laws q t

  Step-IsTurn : {t u : System S} → Step laws t u → IsTurn t → IsTurn u
  Step-IsTurn {t} (work i rest e) (q, a) = (
    next_of q.round q.runner q.pc,
    subst (λ j. At laws (next_of q.round q.runner q.pc) (run_thread api j t))
        (head_of_rotation q.round q.runner i q.pc rest a.stands (sym a.ring ∙ e))
        (advance laws q t a),
  )
  Step-IsTurn {t} (report s e) (q, a) =
      (q, record { stands = a.stands; memory = a.memory; ring = e ∙ a.ring })

  Reach-IsTurn : {t u : System S} → IsTurn t → Reach laws t u → IsTurn u
  Reach-IsTurn h here = h
  Reach-IsTurn h (later r st) = Step-IsTurn st (Reach-IsTurn h r)

  initial-IsTurn : (s : S) → laws.ring s ≡ rotation 0 → IsTurn (initial s)
  initial-IsTurn s e = (
    record { round = 0; runner = 0; pc = top },
    record { stands = omega arith; memory = ground arith; ring = e },
  )

  -- On a layer whose ready threads of one priority take turns when they relinquish, from a state in
  -- which the threads 0 to 4 are ready in this order: in every state that the test reaches by
  -- single statements of the thread at the head, and by anything that keeps that order, the
  -- counters in order do not rise, the first is at most one above the last, and the report's test
  -- finds no invalid counter, as long as 5 * c4 + 4 is below 2 ^ 64.
  pub cooperative_never_invalid :
      (s : S) {t : System S}
      → laws.ring s ≡ 0 ∷ 1 ∷ 2 ∷ 3 ∷ 4 ∷ []
      → Reach laws (initial s) t
      → 5 * t.counters.c4 + 4 < ulong_mod
      → (t.counters.c4 ≤ t.counters.c3)
        × (t.counters.c3 ≤ t.counters.c2)
        × (t.counters.c2 ≤ t.counters.c1)
        × (t.counters.c1 ≤ t.counters.c0)
        × (t.counters.c0 ≤ t.counters.c4 + 1)
        × (cooperative_invalid t.counters ≡ false)
  cooperative_never_invalid s {t} e reach h =
      let (q, a) = Reach-IsTurn (initial-IsTurn s e) reach in
      let (l3, l2, l1, l0, near) =
        Memory-ordered q.round q.runner q.pc t.pcs t.counters a.stands a.memory (omega arith) in
      (l3, l2, l1, l0, near, cooperative_invalid-close t.counters h (l3, l2, l1, l0, near))
