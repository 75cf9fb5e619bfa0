-- ===== src/Suite/Cooperative/Turns.antt =====
-- The turns of the cooperative test: in round r the threads before the one that runs are at r.
use thread_metric_benchmark.Base.{
  ℕ, zero, suc, ◌+◌, ◌-◌, ◌%◌, ◌≤◌, ◌<◌, ◌≡◌, Bool, List, [], ◌∷◌, arith, ltb, leb, ◌==◌,
  if◌then◌else◌, ulong_mod,
}
use thread_metric_benchmark.Api.{Api}
use thread_metric_benchmark.Suite.Cooperative.{Counters}
use thread_metric_benchmark.Suite.Cooperative.System.{
  Pc, top, relinquished, Pcs, System, RingLaws, run_thread,
}

-- The round, the thread that runs and where it stands. Nobody counts in round 0.
pub record Place : Type 0 where
  pub round : ℕ
  pub runner : ℕ
  pub pc : Pc

abbrev pub rotation : ℕ → List ℕ
rotation zero = 0 ∷ 1 ∷ 2 ∷ 3 ∷ 4 ∷ []
rotation (suc zero) = 1 ∷ 2 ∷ 3 ∷ 4 ∷ 0 ∷ []
rotation (suc (suc zero)) = 2 ∷ 3 ∷ 4 ∷ 0 ∷ 1 ∷ []
rotation (suc (suc (suc zero))) = 3 ∷ 4 ∷ 0 ∷ 1 ∷ 2 ∷ []
rotation (suc (suc (suc (suc k)))) = 4 ∷ 0 ∷ 1 ∷ 2 ∷ 3 ∷ []

abbrev pub Stands : ℕ → ℕ → Pc → Type 0
Stands r k top = k ≤ 4
Stands r k relinquished = (k ≤ 4) × (0 < r)

-- Where the others stand: in round 0 at the top until their turn, later before the increment.
abbrev pub waiting : ℕ → ℕ → ℕ → Pc
waiting zero k j = if ltb j k then relinquished else top
waiting (suc r) k j = relinquished

abbrev pub pc_at : ℕ → ℕ → Pc → ℕ → Pc
pc_at r k p j = if j == k then p else waiting r k j

abbrev pub done : ℕ → Pc → ℕ → Bool
done k top j = leb j k
done k relinquished j = ltb j k

abbrev pub count_at : ℕ → ℕ → Pc → ℕ → ℕ
count_at r k p j = (if done k p j then r else r - 1) % ulong_mod

pub record Memory (r k : ℕ) (p : Pc) (pcs : Pcs) (c : Counters) : Type 0 where
  pub pc0 : pcs.p0 ≡ pc_at r k p 0
  pub pc1 : pcs.p1 ≡ pc_at r k p 1
  pub pc2 : pcs.p2 ≡ pc_at r k p 2
  pub pc3 : pcs.p3 ≡ pc_at r k p 3
  pub pc4 : pcs.p4 ≡ pc_at r k p 4
  pub count0 : c.c0 ≡ count_at r k p 0
  pub count1 : c.c1 ≡ count_at r k p 1
  pub count2 : c.c2 ≡ count_at r k p 2
  pub count3 : c.c3 ≡ count_at r k p 3
  pub count4 : c.c4 ≡ count_at r k p 4

abbrev pub first_pc : ℕ → Pc
first_pc zero = top
first_pc (suc r) = relinquished

abbrev pub next_of : ℕ → ℕ → Pc → Place
next_of r k relinquished = record { round = r; runner = k; pc = top }
next_of r (suc (suc (suc (suc k)))) top = record { round = r + 1; runner = 0; pc = relinquished }
next_of r k top = record { round = r; runner = k + 1; pc = first_pc r }

module _ {Entry S : Type 0} {api : Api Entry S} (laws : RingLaws api) where
  pub record At (q : Place) (t : System S) : Type 0 where
    pub stands : Stands q.round q.runner q.pc
    pub memory : Memory q.round q.runner q.pc t.pcs t.counters
    pub ring : laws.ring t.rtos ≡ rotation q.runner

  advance_from :
      (r k : ℕ) (p : Pc) (t : System S)
      → Stands r k p
      → Memory r k p t.pcs t.counters
      → laws.ring t.rtos ≡ rotation k
      → At (next_of r k p) (run_thread api k t)
  unfolding run_thread
  advance_from zero zero top t st m v = record {
    stands = omega arith;
    memory = ground arith;
    ring = rw m.pc0 (laws.relinquish_lem 0 _ t.rtos v);
  }
  advance_from (suc r) zero top t st m v = record {
    stands = omega arith;
    memory = ground arith;
    ring = rw m.pc0 (laws.relinquish_lem 0 _ t.rtos v);
  }
  advance_from (suc r) zero relinquished t st m v = record {
    stands = omega arith;
    memory = ground arith;
    ring = rw m.pc0 v;
  }
  advance_from zero (suc zero) top t st m v = record {
    stands = omega arith;
    memory = ground arith;
    ring = rw m.pc1 (laws.relinquish_lem 1 _ t.rtos v);
  }
  advance_from (suc r) (suc zero) top t st m v = record {
    stands = omega arith;
    memory = ground arith;
    ring = rw m.pc1 (laws.relinquish_lem 1 _ t.rtos v);
  }
  advance_from (suc r) (suc zero) relinquished t st m v = record {
    stands = omega arith;
    memory = ground arith;
    ring = rw m.pc1 v;
  }
  advance_from zero (suc (suc zero)) top t st m v = record {
    stands = omega arith;
    memory = ground arith;
    ring = rw m.pc2 (laws.relinquish_lem 2 _ t.rtos v);
  }
  advance_from (suc r) (suc (suc zero)) top t st m v = record {
    stands = omega arith;
    memory = ground arith;
    ring = rw m.pc2 (laws.relinquish_lem 2 _ t.rtos v);
  }
  advance_from (suc r) (suc (suc zero)) relinquished t st m v = record {
    stands = omega arith;
    memory = ground arith;
    ring = rw m.pc2 v;
  }
  advance_from zero (suc (suc (suc zero))) top t st m v = record {
    stands = omega arith;
    memory = ground arith;
    ring = rw m.pc3 (laws.relinquish_lem 3 _ t.rtos v);
  }
  advance_from (suc r) (suc (suc (suc zero))) top t st m v = record {
    stands = omega arith;
    memory = ground arith;
    ring = rw m.pc3 (laws.relinquish_lem 3 _ t.rtos v);
  }
  advance_from (suc r) (suc (suc (suc zero))) relinquished t st m v = record {
    stands = omega arith;
    memory = ground arith;
    ring = rw m.pc3 v;
  }
  advance_from zero (suc (suc (suc (suc zero)))) top t st m v = record {
    stands = omega arith;
    memory = ground arith;
    ring = rw m.pc4 (laws.relinquish_lem 4 _ t.rtos v);
  }
  advance_from (suc r) (suc (suc (suc (suc zero)))) top t st m v = record {
    stands = omega arith;
    memory = ground arith;
    ring = rw m.pc4 (laws.relinquish_lem 4 _ t.rtos v);
  }
  advance_from (suc r) (suc (suc (suc (suc zero)))) relinquished t st m v = record {
    stands = omega arith;
    memory = ground arith;
    ring = rw m.pc4 v;
  }
  advance_from zero k relinquished t st m v = absurd (omega arith)
  advance_from zero (suc (suc (suc (suc (suc k))))) top t st m v = absurd (omega arith)
  advance_from (suc r) (suc (suc (suc (suc (suc k))))) top t st m v = absurd (omega arith)
  advance_from (suc r) (suc (suc (suc (suc (suc k))))) relinquished t st m v = absurd (omega arith)

  pub advance :
      (q : Place) (t : System S)
      → At q t
      → At (next_of q.round q.runner q.pc) (run_thread api q.runner t)
  advance q t a = advance_from q.round q.runner q.pc t a.stands a.memory a.ring
