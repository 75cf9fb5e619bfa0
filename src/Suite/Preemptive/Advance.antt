-- ===== src/Suite/Preemptive/Advance.antt =====
-- One statement of the thread that runs leads from one of these states to the next.
use thread_metric_benchmark.Base.{ℕ, zero, suc, ◌+◌, Bool, arith}
use thread_metric_benchmark.Api.{Api}
use thread_metric_benchmark.Api.Laws.{ThreadLaws}
use thread_metric_benchmark.Suite.Preemptive.System.{Pc, top, resumed, counted, System, run_thread}
use thread_metric_benchmark.Suite.Preemptive.Turns.{
  Stands, Memory, Kernel, resume_next, suspend_self,
}

-- The round, the thread that runs and where it stands.
pub record Place : Type 0 where
  pub round : ℕ
  pub runner : ℕ
  pub pc : Pc

abbrev next_of : ℕ → ℕ → Pc → Place
next_of r zero top = record { round = r; runner = 1; pc = top }
next_of r zero resumed = record { round = r + 1; runner = 0; pc = top }
next_of r zero counted = record { round = r; runner = 0; pc = top }
next_of r (suc (suc (suc (suc k)))) top = record { round = r; runner = 4; pc = counted }
next_of r (suc k) top = record { round = r; runner = suc k + 1; pc = top }
next_of r (suc k) resumed = record { round = r; runner = suc k; pc = counted }
next_of r (suc k) counted = record { round = r; runner = k; pc = resumed }

abbrev pub next : Place → Place
next q = next_of q.round q.runner q.pc

module _ {Entry S : Type 0} {api : Api Entry S} (laws : ThreadLaws api) where
  pub record At (q : Place) (on : Bool) (t : System S) : Type 0 where
    pub stands : Stands q.runner q.pc
    pub memory : Memory q.round q.runner q.pc t.pcs t.counters
    pub kernel : Kernel laws on q.runner t.rtos

  advance_from :
      (r k : ℕ) (p : Pc) (on : Bool) (t : System S)
      → Stands k p
      → Memory r k p t.pcs t.counters
      → Kernel laws on k t.rtos
      → At (next_of r k p) on (run_thread api k t)
  unfolding run_thread
  advance_from r zero top on t st m v = record {
    stands = omega arith;
    memory = ground arith;
    kernel = rw m.pc0 (resume_next laws on 0 t.rtos (omega arith) v);
  }
  advance_from r zero resumed on t st m v = record {
    stands = omega arith;
    memory = ground arith;
    kernel = rw m.pc0 v;
  }
  advance_from r zero counted on t st m v = absurd (omega arith)
  advance_from r (suc zero) top on t st m v = record {
    stands = omega arith;
    memory = ground arith;
    kernel = rw m.pc1 (resume_next laws on 1 t.rtos (omega arith) v);
  }
  advance_from r (suc zero) resumed on t st m v = record {
    stands = omega arith;
    memory = ground arith;
    kernel = rw m.pc1 v;
  }
  advance_from r (suc zero) counted on t st m v = record {
    stands = omega arith;
    memory = ground arith;
    kernel = rw m.pc1 (suspend_self laws on 0 t.rtos (omega arith) v);
  }
  advance_from r (suc (suc zero)) top on t st m v = record {
    stands = omega arith;
    memory = ground arith;
    kernel = rw m.pc2 (resume_next laws on 2 t.rtos (omega arith) v);
  }
  advance_from r (suc (suc zero)) resumed on t st m v = record {
    stands = omega arith;
    memory = ground arith;
    kernel = rw m.pc2 v;
  }
  advance_from r (suc (suc zero)) counted on t st m v = record {
    stands = omega arith;
    memory = ground arith;
    kernel = rw m.pc2 (suspend_self laws on 1 t.rtos (omega arith) v);
  }
  advance_from r (suc (suc (suc zero))) top on t st m v = record {
    stands = omega arith;
    memory = ground arith;
    kernel = rw m.pc3 (resume_next laws on 3 t.rtos (omega arith) v);
  }
  advance_from r (suc (suc (suc zero))) resumed on t st m v = record {
    stands = omega arith;
    memory = ground arith;
    kernel = rw m.pc3 v;
  }
  advance_from r (suc (suc (suc zero))) counted on t st m v = record {
    stands = omega arith;
    memory = ground arith;
    kernel = rw m.pc3 (suspend_self laws on 2 t.rtos (omega arith) v);
  }
  advance_from r (suc (suc (suc (suc zero)))) top on t st m v = record {
    stands = omega arith;
    memory = ground arith;
    kernel = rw m.pc4 v;
  }
  advance_from r (suc (suc (suc (suc zero)))) resumed on t st m v = absurd (omega arith)
  advance_from r (suc (suc (suc (suc zero)))) counted on t st m v = record {
    stands = omega arith;
    memory = ground arith;
    kernel = rw m.pc4 (suspend_self laws on 3 t.rtos (omega arith) v);
  }
  advance_from r (suc (suc (suc (suc (suc k))))) top on t st m v = absurd (omega arith)
  advance_from r (suc (suc (suc (suc (suc k))))) resumed on t st m v = absurd (omega arith)
  advance_from r (suc (suc (suc (suc (suc k))))) counted on t st m v = absurd (omega arith)

  pub advance :
      (q : Place) (on : Bool) (t : System S)
      → At q on t
      → At (next q) on (run_thread api q.runner t)
  advance q on t a = advance_from q.round q.runner q.pc on t a.stands a.memory a.kernel
