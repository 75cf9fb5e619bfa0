-- ===== src/Suite/InterruptPreemption/System.antt =====
-- The threads and the handler of src/interrupt_preemption_processing.c under a scheduler, one
-- statement at a time. How the layer calls the handler is a parameter, with what include/tm_api.h
-- says of it.
use thread_metric_benchmark.Base.{ℕ, zero, suc, ◌<◌, ◌≡◌, true, false, some, pos, add_ulong}
use thread_metric_benchmark.Api.{Api}
use thread_metric_benchmark.Api.Laws.{ThreadLaws}
use thread_metric_benchmark.Suite.InterruptPreemption.{Counters}
use thread_metric_benchmark.Suite.Preemptive.System.{Reporter}

-- Where a thread stands in its loop: at its first statement, or at its second.
pub data Pc : Type 0 where
  first : Pc
  second : Pc

-- The counters, and the state of the layer.
abbrev pub World : Type 0 → Type 0
World S = Counters × S

pub record System (S : Type 0) : Type 0 where
  pub p0 : Pc
  pub p1 : Pc
  pub world : World S

-- `tm_cause_interrupt` of a layer, given the handler that it calls.
abbrev pub Trigger : Type 0 → Type 0
Trigger S = (World S → World S) → World S → World S

module _ {Entry S : Type 0} (api : Api Entry S) where
  unfoldable pub tm_interrupt_preemption_thread_0_entry : Pc → World S → Pc × World S
  tm_interrupt_preemption_thread_0_entry first (c, s) =
      (second, (record c { c0 = add_ulong c.c0 1 }, s))
  tm_interrupt_preemption_thread_0_entry second (c, s) =
      (first, (c, (api.thread_suspend (pos 0) s).1))

  unfoldable pub tm_interrupt_preemption_handler : World S → World S
  tm_interrupt_preemption_handler (c, s) =
      (record c { ch = add_ulong c.ch 1 }, (api.thread_resume (pos 0) s).1)

  unfoldable pub tm_interrupt_preemption_thread_1_entry : Trigger S → Pc → World S → Pc × World S
  tm_interrupt_preemption_thread_1_entry cause first w =
      (second, cause tm_interrupt_preemption_handler w)
  tm_interrupt_preemption_thread_1_entry cause second (c, s) =
      (first, (record c { c1 = add_ulong c.c1 1 }, s))

  -- One statement of the thread `i`.
  unfoldable pub run_thread : Trigger S → ℕ → System S → System S
  unfolding tm_interrupt_preemption_thread_0_entry tm_interrupt_preemption_thread_1_entry
  run_thread cause zero t =
      let (p, w) = tm_interrupt_preemption_thread_0_entry t.p0 t.world in
      record t { p0 = p; world = w }
  run_thread cause (suc zero) t =
      let (p, w) = tm_interrupt_preemption_thread_1_entry cause t.p1 t.world in
      record t { p1 = p; world = w }
  run_thread cause (suc (suc i)) t = t

module _ {Entry S : Type 0} {api : Api Entry S} (laws : ThreadLaws api) where
  -- The interrupt runs the handler once. What the kernel does besides leaves the threads alone.
  pub record RunsHandler (cause : Trigger S) : Type 0 where
    pub same_counters :
        (w : World S)
        → (cause (tm_interrupt_preemption_handler api) w).0
          ≡ (tm_interrupt_preemption_handler api w).0
    pub same_created :
        (w : World S) (j : ℕ)
        → laws.created (cause (tm_interrupt_preemption_handler api) w).1 j
          ≡ laws.created (tm_interrupt_preemption_handler api w).1 j
    pub same_ready :
        (w : World S) (j : ℕ)
        → laws.ready (cause (tm_interrupt_preemption_handler api) w).1 j
          ≡ laws.ready (tm_interrupt_preemption_handler api w).1 j
    pub same_priority :
        (w : World S) (j : ℕ)
        → laws.priority (cause (tm_interrupt_preemption_handler api) w).1 j
          ≡ laws.priority (tm_interrupt_preemption_handler api w).1 j

  module _ (cause : Trigger S) where
    -- The scheduler's choice runs; the reporting thread wakes at any time, and sleeps when it has
    -- run.
    pub data Step (t : System S) : System S → Type 0 where
      work : (i : ℕ) → laws.current t.world.1 ≡ some i → i < 5 → Step t (run_thread api cause i t)
      wake : (s : S) → Reporter laws true t.world.1 s → Step t (record t { world = (t.world.0, s) })
      report :
          (s : S)
          → laws.current t.world.1 ≡ some 5
          → Reporter laws false t.world.1 s
          → Step t (record t { world = (t.world.0, s) })

    pub data Reach (t : System S) : System S → Type 0 where
      here : Reach t t
      later : {u v : System S} → Reach t u → Step u v → Reach t v
