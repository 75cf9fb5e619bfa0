-- ===== src/Suite/Preemptive/System.antt =====
-- The worker threads of src/preemptive_scheduling.c under a scheduler: a step is one statement of
-- the thread that runs, or something that happens to the reporting thread.
use thread_metric_benchmark.Base.{
  ℕ, zero, suc, ◌<◌, ◌≡◌, Bool, true, false, some, ◌==◌, if◌then◌else◌, pos, add_ulong,
}
use thread_metric_benchmark.Api.{Api}
use thread_metric_benchmark.Api.Laws.{ThreadLaws}
use thread_metric_benchmark.Suite.Preemptive.{Counters}

-- Where a worker thread stands in its loop.
pub data Pc : Type 0 where
  top : Pc
  resumed : Pc  -- behind the call that resumes the next thread
  counted : Pc  -- behind the increment of the counter

pub record Pcs : Type 0 where
  pub p0 : Pc
  pub p1 : Pc
  pub p2 : Pc
  pub p3 : Pc
  pub p4 : Pc

pub record System (S : Type 0) : Type 0 where
  pub pcs : Pcs
  pub counters : Counters
  pub rtos : S

module _ {Entry S : Type 0} (api : Api Entry S) where
  unfoldable pub tm_preemptive_thread_0_entry : Pc → Counters → S → Pc × Counters × S
  tm_preemptive_thread_0_entry top c s = (resumed, c, (api.thread_resume (pos 1) s).1)
  tm_preemptive_thread_0_entry resumed c s = (top, record c { c0 = add_ulong c.c0 1 }, s)
  tm_preemptive_thread_0_entry counted c s = (top, c, s)

  unfoldable pub tm_preemptive_thread_1_entry : Pc → Counters → S → Pc × Counters × S
  tm_preemptive_thread_1_entry top c s = (resumed, c, (api.thread_resume (pos 2) s).1)
  tm_preemptive_thread_1_entry resumed c s = (counted, record c { c1 = add_ulong c.c1 1 }, s)
  tm_preemptive_thread_1_entry counted c s = (top, c, (api.thread_suspend (pos 1) s).1)

  unfoldable pub tm_preemptive_thread_2_entry : Pc → Counters → S → Pc × Counters × S
  tm_preemptive_thread_2_entry top c s = (resumed, c, (api.thread_resume (pos 3) s).1)
  tm_preemptive_thread_2_entry resumed c s = (counted, record c { c2 = add_ulong c.c2 1 }, s)
  tm_preemptive_thread_2_entry counted c s = (top, c, (api.thread_suspend (pos 2) s).1)

  unfoldable pub tm_preemptive_thread_3_entry : Pc → Counters → S → Pc × Counters × S
  tm_preemptive_thread_3_entry top c s = (resumed, c, (api.thread_resume (pos 4) s).1)
  tm_preemptive_thread_3_entry resumed c s = (counted, record c { c3 = add_ulong c.c3 1 }, s)
  tm_preemptive_thread_3_entry counted c s = (top, c, (api.thread_suspend (pos 3) s).1)

  -- The thread 4 resumes no other: it counts at the top.
  unfoldable pub tm_preemptive_thread_4_entry : Pc → Counters → S → Pc × Counters × S
  tm_preemptive_thread_4_entry top c s = (counted, record c { c4 = add_ulong c.c4 1 }, s)
  tm_preemptive_thread_4_entry resumed c s = (top, c, s)
  tm_preemptive_thread_4_entry counted c s = (top, c, (api.thread_suspend (pos 4) s).1)

  -- One statement of the worker thread `i`.
  unfoldable pub run_thread : ℕ → System S → System S
  unfolding tm_preemptive_thread_0_entry tm_preemptive_thread_1_entry tm_preemptive_thread_2_entry
      tm_preemptive_thread_3_entry tm_preemptive_thread_4_entry
  run_thread zero t =
      let (p, c, s) = tm_preemptive_thread_0_entry t.pcs.p0 t.counters t.rtos in
      record { pcs = record (t.pcs) { p0 = p }; counters = c; rtos = s }
  run_thread (suc zero) t =
      let (p, c, s) = tm_preemptive_thread_1_entry t.pcs.p1 t.counters t.rtos in
      record { pcs = record (t.pcs) { p1 = p }; counters = c; rtos = s }
  run_thread (suc (suc zero)) t =
      let (p, c, s) = tm_preemptive_thread_2_entry t.pcs.p2 t.counters t.rtos in
      record { pcs = record (t.pcs) { p2 = p }; counters = c; rtos = s }
  run_thread (suc (suc (suc zero))) t =
      let (p, c, s) = tm_preemptive_thread_3_entry t.pcs.p3 t.counters t.rtos in
      record { pcs = record (t.pcs) { p3 = p }; counters = c; rtos = s }
  run_thread (suc (suc (suc (suc zero)))) t =
      let (p, c, s) = tm_preemptive_thread_4_entry t.pcs.p4 t.counters t.rtos in
      record { pcs = record (t.pcs) { p4 = p }; counters = c; rtos = s }
  run_thread (suc (suc (suc (suc (suc i))))) t = t

module _ {Entry S : Type 0} {api : Api Entry S} (laws : ThreadLaws api) where
  open laws use {created, ready, priority, current}

  -- The kernel changes nothing but whether the reporting thread is ready.
  pub record Reporter (on : Bool) (s s' : S) : Type 0 where
    pub same_created : (j : ℕ) → created s' j ≡ created s j
    pub same_priority : (j : ℕ) → priority s' j ≡ priority s j
    pub same_ready : (j : ℕ) → ready s' j ≡ (if j == 5 then on else ready s j)

  -- The scheduler's choice runs; the timer may wake the reporting thread at any time; when that
  -- runs, it reads the counters and sleeps again.
  pub data Step (t : System S) : System S → Type 0 where
    work : (i : ℕ) → current t.rtos ≡ some i → i < 5 → Step t (run_thread api i t)
    wake : (s : S) → Reporter true t.rtos s → Step t (record t { rtos = s })
    report :
        (s : S) → current t.rtos ≡ some 5 → Reporter false t.rtos s → Step t (record t { rtos = s })

  pub data Reach (t : System S) : System S → Type 0 where
    here : Reach t t
    later : {u v : System S} → Reach t u → Step u v → Reach t v
