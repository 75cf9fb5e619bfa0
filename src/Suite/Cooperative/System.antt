-- ===== src/Suite/Cooperative/System.antt =====
-- The worker threads of src/cooperative_scheduling.c, which all have the priority 3: a step is one
-- statement of the thread at the head of the ring of ready threads, or something else that leaves
-- the ring as it is.
use thread_metric_benchmark.Base.{ℕ, zero, suc, ◌≡◌, List, [], ◌∷◌, ◌++◌, add_ulong}
use thread_metric_benchmark.Api.{Api}
use thread_metric_benchmark.Suite.Cooperative.{Counters}

-- Where a worker thread stands in its loop.
pub data Pc : Type 0 where
  top : Pc
  relinquished : Pc  -- behind the call, before the increment

pub record Pcs : Type 0 where
  pub p0 : Pc
  pub p1 : Pc
  pub p2 : Pc
  pub p3 : Pc
  pub p4 : Pc

pub record System (S : Type 0) : Type 0 where
  pub pcs : Pcs
  pub counters : Counters
  pub rtos : S

-- The ready threads of priority 3, in the order in which they run: to relinquish is to go to the
-- end.
pub record RingLaws {Entry S : Type 0} (api : Api Entry S) : Type 0 where
  pub ring : S → List ℕ
  pub relinquish_lem :
      (i : ℕ) (rest : List ℕ) (s : S)
      → ring s ≡ i ∷ rest
      → ring (api.thread_relinquish s) ≡ rest ++ i ∷ []

module _ {Entry S : Type 0} (api : Api Entry S) where
  unfoldable pub tm_cooperative_thread_0_entry : Pc → Counters → S → Pc × Counters × S
  tm_cooperative_thread_0_entry top c s = (relinquished, c, api.thread_relinquish s)
  tm_cooperative_thread_0_entry relinquished c s = (top, record c { c0 = add_ulong c.c0 1 }, s)

  unfoldable pub tm_cooperative_thread_1_entry : Pc → Counters → S → Pc × Counters × S
  tm_cooperative_thread_1_entry top c s = (relinquished, c, api.thread_relinquish s)
  tm_cooperative_thread_1_entry relinquished c s = (top, record c { c1 = add_ulong c.c1 1 }, s)

  unfoldable pub tm_cooperative_thread_2_entry : Pc → Counters → S → Pc × Counters × S
  tm_cooperative_thread_2_entry top c s = (relinquished, c, api.thread_relinquish s)
  tm_cooperative_thread_2_entry relinquished c s = (top, record c { c2 = add_ulong c.c2 1 }, s)

  unfoldable pub tm_cooperative_thread_3_entry : Pc → Counters → S → Pc × Counters × S
  tm_cooperative_thread_3_entry top c s = (relinquished, c, api.thread_relinquish s)
  tm_cooperative_thread_3_entry relinquished c s = (top, record c { c3 = add_ulong c.c3 1 }, s)

  unfoldable pub tm_cooperative_thread_4_entry : Pc → Counters → S → Pc × Counters × S
  tm_cooperative_thread_4_entry top c s = (relinquished, c, api.thread_relinquish s)
  tm_cooperative_thread_4_entry relinquished c s = (top, record c { c4 = add_ulong c.c4 1 }, s)

  -- One statement of the worker thread `i`.
  unfoldable pub run_thread : ℕ → System S → System S
  unfolding tm_cooperative_thread_0_entry tm_cooperative_thread_1_entry
      tm_cooperative_thread_2_entry tm_cooperative_thread_3_entry tm_cooperative_thread_4_entry
  run_thread zero t =
      let (p, c, s) = tm_cooperative_thread_0_entry t.pcs.p0 t.counters t.rtos in
      record { pcs = record (t.pcs) { p0 = p }; counters = c; rtos = s }
  run_thread (suc zero) t =
      let (p, c, s) = tm_cooperative_thread_1_entry t.pcs.p1 t.counters t.rtos in
      record { pcs = record (t.pcs) { p1 = p }; counters = c; rtos = s }
  run_thread (suc (suc zero)) t =
      let (p, c, s) = tm_cooperative_thread_2_entry t.pcs.p2 t.counters t.rtos in
      record { pcs = record (t.pcs) { p2 = p }; counters = c; rtos = s }
  run_thread (suc (suc (suc zero))) t =
      let (p, c, s) = tm_cooperative_thread_3_entry t.pcs.p3 t.counters t.rtos in
      record { pcs = record (t.pcs) { p3 = p }; counters = c; rtos = s }
  run_thread (suc (suc (suc (suc zero)))) t =
      let (p, c, s) = tm_cooperative_thread_4_entry t.pcs.p4 t.counters t.rtos in
      record { pcs = record (t.pcs) { p4 = p }; counters = c; rtos = s }
  run_thread (suc (suc (suc (suc (suc i))))) t = t

module _ {Entry S : Type 0} {api : Api Entry S} (laws : RingLaws api) where
  -- The reporting thread, of priority 2, wakes, runs and sleeps without moving the ring.
  pub data Step (t : System S) : System S → Type 0 where
    work : (i : ℕ) (rest : List ℕ) → laws.ring t.rtos ≡ i ∷ rest → Step t (run_thread api i t)
    report : (s : S) → laws.ring s ≡ laws.ring t.rtos → Step t (record t { rtos = s })

  pub data Reach (t : System S) : System S → Type 0 where
    here : Reach t t
    later : {u v : System S} → Reach t u → Step u v → Reach t v
