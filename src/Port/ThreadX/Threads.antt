-- ===== src/Port/ThreadX/Threads.antt =====
-- The threads of ports/threadx/tm_port.c against the laws of include/tm_api.h, on a kernel whose
-- threads are those of the ThreadX manual.
use thread_metric_benchmark.Base.{
  ℕ, ◌*◌, ◌≤◌, ◌<◌, ◌≡◌, refl, Bool, true, false, ◌||◌, Option, some, arith, ◌==◌, if◌then◌else◌,
  pos, ltb_ℤ,
}
use thread_metric_benchmark.Api.{Status, tm_success}
use thread_metric_benchmark.Api.Laws.{ThreadLaws}
use thread_metric_benchmark.Port.ThreadX.Kernel.{
  Kernel, Target, Port, tm_thread, tm_thread_entry, dont_start, out_of_bounds, max_threads,
  stack_size, update,
}
use thread_metric_benchmark.Port.ThreadX.Bracket.{IsStable, called_lem, in_context_lem}
use thread_metric_benchmark.Port.ThreadX.Services.{
  threadx_api, tm_thread_create, tm_thread_resume, tm_thread_suspend,
}

-- Of a thread of tm_thread_array: whether it exists, whether it is ready, and its priority.
pub record Views (K : Type 0) : Type 0 where
  pub created : K → ℕ → Bool
  pub ready : K → ℕ → Bool
  pub priority : K → ℕ → ℕ

pub record At {K : Type 0} (views : Views K) (j : ℕ) (c r : Bool) (p : ℕ) (k : K) : Type 0 where
  pub created_at : views.created k j ≡ c
  pub ready_at : views.ready k j ≡ r
  pub priority_at : views.priority k j ≡ p

-- Threads: created suspended, resumed, suspended. The counters do not touch them. While the thread
-- that simulates interrupts waits, the scheduler runs a ready one of the least priority.
pub record ThreadKernel {K : Type 0} (kernel : Kernel K) : Type 0 where
  pub views : Views K
  pub current : K → Option ℕ
  pub create_lem :
      (i q stack j : ℕ) (c r : Bool) (p : ℕ) (k : K)
      → i < max_threads
      → views.created k i ≡ false
      → (1 ≤ q) × (q ≤ 31)
      → At views j c r p k
      → ((kernel.thread_create
            (tm_thread i)
            (tm_thread_entry i)
            stack
            stack_size
            q
            q
            dont_start
            k).0
          ≡ 0)
        × At views j
            (if i == j then true else c)
            (if i == j then false else r)
            (if i == j then q else p)
            (kernel.thread_create
              (tm_thread i)
              (tm_thread_entry i)
              stack
              stack_size
              q
              q
              dont_start
              k).1
  pub resume_lem :
      (i j : ℕ) (c r : Bool) (p : ℕ) (k : K)
      → i < max_threads
      → views.created k i ≡ true
      → At views j c r p k
      → ((kernel.thread_resume (tm_thread i) k).0 ≡ 0)
        × At views j c (if i == j then true else r) p (kernel.thread_resume (tm_thread i) k).1
  pub suspend_lem :
      (i j : ℕ) (c r : Bool) (p : ℕ) (k : K)
      → i < max_threads
      → views.created k i ≡ true
      → At views j c r p k
      → ((kernel.thread_suspend (tm_thread i) k).0 ≡ 0)
        × At views j c (if i == j then false else r) p (kernel.thread_suspend (tm_thread i) k).1
  pub stable : (j : ℕ) (c r : Bool) (p : ℕ) → IsStable kernel (At views j c r p)
  pub current_ready : (k : K) (i : ℕ) → current k ≡ some i → views.ready k i ≡ true
  pub current_best :
      (k : K) (i j : ℕ)
      → current k ≡ some i
      → views.ready k j ≡ true
      → views.priority k i ≤ views.priority k j
  pub current_some : (k : K) (j : ℕ) → views.ready k j ≡ true → (i : ℕ) × (current k ≡ some i)

pub inside_bounds : (bound i : ℕ) → i < bound → out_of_bounds bound (pos i) ≡ false
unfolding out_of_bounds
inside_bounds bound i h = ground arith

pub inside_priorities :
    (q : ℕ) → (1 ≤ q) × (q ≤ 31) → (ltb_ℤ (pos q) (pos 1) || ltb_ℤ (pos 31) (pos q)) ≡ false
inside_priorities q h = ground arith

module _ {K : Type 0} (kernel : Kernel K) (threads : ThreadKernel kernel) where
  here :
      (j : ℕ) (k : K)
      → At threads.views j
          (threads.views.created k j)
          (threads.views.ready k j)
          (threads.views.priority k j)
          k
  here j k = record { created_at = refl; ready_at = refl; priority_at = refl }

  -- A thread exists, and thread j looks so.
  abbrev Both : ℕ → ℕ → Bool → Bool → ℕ → K → Type 0
  Both i j c r p k = (threads.views.created k i ≡ true) × At threads.views j c r p k

  created_stable : (i : ℕ) → IsStable kernel (λ k. threads.views.created k i ≡ true)
  created_stable i = record {
    state = λ n k e.
        ((threads.stable i true _ _).state n k
          (record { created_at = e; ready_at = refl; priority_at = refl })).created_at;
    disable = λ n k e.
        ((threads.stable i true _ _).disable n k
          (record { created_at = e; ready_at = refl; priority_at = refl })).created_at;
  }

  Both-IsStable : (i j : ℕ) (c r : Bool) (p : ℕ) → IsStable kernel (Both i j c r p)
  Both-IsStable i j c r p = record {
    state = λ n k h. ((created_stable i).state n k h.0, (threads.stable j c r p).state n k h.1);
    disable =
        λ n k h. ((created_stable i).disable n k h.0, (threads.stable j c r p).disable n k h.1);
  }

-- A call has succeeded, and thread j looks so behind it.
abbrev pub Left :
    {Entry Init K : Type 0} → Views K → ℕ → Bool → Bool → ℕ → Status × Port Entry Init K → Type 0
Left views j c r p x = (x.0 ≡ tm_success) × At views j c r p x.1.kernel

module _ {Entry Init K : Type 0} (kernel : Kernel K) (target : Target)
    (threads : ThreadKernel kernel) where
  open threads use {views}

  pub created_thread :
      (i q j : ℕ) (e : Entry) (s : Port Entry Init K)
      → i < 10
      → (1 ≤ q) × (q ≤ 31)
      → views.created s.kernel i ≡ false
      → Left views j
          (if i == j then true else views.created s.kernel j)
          (if i == j then false else views.ready s.kernel j)
          (if i == j then q else views.priority s.kernel j)
          (tm_thread_create kernel (pos i) (pos q) e s)
  unfolding tm_thread_create
  created_thread i q j e s h hq new =
      rw (inside_bounds 10 i h, inside_priorities q hq)
        (let works =
            threads.create_lem i q (i * stack_size) j _ _ _ s.kernel h new hq
              (here kernel threads j s.kernel) in
          called_lem (At views j _ _ _)
            (kernel.thread_create (tm_thread i) (tm_thread_entry i) (i * stack_size) stack_size q q
              dont_start)
            (record s { entries = update s.entries i (some e) }) works.0 works.1)

  pub resumed_thread :
      (i j : ℕ) (s : Port Entry Init K)
      → i < 10
      → views.created s.kernel i ≡ true
      → Left views j
          (views.created s.kernel j)
          (if i == j then true else views.ready s.kernel j)
          (views.priority s.kernel j)
          (tm_thread_resume kernel target (pos i) s)
  unfolding tm_thread_resume
  resumed_thread i j s h old = rw (inside_bounds 10 i h) (
      in_context_lem kernel (Both kernel threads i j _ _ _) (At views j _ _ _) target
        (kernel.thread_resume (tm_thread i)) s (Both-IsStable kernel threads i j _ _ _)
        (threads.stable j _ _ _) (λ k b. threads.resume_lem i j _ _ _ k h b.0 b.1)
        (old, here kernel threads j s.kernel))

  pub suspended_thread :
      (i j : ℕ) (s : Port Entry Init K)
      → i < 10
      → views.created s.kernel i ≡ true
      → Left views j
          (views.created s.kernel j)
          (if i == j then false else views.ready s.kernel j)
          (views.priority s.kernel j)
          (tm_thread_suspend kernel (pos i) s)
  unfolding tm_thread_suspend
  suspended_thread i j s h old = rw (inside_bounds 10 i h) (
      let works = threads.suspend_lem i j _ _ _ s.kernel h old (here kernel threads j s.kernel) in
      called_lem (At views j _ _ _) (kernel.thread_suspend (tm_thread i)) s works.0 works.1)

  -- The laws of include/tm_api.h hold of this layer, for both targets.
  unfoldable pub thread_laws : ThreadLaws (threadx_api {Entry = Entry} {Init = Init} kernel target)
  unfolding threadx_api
  thread_laws = record {
    created = λ s. views.created s.kernel;
    ready = λ s. views.ready s.kernel;
    priority = λ s. views.priority s.kernel;
    current = λ s. threads.current s.kernel;
    create_status = λ i q e s h hq c. (created_thread i q 0 e s h hq c).0;
    create_created = λ i q j e s h hq c. (created_thread i q j e s h hq c).1.created_at;
    create_ready = λ i q j e s h hq c. (created_thread i q j e s h hq c).1.ready_at;
    create_priority = λ i q j e s h hq c. (created_thread i q j e s h hq c).1.priority_at;
    resume_status = λ i s h c. (resumed_thread i 0 s h c).0;
    resume_created = λ i j s h c. (resumed_thread i j s h c).1.created_at;
    resume_ready = λ i j s h c. (resumed_thread i j s h c).1.ready_at;
    resume_priority = λ i j s h c. (resumed_thread i j s h c).1.priority_at;
    suspend_created = λ i j s h c. (suspended_thread i j s h c).1.created_at;
    suspend_ready = λ i j s h c. (suspended_thread i j s h c).1.ready_at;
    suspend_priority = λ i j s h c. (suspended_thread i j s h c).1.priority_at;
    current_ready = λ s. threads.current_ready s.kernel;
    current_best = λ s. threads.current_best s.kernel;
    current_some = λ s. threads.current_some s.kernel;
  }
