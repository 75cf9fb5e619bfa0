-- ===== src/Api/Laws.antt =====
-- What include/tm_api.h promises of the services, as views of the state and laws over them.
use thread_metric_benchmark.Base.{
  ℕ, suc, ◌≤◌, ◌<◌, ◌≡◌, ◌≢◌, Bool, true, false, Option, none, some, List, [], ◌∷◌, ◌++◌, ◌==◌,
  if◌then◌else◌, length, All, pos,
}
use thread_metric_benchmark.Api.{tm_success, tm_error, Message, Api}

-- Threads and the scheduler. A thread that has not been created is not ready.
pub record ThreadLaws {Entry S : Type 0} (api : Api Entry S) : Type 0 where
  pub created : S → ℕ → Bool
  pub ready : S → ℕ → Bool
  pub priority : S → ℕ → ℕ
  -- the thread that the scheduler runs
  pub current : S → Option ℕ
  pub create_status :
      (i q : ℕ) (e : Entry) (s : S)
      → i < 10
      → (1 ≤ q) × (q ≤ 31)
      → created s i ≡ false
      → (api.thread_create (pos i) (pos q) e s).0 ≡ tm_success
  pub create_created :
      (i q j : ℕ) (e : Entry) (s : S)
      → i < 10
      → (1 ≤ q) × (q ≤ 31)
      → created s i ≡ false
      → created (api.thread_create (pos i) (pos q) e s).1 j ≡ (if i == j then true else created s j)
  pub create_ready :
      (i q j : ℕ) (e : Entry) (s : S)
      → i < 10
      → (1 ≤ q) × (q ≤ 31)
      → created s i ≡ false
      → ready (api.thread_create (pos i) (pos q) e s).1 j ≡ (if i == j then false else ready s j)
  pub create_priority :
      (i q j : ℕ) (e : Entry) (s : S)
      → i < 10
      → (1 ≤ q) × (q ≤ 31)
      → created s i ≡ false
      → priority (api.thread_create (pos i) (pos q) e s).1 j ≡ (if i == j then q else priority s j)
  pub resume_status :
      (i : ℕ) (s : S) → i < 10 → created s i ≡ true → (api.thread_resume (pos i) s).0 ≡ tm_success
  pub resume_created :
      (i j : ℕ) (s : S)
      → i < 10
      → created s i ≡ true
      → created (api.thread_resume (pos i) s).1 j ≡ created s j
  pub resume_ready :
      (i j : ℕ) (s : S)
      → i < 10
      → created s i ≡ true
      → ready (api.thread_resume (pos i) s).1 j ≡ (if i == j then true else ready s j)
  pub resume_priority :
      (i j : ℕ) (s : S)
      → i < 10
      → created s i ≡ true
      → priority (api.thread_resume (pos i) s).1 j ≡ priority s j
  pub suspend_created :
      (i j : ℕ) (s : S)
      → i < 10
      → created s i ≡ true
      → created (api.thread_suspend (pos i) s).1 j ≡ created s j
  pub suspend_ready :
      (i j : ℕ) (s : S)
      → i < 10
      → created s i ≡ true
      → ready (api.thread_suspend (pos i) s).1 j ≡ (if i == j then false else ready s j)
  pub suspend_priority :
      (i j : ℕ) (s : S)
      → i < 10
      → created s i ≡ true
      → priority (api.thread_suspend (pos i) s).1 j ≡ priority s j
  -- the scheduler runs a ready thread of the best (least) priority
  pub current_ready : (s : S) (i : ℕ) → current s ≡ some i → ready s i ≡ true
  pub current_best :
      (s : S) (i j : ℕ) → current s ≡ some i → ready s j ≡ true → priority s i ≤ priority s j
  pub current_some : (s : S) (j : ℕ) → ready s j ≡ true → (i : ℕ) × (current s ≡ some i)

-- The queue 0: first in, first out, of `capacity` messages or more. `Holds s ms` says that it
-- exists, holds `ms` and has this room.
pub record QueueLaws {Entry S : Type 0} (api : Api Entry S) : Type 1 where
  -- the queue may be created
  pub Absent : S → Type 0
  pub Holds : S → List Message → Type 0
  pub capacity : ℕ
  pub room : 0 < capacity
  pub create_lem :
      (s : S) → Absent s → (s' : S) × (api.queue_create (pos 0) s ≡ (tm_success, s')) × Holds s' []
  pub send_lem :
      (m : Message) (ms : List Message) (s : S)
      → Holds s ms
      → length ms < capacity
      → (s' : S) × (api.queue_send (pos 0) m s ≡ (tm_success, s')) × Holds s' (ms ++ m ∷ [])
  pub receive_lem :
      (m : Message) (ms : List Message) (s : S)
      → Holds s (m ∷ ms)
      → (s' : S) × (api.queue_receive (pos 0) s ≡ (tm_success, some m, s')) × Holds s' ms

-- The semaphore 0, which is created with the count 1. A port may bound the count by 1.
pub record SemaphoreLaws {Entry S : Type 0} (api : Api Entry S) : Type 0 where
  pub count : S → Option ℕ
  pub create_lem :
      (s : S)
      → count s ≡ none
      → (s' : S) × (api.semaphore_create (pos 0) s ≡ (tm_success, s')) × (count s' ≡ some 1)
  pub get_lem :
      (n : ℕ) (s : S)
      → count s ≡ some (suc n)
      → (s' : S) × (api.semaphore_get (pos 0) s ≡ (tm_success, s')) × (count s' ≡ some n)
  pub get_empty :
      (s : S)
      → count s ≡ some 0
      → (s' : S) × (api.semaphore_get (pos 0) s ≡ (tm_error, s')) × (count s' ≡ some 0)
  pub put_lem :
      (s : S)
      → count s ≡ some 0
      → (s' : S) × (api.semaphore_put (pos 0) s ≡ (tm_success, s')) × (count s' ≡ some 1)

abbrev pub Lacks : ℕ → List ℕ → Type 0
Lacks b = All (λ c. c ≢ b)

-- The memory pool 0: `Free s bs` says that the blocks that can be allocated are `bs`, in this
-- order. A block that is given back can be allocated again.
pub record PoolLaws {Entry S : Type 0} (api : Api Entry S) : Type 1 where
  pub Free : S → List ℕ → Type 0
  -- the pool may be created
  pub Absent : S → Type 0
  pub create_lem :
      (s : S)
      → Absent s
      → (s' : S) × (bs : List ℕ) × (api.memory_pool_create (pos 0) s ≡ (tm_success, s'))
        × (0 < length bs)
        × Free s' bs
  pub allocate_lem :
      (b : ℕ) (bs : List ℕ) (s : S)
      → Free s (b ∷ bs)
      → (s' : S) × (api.memory_pool_allocate (pos 0) s ≡ (tm_success, some b, s'))
        × Free s' bs
        × Lacks b bs
  pub allocate_empty :
      (s : S)
      → Free s []
      → (s' : S) × (api.memory_pool_allocate (pos 0) s ≡ (tm_error, none, s')) × Free s' []
  pub deallocate_lem :
      (b : ℕ) (bs : List ℕ) (s s' : S)
      → Free s (b ∷ bs)
      → api.memory_pool_allocate (pos 0) s ≡ (tm_success, some b, s')
      → (s'' : S) × (api.memory_pool_deallocate (pos 0) b s' ≡ (tm_success, s''))
        × Free s'' (b ∷ bs)
