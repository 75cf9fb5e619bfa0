-- ===== src/Port/ThreadX/Semaphore.antt =====
-- The semaphore of ports/threadx/tm_port.c against the laws of include/tm_api.h, on a kernel whose
-- semaphores are those of the ThreadX manual.
use thread_metric_benchmark.Base.{
  ℕ, suc, ◌-◌, ◌<◌, ◌≡◌, false, Option, none, some, arith, ◌==◌, pos, uint_mod,
}
use thread_metric_benchmark.Api.{tm_success, tm_error}
use thread_metric_benchmark.Api.Laws.{SemaphoreLaws}
use thread_metric_benchmark.Port.ThreadX.Kernel.{Kernel, Target, Port, tm_semaphore}
use thread_metric_benchmark.Port.ThreadX.Bracket.{
  IsStable, called_works, called_fails, in_context_works,
}
use thread_metric_benchmark.Port.ThreadX.Services.{
  threadx_api, tm_semaphore_create, tm_semaphore_get, tm_semaphore_put,
}

-- Counting semaphores for which no thread waits: created with a count, put adds one, get takes one
-- or fails. Neither the counters nor a return to the system touches them.
pub record SemaphoreKernel {K : Type 0} (kernel : Kernel K) : Type 0 where
  pub count : K → ℕ → Option ℕ
  pub create_lem :
      (i n : ℕ) (k : K)
      → count k i ≡ none
      → ((kernel.semaphore_create (tm_semaphore i) n k).0 ≡ 0)
        × (count (kernel.semaphore_create (tm_semaphore i) n k).1 i ≡ some n)
  pub get_lem :
      (i n : ℕ) (k : K)
      → count k i ≡ some (suc n)
      → ((kernel.semaphore_get (tm_semaphore i) k).0 ≡ 0)
        × (count (kernel.semaphore_get (tm_semaphore i) k).1 i ≡ some n)
  pub get_empty :
      (i : ℕ) (k : K)
      → count k i ≡ some 0
      → (((kernel.semaphore_get (tm_semaphore i) k).0 == 0) ≡ false)
        × (count (kernel.semaphore_get (tm_semaphore i) k).1 i ≡ some 0)
  pub put_lem :
      (i n : ℕ) (k : K)
      → n < uint_mod - 1
      → count k i ≡ some n
      → ((kernel.semaphore_put (tm_semaphore i) k).0 ≡ 0)
        × (count (kernel.semaphore_put (tm_semaphore i) k).1 i ≡ some (suc n))
  pub stable : (i : ℕ) (c : Option ℕ) → IsStable kernel (λ k. count k i ≡ c)
  pub return_lem : (i : ℕ) (k : K) → count (kernel.system_return k) i ≡ count k i

module _ {Entry Init K : Type 0} (kernel : Kernel K) (target : Target)
    (sem : SemaphoreKernel kernel) where
  abbrev pub count : Port Entry Init K → Option ℕ
  count s = sem.count s.kernel 0

  pub create_semaphore :
      (s : Port Entry Init K)
      → count s ≡ none
      → (s' : Port Entry Init K) × (tm_semaphore_create kernel (pos 0) s ≡ (tm_success, s'))
        × (count s' ≡ some 1)
  unfolding tm_semaphore_create
  create_semaphore s c =
      called_works (λ k. sem.count k 0 ≡ some 1) (kernel.semaphore_create (tm_semaphore 0) 1) s
        (sem.create_lem 0 1 s.kernel c)

  pub get_semaphore :
      (n : ℕ) (s : Port Entry Init K)
      → count s ≡ some (suc n)
      → (s' : Port Entry Init K) × (tm_semaphore_get kernel (pos 0) s ≡ (tm_success, s'))
        × (count s' ≡ some n)
  unfolding tm_semaphore_get
  get_semaphore n s c =
      called_works (λ k. sem.count k 0 ≡ some n) (kernel.semaphore_get (tm_semaphore 0)) s
        (sem.get_lem 0 n s.kernel c)

  pub get_semaphore_empty :
      (s : Port Entry Init K)
      → count s ≡ some 0
      → (s' : Port Entry Init K) × (tm_semaphore_get kernel (pos 0) s ≡ (tm_error, s'))
        × (count s' ≡ some 0)
  unfolding tm_semaphore_get
  get_semaphore_empty s c =
      called_fails (λ k. sem.count k 0 ≡ some 0) (kernel.semaphore_get (tm_semaphore 0)) s
        (sem.get_empty 0 s.kernel c)

  pub put_semaphore :
      (s : Port Entry Init K)
      → count s ≡ some 0
      → (s' : Port Entry Init K) × (tm_semaphore_put kernel target (pos 0) s ≡ (tm_success, s'))
        × (count s' ≡ some 1)
  unfolding tm_semaphore_put
  put_semaphore s c =
      in_context_works kernel (λ k. sem.count k 0 ≡ some 0) (λ k. sem.count k 0 ≡ some 1) target
        (kernel.semaphore_put (tm_semaphore 0)) s (sem.stable 0 (some 0)) (sem.stable 0 (some 1))
        (λ k h. sem.put_lem 0 0 k (omega arith) h) c

  -- The laws of include/tm_api.h hold of this layer, for both targets.
  unfoldable pub semaphore_laws :
      SemaphoreLaws (threadx_api {Entry = Entry} {Init = Init} kernel target)
  unfolding threadx_api
  semaphore_laws = record {
    count = count;
    create_lem = create_semaphore;
    get_lem = get_semaphore;
    get_empty = get_semaphore_empty;
    put_lem = put_semaphore;
  }
