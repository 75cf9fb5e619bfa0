-- ===== src/Port/ThreadX/Pool.antt =====
-- The memory pool of ports/threadx/tm_port.c against the laws of include/tm_api.h, on a kernel whose
-- block pools are those of the ThreadX manual.
use thread_metric_benchmark.Base.{
  ℕ, ◌+◌, ◌≤◌, ◌<◌, ◌≡◌, sym, ap, ◌∙◌, false, none, some, List, [], ◌∷◌, arith, ◌==◌, length, pos,
}
use mathlib.Core.Path.{subst}
use thread_metric_benchmark.Api.{tm_success, tm_error}
use thread_metric_benchmark.Api.Laws.{PoolLaws, Lacks}
use thread_metric_benchmark.Port.ThreadX.Kernel.{Kernel, Target, Port, returned, pool_size}
use thread_metric_benchmark.Port.ThreadX.Bracket.{called_works}
use thread_metric_benchmark.Port.ThreadX.Services.{
  threadx_api, tm_memory_pool_create, tm_memory_pool_allocate, tm_memory_pool_deallocate,
}

-- Pools by their number: `Free k i bs` says that the free blocks are `bs`, in this order. A pool has
-- a block at least if its memory has room for a block and a pointer. A block that is released goes
-- to the head of the list.
pub record PoolKernel {K : Type 0} (kernel : Kernel K) : Type 1 where
  pub Absent : K → ℕ → Type 0
  pub Free : K → ℕ → List ℕ → Type 0
  pub create_lem :
      (i block memory size : ℕ) (k : K)
      → Absent k i
      → block + 8 ≤ size
      → (bs : List ℕ) × ((kernel.block_pool_create i block memory size k).0 ≡ 0)
        × (0 < length bs)
        × Free (kernel.block_pool_create i block memory size k).1 i bs
  pub allocate_lem :
      (i b : ℕ) (bs : List ℕ) (k : K)
      → Free k i (b ∷ bs)
      → ((kernel.block_allocate i k).0 ≡ 0)
        × ((kernel.block_allocate i k).1 ≡ some b)
        × Free (kernel.block_allocate i k).2 i bs
        × Lacks b bs
  pub allocate_empty :
      (i : ℕ) (k : K)
      → Free k i []
      → (((kernel.block_allocate i k).0 == 0) ≡ false)
        × ((kernel.block_allocate i k).1 ≡ none)
        × Free (kernel.block_allocate i k).2 i []
  pub release_lem :
      (i b : ℕ) (bs : List ℕ) (k : K)
      → Free k i (b ∷ bs)
      → ((kernel.block_release b (kernel.block_allocate i k).2).0 ≡ 0)
        × Free (kernel.block_release b (kernel.block_allocate i k).2).1 i (b ∷ bs)

module _ {Entry Init K : Type 0} (kernel : Kernel K) (pool : PoolKernel kernel) where
  pub create_pool :
      (s : Port Entry Init K)
      → pool.Absent s.kernel 0
      → (s' : Port Entry Init K) × (bs : List ℕ) × (tm_memory_pool_create kernel (pos 0) s
          ≡ (tm_success, s'))
        × (0 < length bs)
        × pool.Free s'.kernel 0 bs
  unfolding tm_memory_pool_create
  create_pool s new =
      let (bs, e, some_block, free) =
        pool.create_lem 0 128 0 pool_size s.kernel new (omega arith) in
      let (s', e', free') =
        called_works (λ k. pool.Free k 0 bs) (kernel.block_pool_create 0 128 0 pool_size) s
          (e, free) in
      (s', bs, e', some_block, free')

  allocated :
      (b : ℕ) (s : Port Entry Init K)
      → ((kernel.block_allocate 0 s.kernel).0 ≡ 0)
      → ((kernel.block_allocate 0 s.kernel).1 ≡ some b)
      → tm_memory_pool_allocate kernel (pos 0) s
        ≡ (tm_success, some b, record s { kernel = (kernel.block_allocate 0 s.kernel).2 })
  unfolding tm_memory_pool_allocate returned
  allocated b s e f = rw (e, f)

  pub allocate_from_pool :
      (b : ℕ) (bs : List ℕ) (s : Port Entry Init K)
      → pool.Free s.kernel 0 (b ∷ bs)
      → (s' : Port Entry Init K) × (tm_memory_pool_allocate kernel (pos 0) s
          ≡ (tm_success, some b, s'))
        × pool.Free s'.kernel 0 bs
        × Lacks b bs
  allocate_from_pool b bs s free =
      let (e, f, rest, fresh) = pool.allocate_lem 0 b bs s.kernel free in
      (_, allocated b s e f, rest, fresh)

  pub allocate_from_empty :
      (s : Port Entry Init K)
      → pool.Free s.kernel 0 []
      → (s' : Port Entry Init K) × (tm_memory_pool_allocate kernel (pos 0) s ≡ (tm_error, none, s'))
        × pool.Free s'.kernel 0 []
  unfolding tm_memory_pool_allocate returned
  allocate_from_empty s free =
      let (e, f, still) = pool.allocate_empty 0 s.kernel free in
      (record s { kernel = (kernel.block_allocate 0 s.kernel).2 }, rw (e, f), still)

  pub release_to_pool :
      (b : ℕ) (bs : List ℕ) (s s' : Port Entry Init K)
      → pool.Free s.kernel 0 (b ∷ bs)
      → tm_memory_pool_allocate kernel (pos 0) s ≡ (tm_success, some b, s')
      → (s'' : Port Entry Init K) × (tm_memory_pool_deallocate kernel (pos 0) b s'
          ≡ (tm_success, s''))
        × pool.Free s''.kernel 0 (b ∷ bs)
  unfolding tm_memory_pool_deallocate
  release_to_pool b bs s s' free e =
      let (e₀, f₀, rest, fresh) = pool.allocate_lem 0 b bs s.kernel free in
      let same = ap (λ x. x.2) (sym (allocated b s e₀ f₀) ∙ e) in
      called_works (λ k. pool.Free k 0 (b ∷ bs)) (kernel.block_release b) s'
        (subst
          (λ (t : Port Entry Init K).
            ((kernel.block_release b t.kernel).0 ≡ 0)
            × pool.Free (kernel.block_release b t.kernel).1 0 (b ∷ bs))
          same (pool.release_lem 0 b bs s.kernel free))

  -- The laws of include/tm_api.h hold of this layer, for both targets.
  unfoldable pub pool_laws :
      (target : Target) → PoolLaws (threadx_api {Entry = Entry} {Init = Init} kernel target)
  unfolding threadx_api
  pool_laws target = record {
    Free = λ s bs. pool.Free s.kernel 0 bs;
    Absent = λ s. pool.Absent s.kernel 0;
    create_lem = create_pool;
    allocate_lem = allocate_from_pool;
    allocate_empty = allocate_from_empty;
    deallocate_lem = release_to_pool;
  }
