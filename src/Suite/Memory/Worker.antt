-- ===== src/Suite/Memory/Worker.antt =====
-- The allocation thread of src/memory_allocation.c.
use thread_metric_benchmark.Base.{
  ℕ, zero, suc, ◌%◌, ◌≡◌, ap, ◌∙◌, Option, none, some, List, ◌∷◌, arith, pos, ulong_mod, add_ulong,
}
use thread_metric_benchmark.Api.{Status, tm_success, tm_error, Api}
use thread_metric_benchmark.Api.Laws.{PoolLaws}
use thread_metric_benchmark.Suite.Rounds.{Work, working, stopped, repeat, repeat-working}

-- `tm_memory_allocation_counter`, and the local `memory_ptr`, which holds no value at first.
pub record Globals : Type 0 where
  pub counter : ℕ
  pub memory_ptr : Option ℕ

-- Behind the release.
unfoldable pub after_deallocate : {S : Type 0} → Status → Globals → S → Work Globals S
after_deallocate tm_error g s = stopped g s
after_deallocate tm_success g s = working (record g { counter = add_ulong g.counter 1 }) s

-- Behind an allocation that wrote `block` through the pointer; a pointer that was never written
-- is not passed on.
unfoldable pub deallocate :
    {Entry S : Type 0} → Api Entry S → Option ℕ → Globals → S → Work Globals S
unfolding after_deallocate
deallocate api none g s = stopped g s
deallocate api (some b) g s =
    let (status, s') = api.memory_pool_deallocate (pos 0) b s in after_deallocate status g s'

unfoldable pub store_block : Option ℕ → Globals → Globals
store_block none g = g
store_block (some b) g = record g { memory_ptr = some b }

-- Behind the allocation.
unfoldable pub after_allocate :
    {Entry S : Type 0} → Api Entry S → Status → Globals → S → Work Globals S
unfolding deallocate
after_allocate api tm_error g s = stopped g s
after_allocate api tm_success g s = deallocate api g.memory_ptr g s

-- One round of `while (1)`.
unfoldable pub memory_round : {Entry S : Type 0} → Api Entry S → Globals → S → Work Globals S
unfolding after_allocate store_block
memory_round api g s =
    let (status, out, s') = api.memory_pool_allocate (pos 0) s in
    after_allocate api status (store_block out g) s'

unfoldable pub tm_memory_allocation_thread_0_entry :
    {Entry S : Type 0} → Api Entry S → ℕ → Globals → S → Work Globals S
unfolding memory_round
tm_memory_allocation_thread_0_entry api rounds g s = repeat (memory_round api) rounds g s

-- The thread uses the same block in every round.
abbrev pub globals_at : Option ℕ → ℕ → ℕ → Globals
globals_at old b zero = record { counter = 0; memory_ptr = old }
globals_at old b (suc k) = record { counter = suc k % ulong_mod; memory_ptr = some b }

globals_at-suc :
    (old : Option ℕ) (b k : ℕ)
    → record { counter = add_ulong (globals_at old b k).counter 1; memory_ptr = some b }
      ≡ globals_at old b (suc k)
globals_at-suc old b zero = ground arith
globals_at-suc old b (suc k) = ground arith

module _ {Entry S : Type 0} (api : Api Entry S) (laws : PoolLaws api) where
  round_step :
      (g : Globals) (b : ℕ) (s s₁ s₂ : S)
      → api.memory_pool_allocate (pos 0) s ≡ (tm_success, some b, s₁)
      → api.memory_pool_deallocate (pos 0) b s₁ ≡ (tm_success, s₂)
      → memory_round api g s
        ≡ working (record { counter = add_ulong g.counter 1; memory_ptr = some b }) s₂
  unfolding memory_round
  round_step g b s s₁ s₂ allocated released = rw (allocated, released)

  -- A round takes the first free block and gives it back.
  memory_round_lem :
      (g : Globals) (b : ℕ) (bs : List ℕ) (s : S)
      → laws.Free s (b ∷ bs)
      → (s' : S) × (memory_round api g s
          ≡ working (record { counter = add_ulong g.counter 1; memory_ptr = some b }) s')
        × laws.Free s' (b ∷ bs)
  memory_round_lem g b bs s i =
      let (s₁, allocated, rest, others) = laws.allocate_lem b bs s i in
      let (s₂, released, back) = laws.deallocate_lem b bs s s₁ i allocated in
      (s₂, round_step g b s s₁ s₂ allocated released, back)

  -- On a layer that keeps the laws of the pool, from a zero counter and a pool with a free block
  -- the thread never leaves its loop: after n rounds it has counted n allocations modulo 2 ^ 64,
  -- and the pool has the free blocks that it had.
  pub memory_allocation_thread_lem :
      (n b : ℕ) (bs : List ℕ) (g : Globals) (s : S)
      → g.counter ≡ 0
      → laws.Free s (b ∷ bs)
      → (s' : S) × (tm_memory_allocation_thread_0_entry api n g s
          ≡ working (globals_at g.memory_ptr b n) s')
        × laws.Free s' (b ∷ bs)
  memory_allocation_thread_lem n b bs g s c i =
      unfold tm_memory_allocation_thread_0_entry in
      (let (s', e, i') =
          repeat-working (memory_round api) (globals_at g.memory_ptr b) (λ t. laws.Free t (b ∷ bs))
            (λ k t j.
              let (t', e, j') = memory_round_lem (globals_at g.memory_ptr b k) b bs t j in
              (t', e ∙ ap (λ h. working h t') (globals_at-suc g.memory_ptr b k), j'))
            n 0 n s (omega arith) i in
        (s', ap (λ h. repeat (memory_round api) n (record g { counter = h }) s) c ∙ e, i'))
