-- ===== src/Port/FreeRtos/Pool/FreeList.antt =====
-- The free list of ports/freertos/tm_port.c as a list of distinct blocks.
use thread_metric_benchmark.Base.{
  ℕ, zero, suc, ◌+◌, ◌*◌, ◌≤◌, ◌<◌, ◌≡◌, refl, sym, ap, ◌∙◌, Option, none, some, List, [], ◌∷◌,
  arith, length, pos,
}
use mathlib.Core.Path.{subst}
use native.Mathlib.Decide.{dec_lt}
use thread_metric_benchmark.Api.{Status, tm_success, tm_error}
use thread_metric_benchmark.Api.Laws.{Lacks}
use thread_metric_benchmark.Port.FreeRtos.Kernel.{Port, update}
use thread_metric_benchmark.Port.FreeRtos.Pool.{
  link_blocks, build_list, block_size, tm_memory_pool_create, tm_memory_pool_allocate,
  tm_memory_pool_deallocate,
}

-- The blocks that the list at `head` goes through, each once, up to NULL.
abbrev pub Chain : (ℕ → Option ℕ) → Option ℕ → List ℕ → Type 0
Chain next head [] = head ≡ none
Chain next head (b ∷ bs) = (head ≡ some b) × Lacks b bs × Chain next (next b) bs

abbrev pub Free : {Entry K : Type 0} → Port Entry K → List ℕ → Type 0
Free s bs = Chain s.next s.pool_free bs

-- A write to a block that is not in the list changes nothing of it.
Chain-update :
    (next : ℕ → Option ℕ) (b : ℕ) (v head : Option ℕ) (bs : List ℕ)
    → Lacks b bs
    → Chain next head bs
    → Chain (update next b v) head bs
Chain-update next b v head [] l h = h
Chain-update next b v head (c ∷ bs) l h = (
  h.0,
  h.1,
  subst (λ o. Chain (update next b v) o bs) (ground arith)
      (Chain-update next b v (next c) bs l.1 h.2),
)

-- The blocks from number `i` on, `n` of them.
unfoldable pub blocks_from : ℕ → ℕ → List ℕ
blocks_from zero i = []
blocks_from (suc n) i = i * block_size ∷ blocks_from n (i + 1)

blocks_from-Lacks : (n i j : ℕ) → j < i → Lacks (j * block_size) (blocks_from n i)
unfolding blocks_from
blocks_from-Lacks zero i j h = tt
blocks_from-Lacks (suc n) i j h = ((λ e. omega arith), blocks_from-Lacks n (i + 1) j (omega arith))

link_blocks-before :
    (left i j : ℕ) (next : ℕ → Option ℕ)
    → j < i
    → link_blocks left i next (j * block_size) ≡ next (j * block_size)
unfolding link_blocks
link_blocks-before zero i j next h = refl
link_blocks-before (suc left) i j next h =
    link_blocks-before left (i + 1) j _ (omega arith) ∙ ground arith

-- Every block but the last points to the one behind it.
link_blocks-at :
    (left i j : ℕ) (next : ℕ → Option ℕ)
    → i ≤ j
    → j < i + left
    → link_blocks left i next (j * block_size) ≡ some ((j + 1) * block_size)
unfolding link_blocks
link_blocks-at zero i j next lo hi = absurd (omega arith)
link_blocks-at (suc left) i j next lo hi = elim (dec_lt i j) [
  | yes later ↦ link_blocks-at left (i + 1) j _ (omega arith) (omega arith)
  | no here ↦ link_blocks-before left (i + 1) j _ (omega arith) ∙ ground arith
]

Chain-blocks_from :
    (next : ℕ → Option ℕ) (count n i : ℕ)
    → i + suc n ≡ count
    → ((j : ℕ) → j + 1 < count → next (j * block_size) ≡ some ((j + 1) * block_size))
    → ((j : ℕ) → j + 1 ≡ count → next (j * block_size) ≡ none)
    → Chain next (some (i * block_size)) (blocks_from (suc n) i)
unfolding blocks_from
Chain-blocks_from next count zero i e linked last = (refl, tt, last i (omega arith))
Chain-blocks_from next count (suc n) i e linked last = (
  refl,
  blocks_from-Lacks (suc n) (i + 1) i (omega arith),
  rw (linked i (omega arith)) (Chain-blocks_from next count n (i + 1) (omega arith) linked last),
)

build_list-at :
    (next : ℕ → Option ℕ) (j : ℕ)
    → j + 1 < 16
    → build_list next (j * block_size) ≡ some ((j + 1) * block_size)
build_list-at next j h =
    unfold build_list in ground (arith, link_blocks-at 15 0 j next (omega arith) (omega arith))

build_list-last :
    (next : ℕ → Option ℕ) (j : ℕ) → j + 1 ≡ 16 → build_list next (j * block_size) ≡ none
build_list-last next j h = unfold build_list in ground arith

module _ {Entry K : Type 0} where
  -- The creation of pool 0 succeeds from every state, and its free list then goes through the
  -- sixteen blocks of 128 bytes, each once, in the order of their addresses.
  pub create_Free :
      (s : Port Entry K)
      → (s' : Port Entry K) × (tm_memory_pool_create (pos 0) s ≡ (tm_success, s'))
        × Free s' (blocks_from 16 0)
  create_Free s = (
    record s { pool_free = some 0; next = build_list s.next },
    unfold tm_memory_pool_create in refl,
    Chain-blocks_from (build_list s.next) 16 15 0 refl (build_list-at s.next)
        (build_list-last s.next),
  )

  -- If the free list of pool 0 goes through b and bs, an allocation succeeds with block b, the
  -- free list then goes through bs, and b is not in it.
  pub allocate_Free :
      (b : ℕ) (bs : List ℕ) (s : Port Entry K)
      → Free s (b ∷ bs)
      → (s' : Port Entry K) × (tm_memory_pool_allocate (pos 0) s ≡ (tm_success, some b, s'))
        × Free s' bs
        × Lacks b bs
  unfolding tm_memory_pool_allocate
  allocate_Free b bs s h = (record s { pool_free = s.next b }, rw h.0, h.2, h.1)

  pub allocate_empty :
      (s : Port Entry K) → Free s [] → tm_memory_pool_allocate (pos 0) s ≡ (tm_error, none, s)
  unfolding tm_memory_pool_allocate
  allocate_empty s h = rw h

  -- If the free list of pool 0 goes through bs and b is not in it, the release of b succeeds and
  -- the free list then goes through b and bs.
  pub deallocate_Free :
      (b : ℕ) (bs : List ℕ) (s : Port Entry K)
      → Free s bs
      → Lacks b bs
      → (s' : Port Entry K) × (tm_memory_pool_deallocate (pos 0) b s ≡ (tm_success, s'))
        × Free s' (b ∷ bs)
  unfolding tm_memory_pool_deallocate
  deallocate_Free b bs s h l = (
    record s { next = update s.next b s.pool_free; pool_free = some b },
    refl,
    (
      refl,
      l,
      subst (λ o. Chain (update s.next b s.pool_free) o bs) (ground arith)
          (Chain-update s.next b s.pool_free s.pool_free bs l h),
    ),
  )

  same_rest :
      {x : Status × Option ℕ × Port Entry K} (st st' : Status) (o o' : Option ℕ)
      (s s' : Port Entry K)
      → x ≡ (st, o, s)
      → x ≡ (st', o', s')
      → s ≡ s'
  same_rest st st' o o' s s' e e' = ap (λ (y : Status × Option ℕ × Port Entry K). y.2) (sym e ∙ e')

  -- If the free list of pool 0 goes through b and bs and an allocation has returned b, the release
  -- of b succeeds and restores the free list b and bs.
  pub deallocate-allocate :
      (b : ℕ) (bs : List ℕ) (s s' : Port Entry K)
      → Free s (b ∷ bs)
      → tm_memory_pool_allocate (pos 0) s ≡ (tm_success, some b, s')
      → (s'' : Port Entry K) × (tm_memory_pool_deallocate (pos 0) b s' ≡ (tm_success, s''))
        × Free s'' (b ∷ bs)
  deallocate-allocate b bs s s' h e =
      let (s₁, e₁, rest, others) = allocate_Free b bs s h in
      deallocate_Free b bs s'
        (subst (λ t. Free t bs) (same_rest tm_success tm_success (some b) (some b) s₁ s' e₁ e) rest)
        others

pub length-blocks_from : (n i : ℕ) → length (blocks_from n i) ≡ n
unfolding blocks_from
length-blocks_from zero i = refl
length-blocks_from (suc n) i = ap suc (length-blocks_from n (i + 1))
