-- ===== src/Port/FreeRtos/Pool.antt =====
-- The memory pool of ports/freertos/tm_port.c, a list of free blocks threaded through the blocks.
pub mod FreeList
use thread_metric_benchmark.Base.{
  ℕ, zero, suc, ◌+◌, ◌-◌, ◌*◌, ◌/◌, Option, none, some, if◌then◌else◌, ℤ,
}
use thread_metric_benchmark.Api.{Status, tm_success, tm_error}
use thread_metric_benchmark.Port.FreeRtos.Kernel.{Port, update, out_of_bounds}

abbrev pub block_size : ℕ
block_size = 128

abbrev pub pool_size : ℕ
pool_size = 2048

abbrev pub block_count : ℕ
block_count = pool_size / block_size

-- The loop over `i`, with `left` rounds to go: block i points to block i + 1.
unfoldable pub link_blocks : (left i : ℕ) → (ℕ → Option ℕ) → ℕ → Option ℕ
link_blocks zero i next = next
link_blocks (suc left) i next =
    link_blocks left (i + 1) (update next (i * block_size) (some ((i + 1) * block_size)))

-- The last block ends the list.
unfoldable pub build_list : (ℕ → Option ℕ) → ℕ → Option ℕ
build_list next =
    update (link_blocks (block_count - 1) 0 next) ((block_count - 1) * block_size) none

module _ {Entry K : Type 0} where
  unfoldable pub tm_memory_pool_create : ℤ → Port Entry K → Status × Port Entry K
  unfolding build_list out_of_bounds
  tm_memory_pool_create pool_id s =
      if out_of_bounds 1 pool_id
      then (tm_error, s)
      else (tm_success, record s { pool_free = some 0; next = build_list s.next })

  -- `block == NULL` fails; otherwise the head of the list is taken off.
  unfoldable pub pop_block : Option ℕ → Port Entry K → Status × Option ℕ × Port Entry K
  pop_block none s = (tm_error, none, s)
  pop_block (some block) s = (tm_success, some block, record s { pool_free = s.next block })

  unfoldable pub tm_memory_pool_allocate : ℤ → Port Entry K → Status × Option ℕ × Port Entry K
  unfolding pop_block out_of_bounds
  tm_memory_pool_allocate pool_id s =
      if out_of_bounds 1 pool_id then (tm_error, none, s) else pop_block s.pool_free s

  unfoldable pub tm_memory_pool_deallocate : ℤ → ℕ → Port Entry K → Status × Port Entry K
  unfolding out_of_bounds
  tm_memory_pool_deallocate pool_id block s =
      if out_of_bounds 1 pool_id
      then (tm_error, s)
      else (tm_success, record s { next = update s.next block s.pool_free; pool_free = some block })
