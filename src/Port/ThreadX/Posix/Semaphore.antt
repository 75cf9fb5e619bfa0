-- ===== src/Port/ThreadX/Posix/Semaphore.antt =====
-- The semaphores of ports/threadx/posix-host/tx_port.h, by their count. The pthread mutex inside a
-- semaphore makes each operation one step.
use thread_metric_benchmark.Base.{
  ℕ, zero, suc, ◌+◌, ◌-◌, ◌≤◌, ◌≡◌, refl, Option, none, some, arith, ltb, ◌==◌, if◌then◌else◌,
}

-- tx_posix_sem_post
unfoldable pub tx_posix_sem_post : ℕ → ℕ
tx_posix_sem_post count = count + 1

-- tx_posix_sem_wait: nothing as long as the pthread waits.
unfoldable pub tx_posix_sem_wait : ℕ → Option ℕ
tx_posix_sem_wait count = if count == 0 then none else some (count - 1)

-- tx_posix_sem_trywait: nothing for -1.
unfoldable pub tx_posix_sem_trywait : ℕ → Option ℕ
tx_posix_sem_trywait count = if ltb 0 count then some (count - 1) else none

-- The loop `while (!tx_posix_sem_trywait (s));`, for so many rounds at most.
unfoldable pub drain : (rounds count : ℕ) → ℕ
unfolding tx_posix_sem_trywait
drain zero count = count
drain (suc rounds) count = elim (tx_posix_sem_trywait count) [
  | some count' ↦ drain rounds count'
  | none ↦ count
]

-- As many rounds as the count has are enough for the loop to end, and then nothing is left.
pub drain_lem : (rounds count : ℕ) → count ≤ rounds → drain rounds count ≡ 0
unfolding drain tx_posix_sem_trywait
drain_lem zero count h = omega arith
drain_lem (suc rounds) zero h = refl
drain_lem (suc rounds) (suc count) h = ground (arith, drain_lem rounds count (omega arith))
