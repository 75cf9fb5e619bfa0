-- ===== src/Port/ThreadX/Shells.antt =====
-- tm_thread_create and tm_thread_entry of ports/threadx/tm_port.c: the shell that the kernel runs
-- finds the thread's function.
use thread_metric_benchmark.Base.{ℕ, ◌≤◌, ◌<◌, ◌≡◌, true, false, some, arith, ◌==◌, pos}
use thread_metric_benchmark.Port.ThreadX.Kernel.{Kernel, Port}
use thread_metric_benchmark.Port.ThreadX.Services.{tm_thread_create}
use thread_metric_benchmark.Port.ThreadX.Entry.{tm_thread_entry}
use thread_metric_benchmark.Port.ThreadX.Threads.{inside_bounds, inside_priorities}

same_number : (i : ℕ) → (i == i) ≡ true
same_number i = ground arith

module _ {Entry Init K R : Type 0} (kernel : Kernel K) (run : Entry → Port Entry Init K → R) where
  -- On the ThreadX layer over any kernel, behind a call that creates a thread with a number from 0
  -- to 9 and a priority from 1 to 31, whatever its status: the shell with this number runs the
  -- function that the call was given, and the shells with other numbers run what they ran before.
  pub thread_entry-create :
      (i q j : ℕ) (e : Entry) (s : Port Entry Init K)
      → i < 10
      → (1 ≤ q) × (q ≤ 31)
      → (i == j) ≡ false
      → (tm_thread_entry run i (tm_thread_create kernel (pos i) (pos q) e s).1
          ≡ some (run e (tm_thread_create kernel (pos i) (pos q) e s).1))
        × ((tm_thread_create kernel (pos i) (pos q) e s).1.entries j ≡ s.entries j)
  thread_entry-create i q j e s h hq other =
      unfold tm_thread_entry tm_thread_create in
      rw (inside_bounds 10 i h, inside_priorities q hq) (rw (same_number i), rw other)
