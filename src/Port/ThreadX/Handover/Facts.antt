-- ===== src/Port/ThreadX/Handover/Facts.antt =====
-- What the hand-over of ports/threadx/posix-host uses of the semaphores and of resting threads.
use thread_metric_benchmark.Base.{
  ℕ, zero, suc, ◌≡◌, refl, ◌≢◌, ◌⊎◌, inl, inr, Bool, true, false, some, arith,
}
use thread_metric_benchmark.Port.ThreadX.Posix.Semaphore.{tx_posix_sem_wait}
use thread_metric_benchmark.Port.ThreadX.Handover.{
  ThreadPc, parked, woken, running, yielding, drained, exited,
}
use thread_metric_benchmark.Port.ThreadX.Handover.Owner.{rests}

pub wait_some : (n count : ℕ) → tx_posix_sem_wait n ≡ some count → n ≡ suc count
unfolding tx_posix_sem_wait
wait_some zero count e = ground arith
wait_some (suc n) count e = ground arith

pub unmarked :
    (p : ThreadPc) (stopped : Bool) (run : ℕ)
    → rests p stopped run 0 ≡ true
    → ((p ≡ parked) ⊎ (p ≡ exited)) × (stopped ≡ false) × (run ≡ 0)
unfolding rests
unmarked parked false zero e = (inl refl, refl, refl)
unmarked parked false (suc run) e = ground arith
unmarked parked true run e = ground arith
unmarked exited false zero e = (inr refl, refl, refl)
unmarked exited false (suc run) e = ground arith
unmarked exited true run e = ground arith
unmarked woken stopped run e = ground arith
unmarked (yielding b) stopped run e = ground arith
unmarked (drained b) stopped run e = ground arith
unmarked running stopped run e = ground arith

pub marked :
    (p : ThreadPc) (stopped : Bool) (run mark : ℕ)
    → mark ≢ 0
    → rests p stopped run mark ≡ true
    → (p ≡ running) × (stopped ≡ true) × (run ≡ 0)
unfolding rests
marked running true zero mark n e = (refl, refl, refl)
marked running true (suc run) mark n e = ground arith
marked running false run mark n e = ground arith
marked parked stopped run mark n e = ground arith
marked exited stopped run mark n e = ground arith
marked woken stopped run mark n e = ground arith
marked (yielding b) stopped run mark n e = ground arith
marked (drained b) stopped run mark n e = ground arith

-- Taking a semaphore that is up is no matter of the resting threads.
pub resting_run :
    (p : ThreadPc) (stopped : Bool) (run mark : ℕ) → rests p stopped run mark ≡ true → run ≡ 0
unfolding rests
resting_run parked stopped zero mark e = refl
resting_run parked true (suc run) mark e = ground arith
resting_run parked false (suc run) mark e = ground arith
resting_run running stopped zero mark e = refl
resting_run running true (suc run) mark e = ground arith
resting_run running false (suc run) mark e = ground arith
resting_run exited stopped zero mark e = refl
resting_run exited true (suc run) mark e = ground arith
resting_run exited false (suc run) mark e = ground arith
resting_run woken stopped run mark e = ground arith
resting_run (yielding b) stopped run mark e = ground arith
resting_run (drained b) stopped run mark e = ground arith

pub same_rests :
    {p p' : ThreadPc} {b b' : Bool} {r r' m m' : ℕ}
    → p' ≡ p
    → b' ≡ b
    → r' ≡ r
    → m' ≡ m
    → rests p b r m ≡ true
    → rests p' b' r' m' ≡ true
same_rests e f g h x = rw (e, f, g, h) x
