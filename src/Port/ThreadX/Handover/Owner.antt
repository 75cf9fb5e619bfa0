-- ===== src/Port/ThreadX/Handover/Owner.antt =====
-- Which pthread of ports/threadx/posix-host has the processor: the states that the hand-over goes
-- through.
use thread_metric_benchmark.Base.{
  ℕ, ◌≡◌, ◌≢◌, ◌⊎◌, inl, inr, Bool, true, false, not, ◌&&◌, none, some, arith, ◌==◌, ==_iff,
  Bool-cases,
}
use mathlib.Core.Path.{subst}
use thread_metric_benchmark.Port.ThreadX.Handover.{
  SchedulerPc, choosing, handing, handed, inside, ThreadPc, parked, woken, running, yielding,
  drained, exited, System, Goes,
}

-- A thread that does not have the processor: it waits for its semaphore, was stopped by a signal
-- and is marked so, or has ended.
unfoldable pub rests : ThreadPc → (stopped : Bool) (run mark : ℕ) → Bool
rests parked stopped run mark = not stopped && (run == 0) && (mark == 0)
rests woken stopped run mark = false
rests running stopped run mark = stopped && (run == 0) && not (mark == 0)
rests (yielding terminated) stopped run mark = false
rests (drained terminated) stopped run mark = false
rests exited stopped run mark = not stopped && (run == 0) && (mark == 0)

abbrev pub IsResting : System → ℕ → Type 0
IsResting s i =
    rests (s.pc i) (s.stopped i) (s.kernel.run_semaphore i) (s.kernel.suspension_type i) ≡ true

-- The thread `t` has the processor, or gets it, or gives it back; no other has.
pub record Holds (s : System) (t : ℕ) (p : ThreadPc) (stopped : Bool) (run semaphore : ℕ)
    : Type 0 where
  pub pc : s.pc t ≡ p
  pub stop : s.stopped t ≡ stopped
  pub run_lem : s.kernel.run_semaphore t ≡ run
  pub semaphore_lem : s.kernel.semaphore ≡ semaphore
  pub others : (i : ℕ) → (t == i) ≡ false → IsResting s i

pub data Choosing (s : System) : Type 0 where
  free : s.current ≡ none → s.kernel.semaphore ≡ 0 → ((i : ℕ) → IsResting s i) → Choosing s

pub data Handing (s : System) : Type 0 where
  offered :
      (t : ℕ) (p : ThreadPc)
      → s.current ≡ some t
      → s.timer ≢ inside
      → (p ≡ parked) ⊎ (p ≡ exited)
      → Holds s t p false 1 0
      → Handing s
  taken : (t : ℕ) → s.current ≡ some t → s.timer ≢ inside → Holds s t woken false 0 0 → Handing s
  told : (t : ℕ) → s.current ≡ some t → s.timer ≢ inside → Holds s t running false 0 1 → Handing s

pub data Handed (s : System) : Type 0 where
  runs : (t : ℕ) → s.current ≡ some t → s.timer ≢ inside → Holds s t running false 0 0 → Handed s
  halts : (t : ℕ) → s.current ≡ some t → s.timer ≡ inside → Holds s t running true 0 0 → Handed s
  yields :
      (t : ℕ) (terminated : Bool)
      → s.current ≡ none
      → s.kernel.suspension_type t ≡ 0
      → Holds s t (yielding terminated) false 0 0
      → Handed s
  drains :
      (t : ℕ) (terminated : Bool)
      → s.current ≡ none
      → s.kernel.suspension_type t ≡ 0
      → Holds s t (drained terminated) false 0 0
      → Handed s
  back : s.current ≡ none → s.kernel.semaphore ≡ 1 → ((i : ℕ) → IsResting s i) → Handed s

unfoldable pub At : SchedulerPc → System → Type 0
At choosing s = Choosing s
At handing s = Handing s
At handed s = Handed s

abbrev pub IsHandedOver : System → Type 0
IsHandedOver s = At s.sched s

-- Behind its semaphore, and not ended.
unfoldable pub active : ThreadPc → Bool
active parked = false
active woken = true
active running = true
active (yielding terminated) = true
active (drained terminated) = true
active exited = false

resting_pc :
    (p q : ThreadPc) (run mark : ℕ) → p ≡ q → active q ≡ true → rests p false run mark ≢ true
unfolding rests active
resting_pc p woken run mark e a r = ground arith
resting_pc p running run mark e a r = ground arith
resting_pc p (yielding b) run mark e a r = ground arith
resting_pc p (drained b) run mark e a r = ground arith
resting_pc p parked run mark e a r = ground arith
resting_pc p exited run mark e a r = ground arith

-- A thread that goes, behind its semaphore, does not rest.
pub not-IsResting :
    (s : System) (t : ℕ) (p : ThreadPc) → Goes s t p → active p ≡ true → ¬ IsResting s t
not-IsResting s t p g a r =
    resting_pc (s.pc t) p (s.kernel.run_semaphore t) (s.kernel.suspension_type t) g.0 a (
      subst (λ b. rests (s.pc t) b (s.kernel.run_semaphore t) (s.kernel.suspension_type t) ≡ true)
        g.1 r)

-- Such a thread is the one that has the processor.
pub active-owner :
    (s : System) (t u : ℕ) (p : ThreadPc)
    → ((i : ℕ) → (t == i) ≡ false → IsResting s i)
    → Goes s u p
    → active p ≡ true
    → t ≡ u
active-owner s t u p others g a = elim (Bool-cases (t == u)) [
  | inl same ↦ (==_iff t u).0 same
  | inr other ↦ absurd (not-IsResting s u p g a (others u other))
]
