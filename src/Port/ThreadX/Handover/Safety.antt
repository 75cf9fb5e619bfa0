-- ===== src/Port/ThreadX/Handover/Safety.antt =====
-- One thread at a time has the processor in ports/threadx/posix-host.
use mathlib.Core.Path.{subst}
use thread_metric_benchmark.Base.{
  ℕ, ◌≡◌, refl, sym, ◌∙◌, ◌≢◌, inl, inr, Bool, true, false, none, some,
}
use thread_metric_benchmark.Port.ThreadX.Handover.{
  SchedulerPc, choosing, handing, handed, outside, ThreadPc, parked, running, System, Goes, Step,
  offer, wake, hand_over, come_back, take, tell, yield, stale, empty, notify, save, restore_idle,
  restore_same, restore_other, interrupt_over, work, Reach, here, later,
}
use thread_metric_benchmark.Port.ThreadX.Handover.Owner.{
  rests, Holds, free, offered, taken, told, runs, halts, yields, drains, back, At, IsHandedOver,
  active, not-IsResting,
}
use thread_metric_benchmark.Port.ThreadX.Handover.Steps.{
  offer-Handing, wake-Handed, hand_over-Handed, come_back-Choosing,
}
use thread_metric_benchmark.Port.ThreadX.Handover.Threads.{take-At, tell-At, owner-place}
use thread_metric_benchmark.Port.ThreadX.Handover.Yields.{
  running-current, yield-At, empty-At, notify-At,
}
use thread_metric_benchmark.Port.ThreadX.Handover.Interrupts.{
  save-At, restore_idle-At, restore_same-At,
}
use thread_metric_benchmark.Port.ThreadX.Handover.Preemptions.{restore_other-At, kept-At}

Step-IsHandedOver : {s u : System} → Step s u → IsHandedOver s → IsHandedOver u
unfolding At
Step-IsHandedOver {s} (offer t e quiet x m) h = offer-Handing s t (subst (λ p. At p s) e h) quiet m
Step-IsHandedOver {s} (wake t e quiet x m) h = wake-Handed s t (subst (λ p. At p s) e h) quiet m
Step-IsHandedOver {s} (hand_over count e w) h = hand_over-Handed s count (subst (λ p. At p s) e h) w
Step-IsHandedOver {s} (come_back count e w) h =
    come_back-Choosing s count (subst (λ p. At p s) e h) w
Step-IsHandedOver {s} (take t count g w) h = take-At s s.sched t count h g w
Step-IsHandedOver {s} (tell t g) h = tell-At s s.sched t h g
Step-IsHandedOver {s} (yield t g n c) h = yield-At s s.sched t h n g
Step-IsHandedOver {s} (stale t g n c) h = absurd (c (running-current s s.sched t h n g).1)
Step-IsHandedOver {s} (empty t b g) h = empty-At s s.sched t b h g
Step-IsHandedOver {s} (notify t b g n) h = notify-At s s.sched t b h n g
Step-IsHandedOver {s} (save o n) h = save-At s s.sched h o n
Step-IsHandedOver {s} (restore_idle i n c) h = restore_idle-At s s.sched h n c
Step-IsHandedOver {s} (restore_same t i n c k) h = restore_same-At s s.sched t h i n c
Step-IsHandedOver {s} (restore_other t i n c k) h = restore_other-At s s.sched t h i n c
Step-IsHandedOver {s} (interrupt_over count o n w) h =
    kept-At s s.sched outside _ h n (inr (refl, λ i. cc (o, i))) refl refl refl
Step-IsHandedOver {s} (work w n k) h =
    kept-At s s.sched s.timer w h n (inl refl) k.semaphore k.run_semaphore k.suspension_type

pub Reach-IsHandedOver : {s u : System} → IsHandedOver s → Reach s u → IsHandedOver u
Reach-IsHandedOver h here = h
Reach-IsHandedOver h (later r st) = Step-IsHandedOver st (Reach-IsHandedOver h r)

-- The scheduler is at its first choice, no thread has run, and no semaphore is up.
pub record IsStart (s : System) : Type 0 where
  pub sched : s.sched ≡ choosing
  pub current : s.current ≡ none
  pub semaphore : s.kernel.semaphore ≡ 0
  pub threads : (i : ℕ) → (s.pc i ≡ parked) × (s.stopped i ≡ false)
  pub run_semaphore : (i : ℕ) → s.kernel.run_semaphore i ≡ 0
  pub suspension_type : (i : ℕ) → s.kernel.suspension_type i ≡ 0

parked_rests :
    (p : ThreadPc) (stopped : Bool) (run mark : ℕ)
    → p ≡ parked
    → stopped ≡ false
    → run ≡ 0
    → mark ≡ 0
    → rests p stopped run mark ≡ true
unfolding rests
parked_rests p stopped run mark e f g h = rw (e, f, g, h)

pub IsStart-IsHandedOver : (s : System) → IsStart s → IsHandedOver s
unfolding At
IsStart-IsHandedOver s h =
    subst (λ p. At p s) (sym h.sched)
      (free h.current h.semaphore (λ i.
        parked_rests (s.pc i) (s.stopped i) (s.kernel.run_semaphore i) (s.kernel.suspension_type i)
          (h.threads i).0 (h.threads i).1 (h.run_semaphore i) (h.suspension_type i)))

both_owner :
    {s : System} {t run semaphore i j : ℕ} {p q r : ThreadPc} {stopped : Bool}
    → Holds s t p stopped run semaphore
    → Goes s i q
    → active q ≡ true
    → Goes s j r
    → active r ≡ true
    → i ≡ j
both_owner h g a g' a' = sym (owner-place h g a).0 ∙ (owner-place h g' a').0

-- Two threads that go behind their semaphores are one.
one_active :
    (s : System) (p : SchedulerPc) (i j : ℕ) (q r : ThreadPc)
    → At p s
    → Goes s i q
    → active q ≡ true
    → Goes s j r
    → active r ≡ true
    → i ≡ j
unfolding At
one_active s choosing i j q r (free e sem all) g a g' a' = absurd (not-IsResting s i q g a (all i))
one_active s handed i j q r (back e sem all) g a g' a' = absurd (not-IsResting s i q g a (all i))
one_active s handing i j q r (offered t p e x y h) g a g' a' = both_owner h g a g' a'
one_active s handing i j q r (taken t e x h) g a g' a' = both_owner h g a g' a'
one_active s handing i j q r (told t e x h) g a g' a' = both_owner h g a g' a'
one_active s handed i j q r (runs t e x h) g a g' a' = both_owner h g a g' a'
one_active s handed i j q r (halts t e x h) g a g' a' = both_owner h g a g' a'
one_active s handed i j q r (yields t b e x h) g a g' a' = both_owner h g a g' a'
one_active s handed i j q r (drains t b e x h) g a g' a' = both_owner h g a g' a'

-- On the ThreadX port for POSIX hosts, with any number of threads, one timer and the scheduler as
-- pthreads that take their steps in any order, from the scheduler's first choice, while no thread is
-- created, reset or deleted: in every state that is reached, at most one thread is past the wait for
-- its run semaphore and neither stopped by a signal nor ended.
pub one_thread_at_a_time :
    (s : System) {u : System}
    → IsStart s
    → Reach s u
    → (i j : ℕ) (p q : ThreadPc) → Goes u i p
    → active p ≡ true
    → Goes u j q
    → active q ≡ true
    → i ≡ j
one_thread_at_a_time s {u} h r i j p q g a g' a' =
    one_active u u.sched i j p q (Reach-IsHandedOver (IsStart-IsHandedOver s h) r) g a g' a'

-- On the ThreadX port for POSIX hosts, from the scheduler's first choice, while no thread is
-- created, reset or deleted, in every state that is reached by steps in any order and in which the
-- scheduler does not hold the mutex: a thread that runs, not stopped by a signal, is the one that
-- the kernel takes for the current one. So neither check of _tx_thread_system_return ends its
-- pthread.
pub running_is_current :
    (s : System) {u : System} (t : ℕ)
    → IsStart s
    → Reach s u
    → u.sched ≢ handing
    → Goes u t running
    → u.current ≡ some t
running_is_current s {u} t h r n g =
    (running-current u u.sched t (Reach-IsHandedOver (IsStart-IsHandedOver s h) r) n g).1
