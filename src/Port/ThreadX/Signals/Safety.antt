-- ===== src/Port/ThreadX/Signals/Safety.antt =====
-- A pthread of ports/threadx/posix-host that another has stopped stays in its signal handler, and
-- every call to stop one returns.
use mathlib.Core.Path.{subst}
use thread_metric_benchmark.Base.{ℕ, ◌<◌, ◌≡◌, refl, ◌⊎◌, inl, inr, Bool, true, false}
use thread_metric_benchmark.Port.ThreadX.Signals.{
  outside, entered, written, paused, Target, idle, reading, System, enter, pause, wake, leave, Step,
  kill_suspend, acknowledged, kill_resume, deliver, write, sleep, awake, return, Reach, here, later,
}
use thread_metric_benchmark.Port.ThreadX.Signals.Answers.{
  stopped, fit, Fits, pause-Fits, wake-Fits, leave-Fits, stopped-place,
}
use thread_metric_benchmark.Port.ThreadX.Signals.Pairing.{calm, Paired, quiet, keep, role}
use thread_metric_benchmark.Port.ThreadX.Signals.Moves.{
  kill_suspend-Paired, acknowledged-Paired, kill_resume-Paired, deliver-Paired, delivery,
  write-Paired,
}

-- No call is under way, the pipe is empty, and every pthread is in its own code.
pub record IsStart (s : System) : Type 0 where
  pub caller : s.caller ≡ idle
  pub pipe : s.pipe ≡ 0
  pub asleep : (i : ℕ) → s.asleep i ≡ false
  pub target :
      (i : ℕ)
      → s.target i ≡ record {
        pc = outside;
        suspended = false;
        suspend_pending = false;
        resume_pending = false;
      }

module _ (capacity : ℕ) (room : 0 < capacity) where
  Step-Paired : {s u : System} → Step capacity s u → Paired s → Paired u
  Step-Paired {s} (kill_suspend t c a) h = kill_suspend-Paired s t h c a
  Step-Paired {s} (acknowledged t n c p) h = acknowledged-Paired s t n h c p
  Step-Paired {s} (kill_resume t c a) h = kill_resume-Paired s t h c a
  Step-Paired {s} (deliver t o p) h = deliver-Paired s t h o p
  Step-Paired {s} (write t e) h = write-Paired capacity s t room h e
  Step-Paired {s} (sleep t e) h =
      keep s t (pause (s.target t)) (λ r f. pause-Fits r (s.target t) e f) h
  Step-Paired {s} (awake t e p) h =
      keep s t (wake (s.target t)) (λ r f. wake-Fits r (s.target t) e p f) h
  Step-Paired {s} (return t e) h =
      keep s t (leave (s.target t)) (λ r f. leave-Fits r (s.target t) e f) h

  pub Reach-Paired : {s u : System} → Paired s → Reach capacity s u → Paired u
  Reach-Paired h here = h
  Reach-Paired h (later r st) = Step-Paired st (Reach-Paired h r)

fresh :
    (b : Bool) (g : Target)
    → b ≡ false
    → g
      ≡ record { pc = outside; suspended = false; suspend_pending = false; resume_pending = false }
    → Fits (calm b) g
unfolding fit
fresh b g e f = rw (e, f) refl

pub IsStart-Paired : (s : System) → IsStart s → Paired s
IsStart-Paired s h =
    quiet h.caller h.pipe (λ i. fresh (s.asleep i) (s.target i) (h.asleep i) (h.target i))

place_of :
    (g : Target)
    → Fits stopped g
    → ((g.pc ≡ written) ⊎ (g.pc ≡ paused))
      × (g.suspend_pending ≡ false)
      × (g.resume_pending ≡ false)
place_of g f = stopped-place g.pc g.suspended g.suspend_pending g.resume_pending f

asleep_place :
    (s : System) (t : ℕ)
    → Paired s
    → s.asleep t ≡ true
    → ((s.target t).pc ≡ written) ⊎ ((s.target t).pc ≡ paused)
asleep_place s t h a = elim (role s t h) [
  | inl f ↦ (place_of (s.target t) (subst (λ b. Fits (calm b) (s.target t)) a f)).0
  | inr (inl q) ↦ absurd (cc (a, q.2))
  | inr (inr f) ↦ (place_of (s.target t) f).0
]

-- On the ThreadX port for POSIX hosts, for the pthreads that answer into one pipe, with room for a
-- byte, and the one pthread that stops and resumes them, which stops only a pthread that it has not
-- stopped and resumes only one that it has, from a state in which all are in their own code, with
-- steps in any order: from the return of a call that stops a pthread until the call that resumes
-- it, that pthread is in the signal handler, behind its answer and not yet woken.
pub stopped_stays :
    (capacity : ℕ) (s : System) {u : System} (t : ℕ)
    → 0 < capacity
    → IsStart s
    → Reach capacity s u
    → u.asleep t ≡ true
    → ((u.target t).pc ≡ written) ⊎ ((u.target t).pc ≡ paused)
stopped_stays capacity s {u} t room h r a =
    asleep_place u t (Reach-Paired capacity room (IsStart-Paired s h) r) a

-- On the ThreadX port for POSIX hosts, for the pthreads that answer into one pipe, with room for a
-- byte, and the one pthread that stops and resumes them, which stops only a pthread that it has not
-- stopped and resumes only one that it has, from a state in which all are in their own code, with
-- steps in any order: when the handler begins in a pthread, the caller waits for an answer of this
-- pthread, the pipe is empty, and the handler goes on to the answer, as it does not take the signal
-- for a duplicate.
pub signal_is_answered :
    (capacity : ℕ) (s : System) {u : System} (t : ℕ)
    → 0 < capacity
    → IsStart s
    → Reach capacity s u
    → (u.target t).pc ≡ outside
    → (u.target t).suspend_pending ≡ true
    → (u.caller ≡ reading t) × (u.pipe ≡ 0) × ((enter (u.target t)).pc ≡ entered)
unfolding enter
signal_is_answered capacity s {u} t room h r o p =
    let (a, flag, none_sent) =
      delivery u t (Reach-Paired capacity room (IsStart-Paired s h) r) o p in
    (a.0, a.1, rw flag refl)
