-- ===== src/Port/ThreadX/Signals/Progress.antt =====
-- Every call that stops a pthread of ports/threadx/posix-host returns.
use mathlib.Core.Path.{subst}
use thread_metric_benchmark.Base.{ℕ, ◌<◌, ◌≡◌, refl, sym, ap, ◌∙◌, Bool, true, false, arith}
use thread_metric_benchmark.Port.ThreadX.Posix.Nesting.{at_update}
use thread_metric_benchmark.Port.ThreadX.Signals.{
  HandlerPc, outside, entered, written, paused, woken, Caller, idle, reading, System, enter, pause,
  wake, leave, Step, acknowledged, deliver, write, sleep, awake, return, Reach, here, later,
}
use thread_metric_benchmark.Port.ThreadX.Signals.Answers.{stopping, fit, Fits}
use thread_metric_benchmark.Port.ThreadX.Signals.Pairing.{Paired, quiet, asked, answered}
use thread_metric_benchmark.Port.ThreadX.Signals.Moves.{push_first}
use thread_metric_benchmark.Port.ThreadX.Signals.Safety.{IsStart, Reach-Paired, IsStart-Paired}

caller_reads : Caller → ℕ
caller_reads idle = 0
caller_reads (reading t) = t

reader : {t u : ℕ} → reading t ≡ reading u → t ≡ u
unfolding caller_reads
reader e = ap caller_reads e

-- The call has returned, with the pipe empty.
abbrev pub IsReturned : (capacity : ℕ) → System → ℕ → System → Type 0
IsReturned capacity s t w =
    Reach capacity s w × (w.caller ≡ idle) × (w.pipe ≡ 0) × (w.asleep t ≡ true)

module _ (capacity : ℕ) (room : 0 < capacity) where
  Reach-before : {s u w : System} → Step capacity s u → Reach capacity u w → Reach capacity s w
  Reach-before st here = later here st
  Reach-before st (later r st') = later (Reach-before st r) st'

  before :
      {s u : System} {t : ℕ}
      → Step capacity s u
      → (w : System) × IsReturned capacity u t w
      → (w : System) × IsReturned capacity s t w
  before st (w, (r, c, p, a)) = (w, (Reach-before st r, c, p, a))

  from_answer :
      (s : System) (t : ℕ)
      → s.caller ≡ reading t
      → s.pipe ≡ 1
      → (w : System) × IsReturned capacity s t w
  from_answer s t c p =
      (_, (later here (acknowledged t 0 c p), refl, refl, at_update s.asleep t true))

  from_entered :
      (s : System) (t : ℕ)
      → s.caller ≡ reading t
      → s.pipe ≡ 0
      → (s.target t).pc ≡ entered
      → (w : System) × IsReturned capacity s t w
  from_entered s t c p e =
      before (write t e) (from_answer _ t c (push_first capacity s.pipe room p))

  from_outside :
      (s : System) (t : ℕ)
      → s.caller ≡ reading t
      → s.pipe ≡ 0
      → (s.target t).pc ≡ outside
      → (s.target t).suspended ≡ false
      → (s.target t).suspend_pending ≡ true
      → (w : System) × IsReturned capacity s t w
  unfolding enter
  from_outside s t c p e f a = before (deliver t e a) (
      from_entered _ t c p (ap (λ g. g.pc) (at_update s.target t (enter (s.target t))) ∙ rw f refl))

  from_woken :
      (s : System) (t : ℕ)
      → s.caller ≡ reading t
      → s.pipe ≡ 0
      → (s.target t).pc ≡ woken
      → (s.target t).suspend_pending ≡ true
      → (w : System) × IsReturned capacity s t w
  unfolding leave
  from_woken s t c p e a =
      let same = at_update s.target t (leave (s.target t)) in
      before (return t e) (
        from_outside _ t c p (ap (λ g. g.pc) same) (ap (λ g. g.suspended) same)
          (ap (λ g. g.suspend_pending) same ∙ a))

  from_paused :
      (s : System) (t : ℕ)
      → s.caller ≡ reading t
      → s.pipe ≡ 0
      → (s.target t).pc ≡ paused
      → (s.target t).suspend_pending ≡ true
      → (s.target t).resume_pending ≡ true
      → (w : System) × IsReturned capacity s t w
  unfolding wake
  from_paused s t c p e a b =
      let same = at_update s.target t (wake (s.target t)) in
      before (awake t e b)
        (from_woken _ t c p (ap (λ g. g.pc) same) (ap (λ g. g.suspend_pending) same ∙ a))

  from_written :
      (s : System) (t : ℕ)
      → s.caller ≡ reading t
      → s.pipe ≡ 0
      → (s.target t).pc ≡ written
      → (s.target t).suspend_pending ≡ true
      → (s.target t).resume_pending ≡ true
      → (w : System) × IsReturned capacity s t w
  unfolding pause
  from_written s t c p e a b =
      let same = at_update s.target t (pause (s.target t)) in
      before (sleep t e) (
        from_paused _ t c p (ap (λ g. g.pc) same) (ap (λ g. g.suspend_pending) same ∙ a)
          (ap (λ g. g.resume_pending) same ∙ b))

  from_asked :
      (s : System) (t : ℕ) (q : HandlerPc) (f sp rp : Bool)
      → s.caller ≡ reading t
      → s.pipe ≡ 0
      → (s.target t).pc ≡ q
      → (s.target t).suspended ≡ f
      → (s.target t).suspend_pending ≡ sp
      → (s.target t).resume_pending ≡ rp
      → fit stopping q f sp rp ≡ true
      → (w : System) × IsReturned capacity s t w
  unfolding fit
  from_asked s t outside f sp rp c p e ef a b h =
      from_outside s t c p e (ef ∙ ground arith) (a ∙ ground arith)
  from_asked s t entered f sp rp c p e ef a b h = from_entered s t c p e
  from_asked s t written f sp rp c p e ef a b h =
      from_written s t c p e (a ∙ ground arith) (b ∙ ground arith)
  from_asked s t paused f sp rp c p e ef a b h =
      from_paused s t c p e (a ∙ ground arith) (b ∙ ground arith)
  from_asked s t woken f sp rp c p e ef a b h = from_woken s t c p e (a ∙ ground arith)

  returns :
      (s : System) (t : ℕ)
      → Paired s
      → s.caller ≡ reading t
      → (w : System) × IsReturned capacity s t w
  returns s t (quiet c p all) e = absurd (cc (c, e))
  returns s t (answered u c p h others) e = from_answer s t e p
  returns s t (asked u c p l h others) e =
      let g = s.target t in
      from_asked s t g.pc g.suspended g.suspend_pending g.resume_pending e p refl refl refl refl
        (subst (λ u. Fits stopping (s.target u)) (reader (sym c ∙ e)) h)

-- On the ThreadX port for POSIX hosts, for the pthreads that answer into one pipe, with room for a
-- byte, and the one pthread that stops and resumes them, which stops only a pthread that it has not
-- stopped and resumes only one that it has, from a state in which all are in their own code, in
-- every state that is reached by steps in any order: if the caller waits for an answer, also of a
-- pthread that an earlier call to resume it has not woken yet, then there are steps by which the
-- call returns, with the pipe empty.
pub suspend_returns :
    (capacity : ℕ) (s : System) {u : System} (t : ℕ)
    → (room : 0 < capacity) → IsStart s
    → Reach capacity s u
    → u.caller ≡ reading t
    → (w : System) × IsReturned capacity u t w
suspend_returns capacity s {u} t room h r c =
    returns capacity room u t (Reach-Paired capacity room (IsStart-Paired s h) r) c
