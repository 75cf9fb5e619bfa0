-- ===== src/Port/ThreadX/Signals/Moves.antt =====
-- The steps of the caller, of the delivery and of the answer in ports/threadx/posix-host.
use mathlib.Core.Path.{subst}
use thread_metric_benchmark.Base.{
  ℕ, suc, ◌<◌, ◌≡◌, refl, sym, ap, ◌∙◌, inl, inr, true, false, arith, ◌==◌, ==_iff, Bool-cases,
}
use thread_metric_benchmark.Port.ThreadX.Posix.Nesting.{update, at_update, off_update}
use thread_metric_benchmark.Port.ThreadX.Signals.{
  outside, entered, written, Target, idle, reading, System, enter, change, push,
}
use thread_metric_benchmark.Port.ThreadX.Signals.Answers.{
  Role, free, stopping, stopped, Fits, delivered, writes, enter-Fits, ask-fit, release-fit,
}
use thread_metric_benchmark.Port.ThreadX.Signals.Pairing.{
  calm, calm-stopping, Paired, quiet, asked, answered, IsAsked, role,
}

-- Another pthread does not see the change.
unseen :
    (s : System) (t i : ℕ) (g : Target)
    → (t == i) ≡ false
    → Fits (calm (s.asleep i)) (s.target i)
    → Fits (calm (s.asleep i)) (update s.target t g i)
unseen s t i g n h = subst (Fits (calm (s.asleep i))) (sym (off_update s.target t i g n)) h

seen : (r : Role) (f : ℕ → Target) (t : ℕ) (g : Target) → Fits r g → Fits r (update f t g t)
seen r f t g h = subst (Fits r) (sym (at_update f t g)) h

abbrev asks : System → ℕ → System
asks s t = record (change s t (record (s.target t) { suspend_pending = true })) {
  caller = reading t;
}

pub kill_suspend-Paired :
    (s : System) (t : ℕ) → Paired s → s.caller ≡ idle → s.asleep t ≡ false → Paired (asks s t)
kill_suspend-Paired s t (asked u c p l h others) e a = absurd (cc (c, e))
kill_suspend-Paired s t (answered u c p h others) e a = absurd (cc (c, e))
kill_suspend-Paired s t (quiet c p all) e a =
    let g = s.target t in
    asked t refl p a
      (seen stopping s.target t (record g { suspend_pending = true })
        (ask-fit g.pc g.suspended g.suspend_pending g.resume_pending
          (subst (λ b. Fits (calm b) g) a (all t))))
      (λ i n. unseen s t i (record g { suspend_pending = true }) n (all i))

-- A pthread is asleep from its answer on.
asleep_at :
    (s : System) (t i : ℕ)
    → Fits stopped (s.target t)
    → ((t == i) ≡ false → Fits (calm (s.asleep i)) (s.target i))
    → Fits (calm (update s.asleep t true i)) (s.target i)
asleep_at s t i h other = elim (Bool-cases (t == i)) [
  | inl e ↦ rw e (subst (λ j. Fits stopped (s.target j)) ((==_iff t i).0 e) h)
  | inr e ↦ rw e (other e)
]

pub acknowledged-Paired :
    (s : System) (t n : ℕ)
    → Paired s
    → s.caller ≡ reading t
    → s.pipe ≡ suc n
    → Paired (record s { caller = idle; pipe = n; asleep = update s.asleep t true })
acknowledged-Paired s t n (quiet c p all) e k = absurd (omega (arith, p, k))
acknowledged-Paired s t n (asked u c p l h others) e k = absurd (omega (arith, p, k))
acknowledged-Paired s t n (answered u c p h others) e k =
    let same : u ≡ t = cc (c, e) in
    quiet refl (omega (arith, p, k)) (λ i.
      asleep_at s t i (subst (λ u. Fits stopped (s.target u)) same h)
        (λ m. others i (ap (λ u. u == i) same ∙ m)))

abbrev releases : System → ℕ → System
releases s t = record (change s t (record (s.target t) { resume_pending = true })) {
  asleep = update s.asleep t false;
}

awake_at :
    (s : System) (t i : ℕ)
    → Fits free (record (s.target t) { resume_pending = true })
    → Fits (calm (s.asleep i)) (s.target i)
    → Fits
        (calm (update s.asleep t false i))
        (update s.target t (record (s.target t) { resume_pending = true }) i)
awake_at s t i h other = elim (Bool-cases (t == i)) [ inl e ↦ rw e h | inr e ↦ rw e other ]

pub kill_resume-Paired :
    (s : System) (t : ℕ) → Paired s → s.caller ≡ idle → s.asleep t ≡ true → Paired (releases s t)
kill_resume-Paired s t (asked u c p l h others) e a = absurd (cc (c, e))
kill_resume-Paired s t (answered u c p h others) e a = absurd (cc (c, e))
kill_resume-Paired s t (quiet c p all) e a =
    let g = s.target t in
    quiet c p (λ i.
      awake_at s t i
        (release-fit g.pc g.suspended g.suspend_pending g.resume_pending
          (subst (λ b. Fits (calm b) g) a (all t)))
        (all i))

delivered_in :
    (r : Role) (g : Target)
    → g.pc ≡ outside
    → g.suspend_pending ≡ true
    → Fits r g
    → (r ≡ stopping) × (g.suspended ≡ false) × (g.resume_pending ≡ false)
delivered_in r g o p f = delivered r g.pc g.suspended g.suspend_pending g.resume_pending o p f

-- The handler begins in the pthread that the caller waits for.
pub delivery :
    (s : System) (t : ℕ)
    → Paired s
    → (s.target t).pc ≡ outside
    → (s.target t).suspend_pending ≡ true
    → IsAsked s t × ((s.target t).suspended ≡ false) × ((s.target t).resume_pending ≡ false)
delivery s t h o p = elim (role s t h) [
  | inl f ↦
      absurd (calm-stopping (s.asleep t) (delivered_in (calm (s.asleep t)) (s.target t) o p f).0)
  | inr (inl a) ↦ (
    a,
    (delivered_in stopping (s.target t) o p a.3).1,
    (delivered_in stopping (s.target t) o p a.3).2,
  )
  | inr (inr f) ↦ absurd (cc (delivered_in stopped (s.target t) o p f).0)
]

pub deliver-Paired :
    (s : System) (t : ℕ)
    → Paired s
    → (s.target t).pc ≡ outside
    → (s.target t).suspend_pending ≡ true
    → Paired (change s t (enter (s.target t)))
deliver-Paired s t h o p =
    let (a, flag, none_sent) = delivery s t h o p in
    asked t a.0 a.1 a.2
      (seen stopping s.target t (enter (s.target t)) (enter-Fits (s.target t) flag none_sent))
      (λ i n. unseen s t i (enter (s.target t)) n (a.4 i n))

written_in :
    (r : Role) (g : Target)
    → g.pc ≡ entered
    → Fits r g
    → (r ≡ stopping) × Fits stopped (record g { pc = written })
written_in r g e f = writes r g.pc g.suspended g.suspend_pending g.resume_pending e f

-- The answer comes from the pthread that the caller waits for.
pub answer :
    (s : System) (t : ℕ)
    → Paired s
    → (s.target t).pc ≡ entered
    → IsAsked s t × Fits stopped (record (s.target t) { pc = written })
answer s t h e = elim (role s t h) [
  | inl f ↦ absurd (calm-stopping (s.asleep t) (written_in (calm (s.asleep t)) (s.target t) e f).0)
  | inr (inl a) ↦ (a, (written_in stopping (s.target t) e a.3).1)
  | inr (inr f) ↦ absurd (cc (written_in stopped (s.target t) e f).0)
]

-- In a pipe with room for a byte.
pub push_first : (capacity pipe : ℕ) → 0 < capacity → pipe ≡ 0 → push capacity pipe ≡ 1
unfolding push
push_first capacity pipe room e = ground arith

pub write-Paired :
    (capacity : ℕ) (s : System) (t : ℕ)
    → 0 < capacity
    → Paired s
    → (s.target t).pc ≡ entered
    → Paired
        (record (change s t (record (s.target t) { pc = written })) { pipe = push capacity s.pipe })
write-Paired capacity s t room h e =
    let (a, f) = answer s t h e in
    answered t a.0 (push_first capacity s.pipe room a.1)
      (seen stopped s.target t (record (s.target t) { pc = written }) f)
      (λ i n. unseen s t i (record (s.target t) { pc = written }) n (a.4 i n))
