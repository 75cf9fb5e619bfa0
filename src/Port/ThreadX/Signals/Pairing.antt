-- ===== src/Port/ThreadX/Signals/Pairing.antt =====
-- Calls to suspend and answers are paired in ports/threadx/posix-host.
use mathlib.Core.Path.{subst}
use thread_metric_benchmark.Base.{
  ℕ, ◌≡◌, sym, ◌≢◌, ◌⊎◌, inl, inr, Bool, true, false, ◌==◌, if◌then◌else◌, ==_iff, Bool-cases,
}
use thread_metric_benchmark.Port.ThreadX.Posix.Nesting.{update}
use thread_metric_benchmark.Port.ThreadX.Signals.{Target, idle, reading, System, change}
use thread_metric_benchmark.Port.ThreadX.Signals.Answers.{Role, free, stopping, stopped, Fits}

abbrev pub calm : Bool → Role
calm b = if b then stopped else free

-- The caller is in neither call, or waits for the answer, which is not or is in the pipe.
pub data Paired (s : System) : Type 0 where
  quiet :
      s.caller ≡ idle → s.pipe ≡ 0 → ((i : ℕ) → Fits (calm (s.asleep i)) (s.target i)) → Paired s
  asked :
      (t : ℕ)
      → s.caller ≡ reading t
      → s.pipe ≡ 0
      → s.asleep t ≡ false
      → Fits stopping (s.target t)
      → ((i : ℕ) → (t == i) ≡ false → Fits (calm (s.asleep i)) (s.target i))
      → Paired s
  answered :
      (t : ℕ)
      → s.caller ≡ reading t
      → s.pipe ≡ 1
      → Fits stopped (s.target t)
      → ((i : ℕ) → (t == i) ≡ false → Fits (calm (s.asleep i)) (s.target i))
      → Paired s

abbrev pub IsAsked : System → ℕ → Type 0
IsAsked s t =
    (s.caller ≡ reading t)
    × (s.pipe ≡ 0)
    × (s.asleep t ≡ false)
    × Fits stopping (s.target t)
    × ((i : ℕ) → (t == i) ≡ false → Fits (calm (s.asleep i)) (s.target i))

pub calm-stopping : (b : Bool) → calm b ≢ stopping
calm-stopping true e = cc e
calm-stopping false e = cc e

-- A change of one pthread, seen from the pthread `i`.
changed :
    (r : Role) (f : ℕ → Target) (t i : ℕ) (g : Target)
    → (t ≡ i → Fits r g)
    → ((t == i) ≡ false → Fits r (f i))
    → Fits r (update f t g i)
changed r f t i g same other = elim (Bool-cases (t == i)) [
  | inl e ↦ rw e (same ((==_iff t i).0 e))
  | inr e ↦ rw e (other e)
]

kept :
    (r : Role) (s : System) (t i : ℕ) (g : Target)
    → ((r : Role) → Fits r (s.target t) → Fits r g)
    → Fits r (s.target i)
    → Fits r (update s.target t g i)
kept r s t i g k h =
    changed r s.target t i g (λ e. k r (subst (λ j. Fits r (s.target j)) (sym e) h)) (λ n. h)

-- A step of a pthread that keeps what it is keeps all.
pub keep :
    (s : System) (t : ℕ) (g : Target)
    → ((r : Role) → Fits r (s.target t) → Fits r g)
    → Paired s
    → Paired (change s t g)
keep s t g k (quiet c p all) = quiet c p (λ i. kept (calm (s.asleep i)) s t i g k (all i))
keep s t g k (asked u c p l h others) =
    asked u c p l (kept stopping s t u g k h)
      (λ i n. kept (calm (s.asleep i)) s t i g k (others i n))
keep s t g k (answered u c p h others) =
    answered u c p (kept stopped s t u g k h)
      (λ i n. kept (calm (s.asleep i)) s t i g k (others i n))

-- What each pthread is.
pub role :
    (s : System) (t : ℕ)
    → Paired s
    → (Fits (calm (s.asleep t)) (s.target t))
      ⊎ ((s.caller ≡ reading t)
          × (s.pipe ≡ 0)
          × (s.asleep t ≡ false)
          × Fits stopping (s.target t)
          × ((i : ℕ) → (t == i) ≡ false → Fits (calm (s.asleep i)) (s.target i)))
      ⊎ (Fits stopped (s.target t))
role s t (quiet c p all) = inl (all t)
role s t (asked u c p l h others) = elim (Bool-cases (u == t)) [
  | inl e ↦
      subst
        (λ t.
          Fits (calm (s.asleep t)) (s.target t)
          ⊎ ((s.caller ≡ reading t)
              × (s.pipe ≡ 0)
              × (s.asleep t ≡ false)
              × Fits stopping (s.target t)
              × ((i : ℕ) → (t == i) ≡ false → Fits (calm (s.asleep i)) (s.target i)))
          ⊎ (Fits stopped (s.target t)))
        ((==_iff u t).0 e) (inr (inl (c, p, l, h, others)))
  | inr e ↦ inl (others t e)
]
role s t (answered u c p h others) = elim (Bool-cases (u == t)) [
  | inl e ↦ inr (inr (subst (λ t. Fits stopped (s.target t)) ((==_iff u t).0 e) h))
  | inr e ↦ inl (others t e)
]
