-- ===== src/Report/Loop/Cycles.antt =====
-- How often the reporting loop runs.
use thread_metric_benchmark.Base.{
  ℕ, zero, suc, ◌+◌, ◌<◌, ◌≡◌, ap, ◌∙◌, true, false, Option, some, List, [], ◌∷◌, ◌++◌,
  append_assoc, append-nil, arith, >>=-eq-some, ◌>>=◌, pos,
}
use mathlib.Core.Path.{ap₂}
use thread_metric_benchmark.Report.Options.{Params}
use thread_metric_benchmark.Report.Loop.{
  Event, exit, Progress, looping, finished, loop_test, loop_next, report_loop,
}

some-injective_pair {ℓ κ} :
    {A : Type ℓ} {B : Type κ} {a b : A} {c d : B}
    → ◌≡◌ {A = Option (A × B)} (some (a, c)) (some (b, d))
    → (a ≡ b) × (c ≡ d)
some-injective_pair e = (cc, cc)

regroup {ℓ} :
    (Local : Type ℓ) (trace now more out rest : List Event)
    → now ++ more ≡ out
    → ◌≡◌ {A = Progress Local}
        (finished ((trace ++ now) ++ (more ++ rest)))
        (finished (trace ++ (out ++ rest)))
regroup Local trace now more out rest e = rw (← e) (simp append_assoc)

module _ {ℓ} {Local : Type ℓ} (p : Params) (round : ℕ → Local → Option (List Event × Local)) where
  -- The reference: `n` rounds in a row, from the k-th on.
  unfoldable pub rounds_from : (n k : ℕ) → Local → Option (List Event × Local)
  rounds_from zero k st = some ([], st)
  rounds_from (suc n) k st = do
    (out, st') ← round k st
    (more, st'') ← rounds_from n (k + 1) st'
    some (out ++ more, st'')

  step_stop :
      (fuel r cycle : ℕ) (st : Local) (trace : List Event)
      → loop_test p.cycles (pos cycle) ≡ false
      → report_loop p round (suc fuel) r cycle st trace ≡ finished (trace ++ exit 0 ∷ [])
  unfolding report_loop
  step_stop fuel r cycle st trace t = rw (t, report_loop)

  step_go :
      (fuel r cycle next : ℕ) (st st' : Local) (trace out : List Event)
      → loop_test p.cycles (pos cycle) ≡ true
      → loop_next p.cycles cycle ≡ next
      → round r st ≡ some (out, st')
      → report_loop p round (suc fuel) r cycle st trace
        ≡ report_loop p round fuel (r + 1) next st' (trace ++ out)
  unfolding report_loop
  step_go fuel r cycle next st st' trace out t n e =
      rw (t, report_loop) (rw (e, report_loop) (rw n))

  test_below : (n k : ℕ) → p.cycles ≡ pos n → k < n → loop_test p.cycles (pos k) ≡ true
  unfolding loop_test
  test_below n k e h = rw e (ground arith)

  test_at : (n : ℕ) → p.cycles ≡ pos n → 0 < n → loop_test p.cycles (pos n) ≡ false
  unfolding loop_test
  test_at n e h = rw e (ground arith)

  next_bounded : (n k : ℕ) → p.cycles ≡ pos n → 0 < n → loop_next p.cycles k ≡ k + 1
  unfolding loop_next
  next_bounded n k e h = rw e (ground arith)

  next_endless : (k : ℕ) → p.cycles ≡ pos 0 → loop_next p.cycles k ≡ k
  unfolding loop_next
  next_endless k e = rw e

  test_endless : (k : ℕ) → p.cycles ≡ pos 0 → loop_test p.cycles (pos k) ≡ true
  unfolding loop_test
  test_endless k e = rw e

  -- With `left` cycles to go the loop makes as many rounds and exits.
  loop_finishes :
      (fuel left k n : ℕ) (st st' : Local) (trace out : List Event)
      → p.cycles ≡ pos n
      → 0 < n
      → k + left ≡ n
      → left < fuel
      → rounds_from left k st ≡ some (out, st')
      → report_loop p round fuel k k st trace ≡ finished (trace ++ (out ++ exit 0 ∷ []))
  unfolding rounds_from
  loop_finishes zero left k n st st' trace out cycles many sum lt e = absurd (omega arith)
  loop_finishes (suc fuel) zero k n st st' trace out cycles many sum lt e =
      let last : k ≡ n = omega arith in
      let nothing : [] ≡ out = cc in
      rw (← nothing) (step_stop fuel k k st trace (rw last (test_at n cycles many)))
  loop_finishes (suc fuel) (suc left) k n st st' trace out cycles many sum lt e =
      let ((now, st₁), e₁, later) = >>=-eq-some (round k st) _ e in
      let ((more, st₂), e₂, whole) = >>=-eq-some (rounds_from left (k + 1) st₁) _ later in
      step_go fuel k k (k + 1) st st₁ trace now (test_below n k cycles (omega arith))
        (next_bounded n k cycles many) e₁
      ∙ (loop_finishes fuel left (k + 1) n st₁ st₂ (trace ++ now) more cycles many (omega arith)
            (omega arith) e₂
          ∙ regroup Local trace now more out (exit 0 ∷ []) (some-injective_pair whole).0)

  -- With a positive number n of cycles, if n rounds of the body in a row are defined, the
  -- reporting thread makes exactly those n rounds and then exits with code 0, for every fuel above
  -- n.
  pub report_loop_exits :
      (n fuel : ℕ) (st st' : Local) (out : List Event)
      → p.cycles ≡ pos n
      → 0 < n
      → n < fuel
      → rounds_from n 0 st ≡ some (out, st')
      → report_loop p round fuel 0 0 st [] ≡ finished (out ++ exit 0 ∷ [])
  report_loop_exits n fuel st st' out cycles many lt e =
      loop_finishes fuel n 0 n st st' [] out cycles many (omega arith) lt e

  -- With zero cycles the reporting thread does not exit: if `fuel` rounds of the body in a row are
  -- defined, the thread is still in the loop after them, with the same cycle, and has done what
  -- they do.
  pub report_loop_endless :
      (fuel k cycle : ℕ) (st st' : Local) (trace out : List Event)
      → p.cycles ≡ pos 0
      → rounds_from fuel k st ≡ some (out, st')
      → report_loop p round fuel k cycle st trace ≡ looping cycle st' (trace ++ out)
  unfolding rounds_from
  report_loop_endless zero k cycle st st' trace out cycles e =
      unfold report_loop in (cc (append-nil trace))
  report_loop_endless (suc fuel) k cycle st st' trace out cycles e =
      let ((now, st₁), e₁, later) = >>=-eq-some (round k st) _ e in
      let ((more, st₂), e₂, whole) = >>=-eq-some (rounds_from fuel (k + 1) st₁) _ later in
      step_go fuel k cycle cycle st st₁ trace now (test_endless cycle cycles)
        (next_endless cycle cycles) e₁
      ∙ (report_loop_endless fuel (k + 1) cycle st₁ st₂ (trace ++ now) more cycles e₂
          ∙ ap₂ (λ s t. looping cycle s t) (some-injective_pair whole).1
              (append_assoc trace now more ∙ ap (λ t. trace ++ t) (some-injective_pair whole).0))
