-- ===== src/Port/ThreadX/Posix/Nested.antt =====
-- Nested critical sections, TX_DISABLE and TX_RESTORE, on the lockout of ports/threadx/posix-host.
use thread_metric_benchmark.Base.{
  ℕ, ◌+◌, ◌≤◌, ◌≡◌, refl, sym, ap, ◌∙◌, List, [], ◌∷◌, ◌++◌, append-nil, arith, All,
}
use mathlib.Core.Path.{subst}
use thread_metric_benchmark.Port.ThreadX.Posix.Lock.{
  Mutex, Interrupts, int_enable, int_disable, Context, Outcome, returned, exited,
  tx_thread_interrupt_disable, tx_thread_interrupt_restore,
}
use thread_metric_benchmark.Port.ThreadX.Posix.Sections.{
  MutexLaws, IsLive, control-IsLive, posture_at, kept,
}

-- Code of the kernel as far as the lockout goes: work, one piece behind another, and a piece
-- between TX_DISABLE and TX_RESTORE.
pub data Code : Type 0 where
  work : Code
  both : Code → Code → Code
  critical : Code → Code

-- How a piece of code ends: with the lock counts at its work, or with the pthread.
pub data Run (M : Type 0) : Type 0 where
  ran : List ℕ → Context M → Run M
  ended : Run M

abbrev pub also_held : {M : Type 0} → List ℕ → Run M → Run M
also_held held (ran more s) = ran (held ++ more) s
also_held held ended = ended

unfoldable pub then_run : {M : Type 0} → Run M → (Context M → Run M) → Run M
then_run (ran held s) next = also_held held (next s)
then_run ended next = ended

unfoldable pub then_control : {M : Type 0} → Outcome M → (Interrupts → Context M → Run M) → Run M
then_control (returned posture s) next = next posture s
then_control (exited s) next = ended

module _ {M : Type 0} (posix : Mutex M) where
  unfoldable pub run : Code → Context M → Run M
  unfolding then_run then_control
  run work s = ran (s.lock_count ∷ []) s
  run (both a b) s = then_run (run a s) (run b)
  run (critical a) s = then_control (tx_thread_interrupt_disable posix s) λ saved s₁.
      then_run (run a s₁)
        λ s₂. then_control (tx_thread_interrupt_restore posix saved s₂) λ found s₃. ran [] s₃

pub All-append :
    {A : Type 0} (P : A → Type 0) (xs ys : List A) → All P xs → All P ys → All P (xs ++ ys)
All-append P [] ys p q = q
All-append P (x ∷ xs) ys p q = (p.0, All-append P xs ys p.1 q)

module _ {M : Type 0} {posix : Mutex M} (laws : MutexLaws posix) where
  -- The code has run to its end, with the mutex held at all its work, and `Q` holds of the lock
  -- count that it leaves.
  abbrev Keeps : (ℕ → Type 0) → Run M → Type 0
  Keeps Q r =
      (held : List ℕ) × (s' : Context M) × (r ≡ ran held s')
      × All (λ n. 1 ≤ n) held
      × IsLive laws s'
      × Q s'.lock_count

  work_step :
      (s : Context M) → IsLive laws s → 1 ≤ s.lock_count → Keeps (λ n. 1 ≤ n) (run posix work s)
  unfolding run
  work_step s h le = (s.lock_count ∷ [], s, refl, (le, tt), h, le)

  disabled_lem :
      (s : Context M)
      → IsLive laws s
      → (s₁ : Context M) × (tx_thread_interrupt_disable posix s
          ≡ returned (posture_at s.lock_count) s₁)
        × IsLive laws s₁
        × (s₁.lock_count ≡ s.lock_count + 1)
  unfolding tx_thread_interrupt_disable
  disabled_lem s h = control-IsLive laws int_disable s h

  disabled_first :
      (s s₁ : Context M)
      → s.lock_count ≡ 0
      → tx_thread_interrupt_disable posix s ≡ returned (posture_at s.lock_count) s₁
      → tx_thread_interrupt_disable posix s ≡ returned int_enable s₁
  disabled_first s s₁ free e = e ∙ ap (λ p. returned p s₁) (ground arith)

  disabled_again :
      (s s₁ : Context M)
      → 1 ≤ s.lock_count
      → tx_thread_interrupt_disable posix s ≡ returned (posture_at s.lock_count) s₁
      → tx_thread_interrupt_disable posix s ≡ returned int_disable s₁
  disabled_again s s₁ le e = e ∙ ap (λ p. returned p s₁) (ground arith)

  both_step :
      (a b : Code) (s : Context M)
      → Keeps (λ n. 1 ≤ n) (run posix a s)
      → ((s₁ : Context M)
          → IsLive laws s₁
          → 1 ≤ s₁.lock_count
          → Keeps (λ n. 1 ≤ n) (run posix b s₁))
      → Keeps (λ n. 1 ≤ n) (run posix (both a b) s)
  unfolding run then_run
  both_step a b s (held, s₁, e, all, live, more) next =
      let (held', s₂, e', all', live', more') = next s₁ live more in
      (held ++ held', s₂, rw (e, e'), All-append (λ n. 1 ≤ n) held held' all all', live', more')

  -- A section around code that keeps the mutex.
  section_step :
      (Q : ℕ → Type 0) (saved : Interrupts) (a : Code) (s s₁ : Context M)
      → tx_thread_interrupt_disable posix s ≡ returned saved s₁
      → Keeps (λ n. 1 ≤ n) (run posix a s₁)
      → ((n : ℕ) → 1 ≤ n → Q (kept saved (n + 1)))
      → Keeps Q (run posix (critical a) s)
  unfolding run then_run then_control tx_thread_interrupt_restore
  section_step Q saved a s s₁ disabled (held, s₂, e, all, live, more) goal =
      let (s₃, restored, live', count) = control-IsLive laws saved s₂ live in
      (
        held,
        s₃,
        rw (disabled, e, restored, append-nil held),
        all,
        live',
        subst Q (sym count) (goal _ more),
      )

  held_lem :
      (c : Code) (s : Context M)
      → IsLive laws s
      → 1 ≤ s.lock_count
      → Keeps (λ n. 1 ≤ n) (run posix c s)
  held_lem work s h le = work_step s h le
  held_lem (both a b) s h le = both_step a b s (held_lem a s h le) (held_lem b)
  held_lem (critical a) s h le =
      let (s₁, disabled, live, count) = disabled_lem s h in
      section_step (λ n. 1 ≤ n) int_disable a s s₁ (disabled_again s s₁ le disabled)
        (held_lem a s₁ live (omega arith)) (λ n l. omega arith)

  -- On the ThreadX port for POSIX hosts, over a recursive mutex that counts: a pthread that ThreadX
  -- runs, or that runs an interrupt, and that does not hold the mutex runs a critical section to its
  -- end, whatever critical sections are nested in it. The mutex is held at all work of the section,
  -- also behind the nested sections, and not held behind it.
  pub critical_section_lem :
      (a : Code) (s : Context M)
      → IsLive laws s
      → s.lock_count ≡ 0
      → (held : List ℕ) × (s' : Context M) × (run posix (critical a) s ≡ ran held s')
        × All (λ n. 1 ≤ n) held
        × IsLive laws s'
        × (s'.lock_count ≡ 0)
        × (laws.depth s'.mutex ≡ 0)
  critical_section_lem a s h free =
      let (s₁, disabled, live, count) = disabled_lem s h in
      let (held, s', e, all, live', released) =
        section_step (λ n. n ≡ 0) int_enable a s s₁ (disabled_first s s₁ free disabled)
          (held_lem a s₁ live (omega arith)) (λ n l. refl) in
      (held, s', e, all, live', released, live'.counted ∙ released)
