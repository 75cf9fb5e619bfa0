-- ===== src/Suite/Synchronization/Worker.antt =====
-- The semaphore thread of src/synchronization_processing.c.
use thread_metric_benchmark.Base.{ℕ, ◌%◌, ◌≡◌, ap, ◌∙◌, some, arith, pos, ulong_mod, add_ulong}
use thread_metric_benchmark.Api.{Status, tm_success, tm_error, Api}
use thread_metric_benchmark.Api.Laws.{SemaphoreLaws}
use thread_metric_benchmark.Suite.Rounds.{Work, working, stopped, repeat, repeat-working}

-- The globals are `tm_synchronization_processing_counter` alone. Behind the put:
unfoldable pub after_put : {S : Type 0} → Status → ℕ → S → Work ℕ S
after_put tm_error counter s = stopped counter s
after_put tm_success counter s = working (add_ulong counter 1) s

-- Behind the get.
unfoldable pub after_get : {Entry S : Type 0} → Api Entry S → Status → ℕ → S → Work ℕ S
unfolding after_put
after_get api tm_error counter s = stopped counter s
after_get api tm_success counter s =
    let (status, s') = api.semaphore_put (pos 0) s in after_put status counter s'

-- One round of `while (1)`.
unfoldable pub synchronization_round : {Entry S : Type 0} → Api Entry S → ℕ → S → Work ℕ S
unfolding after_get
synchronization_round api counter s =
    let (status, s') = api.semaphore_get (pos 0) s in after_get api status counter s'

unfoldable pub tm_synchronization_processing_thread_0_entry :
    {Entry S : Type 0} → Api Entry S → ℕ → ℕ → S → Work ℕ S
unfolding synchronization_round
tm_synchronization_processing_thread_0_entry api rounds counter s =
    repeat (synchronization_round api) rounds counter s

module _ {Entry S : Type 0} (api : Api Entry S) (laws : SemaphoreLaws api) where
  round_step :
      (counter : ℕ) (s s₁ s₂ : S)
      → api.semaphore_get (pos 0) s ≡ (tm_success, s₁)
      → api.semaphore_put (pos 0) s₁ ≡ (tm_success, s₂)
      → synchronization_round api counter s ≡ working (add_ulong counter 1) s₂
  unfolding synchronization_round
  round_step counter s s₁ s₂ got given = rw (got, given)

  -- A round takes the semaphore and gives it back.
  synchronization_round_lem :
      (counter : ℕ) (s : S)
      → laws.count s ≡ some 1
      → (s' : S) × (synchronization_round api counter s ≡ working (add_ulong counter 1) s')
        × (laws.count s' ≡ some 1)
  synchronization_round_lem counter s full =
      let (s₁, got, empty) = laws.get_lem 0 s full in
      let (s₂, given, full') = laws.put_lem s₁ empty in
      (s₂, round_step counter s s₁ s₂ got given, full')

  -- On a layer that keeps the laws of the semaphore, from a zero counter and an available
  -- semaphore the thread never leaves its loop: after n rounds it has counted n pairs of get and
  -- put modulo 2 ^ 64, and the semaphore is available.
  pub synchronization_processing_thread_lem :
      (n : ℕ) (s : S)
      → laws.count s ≡ some 1
      → (s' : S) × (tm_synchronization_processing_thread_0_entry api n 0 s
          ≡ working (n % ulong_mod) s')
        × (laws.count s' ≡ some 1)
  unfolding tm_synchronization_processing_thread_0_entry
  synchronization_processing_thread_lem n s full =
      repeat-working (synchronization_round api) (λ k. k % ulong_mod) (λ t. laws.count t ≡ some 1)
        (λ k t h.
          let (t', e, h') = synchronization_round_lem (k % ulong_mod) t h in
          (t', e ∙ ap (λ (c : ℕ). working c t') (omega arith), h'))
        n 0 n s (omega arith) full
