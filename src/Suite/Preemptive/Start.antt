-- ===== src/Suite/Preemptive/Start.antt =====
-- The initialization of src/preemptive_scheduling.c, from a layer without threads.
use thread_metric_benchmark.Base.{ℕ, ◌≡◌, refl, Bool, true, false, arith}
use thread_metric_benchmark.Api.{Api}
use thread_metric_benchmark.Api.Check.{running}
use thread_metric_benchmark.Api.Laws.{ThreadLaws}
use thread_metric_benchmark.Api.Start.{
  View, Starts, update, create_Starts, resume_Starts, >>-Starts,
}
use thread_metric_benchmark.Suite.Preemptive.{Entry, tm_preemptive_scheduling_initialize}
use thread_metric_benchmark.Suite.Preemptive.Turns.{Kernel}

abbrev none_of : ℕ → Bool
none_of j = false

module _ {S : Type 0} {api : Api Entry S} (laws : ThreadLaws api) where
  -- No thread has been created.
  abbrev pub IsBlank : S → Type 0
  IsBlank s = View laws none_of none_of (laws.priority s) s

  -- On a layer that keeps the laws of threads and has no thread yet, the initialization succeeds.
  -- It leaves thread 0 and the reporting thread ready, the other threads suspended, and the
  -- priorities 10 down to 6 and 2.
  pub preemptive_initialize_lem :
      (s : S)
      → IsBlank s
      → (s' : S) × (tm_preemptive_scheduling_initialize api s ≡ running s') × Kernel laws true 0 s'
  unfolding tm_preemptive_scheduling_initialize
  preemptive_initialize_lem s blank =
      let v = chain.view in
      (
        chain.state,
        chain.succeeds,
        record {
          all_created = λ j l. ground (arith, v.created_at j);
          all_ready = λ j. ground (arith, v.ready_at j);
          all_priority = λ j l. ground (arith, v.priority_at j);
          report_priority = v.priority_at 5;
        },
      )
    where
      chain :
          Starts laws
            (tm_preemptive_scheduling_initialize api)
            s
            (update
              (update
                (update (update (update (update none_of 0 true) 1 true) 2 true) 3 true)
                4
                true)
              5
              true)
            (update
              (update
                (update
                  (update
                    (update (update (update (update none_of 0 false) 1 false) 2 false) 3 false)
                    4
                    false)
                  0
                  true)
                5
                false)
              5
              true)
            (update
              (update (update (update (update (update (laws.priority s) 0 10) 1 9) 2 8) 3 7) 4 6)
              5
              2)
      chain =
          >>-Starts laws _ _ s (create_Starts laws _ 0 10 _ blank (omega arith) (omega arith) refl)
            λ s₁ v₁.
              >>-Starts laws _ _ s₁ (create_Starts laws _ 1 9 _ v₁ (omega arith) (omega arith) refl)
                λ s₂ v₂.
                  >>-Starts laws _ _ s₂
                    (create_Starts laws _ 2 8 _ v₂ (omega arith) (omega arith) refl)
                    λ s₃ v₃.
                      >>-Starts laws _ _ s₃
                        (create_Starts laws _ 3 7 _ v₃ (omega arith) (omega arith) refl)
                        λ s₄ v₄.
                          >>-Starts laws _ _ s₄
                            (create_Starts laws _ 4 6 _ v₄ (omega arith) (omega arith) refl)
                            λ s₅ v₅.
                              >>-Starts laws _ _ s₅ (resume_Starts laws _ 0 v₅ (omega arith) refl)
                                λ s₆ v₆.
                                  >>-Starts laws _ _ s₆
                                    (create_Starts laws _ 5 2 _ v₆ (omega arith) (omega arith) refl)
                                    λ s₇ v₇. resume_Starts laws _ 5 v₇ (omega arith) refl
