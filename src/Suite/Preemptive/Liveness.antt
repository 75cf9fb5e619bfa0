-- ===== src/Suite/Preemptive/Liveness.antt =====
-- The preemptive test run for a number of statements by the scheduler.
use thread_metric_benchmark.Base.{
  ℕ, zero, suc, ◌+◌, ◌*◌, ◌%◌, ◌≤◌, ◌<◌, ◌≡◌, refl, sym, ap, ◌∙◌, Bool, true, false, none, some,
  arith, ulong_mod,
}
use mathlib.Core.Path.{subst}
use thread_metric_benchmark.Api.{Api}
use thread_metric_benchmark.Api.Laws.{ThreadLaws}
use thread_metric_benchmark.Suite.Preemptive.System.{top, System, run_thread}
use thread_metric_benchmark.Suite.Preemptive.Turns.{Kernel, runs_highest}
use thread_metric_benchmark.Suite.Preemptive.Advance.{Place, next, At, advance}
use thread_metric_benchmark.Suite.Preemptive.Safety.{Stands-le, initial, At-initial}

module _ {Entry S : Type 0} {api : Api Entry S} (laws : ThreadLaws api) where
  -- The machine runs the scheduler's choice for `n` statements, with nothing from outside.
  pub execute : ℕ → System S → System S
  execute zero t = t
  execute (suc n) t = elim (laws.current t.rtos) [
    | some i ↦ execute n (run_thread api i t)
    | none ↦ t
  ]

  below_five :
      (on : Bool) (i k : ℕ) (s : S)
      → on ≡ false
      → k ≤ 4
      → Kernel laws on k s
      → laws.current s ≡ some i
      → i < 5
  below_five on i k s off hk v c = ground (arith, laws.current_ready s i c, v.all_ready i)

  current_runner :
      (q : Place) (t : System S) → At laws q false t → laws.current t.rtos ≡ some q.runner
  current_runner q t a =
      let low : q.runner ≤ 4 = Stands-le q.runner q.pc a.stands in
      let runner_ready : laws.ready t.rtos q.runner ≡ true =
        ground (arith, a.kernel.all_ready q.runner) in
      let (i, c) = laws.current_some t.rtos q.runner runner_ready in
      let hi : i < 5 = below_five false i q.runner t.rtos refl low a.kernel c in
      c ∙ ap (λ j. some j) (runs_highest laws false q.runner i t.rtos low a.kernel c hi)

  execute-suc :
      (n i : ℕ) (t : System S)
      → laws.current t.rtos ≡ some i
      → execute (suc n) t ≡ execute n (run_thread api i t)
  unfolding execute
  execute-suc n i t c = rw (c, execute)

  pub places : ℕ → Place → Place
  places zero q = q
  places (suc n) q = places n (next q)

  execute-At :
      (n : ℕ) (q : Place) (t : System S)
      → At laws q false t
      → At laws (places n q) false (execute n t)
  unfolding places
  execute-At zero q t a = unfold execute in a
  execute-At (suc n) q t a =
      subst (At laws (places n (next q)) false)
        (sym (execute-suc n q.runner t (current_runner q t a)))
        (execute-At n (next q) (run_thread api q.runner t) (advance laws q false t a))

  -- The statements of `n` rounds.
  statements : ℕ → ℕ
  statements zero = 0
  statements (suc n) =
      suc (suc (suc (suc (suc (suc (suc (suc (suc (suc (suc (suc (suc (statements n)))))))))))))

  statements-eq : (n : ℕ) → statements n ≡ 13 * n
  unfolding statements
  statements-eq zero = omega arith
  statements-eq (suc n) = omega (arith, statements-eq n)

  places-statements :
      (n r : ℕ)
      → places (statements n) (record { round = r; runner = 0; pc = top })
        ≡ record { round = r + n; runner = 0; pc = top }
  unfolding statements places
  places-statements zero r = ground arith
  places-statements (suc n) r =
      places-statements n (r + 1)
      ∙ ap (λ (m : ℕ). record { round = m; runner = 0; pc = top }) (omega arith)

  -- On a layer that keeps the laws of threads, with the reporting thread asleep: 13 n statements
  -- of the threads that the scheduler chooses, from the start, leave every one of the five
  -- counters at n modulo 2 ^ 64.
  pub preemptive_rounds_lem :
      (n : ℕ) (s : S)
      → Kernel laws false 0 s
      → (execute (13 * n) (initial s)).counters ≡ record {
        c0 = n % ulong_mod;
        c1 = n % ulong_mod;
        c2 = n % ulong_mod;
        c3 = n % ulong_mod;
        c4 = n % ulong_mod;
      }
  preemptive_rounds_lem n s v =
      rw (← statements-eq n) (all_equal (execute (statements n) (initial s)) back)
    where
      back :
          At laws
            (record { round = n; runner = 0; pc = top })
            false
            (execute (statements n) (initial s))
      back =
          subst (λ q. At laws q false (execute (statements n) (initial s)))
            (places-statements n 0
              ∙ ap (λ (m : ℕ). record { round = m; runner = 0; pc = top }) (omega arith))
            (execute-At (statements n) _ (initial s) (At-initial laws false s v))

      all_equal :
          (t : System S)
          → At laws (record { round = n; runner = 0; pc = top }) false t
          → t.counters ≡ record {
            c0 = n % ulong_mod;
            c1 = n % ulong_mod;
            c2 = n % ulong_mod;
            c3 = n % ulong_mod;
            c4 = n % ulong_mod;
          }
      all_equal t a = ground (arith, a.memory)
