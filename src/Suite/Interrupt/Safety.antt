-- ===== src/Suite/Interrupt/Safety.antt =====
-- The states that the interrupt test goes through, and its counters in them.
use thread_metric_benchmark.Base.{
  ℕ, zero, suc, ◌+◌, ◌*◌, ◌%◌, ◌<◌, ◌≡◌, refl, sym, ap, ◌∙◌, ◌≢◌, false, some, arith, pos,
  ulong_mod,
}
use mathlib.Core.Path.{subst}
use thread_metric_benchmark.Api.{Status, tm_success, Api}
use thread_metric_benchmark.Api.Laws.{SemaphoreLaws}
use thread_metric_benchmark.Suite.Rounds.{out_of_range}
use thread_metric_benchmark.Suite.Interrupt.{Counters, interrupt_invalid, interrupt_total}
use thread_metric_benchmark.Suite.Interrupt.Worker.{
  Globals, Pc, first_get, trigger, pick_up, count_up, returned, World, Trigger,
  tm_interrupt_handler, tm_interrupt_thread_0_entry, run, TriggerLaws,
}

-- What the counters are behind r rounds, and the semaphore's count.
abbrev pub globals_at : ℕ → Pc → Globals
globals_at r pick_up = record {
  thread_0_counter = r % ulong_mod;
  handler_counter = (r + 1) % ulong_mod;
}
globals_at r count_up = record {
  thread_0_counter = r % ulong_mod;
  handler_counter = (r + 1) % ulong_mod;
}
globals_at r _ = record { thread_0_counter = r % ulong_mod; handler_counter = r % ulong_mod }

abbrev pub count_at : Pc → ℕ
count_at first_get = 1
count_at pick_up = 1
count_at _ = 0

-- The next place in the loop.
abbrev next_pc : Pc → Pc
next_pc first_get = trigger
next_pc trigger = pick_up
next_pc pick_up = count_up
next_pc count_up = trigger
next_pc returned = returned

abbrev next_round : ℕ → Pc → ℕ
next_round r count_up = r + 1
next_round r _ = r

-- The snapshot of the counters that a report takes.
abbrev pub snapshot : Globals → Counters
snapshot g = record { ct = g.thread_0_counter; ch = g.handler_counter }

-- Before the thread's first statement.
abbrev pub start : {S : Type 0} → S → Pc × World S
start s = (first_get, (record { thread_0_counter = 0; handler_counter = 0 }, s))

module _ {Entry S : Type 0} (api : Api Entry S) (laws : SemaphoreLaws api) (cause : Trigger S)
    (sync : TriggerLaws api laws cause) where
  pub record At (r : ℕ) (pc : Pc) (x : Pc × World S) : Type 0 where
    pub place : x.0 ≡ pc
    pub globals : x.1.0 ≡ globals_at r pc
    pub semaphore : laws.count x.1.1 ≡ some (count_at pc)
    pub inside : pc ≢ returned

  get_step :
      (g : Globals) (s s' : S)
      → api.semaphore_get (pos 0) s ≡ (tm_success, s')
      → (tm_interrupt_thread_0_entry api cause first_get (g, s) ≡ (trigger, (g, s')))
        × (tm_interrupt_thread_0_entry api cause pick_up (g, s) ≡ (count_up, (g, s')))
  unfolding tm_interrupt_thread_0_entry
  get_step g s s' e = (rw e, rw e)

  -- The trigger with the handler of the test: it counts, and its put arrives.
  triggered :
      (g : Globals) (s : S)
      → laws.count s ≡ some 0
      → (s' : S) × (cause (tm_interrupt_handler api) (g, s)
          ≡ (record g { handler_counter = (g.handler_counter + 1) % ulong_mod }, s'))
        × (laws.count s' ≡ some 1)
  unfolding tm_interrupt_handler
  triggered g s c =
      let (s₀, s₁, before, e, behind) = sync.cause_lem (tm_interrupt_handler api) g s in
      let (s', put, c') = laws.put_lem s₀ (before ∙ c) in
      (s₁, e, behind ∙ (ap (λ (x : Status × S). laws.count x.1) put ∙ c'))

  step-At :
      (r : ℕ) (pc : Pc) (s : S)
      → laws.count s ≡ some (count_at pc)
      → pc ≢ returned
      → At
          (next_round r pc)
          (next_pc pc)
          (tm_interrupt_thread_0_entry api cause pc (globals_at r pc, s))
  step-At r first_get s c h =
      let (s', e, c') = laws.get_lem 0 s c in
      subst (At r trigger) (sym (get_step (globals_at r first_get) s s' e).0)
        (record { place = refl; globals = refl; semaphore = c'; inside = cc })
  step-At r trigger s c h =
      let (s', e, c') = triggered (globals_at r trigger) s c in
      record {
        place = unfold tm_interrupt_thread_0_entry in refl;
        globals =
            unfold tm_interrupt_thread_0_entry in (ap (λ (w : World S). w.0) e ∙ ground arith);
        semaphore =
            unfold tm_interrupt_thread_0_entry in (ap (λ (w : World S). laws.count w.1) e ∙ c');
        inside = cc;
      }
  step-At r pick_up s c h =
      let (s', e, c') = laws.get_lem 0 s c in
      subst (At r count_up) (sym (get_step (globals_at r pick_up) s s' e).1)
        (record { place = refl; globals = refl; semaphore = c'; inside = cc })
  step-At r count_up s c h =
      unfold tm_interrupt_thread_0_entry in
      record { place = refl; globals = ground arith; semaphore = c; inside = cc }
  step-At r returned s c h = absurd (h refl)

  At-eq : (r : ℕ) (pc : Pc) (x : Pc × World S) → At r pc x → x ≡ (pc, (globals_at r pc, x.1.1))
  At-eq r pc x a = λ i. (a.place i, (a.globals i, x.1.1))

  -- The round and the place after `n` statements.
  pub round_after : ℕ → ℕ → Pc → ℕ
  round_after zero r pc = r
  round_after (suc n) r pc = round_after n (next_round r pc) (next_pc pc)

  pub pc_after : ℕ → Pc → Pc
  pc_after zero pc = pc
  pc_after (suc n) pc = pc_after n (next_pc pc)

  run-At :
      (n r : ℕ) (pc : Pc) (x : Pc × World S)
      → At r pc x
      → At (round_after n r pc) (pc_after n pc) (run api cause n x)
  unfolding round_after pc_after run
  run-At zero r pc (pc', w) a = a
  run-At (suc n) r pc (pc', w) a = run-At n (next_round r pc) (next_pc pc) _ (
      subst
        (λ (y : Pc × World S).
          At (next_round r pc) (next_pc pc) (tm_interrupt_thread_0_entry api cause y.0 y.1))
        (sym (At-eq r pc (pc', w) a)) (step-At r pc w.1 a.semaphore a.inside))

  start-At : (s : S) → laws.count s ≡ some 1 → At 0 first_get (start s)
  start-At s c = record { place = refl; globals = refl; semaphore = c; inside = cc }

  invalid_at :
      (r : ℕ) (pc : Pc)
      → 2 * (r % ulong_mod) + 1 < ulong_mod
      → interrupt_invalid (snapshot (globals_at r pc)) ≡ false
  unfolding interrupt_invalid interrupt_total out_of_range
  invalid_at r first_get h = ground arith
  invalid_at r trigger h = ground arith
  invalid_at r pick_up h = ground arith
  invalid_at r count_up h = ground arith
  invalid_at r returned h = ground arith

  thread_count : (r : ℕ) (pc : Pc) → (globals_at r pc).thread_0_counter ≡ r % ulong_mod
  thread_count r first_get = refl
  thread_count r trigger = refl
  thread_count r pick_up = refl
  thread_count r count_up = refl
  thread_count r returned = refl

  -- On a layer that keeps the laws of the semaphore and whose synchronous trigger calls its
  -- handler once, in-line, and changes the semaphore's count only by that, from an available semaphore and zero counters: after any number of statements
  -- the thread has not returned, and the report's test finds the counters valid, as long as twice
  -- the thread's counter plus 1 is below 2 ^ 64.
  pub interrupt_never_invalid :
      (n : ℕ) (s : S)
      → laws.count s ≡ some 1
      → 2 * (run api cause n (start s)).1.0.thread_0_counter + 1 < ulong_mod
      → ((run api cause n (start s)).0 ≢ returned)
        × (interrupt_invalid (snapshot (run api cause n (start s)).1.0) ≡ false)
  interrupt_never_invalid n s c h =
      let a = run-At n 0 first_get (start s) (start-At s c) in
      let r = round_after n 0 first_get in
      let pc = pc_after n first_get in
      (
        (λ e. a.inside (sym a.place ∙ e)),
        ap (λ g. interrupt_invalid (snapshot g)) a.globals
            ∙ invalid_at r pc (
                subst (λ m. 2 * m + 1 < ulong_mod)
                  (ap (λ g. g.thread_0_counter) a.globals ∙ thread_count r pc) h),
      )
