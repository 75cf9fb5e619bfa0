-- ===== src/Suite/Snapshot.antt =====
-- What the four tests with several counters report of a snapshot of them: src/cooperative_scheduling.c,
-- src/preemptive_scheduling.c, src/interrupt_processing.c and src/interrupt_preemption_processing.c.
use thread_metric_benchmark.Base.{
  ℕ, zero, suc, ◌+◌, ◌-◌, ◌/◌, ◌%◌, ◌^◌, ◌<◌, ◌≡◌, refl, ap, ◌∙◌, Bool, false, ◌&&◌, ◌||◌, List, [],
  ◌∷◌, arith, ltb, length, ulong_mod,
}
use thread_metric_benchmark.Suite.Rounds.{out_of_range}
use thread_metric_benchmark.Suite.Cooperative
use thread_metric_benchmark.Suite.Preemptive
use thread_metric_benchmark.Suite.Interrupt
use thread_metric_benchmark.Suite.InterruptPreemption

abbrev pub sum : List ℕ → ℕ
sum [] = 0
sum (c ∷ cs) = c + sum cs

-- Their total, in 64 bits.
abbrev pub total : List ℕ → ℕ
total cs = sum cs % 2 ^ 64

-- More than one below or above the average.
abbrev pub off : (average c : ℕ) → Bool
off average c = ltb c (average - 1) || ltb (average + 1) c

abbrev pub some_off : (average : ℕ) → List ℕ → Bool
some_off average [] = false
some_off average (c ∷ cs) = off average c || some_off average cs

-- The average is not 0, and some counter is off it.
abbrev pub disagree : List ℕ → Bool
disagree cs = ltb 0 (total cs / length cs) && some_off (total cs / length cs) cs

same_off : (a c : ℕ) → 0 < a → a + 1 < ulong_mod → out_of_range a c ≡ off a c
unfolding out_of_range
same_off a c p q = ground arith

-- The test comes behind that of the average.
guarded : (a : ℕ) (b c : Bool) → (0 < a → b ≡ c) → (ltb 0 a && b) ≡ (ltb 0 a && c)
guarded zero b c h = refl
guarded (suc a) b c h = ap (λ x. ltb 0 (suc a) && x) (h (omega arith))

or_same : (b c b' c' : Bool) → b ≡ b' → c ≡ c' → (b || c) ≡ (b' || c')
or_same b c b' c' e f = λ i. e i || f i

last_off : (a c : ℕ) → 0 < a → a + 1 < ulong_mod → out_of_range a c ≡ some_off a (c ∷ [])
last_off a c p h = same_off a c p h ∙ (ground arith)

two_off :
    (a c d : ℕ)
    → a + 1 < ulong_mod
    → 0 < a
    → (out_of_range a c || out_of_range a d) ≡ some_off a (c ∷ d ∷ [])
two_off a c d h p = or_same _ _ _ _ (same_off a c p h) (last_off a d p h)

three_off :
    (a c d e : ℕ)
    → a + 1 < ulong_mod
    → 0 < a
    → (out_of_range a c || (out_of_range a d || out_of_range a e)) ≡ some_off a (c ∷ d ∷ e ∷ [])
three_off a c d e h p = or_same _ _ _ _ (same_off a c p h) (two_off a d e h p)

five_off :
    (a c d e f g : ℕ)
    → a + 1 < ulong_mod
    → 0 < a
    → (out_of_range a c
        || (out_of_range a d || (out_of_range a e || (out_of_range a f || out_of_range a g))))
      ≡ some_off a (c ∷ d ∷ e ∷ f ∷ g ∷ [])
five_off a c d e f g h p =
    or_same _ _ _ _ (same_off a c p h) (or_same _ _ _ _ (same_off a d p h) (three_off a e f g h p))

fifth : (n : ℕ) → n % 2 ^ 64 / 5 + 1 < ulong_mod
fifth n = omega arith

third : (n : ℕ) → n % 2 ^ 64 / 3 + 1 < ulong_mod
third n = omega arith

half : (n : ℕ) → n % 2 ^ 64 / 2 + 1 < ulong_mod
half n = omega arith

abbrev pub cooperative_list : Cooperative.Counters → List ℕ
cooperative_list r = r.c0 ∷ r.c1 ∷ r.c2 ∷ r.c3 ∷ r.c4 ∷ []

abbrev pub preemptive_list : Preemptive.Counters → List ℕ
preemptive_list r = r.c0 ∷ r.c1 ∷ r.c2 ∷ r.c3 ∷ r.c4 ∷ []

abbrev pub interrupt_list : Interrupt.Counters → List ℕ
interrupt_list r = r.ct ∷ r.ch ∷ []

abbrev pub interrupt_preemption_list : InterruptPreemption.Counters → List ℕ
interrupt_preemption_list r = r.c0 ∷ r.c1 ∷ r.ch ∷ []

pub cooperative_total-total :
    (r : Cooperative.Counters) → Cooperative.cooperative_total r ≡ total (cooperative_list r)
unfolding Cooperative.cooperative_total
cooperative_total-total r = omega arith

pub cooperative_invalid-disagree :
    (r : Cooperative.Counters) → Cooperative.cooperative_invalid r ≡ disagree (cooperative_list r)
unfolding Cooperative.cooperative_invalid
cooperative_invalid-disagree r =
    ap
      (λ n.
        ltb 0 (n / 5)
        && (out_of_range (n / 5) r.c0
            || (out_of_range (n / 5) r.c1
                || (out_of_range (n / 5) r.c2
                    || (out_of_range (n / 5) r.c3 || out_of_range (n / 5) r.c4)))))
      (cooperative_total-total r)
    ∙ guarded (total (cooperative_list r) / 5) _ _ (
        five_off (total (cooperative_list r) / 5) r.c0 r.c1 r.c2 r.c3 r.c4
          (fifth (sum (cooperative_list r))))

pub preemptive_total-total :
    (r : Preemptive.Counters) → Preemptive.preemptive_total r ≡ total (preemptive_list r)
unfolding Preemptive.preemptive_total
preemptive_total-total r = omega arith

pub preemptive_invalid-disagree :
    (r : Preemptive.Counters) → Preemptive.preemptive_invalid r ≡ disagree (preemptive_list r)
unfolding Preemptive.preemptive_invalid
preemptive_invalid-disagree r =
    ap
      (λ n.
        ltb 0 (n / 5)
        && (out_of_range (n / 5) r.c0
            || (out_of_range (n / 5) r.c1
                || (out_of_range (n / 5) r.c2
                    || (out_of_range (n / 5) r.c3 || out_of_range (n / 5) r.c4)))))
      (preemptive_total-total r)
    ∙ guarded (total (preemptive_list r) / 5) _ _ (
        five_off (total (preemptive_list r) / 5) r.c0 r.c1 r.c2 r.c3 r.c4
          (fifth (sum (preemptive_list r))))

interrupt_total-total :
    (r : Interrupt.Counters) → Interrupt.interrupt_total r ≡ total (interrupt_list r)
unfolding Interrupt.interrupt_total
interrupt_total-total r = omega arith

pub interrupt_invalid-disagree :
    (r : Interrupt.Counters) → Interrupt.interrupt_invalid r ≡ disagree (interrupt_list r)
unfolding Interrupt.interrupt_invalid
interrupt_invalid-disagree r =
    ap (λ n. ltb 0 (n / 2) && (out_of_range (n / 2) r.ct || out_of_range (n / 2) r.ch))
      (interrupt_total-total r)
    ∙ guarded (total (interrupt_list r) / 2) _ _
        (two_off (total (interrupt_list r) / 2) r.ct r.ch (half (sum (interrupt_list r))))

interrupt_preemption_total-total :
    (r : InterruptPreemption.Counters)
    → InterruptPreemption.interrupt_preemption_total r ≡ total (interrupt_preemption_list r)
unfolding InterruptPreemption.interrupt_preemption_total
interrupt_preemption_total-total r = omega arith

pub interrupt_preemption_invalid-disagree :
    (r : InterruptPreemption.Counters)
    → InterruptPreemption.interrupt_preemption_invalid r ≡ disagree (interrupt_preemption_list r)
unfolding InterruptPreemption.interrupt_preemption_invalid
interrupt_preemption_invalid-disagree r =
    ap
      (λ n.
        ltb 0 (n / 3)
        && (out_of_range (n / 3) r.c0 || (out_of_range (n / 3) r.c1 || out_of_range (n / 3) r.ch)))
      (interrupt_preemption_total-total r)
    ∙ guarded (total (interrupt_preemption_list r) / 3) _ _ (
        three_off (total (interrupt_preemption_list r) / 3) r.c0 r.c1 r.ch
          (third (sum (interrupt_preemption_list r))))
