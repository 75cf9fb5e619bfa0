-- ===== src/Port/ThreadX/Bracket.antt =====
-- What the synthetic interrupt context of ports/threadx/tm_port.c keeps.
use thread_metric_benchmark.Base.{
  ℕ, ◌-◌, ◌<◌, ◌≡◌, refl, ap, ◌∙◌, Bool, true, false, not, ◌&&◌, ◌||◌, arith, ◌==◌, if◌then◌else◌,
  uint_mod,
}
use thread_metric_benchmark.Api.{Status, tm_success, tm_error}
use thread_metric_benchmark.Port.ThreadX.Kernel.{
  Kernel, Target, cortex_m, posix_host, Port, returned, increment, decrement,
}
use thread_metric_benchmark.Port.ThreadX.Interrupt.{
  bracketed, called, in_context, wants_preemption, tm_threadx_benchmark_sync_complete,
}

-- The two counters are variables of the kernel.
pub record Counters {K : Type 0} (kernel : Kernel K) : Type 0 where
  pub state_set : (n : ℕ) (k : K) → kernel.system_state (kernel.set_system_state n k) ≡ n
  pub state_kept :
      (n : ℕ) (k : K) → kernel.system_state (kernel.set_preempt_disable n k) ≡ kernel.system_state k
  pub disable_set : (n : ℕ) (k : K) → kernel.preempt_disable (kernel.set_preempt_disable n k) ≡ n
  pub disable_kept :
      (n : ℕ) (k : K)
      → kernel.preempt_disable (kernel.set_system_state n k) ≡ kernel.preempt_disable k

-- A property of the kernel's state that does not look at the counters.
pub record IsStable {K : Type 0} (kernel : Kernel K) (P : K → Type 0) : Type 0 where
  pub state : (n : ℕ) (k : K) → P k → P (kernel.set_system_state n k)
  pub disable : (n : ℕ) (k : K) → P k → P (kernel.set_preempt_disable n k)

-- The kernel in which a bracketed service runs.
abbrev pub entered : {K : Type 0} → Kernel K → K → K
entered kernel k =
    let k' = kernel.set_system_state (increment (kernel.system_state k)) k in
    kernel.set_preempt_disable (increment (kernel.preempt_disable k')) k'

-- The kernel that the bracket leaves.
abbrev left : {K : Type 0} → Kernel K → K → K
left kernel k =
    let k' = kernel.set_preempt_disable (decrement (kernel.preempt_disable k)) k in
    kernel.set_system_state (decrement (kernel.system_state k')) k'

decrement-increment : (n : ℕ) → n < uint_mod - 1 → decrement (increment n) ≡ n
decrement-increment n h = omega arith

increment-pos : (m n : ℕ) → m ≡ increment n → n < uint_mod - 1 → 0 < m
increment-pos m n e h = omega arith

module _ {K : Type 0} (kernel : Kernel K) (counters : Counters kernel) where
  entered_state :
      (k : K) → kernel.system_state (entered kernel k) ≡ increment (kernel.system_state k)
  entered_state k = counters.state_kept _ _ ∙ counters.state_set _ _

  entered_disable :
      (k : K) → kernel.preempt_disable (entered kernel k) ≡ increment (kernel.preempt_disable k)
  entered_disable k = counters.disable_set _ _ ∙ ap increment (counters.disable_kept _ _)

  left_state : (k : K) → kernel.system_state (left kernel k) ≡ decrement (kernel.system_state k)
  left_state k = counters.state_set _ _ ∙ ap decrement (counters.state_kept _ _)

  left_disable :
      (k : K) → kernel.preempt_disable (left kernel k) ≡ decrement (kernel.preempt_disable k)
  left_disable k = counters.disable_kept _ _ ∙ counters.disable_set _ _

pub called_lem :
    {Entry Init K : Type 0} (Q : K → Type 0) (service : K → ℕ × K) (s : Port Entry Init K)
    → ((service s.kernel).0 ≡ 0)
    → Q (service s.kernel).1
    → ((called service s).0 ≡ tm_success) × Q (called service s).1.kernel
unfolding called returned
called_lem Q service s e q = (rw e, q)

both_branches :
    {A : Type 0} (P : A → Type 0) (b : Bool) (x y : A) → P x → P y → P (if b then x else y)
both_branches P true x y p q = p
both_branches P false x y p q = q

called_error :
    {Entry Init K : Type 0} (Q : K → Type 0) (service : K → ℕ × K) (s : Port Entry Init K)
    → (((service s.kernel).0 == 0) ≡ false)
    → Q (service s.kernel).1
    → ((called service s).0 ≡ tm_error) × Q (called service s).1.kernel
unfolding called returned
called_error Q service s e q = (rw e, q)

-- The laws of include/tm_api.h speak of the state that a call leaves.
outcome :
    {S : Type 0} (x : Status × S) (status : Status) (Q : S → Type 0)
    → (x.0 ≡ status) × Q x.1
    → (s' : S) × (x ≡ (status, s')) × Q s'
outcome x status Q (e, q) = (x.1, ap (λ a. (a, x.1)) e, q)

pub called_works :
    {Entry Init K : Type 0} (Q : K → Type 0) (service : K → ℕ × K) (s : Port Entry Init K)
    → ((service s.kernel).0 ≡ 0) × Q (service s.kernel).1
    → (s' : Port Entry Init K) × (called service s ≡ (tm_success, s')) × Q s'.kernel
called_works Q service s (e, q) = outcome _ _ (λ t. Q t.kernel) (called_lem Q service s e q)

pub called_fails :
    {Entry Init K : Type 0} (Q : K → Type 0) (service : K → ℕ × K) (s : Port Entry Init K)
    → (((service s.kernel).0 == 0) ≡ false) × Q (service s.kernel).1
    → (s' : Port Entry Init K) × (called service s ≡ (tm_error, s')) × Q s'.kernel
called_fails Q service s (e, q) = outcome _ _ (λ t. Q t.kernel) (called_error Q service s e q)

module _ {Entry Init K : Type 0} (kernel : Kernel K) where
  -- A service that works in every kernel with P, and there leaves Q, does so in the bracket.
  bracketed_lem :
      (P Q : K → Type 0) (target : Target) (service : K → ℕ × K) (s : Port Entry Init K)
      → IsStable kernel P
      → IsStable kernel Q
      → ((k : K) → P k → ((service k).0 ≡ 0) × Q (service k).1)
      → P s.kernel
      → ((bracketed kernel target service s).0 ≡ tm_success)
        × Q (bracketed kernel target service s).1.kernel
  unfolding bracketed returned
  bracketed_lem P Q posix_host service s p q works h =
      let (e, done) = works s.kernel h in (rw e, done)
  bracketed_lem P Q cortex_m service s p q works h =
      let (e, done) = works (entered kernel s.kernel) (p.disable _ _ (p.state _ _ h)) in
      (rw e, q.state _ _ (q.disable _ _ done))

  pub in_context_lem :
      (P Q : K → Type 0) (target : Target) (service : K → ℕ × K) (s : Port Entry Init K)
      → IsStable kernel P
      → IsStable kernel Q
      → ((k : K) → P k → ((service k).0 ≡ 0) × Q (service k).1)
      → P s.kernel
      → ((in_context kernel target service s).0 ≡ tm_success)
        × Q (in_context kernel target service s).1.kernel
  unfolding in_context
  in_context_lem P Q target service s p q works h =
      both_branches (λ r. (r.0 ≡ tm_success) × Q r.1.kernel) s.interrupt_active
        (bracketed kernel target service s) (called service s)
        (bracketed_lem P Q target service s p q works h)
        (called_lem Q service s (works s.kernel h).0 (works s.kernel h).1)

  pub in_context_works :
      (P Q : K → Type 0) (target : Target) (service : K → ℕ × K) (s : Port Entry Init K)
      → IsStable kernel P
      → IsStable kernel Q
      → ((k : K) → P k → ((service k).0 ≡ 0) × Q (service k).1)
      → P s.kernel
      → (s' : Port Entry Init K) × (in_context kernel target service s ≡ (tm_success, s'))
        × Q s'.kernel
  in_context_works P Q target service s p q works h =
      outcome _ _ (λ t. Q t.kernel) (in_context_lem P Q target service s p q works h)

  -- On a kernel whose two counters are variables, neither at its greatest value, a service that
  -- leaves the counters as it finds them and is called in the bracket of the Cortex-M: it runs with
  -- both counters above 0, its status is returned, PRIMASK and both counters are after it what they
  -- were before, and the mark of a pending preemption is set exactly if the thread that runs is
  -- not the best one then and the count of disabled preemption is 0, or the mark was set before.
  pub bracketed_counters :
      (counters : Counters kernel) (service : K → ℕ × K) (s : Port Entry Init K)
      → kernel.system_state s.kernel < uint_mod - 1
      → kernel.preempt_disable s.kernel < uint_mod - 1
      → ((k : K) → kernel.system_state (service k).1 ≡ kernel.system_state k)
      → ((k : K) → kernel.preempt_disable (service k).1 ≡ kernel.preempt_disable k)
      → (0 < kernel.system_state (entered kernel s.kernel))
        × (0 < kernel.preempt_disable (entered kernel s.kernel))
        × ((bracketed kernel cortex_m service s).0 ≡ returned (service (entered kernel s.kernel)).0)
        × ((bracketed kernel cortex_m service s).1.primask ≡ s.primask)
        × (kernel.system_state (bracketed kernel cortex_m service s).1.kernel
            ≡ kernel.system_state s.kernel)
        × (kernel.preempt_disable (bracketed kernel cortex_m service s).1.kernel
            ≡ kernel.preempt_disable s.kernel)
        × ((bracketed kernel cortex_m service s).1.preemption_pending ≡ (
            (not (kernel.runs_best (bracketed kernel cortex_m service s).1.kernel)
              && (kernel.preempt_disable (bracketed kernel cortex_m service s).1.kernel == 0))
            || s.preemption_pending))
  unfolding bracketed wants_preemption
  bracketed_counters counters service s a b c d =
      let k = entered kernel s.kernel in
      let state = entered_state kernel counters s.kernel in
      let disable = entered_disable kernel counters s.kernel in
      (
        increment-pos _ _ state a,
        increment-pos _ _ disable b,
        refl,
        refl,
        left_state kernel counters (service k).1
            ∙ (ap decrement (c k ∙ state) ∙ decrement-increment _ a),
        left_disable kernel counters (service k).1
            ∙ (ap decrement (d k ∙ disable) ∙ decrement-increment _ b),
        refl,
      )

  -- The end of a synchronous trigger may return to the system.
  pub sync_complete_lem :
      (P : K → Type 0) (target : Target) (s : Port Entry Init K)
      → ((k : K) → P k → P (kernel.system_return k))
      → P s.kernel
      → P (tm_threadx_benchmark_sync_complete kernel target s).kernel
  unfolding tm_threadx_benchmark_sync_complete
  sync_complete_lem P posix_host s keeps p = p
  sync_complete_lem P cortex_m s keeps p =
      let k = s.kernel in
      let k' =
        if wants_preemption kernel k && (kernel.system_state k == 0)
        then kernel.system_return k
        else k in
      both_branches (λ t. P t.kernel) s.preemption_pending
        (record s { preemption_pending = false; kernel = k' }) s
        (both_branches P (wants_preemption kernel k && (kernel.system_state k == 0))
          (kernel.system_return k) k (keeps k p) p)
        p
