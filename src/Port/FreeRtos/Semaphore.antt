-- ===== src/Port/FreeRtos/Semaphore.antt =====
-- The semaphore of ports/freertos/tm_port.c against the laws of include/tm_api.h, on a kernel whose
-- binary semaphores are those of the FreeRTOS manual.
use thread_metric_benchmark.Base.{
  ℕ, suc, ◌≡◌, refl, sym, ap, ◌∙◌, inl, inr, Bool, true, false, ◌||◌, Option, none, some, arith,
  if◌then◌else◌, Bool-cases, pos,
}
use thread_metric_benchmark.Api.{tm_success, tm_error}
use thread_metric_benchmark.Api.Laws.{SemaphoreLaws}
use thread_metric_benchmark.Port.FreeRtos.Kernel.{Kernel, Target, cortex_m, posix_host, Port}
use thread_metric_benchmark.Port.FreeRtos.Services.{
  freertos_api, tm_semaphore_create, tm_semaphore_get, tm_semaphore_put, from_isr,
}

-- A binary semaphore: created empty, given when empty, taken when full.
pub record SemaphoreKernel {K : Type 0} (kernel : Kernel K) : Type 0 where
  pub full : K → ℕ → Bool
  pub create_lem :
      (k : K)
      → (h : ℕ) × (k' : K) × (kernel.semaphore_create_binary k ≡ (some h, k')) × (full k' h ≡ false)
  pub give_lem :
      (h : ℕ) (k : K)
      → full k h ≡ false
      → (k' : K) × (kernel.semaphore_give (some h) k ≡ (true, k')) × (full k' h ≡ true)
  pub give_from_isr_lem :
      (h : ℕ) (k : K)
      → full k h ≡ false
      → (woken : Bool) × (k' : K) × (kernel.semaphore_give_from_isr (some h) k ≡ (true, woken, k'))
        × (full k' h ≡ true)
  pub yield_lem : (b : Bool) (h : ℕ) (k : K) → full (kernel.yield_from_isr b k) h ≡ full k h
  pub take_lem :
      (h : ℕ) (k : K)
      → full k h ≡ true
      → (k' : K) × (kernel.semaphore_take (some h) k ≡ (true, k')) × (full k' h ≡ false)
  pub take_empty :
      (h : ℕ) (k : K)
      → full k h ≡ false
      → (k' : K) × (kernel.semaphore_take (some h) k ≡ (false, k')) × (full k' h ≡ false)

-- The count of the semaphore behind a handle, if there is one.
abbrev pub handle_count :
    {K : Type 0} {kernel : Kernel K} → SemaphoreKernel kernel → Option ℕ → K → Option ℕ
handle_count sem none k = none
handle_count sem (some h) k = some (if sem.full k h then 1 else 0)

module _ {K : Type 0} {kernel : Kernel K} (sem : SemaphoreKernel kernel) where
  count-full : (h : ℕ) (k : K) → sem.full k h ≡ true → handle_count sem (some h) k ≡ some 1
  count-full h k e = rw e

  count-empty : (h : ℕ) (k : K) → sem.full k h ≡ false → handle_count sem (some h) k ≡ some 0
  count-empty h k e = rw e

  -- What a count says of the handle.
  has_full :
      (o : Option ℕ) (k : K) (n : ℕ)
      → handle_count sem o k ≡ some (suc n)
      → (h : ℕ) × (o ≡ some h) × (sem.full k h ≡ true) × (n ≡ 0)
  has_full none k n e = cc
  has_full (some h) k n e = (h, refl, ground arith, ground arith)

  has_empty :
      (o : Option ℕ) (k : K)
      → handle_count sem o k ≡ some 0
      → (h : ℕ) × (o ≡ some h) × (sem.full k h ≡ false)
  has_empty none k e = cc
  has_empty (some h) k e = (h, refl, ground arith)

module _ {Entry K : Type 0} (kernel : Kernel K) (target : Target)
    (sem : SemaphoreKernel kernel) where
  abbrev count : Port Entry K → Option ℕ
  count s = handle_count sem s.semaphore s.kernel

  created :
      (s : Port Entry K) (h : ℕ) (k k' : K)
      → kernel.semaphore_create_binary s.kernel ≡ (some h, k)
      → kernel.semaphore_give (some h) k ≡ (true, k')
      → tm_semaphore_create kernel (pos 0) s
        ≡ (tm_success, record s { semaphore = some h; kernel = k' })
  unfolding tm_semaphore_create
  created s h k k' e given = rw (e, given)

  taken :
      (s : Port Entry K) (b : Bool) (k' : K)
      → kernel.semaphore_take s.semaphore s.kernel ≡ (b, k')
      → tm_semaphore_get kernel (pos 0) s
        ≡ ((if b then tm_success else tm_error), record s { kernel = k' })
  unfolding tm_semaphore_get
  taken s true k' e = rw e
  taken s false k' e = rw e

  given :
      (s : Port Entry K) (k' : K)
      → from_isr kernel target s ≡ false
      → kernel.semaphore_give s.semaphore s.kernel ≡ (true, k')
      → tm_semaphore_put kernel target (pos 0) s ≡ (tm_success, record s { kernel = k' })
  unfolding tm_semaphore_put
  given s k' thread e = rw (thread, e)

  given_from_isr :
      (s : Port Entry K) (woken : Bool) (k' : K)
      → from_isr kernel target s ≡ true
      → kernel.semaphore_give_from_isr s.semaphore s.kernel ≡ (true, woken, k')
      → tm_semaphore_put kernel target (pos 0) s
        ≡ (tm_success, record s { kernel = kernel.yield_from_isr woken k' })
  unfolding tm_semaphore_put
  given_from_isr s woken k' isr e = rw (isr, e)

  -- On a kernel with the documented binary semaphores, the creation of semaphore 0 succeeds and
  -- leaves the count 1.
  pub create_count :
      (s : Port Entry K)
      → (s' : Port Entry K) × (tm_semaphore_create kernel (pos 0) s ≡ (tm_success, s'))
        × (count s' ≡ some 1)
  create_count s =
      let (h, k, e, empty) = sem.create_lem s.kernel in
      let (k', now, full) = sem.give_lem h k empty in
      (
        record s { semaphore = some h; kernel = k' },
        created s h k k' e now,
        count-full sem h k' full,
      )

  -- On a kernel with the documented binary semaphores, a get of semaphore 0 with the count n + 1
  -- succeeds and leaves the count n.
  pub get_count :
      (n : ℕ) (s : Port Entry K)
      → count s ≡ some (suc n)
      → (s' : Port Entry K) × (tm_semaphore_get kernel (pos 0) s ≡ (tm_success, s'))
        × (count s' ≡ some n)
  get_count n s c =
      let (h, e, full, z) = has_full sem s.semaphore s.kernel n c in
      let (k', took, empty) = sem.take_lem h s.kernel full in
      (
        record s { kernel = k' },
        taken s true k' (ap (λ o. kernel.semaphore_take o s.kernel) e ∙ took),
        ap (λ o. handle_count sem o k') e ∙ (count-empty sem h k' empty ∙ ap (λ m. some m) (sym z)),
      )

  pub get_empty :
      (s : Port Entry K)
      → count s ≡ some 0
      → (s' : Port Entry K) × (tm_semaphore_get kernel (pos 0) s ≡ (tm_error, s'))
        × (count s' ≡ some 0)
  get_empty s c =
      let (h, e, empty) = has_empty sem s.semaphore s.kernel c in
      let (k', missed, still) = sem.take_empty h s.kernel empty in
      (
        record s { kernel = k' },
        taken s false k' (ap (λ o. kernel.semaphore_take o s.kernel) e ∙ missed),
        ap (λ o. handle_count sem o k') e ∙ count-empty sem h k' still,
      )

  -- The kernel that a put leaves: on the Cortex-M, in an exception or in the handler of a synchronous
  -- trigger, by xSemaphoreGiveFromISR and portYIELD_FROM_ISR, and else by xSemaphoreGive.
  abbrev pub kernel_after_put : Target → Port Entry K → K
  kernel_after_put posix_host s = (kernel.semaphore_give s.semaphore s.kernel).1
  kernel_after_put cortex_m s =
      let (given, woken, k) = kernel.semaphore_give_from_isr s.semaphore s.kernel in
      if kernel.inside_interrupt s.kernel || s.interrupt_active
      then kernel.yield_from_isr woken k
      else (kernel.semaphore_give s.semaphore s.kernel).1

  put_in_thread :
      (target : Target) (s : Port Entry K) (k : K)
      → from_isr kernel target s ≡ false
      → kernel.semaphore_give s.semaphore s.kernel ≡ (true, k)
      → k ≡ kernel_after_put target s
  unfolding from_isr
  put_in_thread posix_host s k thread e = sym (ap (λ (x : Bool × K). x.1) e)
  put_in_thread cortex_m s k thread e = rw thread (sym (ap (λ (x : Bool × K). x.1) e))

  put_in_interrupt :
      (target : Target) (s : Port Entry K) (woken : Bool) (k : K)
      → from_isr kernel target s ≡ true
      → kernel.semaphore_give_from_isr s.semaphore s.kernel ≡ (true, woken, k)
      → kernel.yield_from_isr woken k ≡ kernel_after_put target s
  unfolding from_isr
  put_in_interrupt posix_host s woken k isr e = cc isr
  put_in_interrupt cortex_m s woken k isr e =
      rw isr (sym (ap (λ (x : Bool × Bool × K). kernel.yield_from_isr x.1 x.2) e))

  -- On a kernel with the documented binary semaphores, a put of semaphore 0 with the count 0
  -- succeeds and leaves the count 1, on both targets. Its call of the kernel is xSemaphoreGive, except
  -- on the Cortex-M in an exception or in the handler of a synchronous trigger, where it is
  -- xSemaphoreGiveFromISR followed by portYIELD_FROM_ISR.
  pub put_count :
      (s : Port Entry K)
      → count s ≡ some 0
      → (s' : Port Entry K) × (tm_semaphore_put kernel target (pos 0) s ≡ (tm_success, s'))
        × (count s' ≡ some 1)
        × (s'.kernel ≡ kernel_after_put target s)
  put_count s c =
      let (h, e, empty) = has_empty sem s.semaphore s.kernel c in
      elim (Bool-cases (from_isr kernel target s)) [
        | inl isr ↦
            let (woken, k', now, full) = sem.give_from_isr_lem h s.kernel empty in
            let now' = ap (λ o. kernel.semaphore_give_from_isr o s.kernel) e ∙ now in
            (
              record s { kernel = kernel.yield_from_isr woken k' },
              given_from_isr s woken k' isr now',
              ap (λ o. handle_count sem o (kernel.yield_from_isr woken k')) e
                  ∙ count-full sem h _ (sem.yield_lem woken h k' ∙ full),
              put_in_interrupt target s woken k' isr now',
            )
        | inr thread ↦
            let (k', now, full) = sem.give_lem h s.kernel empty in
            let now' = ap (λ o. kernel.semaphore_give o s.kernel) e ∙ now in
            (
              record s { kernel = k' },
              given s k' thread now',
              ap (λ o. handle_count sem o k') e ∙ count-full sem h k' full,
              put_in_thread target s k' thread now',
            )
      ]

  -- The laws of include/tm_api.h hold of this layer, for both targets.
  unfoldable pub semaphore_laws : SemaphoreLaws (freertos_api {Entry = Entry} kernel target)
  unfolding freertos_api
  semaphore_laws = record {
    count = count;
    create_lem = λ s _. create_count s;
    get_lem = get_count;
    get_empty = get_empty;
    put_lem = λ s c. let (s', e, c', called) = put_count s c in (s', e, c');
  }
