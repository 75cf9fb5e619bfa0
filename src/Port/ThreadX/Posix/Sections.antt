-- ===== src/Port/ThreadX/Posix/Sections.antt =====
-- What the lockout of ports/threadx/posix-host does to the lock count of a pthread that ThreadX runs.
use thread_metric_benchmark.Base.{
  ℕ, zero, suc, ◌+◌, ◌-◌, ◌≡◌, refl, ap, ◌∙◌, inl, inr, false, Option, none, some, arith, ◌==◌,
  if◌then◌else◌, Bool-cases,
}
use thread_metric_benchmark.Port.ThreadX.Posix.Lock.{
  Mutex, Interrupts, int_enable, int_disable, Context, is_stale, returned, tx_posix_mutex_lock,
  tx_posix_mutex_unlock, unlock_times, tx_posix_mutex_recursive_unlock, set_global, set_thread,
  tx_thread_interrupt_control,
}

-- A recursive mutex counts.
pub record MutexLaws {M : Type 0} (posix : Mutex M) : Type 0 where
  pub depth : M → ℕ  -- how often the calling pthread holds it
  pub depth-lock : (m : M) → depth (posix.lock m) ≡ depth m + 1
  pub depth-unlock : (m : M) → depth (posix.unlock m) ≡ depth m - 1

-- The pthread is the one that ThreadX runs, or runs an interrupt, and its count is that of the
-- mutex.
pub record IsLive {M : Type 0} {posix : Mutex M} (laws : MutexLaws posix) (s : Context M)
    : Type 0 where
  pub counted : laws.depth s.mutex ≡ s.lock_count
  pub fresh : is_stale s.threadx_thread s.thread_id s.self s.current ≡ false
  pub inside : s.system_state ≡ 0 → (t : ℕ) × (s.current ≡ some t)

-- The lock count that a posture leaves of one.
abbrev pub kept : Interrupts → ℕ → ℕ
kept int_enable n = 0
kept int_disable n = n

-- The posture that is found with the mutex held so often.
abbrev pub posture_at : ℕ → Interrupts
posture_at lock_count = if lock_count == 0 then int_enable else int_disable

module _ {M : Type 0} {posix : Mutex M} (laws : MutexLaws posix) where
  lock-IsLive : (s : Context M) → IsLive laws s → IsLive laws (tx_posix_mutex_lock posix s)
  unfolding tx_posix_mutex_lock
  lock-IsLive s h = record {
    counted = laws.depth-lock s.mutex ∙ ap (λ n. n + 1) h.counted;
    fresh = h.fresh;
    inside = h.inside;
  }

  unlock-IsLive : (s : Context M) → IsLive laws s → IsLive laws (tx_posix_mutex_unlock posix s)
  unfolding tx_posix_mutex_unlock
  unlock-IsLive s h = record {
    counted = laws.depth-unlock s.mutex ∙ ap (λ n. n - 1) h.counted;
    fresh = h.fresh;
    inside = h.inside;
  }

  unlock_times-IsLive :
      (rc : ℕ) (s : Context M)
      → IsLive laws s
      → s.lock_count ≡ rc
      → IsLive laws (unlock_times posix rc s) × ((unlock_times posix rc s).lock_count ≡ 0)
  unfolding unlock_times
  unlock_times-IsLive zero s h e = (h, e)
  unlock_times-IsLive (suc rc) s h e =
      unlock_times-IsLive rc (tx_posix_mutex_unlock posix s) (unlock-IsLive s h)
        (unfold tx_posix_mutex_unlock in omega arith)

  -- The loop gives the mutex up, however often it is held.
  recursive_unlock-IsLive :
      (s : Context M)
      → IsLive laws s
      → IsLive laws (tx_posix_mutex_recursive_unlock posix s)
        × ((tx_posix_mutex_recursive_unlock posix s).lock_count ≡ 0)
  unfolding tx_posix_mutex_recursive_unlock
  recursive_unlock-IsLive s h = unlock_times-IsLive s.lock_count s h refl

  set_global-enable :
      (s : Context M)
      → IsLive laws s
      → IsLive laws (set_global posix int_enable s)
        × ((set_global posix int_enable s).lock_count ≡ 0)
  unfolding set_global
  set_global-enable s h =
      recursive_unlock-IsLive (record s { global_int_disabled = false })
        (record { counted = h.counted; fresh = h.fresh; inside = h.inside })

  set_global-disable :
      (s : Context M)
      → IsLive laws s
      → IsLive laws (set_global posix int_disable s)
        × ((set_global posix int_disable s).lock_count ≡ s.lock_count)
  unfolding set_global
  set_global-disable s h =
      (record { counted = h.counted; fresh = h.fresh; inside = h.inside }, refl)

  set_thread-enable :
      (o : Option ℕ) (t : ℕ) (s : Context M)
      → o ≡ some t
      → IsLive laws s
      → IsLive laws (set_thread posix o int_enable s)
        × ((set_thread posix o int_enable s).lock_count ≡ 0)
  unfolding set_thread
  set_thread-enable none t s e h = cc
  set_thread-enable (some t') t s e h =
      recursive_unlock-IsLive
        (record s { int_disabled = λ j. if t' == j then false else s.int_disabled j })
        (record { counted = h.counted; fresh = h.fresh; inside = h.inside })

  set_thread-disable :
      (o : Option ℕ) (s : Context M)
      → IsLive laws s
      → IsLive laws (set_thread posix o int_disable s)
        × ((set_thread posix o int_disable s).lock_count ≡ s.lock_count)
  unfolding set_thread
  set_thread-disable none s h = (h, refl)
  set_thread-disable (some t) s h =
      (record { counted = h.counted; fresh = h.fresh; inside = h.inside }, refl)

  abbrev settled : Interrupts → Context M → Context M
  settled posture s =
      if s.system_state == 0
      then set_thread posix s.current posture s
      else set_global posix posture s

  abbrev Settled : Interrupts → Context M → Context M → Type 0
  Settled posture s s' = IsLive laws s' × (s'.lock_count ≡ kept posture s.lock_count)

  set_global-Settled :
      (posture : Interrupts) (s : Context M)
      → IsLive laws s
      → Settled posture s (set_global posix posture s)
  set_global-Settled int_enable s h = set_global-enable s h
  set_global-Settled int_disable s h = set_global-disable s h

  set_thread-Settled :
      (posture : Interrupts) (t : ℕ) (s : Context M)
      → s.current ≡ some t
      → IsLive laws s
      → Settled posture s (set_thread posix s.current posture s)
  set_thread-Settled int_enable t s e h = set_thread-enable s.current t s e h
  set_thread-Settled int_disable t s e h = set_thread-disable s.current s h

  settled-Settled :
      (posture : Interrupts) (s : Context M) → IsLive laws s → Settled posture s (settled posture s)
  settled-Settled posture s h = elim (Bool-cases (s.system_state == 0)) [
    | inl idle ↦
        let (t, e) = h.inside (ground arith) in rw idle (set_thread-Settled posture t s e h)
    | inr other ↦ rw other (set_global-Settled posture s h)
  ]

  same_test : (n : ℕ) → ((n + 1) == 1) ≡ (n == 0)
  same_test n = ground arith

  -- A live pthread is not ended.
  pub control-IsLive :
      (posture : Interrupts) (s : Context M)
      → IsLive laws s
      → (s' : Context M) × (tx_thread_interrupt_control posix posture s
          ≡ returned (posture_at s.lock_count) s')
        × IsLive laws s'
        × (s'.lock_count ≡ kept posture (s.lock_count + 1))
  control-IsLive posture s h =
      let locked = tx_posix_mutex_lock posix s in
      let after = settled-Settled posture locked (lock-IsLive s h) in
      (
        settled posture locked,
        unfold tx_thread_interrupt_control in rw (h.fresh, same_test s.lock_count),
        after.0,
        unfold tx_posix_mutex_lock in after.1,
      )
