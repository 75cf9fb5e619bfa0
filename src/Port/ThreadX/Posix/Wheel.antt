-- ===== src/Port/ThreadX/Posix/Wheel.antt =====
-- Ticks of the timer interrupt of ports/threadx/posix-host between the events of the kernel.
use thread_metric_benchmark.Base.{
  ℕ, zero, suc, ◌+◌, ◌-◌, ◌%◌, ◌≤◌, ◌<◌, ◌≡◌, sym, ap, ◌∙◌, ◌≢◌, ◌⊎◌, inl, inr, true, false, arith,
  ◌==◌, if◌then◌else◌, ==_iff, Bool-cases, or_true, uint_mod,
}
use native.Mathlib.Nat.{mod_self, mod-lt, mod-eq_of_lt, mod-add-mod}
use thread_metric_benchmark.Port.ThreadX.Posix.Timer.{
  Timer, TimerKernel, count_slice, turn_wheel, process_timers, end_slice, tick, ticks,
}

-- The place behind the last one is the first.
wrap : (size p : ℕ) → p < size → (if p + 1 == size then 0 else p + 1) ≡ (p + 1) % size
wrap size p h = elim (Bool-cases (p + 1 == size)) [
  | inl last ↦ rw last (sym (ap (λ n. n % size) ((==_iff (p + 1) size).0 last) ∙ mod_self size))
  | inr inner ↦ rw inner (sym (mod-eq_of_lt (ground arith)))
]

wrap_from :
    (size c n : ℕ)
    → 0 < size
    → (if (c + n) % size + 1 == size then 0 else (c + n) % size + 1) ≡ (c + suc n) % size
wrap_from size c n h =
    wrap size ((c + n) % size) (mod-lt (c + n) h)
    ∙ (mod-add-mod (c + n) size 1 ∙ ap (λ m. m % size) (omega arith))

clock_zero : (c : ℕ) → c < uint_mod → c ≡ (c + 0) % uint_mod
clock_zero c h = omega arith

clock_suc : (c n : ℕ) → ((c + n) % uint_mod + 1) % uint_mod ≡ (c + suc n) % uint_mod
clock_suc c n = omega arith

slice_zero : (s : ℕ) → s ≡ s - 0
slice_zero s = omega arith

slice_suc : (s n : ℕ) → s - n - 1 ≡ s - suc n
slice_suc s n = omega arith

place_zero : (size c : ℕ) → c < size → c ≡ (c + 0) % size
place_zero size c h = sym (ap (λ m. m % size) (omega arith) ∙ mod-eq_of_lt h)

-- The time slice does not run out within `n` ticks. A slice of 0 never does.
abbrev pub Lasts : (n slice : ℕ) → Type 0
Lasts n slice = (n < slice) ⊎ (slice ≡ 0)

Lasts-le : (m n slice : ℕ) → Lasts n slice → m ≤ n → Lasts m slice
Lasts-le m n slice (inl h) le = inl (omega arith)
Lasts-le m n slice (inr h) le = inr h

Lasts-suc : (n slice : ℕ) → Lasts (suc n) slice → Lasts n slice
Lasts-suc n slice h = Lasts-le n (suc n) slice h (omega arith)

Lasts-other : (n slice : ℕ) → Lasts (suc n) slice → slice - n ≢ 1
Lasts-other n slice (inl h) e = omega arith
Lasts-other n slice (inr h) e = omega arith

module _ {K : Type 0} (kernel : TimerKernel K) where
  -- `n` ticks on: no timer and no time slice has run out.
  abbrev pub later : ℕ → Timer K → Timer K
  later n t = record t {
    system_clock = (t.system_clock + n) % uint_mod;
    time_slice = t.time_slice - n;
    current = (t.current + n) % kernel.size;
  }

  counted :
      (t : Timer K)
      → t.time_slice ≢ 1
      → count_slice kernel t ≡ record t { time_slice = t.time_slice - 1 }
  unfolding count_slice
  counted t h = ground arith

  slice_out :
      (t : Timer K)
      → t.time_slice ≡ 1
      → count_slice kernel t ≡ record t { time_slice = t.time_slice - 1; expired_time_slice = true }
  unfolding count_slice
  slice_out t h = ground arith

  quiet_step :
      (t : Timer K)
      → t.expired ≡ false
      → t.expired_time_slice ≡ false
      → t.time_slice ≢ 1
      → kernel.occupied t.kernel t.current ≡ false
      → tick kernel t ≡ record t {
        system_clock = (t.system_clock + 1) % uint_mod;
        time_slice = t.time_slice - 1;
        current = if t.current + 1 == kernel.size then 0 else t.current + 1;
      }
  unfolding tick
  quiet_step t e e' h free =
      rw (counted (record t { system_clock = (t.system_clock + 1) % uint_mod }) h)
        (unfold turn_wheel in rw (free, e, e'))

  -- Nothing has run out, and the variables are in their ranges.
  pub record IsCalm (t : Timer K) : Type 0 where
    pub clock : t.system_clock < uint_mod
    pub place : t.current < kernel.size
    pub no_timer : t.expired ≡ false
    pub no_slice : t.expired_time_slice ≡ false

  -- The places of the next `n` ticks hold no timer.
  abbrev pub IsFree : ℕ → Timer K → Type 0
  IsFree n t = (m : ℕ) → m < n → kernel.occupied t.kernel ((t.current + m) % kernel.size) ≡ false

  size-pos : (t : Timer K) → IsCalm t → 0 < kernel.size
  size-pos t h = let l = h.place in omega arith

  pub ticks-later :
      (n : ℕ) (t : Timer K)
      → IsCalm t
      → Lasts n t.time_slice
      → IsFree n t
      → ticks kernel n t ≡ later n t
  unfolding ticks
  ticks-later zero t h slice free = λ i. record t {
    system_clock = clock_zero t.system_clock h.clock i;
    time_slice = slice_zero t.time_slice i;
    current = place_zero kernel.size t.current h.place i;
  }
  ticks-later (suc n) t h slice free =
      ap (tick kernel)
        (ticks-later n t h (Lasts-suc n t.time_slice slice) (λ m l. free m (omega arith)))
      ∙ (quiet_step (later n t) h.no_timer h.no_slice (Lasts-other n t.time_slice slice)
            (free n (omega arith))
          ∙ (λ i. record t {
            system_clock = clock_suc t.system_clock n i;
            time_slice = slice_suc t.time_slice n i;
            current = wrap_from kernel.size t.current n (size-pos t h) i;
          }))

  slice_step :
      (t : Timer K)
      → t.expired ≡ false
      → t.time_slice ≡ 1
      → kernel.occupied t.kernel t.current ≡ false
      → tick kernel t
        ≡ kernel.thread_time_slice (record t {
          system_clock = (t.system_clock + 1) % uint_mod;
          time_slice = t.time_slice - 1;
          expired_time_slice = true;
          current = if t.current + 1 == kernel.size then 0 else t.current + 1;
        })
  unfolding tick
  slice_step t e one free =
      rw (slice_out (record t { system_clock = (t.system_clock + 1) % uint_mod }) one)
        (unfold turn_wheel process_timers end_slice in rw (free, e))

  timer_step :
      (t : Timer K)
      → t.time_slice ≢ 1
      → kernel.occupied t.kernel t.current ≡ true
      → tick kernel t
        ≡ end_slice kernel (
            kernel.timer_expiration_process (record t {
              system_clock = (t.system_clock + 1) % uint_mod;
              time_slice = t.time_slice - 1;
              expired = true;
            }))
  unfolding tick
  timer_step t h there =
      rw (counted (record t { system_clock = (t.system_clock + 1) % uint_mod }) h)
        (unfold turn_wheel process_timers in rw (there, or_true t.expired_time_slice))

  -- On the ThreadX port for POSIX hosts, for any kernel, with no timer and no time slice run out and
  -- the place in the list and the clock in their ranges: if the time slice is n + 1 and the next
  -- n + 1 places of the circular list hold no timer, then m ticks of the timer interrupt, up to n,
  -- only count the clock up modulo 2 ^ 32 and the slice down and go m places on, and the tick after
  -- n hands the thread's time slice to the kernel as run out.
  pub slice_runs_out :
      (m n : ℕ) (t : Timer K)
      → IsCalm t
      → t.time_slice ≡ suc n
      → IsFree (suc n) t
      → m ≤ n
      → (ticks kernel m t ≡ later m t)
        × (ticks kernel (suc n) t
            ≡ kernel.thread_time_slice (record (later (suc n) t) { expired_time_slice = true }))
  unfolding ticks
  slice_runs_out m n t h slice free le = (
    ticks-later m t h (inl (omega arith)) (λ k l. free k (omega arith)),
    ap (tick kernel) (ticks-later n t h (inl (omega arith)) (λ k l. free k (omega arith)))
        ∙ (slice_step (later n t) h.no_timer (omega arith) (free n (omega arith))
            ∙ ap kernel.thread_time_slice (λ i. record t {
              system_clock = clock_suc t.system_clock n i;
              time_slice = slice_suc t.time_slice n i;
              expired_time_slice = true;
              current = wrap_from kernel.size t.current n (size-pos t h) i;
            })),
  )

  -- On the ThreadX port for POSIX hosts, for any kernel, with no timer and no time slice run out and
  -- the place in the list and the clock in their ranges: if the next n places of the circular list
  -- hold no timer, the one behind them holds one, and the time slice is 0 or lasts for more than
  -- n + 1 ticks, then m ticks of the timer interrupt, up to n, only count the clock up modulo 2 ^ 32
  -- and the slice down and go m places on, and the tick after n has the kernel process the timers
  -- of that place.
  pub timer_runs_out :
      (m n : ℕ) (t : Timer K)
      → IsCalm t
      → Lasts (suc n) t.time_slice
      → IsFree n t
      → kernel.occupied t.kernel ((t.current + n) % kernel.size) ≡ true
      → m ≤ n
      → (ticks kernel m t ≡ later m t)
        × (ticks kernel (suc n) t
            ≡ end_slice kernel (
                kernel.timer_expiration_process (record (later (suc n) t) {
                  expired = true;
                  current = (t.current + n) % kernel.size;
                })))
  unfolding ticks
  timer_runs_out m n t h slice free there le = (
    ticks-later m t h (Lasts-le m n t.time_slice (Lasts-suc n t.time_slice slice) le)
        (λ k l. free k (omega arith)),
    ap (tick kernel) (ticks-later n t h (Lasts-suc n t.time_slice slice) free)
        ∙ (timer_step (later n t) (Lasts-other n t.time_slice slice) there
            ∙ ap (λ u. end_slice kernel (kernel.timer_expiration_process u))
                (λ i. record t {
                  system_clock = clock_suc t.system_clock n i;
                  time_slice = slice_suc t.time_slice n i;
                  expired = true;
                  current = (t.current + n) % kernel.size;
                })),
  )
