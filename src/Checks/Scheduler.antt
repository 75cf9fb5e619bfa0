-- ===== src/Checks/Scheduler.antt =====
-- A scheduler for the small layer: the first ready thread of the least priority.
use thread_metric_benchmark.Base.{
  ℕ, zero, suc, ◌≤◌, ◌<◌, ◌≡◌, refl, ap, inl, inr, Bool, true, false, ◌&&◌, Option, none, some,
  arith, ltb, ◌==◌, if◌then◌else◌, Bool-cases,
}
use mathlib.Core.Path.{subst}
use thread_metric_benchmark.Api.Laws.{ThreadLaws}
use thread_metric_benchmark.Suite.Cooperative.System.{RingLaws}
use thread_metric_benchmark.Checks.Machine.{Machine, machine_api, rotate}

abbrev pub better : (ℕ → ℕ) → ℕ → Option ℕ → Option ℕ
better pr n none = some n
better pr n (some i) = if ltb (pr n) (pr i) then some n else some i

-- The choice among the threads below `n`.
abbrev pub choose : (ℕ → Bool) → (ℕ → ℕ) → ℕ → Option ℕ
choose rd pr zero = none
choose rd pr (suc n) = if rd n then better pr n (choose rd pr n) else choose rd pr n

abbrev pub IsBest : (ℕ → Bool) → (ℕ → ℕ) → ℕ → Option ℕ → Type 0
IsBest rd pr n none = (j : ℕ) → j < n → rd j ≡ false
IsBest rd pr n (some i) = (i < n) × (rd i ≡ true) × ((j : ℕ) → j < n → rd j ≡ true → pr i ≤ pr j)

better-IsBest :
    (rd : ℕ → Bool) (pr : ℕ → ℕ) (n : ℕ) (o : Option ℕ)
    → rd n ≡ true
    → IsBest rd pr n o
    → IsBest rd pr (suc n) (better pr n o)
better-IsBest rd pr n none e h = (omega arith, e, λ j l r. ground (arith, h j))
better-IsBest rd pr n (some i) e h = elim (Bool-cases (ltb (pr n) (pr i))) [
  | inl lt ↦ rw lt (omega arith, e, λ j l r. ground (arith, h.2 j))
  | inr ge ↦ rw ge (omega (arith, h.0), h.1, λ j l r. ground (arith, h.2 j))
]

keep-IsBest :
    (rd : ℕ → Bool) (pr : ℕ → ℕ) (n : ℕ) (o : Option ℕ)
    → rd n ≡ false
    → IsBest rd pr n o
    → IsBest rd pr (suc n) o
keep-IsBest rd pr n none e h = λ j l. ground (arith, h j)
keep-IsBest rd pr n (some i) e h = (omega (arith, h.0), h.1, λ j l r. ground (arith, h.2 j))

pub choose-IsBest : (rd : ℕ → Bool) (pr : ℕ → ℕ) (n : ℕ) → IsBest rd pr n (choose rd pr n)
choose-IsBest rd pr zero = λ j l. absurd (omega arith)
choose-IsBest rd pr (suc n) = elim (Bool-cases (rd n)) [
  | inl e ↦ rw e (better-IsBest rd pr n (choose rd pr n) e (choose-IsBest rd pr n))
  | inr e ↦ rw e (keep-IsBest rd pr n (choose rd pr n) e (choose-IsBest rd pr n))
]

abbrev pub is_ready : Machine → ℕ → Bool
is_ready s j = ltb j 10 && s.ready j

pub chosen :
    (rd : ℕ → Bool) (pr : ℕ → ℕ) (o : Option ℕ) (i : ℕ)
    → IsBest rd pr 10 o
    → o ≡ some i
    → (rd i ≡ true) × ((j : ℕ) → j < 10 → rd j ≡ true → pr i ≤ pr j)
chosen rd pr none i h e = cc
chosen rd pr (some k) i h e =
    let same : k ≡ i = cc in
    subst (λ m. (rd m ≡ true) × ((j : ℕ) → j < 10 → rd j ≡ true → pr m ≤ pr j)) same (h.1, h.2)

pub found :
    (rd : ℕ → Bool) (pr : ℕ → ℕ) (o : Option ℕ) (j : ℕ)
    → IsBest rd pr 10 o
    → j < 10
    → rd j ≡ true
    → (i : ℕ) × (o ≡ some i)
found rd pr none j h l e = cc (h j l)
found rd pr (some k) j h l e = (k, refl)

pub updated :
    (b : Bool) (i j : ℕ) (s : Machine)
    → i < 10
    → (ltb j 10 && (if i == j then b else s.ready j)) ≡ (if i == j then b else is_ready s j)
updated b i j s h = ground arith

pub below : (j : ℕ) (s : Machine) → is_ready s j ≡ true → j < 10
below j s h = ground arith

unfoldable pub thread_laws : {Entry : Type 0} → ThreadLaws (machine_api {Entry = Entry})
thread_laws = record {
  created = λ s. s.created;
  ready = is_ready;
  priority = λ s. s.priority;
  current = λ s. choose (is_ready s) s.priority 10;
  create_status = λ i q e s h k c. refl;
  create_created = λ i q j e s h k c. refl;
  create_ready = λ i q j e s h k c. updated false i j s h;
  create_priority = λ i q j e s h k c. refl;
  resume_status = λ i s h c. refl;
  resume_created = λ i j s h c. refl;
  resume_ready = λ i j s h c. updated true i j s h;
  resume_priority = λ i j s h c. refl;
  suspend_created = λ i j s h c. refl;
  suspend_ready = λ i j s h c. updated false i j s h;
  suspend_priority = λ i j s h c. refl;
  current_ready =
      λ s i c. (chosen (is_ready s) s.priority _ i (choose-IsBest (is_ready s) s.priority 10) c).0;
  current_best = λ s i j c r.
      (chosen (is_ready s) s.priority _ i (choose-IsBest (is_ready s) s.priority 10) c).1 j
        (below j s r) r;
  current_some = λ s j r.
      found (is_ready s) s.priority _ j (choose-IsBest (is_ready s) s.priority 10) (below j s r) r;
}

unfoldable pub ring_laws : {Entry : Type 0} → RingLaws (machine_api {Entry = Entry})
ring_laws = record { ring = λ s. s.ring; relinquish_lem = λ i rest s e. ap rotate e }
