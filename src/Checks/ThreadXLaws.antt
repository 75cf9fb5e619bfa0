-- ===== src/Checks/ThreadXLaws.antt =====
-- The small ThreadX kernel does what the ThreadX manual says.
use thread_metric_benchmark.Base.{
  ℕ, suc, ◌+◌, ◌<◌, ◌≡◌, refl, ap, ◌∙◌, true, false, Option, none, some, List, [], ◌∷◌, ◌++◌, arith,
  ◌==◌, if◌then◌else◌, length,
}
use thread_metric_benchmark.Api.{Message}
use thread_metric_benchmark.Api.Laws.{Lacks}
use thread_metric_benchmark.Port.ThreadX.Kernel.{update}
use thread_metric_benchmark.Port.ThreadX.Bracket.{Counters}
use thread_metric_benchmark.Port.ThreadX.Entry.{IsrKernel}
use thread_metric_benchmark.Port.ThreadX.Semaphore.{SemaphoreKernel}
use thread_metric_benchmark.Port.ThreadX.Queue.{QueueKernel}
use thread_metric_benchmark.Port.ThreadX.Pool.{PoolKernel}
use thread_metric_benchmark.Port.ThreadX.Threads.{ThreadKernel}
use thread_metric_benchmark.Checks.Scheduler.{is_ready, updated, thread_laws}
use thread_metric_benchmark.Checks.ThreadXMachine.{
  Rtos, take_count, add_count, wait_count, send, receive, allocate, rtos,
}

pub rtos_counters : Counters rtos
rtos_counters = record {
  state_set = λ n k. refl;
  state_kept = λ n k. refl;
  disable_set = λ n k. refl;
  disable_kept = λ n k. refl;
}

created_step : (f : ℕ → Option ℕ) (i n : ℕ) → update f i (some n) i ≡ some n
created_step f i n = ground arith

take_step :
    (o : Option ℕ) (i n : ℕ) (k : Rtos)
    → o ≡ some (suc n)
    → ((take_count o i k).0 ≡ 0) × ((take_count o i k).1.counts i ≡ some n)
take_step o i n k e = rw e (refl, created_step k.counts i n)

take_empty :
    (o : Option ℕ) (i : ℕ) (k : Rtos)
    → o ≡ some 0
    → (((take_count o i k).0 == 0) ≡ false) × ((take_count o i k).1.counts i ≡ k.counts i)
take_empty o i k e = rw e (refl, refl)

add_step :
    (o : Option ℕ) (i n : ℕ) (k : Rtos)
    → o ≡ some n
    → ((add_count o i k).0 ≡ 0) × ((add_count o i k).1.counts i ≡ some (suc n))
add_step o i n k e = rw e (refl, created_step k.counts i (suc n))

unfoldable pub rtos_semaphores : SemaphoreKernel rtos
unfolding created_step take_step take_empty add_step
rtos_semaphores = record {
  count = λ k i. k.counts i;
  create_lem = λ i n k new. (refl, created_step k.counts i n);
  get_lem = λ i n k e. take_step (k.counts i) i n k e;
  get_empty = λ i k e. ((take_empty (k.counts i) i k e).0, (take_empty (k.counts i) i k e).1 ∙ e);
  put_lem = λ i n k l e. add_step (k.counts i) i n k e;
  stable = λ i c. record { state = λ n k h. h; disable = λ n k h. h };
  return_lem = λ i k. refl;
}

wait_step : (n : ℕ) (k : Rtos) → n ≡ 0 → wait_count n k ≡ none
wait_step n k e = rw e

unfoldable pub rtos_isr : IsrKernel rtos
unfolding wait_step
rtos_isr = record {
  pending = λ k. k.isr_count;
  waits = λ k e. wait_step k.isr_count k e;
  wakes = λ k e. refl;
}

send_step_rtos :
    (o : Option (List Message)) (m : Message) (ms : List Message) (k : Rtos)
    → o ≡ some ms
    → length ms < k.capacity
    → send o m k ≡ (0, record k { contents = some (ms ++ m ∷ []) })
send_step_rtos none m ms k e l = cc
send_step_rtos (some ns) m ms k e l = ground arith

receive_step_rtos :
    (o : Option (List Message)) (m : Message) (ms : List Message) (k : Rtos)
    → o ≡ some (m ∷ ms)
    → receive o k ≡ (0, some m, record k { contents = some ms })
receive_step_rtos o m ms k e = rw e

unfoldable pub rtos_queue : QueueKernel rtos
unfolding send_step_rtos receive_step_rtos
rtos_queue = record {
  contents = λ k i. k.contents;
  capacity = λ k i. k.capacity;
  create_lem = λ i words memory size k new some_words few. (refl, refl, refl);
  send_lem = λ i m ms k e l.
      let sent = send_step_rtos k.contents m ms k e l in
      (
        ap (λ x. x.0) sent,
        ap (λ (x : ℕ × Rtos). x.1.contents) sent,
        ap (λ (x : ℕ × Rtos). x.1.capacity) sent,
      );
  receive_lem = λ i m ms k e.
      let got = receive_step_rtos k.contents m ms k e in
      (
        ap (λ x. x.0) got,
        ap (λ x. x.1) got,
        ap (λ (x : ℕ × Option Message × Rtos). x.2.contents) got,
        ap (λ (x : ℕ × Option Message × Rtos). x.2.capacity) got,
      );
}

abbrev pub IsDistinct : List ℕ → Type 0
IsDistinct [] = Unit
IsDistinct (b ∷ bs) = Lacks b bs × IsDistinct bs

pub two_blocks : (b : ℕ) → 0 < length (0 ∷ (b + 8) ∷ [])
two_blocks b = omega arith

pub two_blocks-IsDistinct : (b : ℕ) → IsDistinct (0 ∷ (b + 8) ∷ [])
two_blocks-IsDistinct b = (((λ e. omega arith), tt), (tt, tt))

allocate_step :
    (l : List ℕ) (b : ℕ) (bs : List ℕ) (k : Rtos)
    → l ≡ b ∷ bs
    → allocate l k ≡ (0, some b, record k { free = bs })
allocate_step l b bs k e = rw e

allocate_none : (l : List ℕ) (k : Rtos) → l ≡ [] → allocate l k ≡ (16, none, k)
allocate_none l k e = rw e

unfoldable pub rtos_pool : PoolKernel rtos
unfolding allocate_step allocate_none
rtos_pool = record {
  Absent = λ k i. Unit;
  Free = λ k i bs. (k.free ≡ bs) × IsDistinct bs;
  create_lem = λ i block memory size k new room.
      (0 ∷ (block + 8) ∷ [], refl, two_blocks block, (refl, two_blocks-IsDistinct block));
  allocate_lem = λ i b bs k h.
      let got = allocate_step k.free b bs k h.0 in
      (
        ap (λ x. x.0) got,
        ap (λ x. x.1) got,
        (ap (λ (x : ℕ × Option ℕ × Rtos). x.2.free) got, h.1.1),
        h.1.0,
      );
  allocate_empty = λ i k h.
      let got = allocate_none k.free k h.0 in
      (
        ap (λ (x : ℕ × Option ℕ × Rtos). x.0 == 0) got,
        ap (λ x. x.1) got,
        (ap (λ (x : ℕ × Option ℕ × Rtos). x.2.free) got ∙ h.0, tt),
      );
  release_lem = λ i b bs k h.
      let got = allocate_step k.free b bs k h.0 in
      (refl, (ap (λ (x : ℕ × Option ℕ × Rtos). b ∷ x.2.free) got, h.1));
}

unfoldable pub rtos_threads : ThreadKernel rtos
unfolding thread_laws
rtos_threads = record {
  views = record {
    created = λ k. k.threads.created;
    ready = λ k. is_ready k.threads;
    priority = λ k. k.threads.priority;
  };
  current = λ k. (thread_laws {Entry = Unit}).current k.threads;
  create_lem = λ i q stack j c r p k l new hq h. (
    refl,
    record {
      created_at = ap (λ b. if i == j then true else b) h.created_at;
      ready_at = updated false i j k.threads l ∙ ap (λ b. if i == j then false else b) h.ready_at;
      priority_at = ap (λ n. if i == j then q else n) h.priority_at;
    },
  );
  resume_lem = λ i j c r p k l old h. (
    refl,
    record {
      created_at = h.created_at;
      ready_at = updated true i j k.threads l ∙ ap (λ b. if i == j then true else b) h.ready_at;
      priority_at = h.priority_at;
    },
  );
  suspend_lem = λ i j c r p k l old h. (
    refl,
    record {
      created_at = h.created_at;
      ready_at = updated false i j k.threads l ∙ ap (λ b. if i == j then false else b) h.ready_at;
      priority_at = h.priority_at;
    },
  );
  stable = λ j c r p. record {
    state = λ n k h. record {
      created_at = h.created_at;
      ready_at = h.ready_at;
      priority_at = h.priority_at;
    };
    disable = λ n k h. record {
      created_at = h.created_at;
      ready_at = h.ready_at;
      priority_at = h.priority_at;
    };
  };
  current_ready = λ k. (thread_laws {Entry = Unit}).current_ready k.threads;
  current_best = λ k. (thread_laws {Entry = Unit}).current_best k.threads;
  current_some = λ k. (thread_laws {Entry = Unit}).current_some k.threads;
}
