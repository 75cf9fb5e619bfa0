-- ===== src/Checks/Machine.antt =====
-- A small layer to run the tests on: ten threads, a queue of ten messages; and a kernel with one
-- binary semaphore for ports/freertos/tm_port.c.
use thread_metric_benchmark.Base.{
  ℕ, ◌<◌, ◌≡◌, refl, Bool, true, false, not, Option, none, some, List, [], ◌∷◌, ◌++◌, arith, ltb,
  if◌then◌else◌, length, pos_part,
}
use thread_metric_benchmark.Api.{Status, tm_success, tm_error, Message, Api}
use thread_metric_benchmark.Api.Laws.{QueueLaws}
use thread_metric_benchmark.Port.FreeRtos.Kernel.{Kernel, Port, update}
use thread_metric_benchmark.Port.FreeRtos.Semaphore.{SemaphoreKernel}
use thread_metric_benchmark.Port.FreeRtos.Queue.{QueueKernel}

pub record Machine : Type 0 where
  pub created : ℕ → Bool
  pub ready : ℕ → Bool
  pub priority : ℕ → ℕ
  pub queue : Option (List Message)
  pub ring : List ℕ  -- ready threads of one priority

abbrev pub send : Message → Machine → Option (List Message) → Status × Machine
send m s none = (tm_error, s)
send m s (some ms) =
    if ltb (length ms) 10
    then (tm_success, record s { queue = some (ms ++ m ∷ []) })
    else (tm_error, s)

abbrev pub receive : Machine → Option (List Message) → Status × Option Message × Machine
receive s none = (tm_error, none, s)
receive s (some []) = (tm_error, none, s)
receive s (some (m ∷ ms)) = (tm_success, some m, record s { queue = some ms })

abbrev pub rotate : List ℕ → List ℕ
rotate [] = []
rotate (i ∷ rest) = rest ++ i ∷ []

abbrev pub machine_api : {Entry : Type 0} → Api Entry Machine
machine_api = record {
  thread_create = λ i q e s. (
    tm_success,
    record s {
      created = update s.created (pos_part i) true;
      ready = update s.ready (pos_part i) false;
      priority = update s.priority (pos_part i) (pos_part q);
    },
  );
  thread_resume = λ i s. (tm_success, record s { ready = update s.ready (pos_part i) true });
  thread_suspend = λ i s. (tm_success, record s { ready = update s.ready (pos_part i) false });
  thread_relinquish = λ s. record s { ring = rotate s.ring };
  queue_create = λ i s. (tm_success, record s { queue = some [] });
  queue_send = λ i m s. send m s s.queue;
  queue_receive = λ i s. receive s s.queue;
  semaphore_create = λ i s. (tm_error, s);
  semaphore_get = λ i s. (tm_error, s);
  semaphore_put = λ i s. (tm_error, s);
  memory_pool_create = λ i s. (tm_error, s);
  memory_pool_allocate = λ i s. (tm_error, none, s);
  memory_pool_deallocate = λ i b s. (tm_error, s);
}

pub send_step :
    (m : Message) (ms : List Message) (s : Machine) (q : Option (List Message))
    → q ≡ some ms
    → length ms < 10
    → send m s q ≡ (tm_success, record s { queue = some (ms ++ m ∷ []) })
send_step m ms s none e l = cc
send_step m ms s (some ns) e l = ground arith

pub receive_step :
    (m : Message) (ms : List Message) (s : Machine) (q : Option (List Message))
    → q ≡ some (m ∷ ms)
    → receive s q ≡ (tm_success, some m, record s { queue = some ms })
receive_step m ms s q e = rw e

unfoldable pub queue_laws : {Entry : Type 0} → QueueLaws (machine_api {Entry = Entry})
queue_laws = record {
  Absent = λ s. s.queue ≡ none;
  Holds = λ s ms. s.queue ≡ some ms;
  capacity = 10;
  room = omega arith;
  create_lem = λ s h. (_, refl, refl);
  send_lem = λ m ms s h l. (_, send_step m ms s s.queue h l, refl);
  receive_lem = λ m ms s h. (_, receive_step m ms s s.queue h, refl);
}

-- A kernel whose state is whether the semaphore 0 is full.
abbrev pub kernel : Kernel Bool
kernel = record {
  task_create = λ d p q k. (true, some p, k);
  task_suspend = λ h k. k;
  task_resume = λ h k. k;
  task_resume_from_isr = λ h k. (false, k);
  yield_from_isr = λ b k. k;
  inside_interrupt = λ k. false;
  task_yield = λ k. k;
  task_delay = λ t k. k;
  ms_to_ticks = λ n. n;
  queue_create = λ d z k. (some 0, k);
  queue_send_to_back = λ h m k. (false, k);
  queue_receive = λ h k. (false, none, k);
  semaphore_create_binary = λ k. (some 0, false);
  semaphore_give = λ h k. (not k, true);
  semaphore_give_from_isr = λ h k. (not k, false, true);
  semaphore_take = λ h k. (k, false);
}

unfoldable pub semaphore_kernel : SemaphoreKernel kernel
semaphore_kernel = record {
  full = λ k h. k;
  create_lem = λ k. (0, false, refl, refl);
  give_lem = λ h k e. (true, rw e, refl);
  give_from_isr_lem = λ h k e. (false, true, rw e, refl);
  yield_lem = λ b h k. refl;
  take_lem = λ h k e. (false, rw e, refl);
  take_empty = λ h k e. (false, rw e, refl);
}

-- A layer before anything is created.
abbrev pub empty_port : {Entry : Type 0} → Port Entry Bool
empty_port = record {
  threads = λ i. none;
  entries = λ i. none;
  queue = none;
  semaphore = none;
  next = λ b. none;
  pool_free = none;
  interrupt_active = false;
  kernel = false;
}

abbrev pub empty_machine : Machine
empty_machine = record {
  created = λ j. false;
  ready = λ j. false;
  priority = λ j. 0;
  queue = none;
  ring = [];
}

-- A kernel whose state is the messages in the queue 0.
abbrev pub enqueue : Message → List Message → Bool × List Message
enqueue m ms = if ltb (length ms) 10 then (true, ms ++ m ∷ []) else (false, ms)

abbrev pub dequeue : List Message → Bool × Option Message × List Message
dequeue [] = (false, none, [])
dequeue (m ∷ ms) = (true, some m, ms)

abbrev pub queue_machine : Kernel (List Message)
queue_machine = record {
  task_create = λ d p q k. (true, some p, k);
  task_suspend = λ h k. k;
  task_resume = λ h k. k;
  task_resume_from_isr = λ h k. (false, k);
  yield_from_isr = λ b k. k;
  inside_interrupt = λ k. false;
  task_yield = λ k. k;
  task_delay = λ t k. k;
  ms_to_ticks = λ n. n;
  queue_create = λ d z k. (some 0, []);
  queue_send_to_back = λ h m k. enqueue m k;
  queue_receive = λ h k. dequeue k;
  semaphore_create_binary = λ k. (none, k);
  semaphore_give = λ h k. (false, k);
  semaphore_give_from_isr = λ h k. (false, false, k);
  semaphore_take = λ h k. (false, k);
}

enqueue_step :
    (m : Message) (ms : List Message) → length ms < 10 → enqueue m ms ≡ (true, ms ++ m ∷ [])
enqueue_step m ms h = ground arith

pub queue_kernel : QueueKernel queue_machine
queue_kernel = record {
  contents = λ k h. k;
  create_lem = λ size k. (0, [], refl, refl);
  send_lem = λ h m k l. (_, enqueue_step m k l, refl);
  receive_lem = λ h m ms k e. (ms, rw e, refl);
}
