-- ===== src/Checks/ThreadXMachine.antt =====
-- A small ThreadX kernel, with threads, one queue, semaphores and one pool.
use thread_metric_benchmark.Base.{
  ℕ, zero, suc, ◌+◌, Bool, true, false, Option, none, some, List, [], ◌∷◌, ◌++◌, ltb, if◌then◌else◌,
  length,
}
use thread_metric_benchmark.Api.{Message}
use thread_metric_benchmark.Port.ThreadX.Kernel.{
  Kernel, ThreadBlock, tm_thread, tm_isr_thread, SemaphoreBlock, tm_semaphore, tm_isr_semaphore,
  Port, update,
}
use thread_metric_benchmark.Port.ThreadX.Queue.{capacity_of}
use thread_metric_benchmark.Checks.Machine.{Machine, empty_machine}

pub record Rtos : Type 0 where
  pub state : ℕ
  pub disable : ℕ
  pub threads : Machine
  pub counts : ℕ → Option ℕ
  pub isr_count : ℕ
  pub contents : Option (List Message)
  pub capacity : ℕ
  pub free : List ℕ

abbrev pub create_thread : ThreadBlock → ℕ → Rtos → Rtos
create_thread (tm_thread i) q k =
    let s = k.threads in
    record k {
      threads = record s {
        created = update s.created i true;
        ready = update s.ready i false;
        priority = update s.priority i q;
      };
    }
create_thread tm_isr_thread q k = k

abbrev pub set_ready : ThreadBlock → Bool → Rtos → Rtos
set_ready (tm_thread i) b k =
    let s = k.threads in record k { threads = record s { ready = update s.ready i b } }
set_ready tm_isr_thread b k = k

abbrev pub create_semaphore : SemaphoreBlock → ℕ → Rtos → Rtos
create_semaphore (tm_semaphore i) n k = record k { counts = update k.counts i (some n) }
create_semaphore tm_isr_semaphore n k = record k { isr_count = n }

abbrev pub take_count : Option ℕ → ℕ → Rtos → ℕ × Rtos
take_count (some (suc n)) i k = (0, record k { counts = update k.counts i (some n) })
take_count _ i k = (13, k)

abbrev pub get_semaphore : SemaphoreBlock → Rtos → ℕ × Rtos
get_semaphore (tm_semaphore i) k = take_count (k.counts i) i k
get_semaphore tm_isr_semaphore k = (13, k)

abbrev pub add_count : Option ℕ → ℕ → Rtos → ℕ × Rtos
add_count (some n) i k = (0, record k { counts = update k.counts i (some (suc n)) })
add_count none i k = (12, k)

abbrev pub put_semaphore : SemaphoreBlock → Rtos → ℕ × Rtos
put_semaphore (tm_semaphore i) k = add_count (k.counts i) i k
put_semaphore tm_isr_semaphore k = (0, record k { isr_count = suc k.isr_count })

abbrev pub wait_count : ℕ → Rtos → Option Rtos
wait_count zero k = none
wait_count (suc n) k = some (record k { isr_count = n })

abbrev pub wait_semaphore : SemaphoreBlock → Rtos → Option Rtos
wait_semaphore (tm_semaphore i) k = none
wait_semaphore tm_isr_semaphore k = wait_count k.isr_count k

abbrev pub send : Option (List Message) → Message → Rtos → ℕ × Rtos
send none m k = (9, k)
send (some ms) m k =
    if ltb (length ms) k.capacity then (0, record k { contents = some (ms ++ m ∷ []) }) else (11, k)

abbrev pub receive : Option (List Message) → Rtos → ℕ × Option Message × Rtos
receive (some (m ∷ ms)) k = (0, some m, record k { contents = some ms })
receive _ k = (10, none, k)

abbrev pub allocate : List ℕ → Rtos → ℕ × Option ℕ × Rtos
allocate [] k = (16, none, k)
allocate (b ∷ bs) k = (0, some b, record k { free = bs })

abbrev pub rtos : Kernel Rtos
rtos = record {
  thread_create = λ b sh st sz q th start k. (0, create_thread b q k);
  thread_resume = λ b k. (0, set_ready b true k);
  thread_suspend = λ b k. (0, set_ready b false k);
  thread_relinquish = λ k. k;
  thread_sleep = λ n k. k;
  queue_create = λ i words memory size k.
      (0, record k { contents = some []; capacity = capacity_of words size });
  queue_send = λ i m k. send k.contents m k;
  queue_receive = λ i k. receive k.contents k;
  semaphore_create = λ b n k. (0, create_semaphore b n k);
  semaphore_get = get_semaphore;
  semaphore_wait = wait_semaphore;
  semaphore_put = put_semaphore;
  block_pool_create = λ i block memory size k. (0, record k { free = 0 ∷ (block + 8) ∷ [] });
  block_allocate = λ i k. allocate k.free k;
  block_release = λ b k. (0, record k { free = b ∷ k.free });
  system_state = λ k. k.state;
  set_system_state = λ n k. record k { state = n };
  preempt_disable = λ k. k.disable;
  set_preempt_disable = λ n k. record k { disable = n };
  runs_best = λ k. false;
  system_return = λ k. k;
}

-- Nothing has been created.
abbrev pub new_port : {Entry : Type 0} → Port Entry Unit Rtos
new_port = record {
  entries = λ j. none;
  initialization = none;
  interrupt_active = false;
  preemption_pending = false;
  primask = 0;
  kernel = record {
    state = 0;
    disable = 0;
    threads = empty_machine;
    counts = λ i. none;
    isr_count = 0;
    contents = none;
    capacity = 0;
    free = [];
  };
}
