-- ===== src/Port/ThreadX/Queue.antt =====
-- The queue of ports/threadx/tm_port.c against the laws of include/tm_api.h, on a kernel whose
-- queues are those of the ThreadX manual.
use thread_metric_benchmark.Base.{
  ℕ, zero, suc, ◌*◌, ◌/◌, ◌≤◌, ◌<◌, ◌≡◌, Option, none, some, List, [], ◌∷◌, ◌++◌, arith, length,
  pos,
}
use thread_metric_benchmark.Api.{tm_success, Message}
use thread_metric_benchmark.Api.Laws.{QueueLaws}
use thread_metric_benchmark.Port.ThreadX.Kernel.{
  Kernel, Target, cortex_m, posix_host, Port, returned, queue_size, queue_msg_words, ulong_size,
}
use thread_metric_benchmark.Port.ThreadX.Bracket.{called_works}
use thread_metric_benchmark.Port.ThreadX.Services.{
  threadx_api, tm_queue_create, tm_queue_send, tm_queue_receive,
}

-- The number of messages of `words` words that the kernel places in `size` bytes.
abbrev pub capacity_of : (words size : ℕ) → ℕ
capacity_of zero size = 0
capacity_of (suc w) size = size / (suc w * ulong_size)

-- Queues by their number: what they hold, once they are created, and for how many messages there is
-- room. A queue is first in, first out.
pub record QueueKernel {K : Type 0} (kernel : Kernel K) : Type 0 where
  pub contents : K → ℕ → Option (List Message)
  pub capacity : K → ℕ → ℕ
  pub create_lem :
      (i words memory size : ℕ) (k : K)
      → contents k i ≡ none
      → 0 < words
      → words ≤ 16
      → ((kernel.queue_create i words memory size k).0 ≡ 0)
        × (contents (kernel.queue_create i words memory size k).1 i ≡ some [])
        × (capacity (kernel.queue_create i words memory size k).1 i ≡ capacity_of words size)
  pub send_lem :
      (i : ℕ) (m : Message) (ms : List Message) (k : K)
      → contents k i ≡ some ms
      → length ms < capacity k i
      → ((kernel.queue_send i m k).0 ≡ 0)
        × (contents (kernel.queue_send i m k).1 i ≡ some (ms ++ m ∷ []))
        × (capacity (kernel.queue_send i m k).1 i ≡ capacity k i)
  pub receive_lem :
      (i : ℕ) (m : Message) (ms : List Message) (k : K)
      → contents k i ≡ some (m ∷ ms)
      → ((kernel.queue_receive i k).0 ≡ 0)
        × ((kernel.queue_receive i k).1 ≡ some m)
        × (contents (kernel.queue_receive i k).2 i ≡ some ms)
        × (capacity (kernel.queue_receive i k).2 i ≡ capacity k i)

-- On both targets a message takes the room of four `unsigned long`, and twelve of them or more have
-- room.
room_for_messages :
    (target : Target)
    → (0 < queue_msg_words target)
      × (queue_msg_words target ≤ 16)
      × (12 ≤ capacity_of (queue_msg_words target) queue_size)
unfolding queue_msg_words
room_for_messages cortex_m = (omega arith, omega arith, omega arith)
room_for_messages posix_host = (omega arith, omega arith, omega arith)

-- Queue 0 exists, holds `ms` and has room for twelve messages or more.
abbrev pub Holds : {K : Type 0} {kernel : Kernel K} → QueueKernel kernel → List Message → K → Type 0
Holds q ms k = (q.contents k 0 ≡ some ms) × (12 ≤ q.capacity k 0)

at_least : (m n : ℕ) → m ≡ n → 12 ≤ n → 12 ≤ m
at_least m n e h = omega arith

module _ {Entry Init K : Type 0} (kernel : Kernel K) (q : QueueKernel kernel) where
  pub create_queue :
      (target : Target) (s : Port Entry Init K)
      → q.contents s.kernel 0 ≡ none
      → (s' : Port Entry Init K) × (tm_queue_create kernel target (pos 0) s ≡ (tm_success, s'))
        × Holds q [] s'.kernel
  unfolding tm_queue_create
  create_queue target s new =
      let (some_words, few_words, room) = room_for_messages target in
      let (e, empty, capacity) =
        q.create_lem 0 (queue_msg_words target) 0 queue_size s.kernel new some_words few_words in
      called_works (Holds q []) (kernel.queue_create 0 (queue_msg_words target) 0 queue_size) s
        (e, (empty, at_least _ _ capacity room))

  pub send_to_queue :
      (m : Message) (ms : List Message) (s : Port Entry Init K)
      → Holds q ms s.kernel
      → length ms < 12
      → (s' : Port Entry Init K) × (tm_queue_send kernel (pos 0) m s ≡ (tm_success, s'))
        × Holds q (ms ++ m ∷ []) s'.kernel
  unfolding tm_queue_send
  send_to_queue m ms s (holds, room) few =
      let (e, last, capacity) = q.send_lem 0 m ms s.kernel holds (omega arith) in
      called_works (Holds q (ms ++ m ∷ [])) (kernel.queue_send 0 m) s
        (e, (last, at_least _ _ capacity room))

  received :
      (m : Message) (s : Port Entry Init K)
      → ((kernel.queue_receive 0 s.kernel).0 ≡ 0)
      → ((kernel.queue_receive 0 s.kernel).1 ≡ some m)
      → tm_queue_receive kernel (pos 0) s
        ≡ (tm_success, some m, record s { kernel = (kernel.queue_receive 0 s.kernel).2 })
  unfolding tm_queue_receive returned
  received m s e f = rw (e, f)

  pub receive_from_queue :
      (m : Message) (ms : List Message) (s : Port Entry Init K)
      → Holds q (m ∷ ms) s.kernel
      → (s' : Port Entry Init K) × (tm_queue_receive kernel (pos 0) s ≡ (tm_success, some m, s'))
        × Holds q ms s'.kernel
  receive_from_queue m ms s (holds, room) =
      let (e, f, rest, capacity) = q.receive_lem 0 m ms s.kernel holds in
      (_, received m s e f, (rest, at_least _ _ capacity room))

  -- The laws of include/tm_api.h hold of this layer, for both targets.
  unfoldable pub queue_laws :
      (target : Target) → QueueLaws (threadx_api {Entry = Entry} {Init = Init} kernel target)
  unfolding threadx_api
  queue_laws target = record {
    Absent = λ s. q.contents s.kernel 0 ≡ none;
    Holds = λ s ms. Holds q ms s.kernel;
    capacity = 12;
    room = omega arith;
    create_lem = create_queue target;
    send_lem = send_to_queue;
    receive_lem = receive_from_queue;
  }
