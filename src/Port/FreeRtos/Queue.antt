-- ===== src/Port/FreeRtos/Queue.antt =====
-- The queue of ports/freertos/tm_port.c against the laws of include/tm_api.h, on a kernel whose
-- queues are those of the FreeRTOS manual.
use thread_metric_benchmark.Base.{
  ℕ, ◌<◌, ◌≡◌, refl, ap, ◌∙◌, true, some, List, [], ◌∷◌, ◌++◌, arith, length, pos,
}
use thread_metric_benchmark.Api.{tm_success, Message}
use thread_metric_benchmark.Api.Laws.{QueueLaws}
use thread_metric_benchmark.Port.FreeRtos.Kernel.{Kernel, Target, Port}
use thread_metric_benchmark.Port.FreeRtos.Services.{
  queue_msg_size, freertos_api, tm_queue_create, tm_queue_send, tm_queue_receive,
}

-- Queues of messages of a size, by their handles: created empty with a depth, first in, first out.
pub record QueueKernel {K : Type 0} (kernel : Kernel K) : Type 0 where
  pub contents : K → ℕ → List Message
  pub create_lem :
      (size : ℕ) (k : K)
      → (h : ℕ) × (k' : K) × (kernel.queue_create 10 size k ≡ (some h, k')) × (contents k' h ≡ [])
  pub send_lem :
      (h : ℕ) (m : Message) (k : K)
      → length (contents k h) < 10
      → (k' : K) × (kernel.queue_send_to_back (some h) m k ≡ (true, k'))
        × (contents k' h ≡ contents k h ++ m ∷ [])
  pub receive_lem :
      (h : ℕ) (m : Message) (ms : List Message) (k : K)
      → contents k h ≡ m ∷ ms
      → (k' : K) × (kernel.queue_receive (some h) k ≡ (true, some m, k')) × (contents k' h ≡ ms)

-- The layer's handle is that of a queue which holds `ms`.
abbrev pub Holds :
    {Entry K : Type 0} {kernel : Kernel K}
    → QueueKernel kernel
    → Port Entry K
    → List Message
    → Type 0
Holds q s ms = (h : ℕ) × (s.queue ≡ some h) × (q.contents s.kernel h ≡ ms)

module _ {Entry K : Type 0} (kernel : Kernel K) (target : Target) (q : QueueKernel kernel) where
  created :
      (s : Port Entry K) (h : ℕ) (k : K)
      → kernel.queue_create 10 (queue_msg_size target) s.kernel ≡ (some h, k)
      → tm_queue_create kernel target (pos 0) s
        ≡ (tm_success, record s { queue = some h; kernel = k })
  unfolding tm_queue_create
  created s h k e = rw e

  sent :
      (m : Message) (s : Port Entry K) (k : K)
      → kernel.queue_send_to_back s.queue m s.kernel ≡ (true, k)
      → tm_queue_send kernel (pos 0) m s ≡ (tm_success, record s { kernel = k })
  unfolding tm_queue_send
  sent m s k e = rw e

  received :
      (m : Message) (s : Port Entry K) (k : K)
      → kernel.queue_receive s.queue s.kernel ≡ (true, some m, k)
      → tm_queue_receive kernel (pos 0) s ≡ (tm_success, some m, record s { kernel = k })
  unfolding tm_queue_receive
  received m s k e = rw e

  pub create_queued :
      (s : Port Entry K)
      → (s' : Port Entry K) × (tm_queue_create kernel target (pos 0) s ≡ (tm_success, s'))
        × Holds q s' []
  create_queued s =
      let (h, k, e, none_in) = q.create_lem (queue_msg_size target) s.kernel in
      (record s { queue = some h; kernel = k }, created s h k e, (h, refl, none_in))

  pub send_queued :
      (m : Message) (ms : List Message) (s : Port Entry K)
      → Holds q s ms
      → length ms < 10
      → (s' : Port Entry K) × (tm_queue_send kernel (pos 0) m s ≡ (tm_success, s'))
        × Holds q s' (ms ++ m ∷ [])
  send_queued m ms s (h, e, holds) room =
      let (k, done, last) = q.send_lem h m s.kernel (rw holds room) in
      (
        record s { kernel = k },
        sent m s k (ap (λ o. kernel.queue_send_to_back o m s.kernel) e ∙ done),
        (h, e, last ∙ ap (λ l. l ++ m ∷ []) holds),
      )

  pub receive_queued :
      (m : Message) (ms : List Message) (s : Port Entry K)
      → Holds q s (m ∷ ms)
      → (s' : Port Entry K) × (tm_queue_receive kernel (pos 0) s ≡ (tm_success, some m, s'))
        × Holds q s' ms
  receive_queued m ms s (h, e, front) =
      let (k, done, rest) = q.receive_lem h m ms s.kernel front in
      (
        record s { kernel = k },
        received m s k (ap (λ o. kernel.queue_receive o s.kernel) e ∙ done),
        (h, e, rest),
      )

  -- The laws of include/tm_api.h hold of this layer.
  unfoldable pub queue_laws : QueueLaws (freertos_api {Entry = Entry} kernel target)
  unfolding freertos_api
  queue_laws = record {
    Absent = λ s. Unit;
    Holds = Holds q;
    capacity = 10;
    room = omega arith;
    create_lem = λ s _. create_queued s;
    send_lem = send_queued;
    receive_lem = receive_queued;
  }
