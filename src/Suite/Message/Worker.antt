-- ===== src/Suite/Message/Worker.antt =====
-- The message thread of src/message_processing.c.
use thread_metric_benchmark.Base.{
  ℕ, zero, suc, ◌+◌, ◌%◌, ◌≡◌, ap, ◌∙◌, Option, none, some, [], arith, ◌==◌, if◌then◌else◌, pos,
  ulong_mod, add_ulong,
}
use thread_metric_benchmark.Api.{Status, tm_success, tm_error, Message, Api}
use thread_metric_benchmark.Api.Laws.{QueueLaws}
use thread_metric_benchmark.Suite.Rounds.{Work, working, stopped, repeat, repeat-working}

-- `tm_message_processing_counter`, `tm_message_sent` and `tm_message_received`.
pub record Globals : Type 0 where
  pub counter : ℕ
  pub sent : Message
  pub received : Message

abbrev pub first_message : Message
first_message = record {
  word_0 = 0x11112222;
  word_1 = 0x33334444;
  word_2 = 0x55556666;
  word_3 = 0x77778888;
}

-- What a receive writes through its pointer.
unfoldable pub store_received : Option Message → Globals → Globals
store_received none g = g
store_received (some m) g = record g { received = m }

-- `tm_message_sent[3]++; tm_message_processing_counter++`
unfoldable pub count_message : Globals → Globals
count_message g = record g {
  counter = add_ulong g.counter 1;
  sent = record (g.sent) { word_3 = add_ulong g.sent.word_3 1 };
}

-- Behind the receive: its status, then the comparison of the last words.
unfoldable pub after_receive : {S : Type 0} → Status → Globals → S → Work Globals S
unfolding count_message
after_receive tm_error g s = stopped g s
after_receive tm_success g s =
    if g.received.word_3 == g.sent.word_3 then working (count_message g) s else stopped g s

-- Behind the send.
unfoldable pub after_send : {Entry S : Type 0} → Api Entry S → Status → Globals → S → Work Globals S
unfolding after_receive store_received
after_send api tm_error g s = stopped g s
after_send api tm_success g s =
    let (status, out, s') = api.queue_receive (pos 0) s in
    after_receive status (store_received out g) s'

-- One round of `while (1)`.
unfoldable pub message_round : {Entry S : Type 0} → Api Entry S → Globals → S → Work Globals S
unfolding after_send
message_round api g s =
    let (status, s') = api.queue_send (pos 0) g.sent s in after_send api status g s'

unfoldable pub tm_message_processing_thread_0_entry :
    {Entry S : Type 0} → Api Entry S → ℕ → Globals → S → Work Globals S
unfolding message_round
tm_message_processing_thread_0_entry api rounds g s =
    repeat (message_round api) rounds (record g { sent = first_message }) s

-- The message that is sent in the k-th round, and the globals before that round.
abbrev pub message_at : ℕ → Message
message_at k = record first_message { word_3 = (0x77778888 + k) % ulong_mod }

abbrev pub globals_at : Message → ℕ → Globals
globals_at old zero = record { counter = 0; sent = message_at 0; received = old }
globals_at old (suc k) = record {
  counter = suc k % ulong_mod;
  sent = message_at (suc k);
  received = message_at k;
}

globals_at-start :
    (g : Globals) → g.counter ≡ 0 → record g { sent = first_message } ≡ globals_at g.received 0
globals_at-start g c = ground arith

count_message-globals_at :
    (old : Message) (k : ℕ)
    → count_message (record (globals_at old k) { received = (globals_at old k).sent })
      ≡ globals_at old (suc k)
unfolding count_message
count_message-globals_at old zero = ground arith
count_message-globals_at old (suc k) = ground arith

module _ {Entry S : Type 0} (api : Api Entry S) (laws : QueueLaws api) where
  round_step :
      (g : Globals) (s s₁ s₂ : S)
      → api.queue_send (pos 0) g.sent s ≡ (tm_success, s₁)
      → api.queue_receive (pos 0) s₁ ≡ (tm_success, some g.sent, s₂)
      → message_round api g s ≡ working (count_message (record g { received = g.sent })) s₂
  round_step g s s₁ s₂ sent received = unfold message_round in rw (sent, received) (ground arith)

  -- A round sends, receives the same message, and counts.
  message_round_lem :
      (g : Globals) (s : S)
      → laws.Holds s []
      → (s' : S) × (message_round api g s
          ≡ working (count_message (record g { received = g.sent })) s')
        × laws.Holds s' []
  message_round_lem g s i =
      let (s₁, sent, one) = laws.send_lem g.sent [] s i laws.room in
      let (s₂, received, none_left) = laws.receive_lem g.sent [] s₁ one in
      (s₂, round_step g s s₁ s₂ sent received, none_left)

  -- On a layer that keeps the laws of the queue, from a zero counter and an empty queue the thread
  -- never leaves its loop: after n rounds it has counted n messages modulo 2 ^ 64, the last
  -- message received is the last one sent, and the queue is empty.
  pub message_processing_thread_lem :
      (n : ℕ) (g : Globals) (s : S)
      → g.counter ≡ 0
      → laws.Holds s []
      → (s' : S) × (tm_message_processing_thread_0_entry api n g s
          ≡ working (globals_at g.received n) s')
        × laws.Holds s' []
  message_processing_thread_lem n g s c i =
      unfold tm_message_processing_thread_0_entry in
      (let (s', e, i') =
          repeat-working (message_round api) (globals_at g.received) (λ t. laws.Holds t [])
            (λ k t j.
              let (t', e, j') = message_round_lem (globals_at g.received k) t j in
              (t', e ∙ ap (λ h. working h t') (count_message-globals_at g.received k), j'))
            n 0 n s (omega arith) i in
        (s', ap (λ h. repeat (message_round api) n h s) (globals_at-start g c) ∙ e, i'))
