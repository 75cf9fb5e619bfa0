-- ===== src/Port/ThreadX/Posix/Deletion.antt =====
-- The end of a pthread when its thread is deleted or reset: the two functions at the end of
-- ports/threadx/posix-host/tx_thread_schedule.c.
use mathlib.Core.Option
use thread_metric_benchmark.Base.{
  ℕ, zero, suc, ◌+◌, ◌<◌, ◌≡◌, refl, ap, ◌∙◌, Bool, true, false, Option, none, some, List, ◌∷◌,
  arith, if◌then◌else◌,
}
use thread_metric_benchmark.Port.ThreadX.Posix.Lock.{
  Mutex, Context, Interrupts, Outcome, returned, exited, tx_thread_interrupt_disable,
  tx_thread_interrupt_restore,
}
use thread_metric_benchmark.Port.ThreadX.Posix.Semaphore.{tx_posix_sem_post}
use thread_metric_benchmark.Port.ThreadX.Posix.Nesting.{
  Signal, resume, Scheduler, update, at_update, send,
}

-- The calls on pthreads and semaphores that end them, on a state of the process.
pub record Pthreads (P : Type 0) : Type 0 where
  pub cancel : (thread_id : ℕ) → P → Bool × P  -- pthread_cancel; `true` is EAGAIN
  pub join : (thread_id : ℕ) → P → P  -- pthread_join
  pub destroy : (t : ℕ) → P → P  -- tx_posix_sem_destroy, of the thread's run semaphore

-- The call returns, with the posture that TX_DISABLE stores, or the pthread that calls ends itself.
pub data Completed (M P : Type 0) : Type 0 where
  completed : Interrupts → Context M → Scheduler → P → Completed M P
  ended : Context M → Scheduler → P → Completed M P

-- The pthread is woken, by whatever it waits for, so that it can be cancelled.
unfoldable pub wake_up : ℕ → Scheduler → Scheduler
unfolding send tx_posix_sem_post
wake_up t v =
    let w = send (resume t) v in
    record w { run_semaphore = update w.run_semaphore t (tx_posix_sem_post (w.run_semaphore t)) }

module _ {P : Type 0} (pthreads : Pthreads P) where
  -- The loop, for so many rounds at most.
  unfoldable pub cancel_loop : (rounds t thread_id : ℕ) → Scheduler → P → Option (Scheduler × P)
  unfolding wake_up
  cancel_loop zero t thread_id v p = none
  cancel_loop (suc rounds) t thread_id v p =
      let (again, p') = pthreads.cancel thread_id p in
      let rest = cancel_loop rounds t thread_id (wake_up t v) p' in
      if again then rest else some (v, p')

  unfoldable pub disabled : {M : Type 0} → Outcome M → Scheduler → P → Completed M P
  disabled (returned posture s) v p = completed posture s v p
  disabled (exited s) v p = ended s v p

  module _ {M : Type 0} (posix : Mutex M) where
    unfoldable pub joined : (t thread_id : ℕ) → Context M → Scheduler × P → Completed M P
    unfolding tx_thread_interrupt_disable disabled
    joined t thread_id s (v, p) =
        disabled (tx_thread_interrupt_disable posix s) v
          (pthreads.destroy t (pthreads.join thread_id p))

    unfoldable pub restored :
        (rounds t thread_id : ℕ) → Outcome M → Scheduler → P → Option (Completed M P)
    unfolding cancel_loop joined
    restored rounds t thread_id (exited s) v p = some (ended s v p)
    restored rounds t thread_id (returned posture s) v p =
        Option.map (joined t thread_id s) (cancel_loop rounds t thread_id v p)

    -- _tx_thread_delete_port_completion
    unfoldable pub tx_thread_delete_port_completion :
        (rounds t : ℕ) (tx_saved_posture : Interrupts)
        → Context M
        → Scheduler
        → P
        → Option (Completed M P)
    unfolding tx_thread_interrupt_restore restored
    tx_thread_delete_port_completion rounds t tx_saved_posture s v p =
        restored rounds t (s.thread_id t) (tx_thread_interrupt_restore posix tx_saved_posture s) v p

    -- _tx_thread_reset_port_completion
    unfoldable pub tx_thread_reset_port_completion :
        (rounds t : ℕ) (tx_saved_posture : Interrupts)
        → Context M
        → Scheduler
        → P
        → Option (Completed M P)
    unfolding tx_thread_interrupt_restore restored
    tx_thread_reset_port_completion rounds t tx_saved_posture s v p =
        restored rounds t (s.thread_id t) (tx_thread_interrupt_restore posix tx_saved_posture s) v p

  -- So many calls of pthread_cancel in a row fail, and then one does not.
  pub data Refuses (thread_id : ℕ) : (n : ℕ) → P → P → Type 0 where
    accepts : (p p' : P) → pthreads.cancel thread_id p ≡ (false, p') → Refuses thread_id 0 p p'
    refuses :
        (n : ℕ) (p p' p'' : P)
        → pthreads.cancel thread_id p ≡ (true, p')
        → Refuses thread_id n p' p''
        → Refuses thread_id (suc n) p p''

  -- The signals that so many failures send.
  abbrev pub resumed : (n t : ℕ) → List Signal → List Signal
  resumed zero t sent = sent
  resumed (suc n) t sent = resumed n t (resume t ∷ sent)

  loop_ends :
      (rounds t thread_id n : ℕ) (v : Scheduler) (p p' : P)
      → Refuses thread_id n p p'
      → n < rounds
      → (v' : Scheduler) × (cancel_loop rounds t thread_id v p ≡ some (v', p'))
        × (v'.run_semaphore t ≡ v.run_semaphore t + n)
        × (v'.signals ≡ resumed n t v.signals)
  unfolding cancel_loop wake_up send tx_posix_sem_post
  loop_ends zero t thread_id n v p p' r h = absurd (omega arith)
  loop_ends (suc rounds) t thread_id zero v p p' (accepts q q' e) h =
      (v, rw e refl, omega arith, refl)
  loop_ends (suc rounds) t thread_id (suc n) v p p' (refuses m q q' q'' e r) h =
      let (v', f, g, sent) = loop_ends rounds t thread_id n (wake_up t v) q' p' r (omega arith) in
      (
        v',
        rw e f,
        g ∙ ap (λ k. k + n) (at_update v.run_semaphore t (v.run_semaphore t + 1)) ∙ (omega arith),
        sent,
      )

  -- On the ThreadX port for POSIX hosts, if TX_RESTORE returns and pthread_cancel fails with EAGAIN n
  -- times and then not: the loop that cancels the pthread of the thread t ends, with any number of
  -- rounds above n, both in the completion of a deletion and in that of a reset. It has posted t's
  -- run semaphore n times and sent n signals that resume t; and if TX_DISABLE, behind it, returns,
  -- then the call returns what that leaves, with the pthread joined and then the semaphore destroyed.
  pub port_completion_ends :
      {M : Type 0} (posix : Mutex M) (rounds t n : ℕ)
      (tx_saved_posture posture posture' : Interrupts) (s s' s'' : Context M) (v : Scheduler)
      (p p' : P)
      → tx_thread_interrupt_restore posix tx_saved_posture s ≡ returned posture s'
      → tx_thread_interrupt_disable posix s' ≡ returned posture' s''
      → Refuses (s.thread_id t) n p p'
      → n < rounds
      → (v' : Scheduler) × (tx_thread_delete_port_completion posix rounds t tx_saved_posture s v p
          ≡ some
              (completed posture' s'' v' (pthreads.destroy t (pthreads.join (s.thread_id t) p'))))
        × (tx_thread_reset_port_completion posix rounds t tx_saved_posture s v p
            ≡ some
                (completed posture' s'' v' (pthreads.destroy t (pthreads.join (s.thread_id t) p'))))
        × (v'.run_semaphore t ≡ v.run_semaphore t + n)
        × (v'.signals ≡ resumed n t v.signals)
  unfolding tx_thread_delete_port_completion tx_thread_reset_port_completion restored joined
      disabled
  port_completion_ends posix rounds t n tx_saved_posture posture posture' s s' s'' v p p' e d r h =
      let (v', f, g, sent) = loop_ends rounds t (s.thread_id t) n v p p' r h in
      let done =
        ap (λ o. restored posix rounds t (s.thread_id t) o v p) e
        ∙ ap (Option.map (joined posix t (s.thread_id t) s')) f
        ∙ ap (λ o. some (disabled o v' (pthreads.destroy t (pthreads.join (s.thread_id t) p'))))
            d in
      (v', done, done, g, sent)
