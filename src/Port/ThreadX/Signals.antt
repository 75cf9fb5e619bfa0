-- ===== src/Port/ThreadX/Signals.antt =====
-- How one pthread stops another in ports/threadx/posix-host/tx_initialize_low_level.c:
-- _tx_posix_thread_suspend, _tx_posix_thread_resume and the handler of the signal to suspend, which
-- answers by a byte in a pipe. The model has one such pipe, the pthread that reads it, and the
-- pthreads that answer into it; a step is a system call or an access to `_tx_posix_thread_suspended`.
-- What POSIX says of signals is part of the steps: a signal sent to a pthread is pending, once,
-- until it is delivered; the handler runs with every signal blocked, sigsuspend lets through the
-- signal to resume alone, and that one is blocked everywhere else.
pub mod Answers
pub mod Pairing
pub mod Moves
pub mod Safety
pub mod Progress
use thread_metric_benchmark.Base.{ℕ, suc, ◌+◌, ◌≡◌, Bool, true, false, ltb, if◌then◌else◌}
use thread_metric_benchmark.Port.ThreadX.Posix.Nesting.{update}

-- Where a pthread stands: in its own code, in the handler behind the test of the flag, behind the
-- write, in sigsuspend, or behind it.
pub data HandlerPc : Type 0 where
  outside : HandlerPc
  entered : HandlerPc
  written : HandlerPc
  paused : HandlerPc
  woken : HandlerPc

pub record Target : Type 0 where
  pub pc : HandlerPc
  pub suspended : Bool  -- _tx_posix_thread_suspended
  pub suspend_pending : Bool  -- SUSPEND_SIG
  pub resume_pending : Bool  -- RESUME_SIG

-- What the caller does: none of the two calls, or it has sent the signal to suspend `t` and waits
-- for the byte.
pub data Caller : Type 0 where
  idle : Caller
  reading : (t : ℕ) → Caller

pub record System : Type 0 where
  pub caller : Caller
  pub pipe : ℕ  -- the bytes in the pipe
  pub target : ℕ → Target
  pub asleep : ℕ → Bool  -- a call to suspend it has returned, and none to resume it was made since

-- _tx_posix_thread_suspend_handler, up to the write: a duplicate signal is ignored.
unfoldable pub enter : Target → Target
enter g = record g { pc = if g.suspended then outside else entered; suspend_pending = false }

-- `_tx_posix_thread_suspended = 1`, and sigsuspend
unfoldable pub pause : Target → Target
pause g = record g { pc = paused; suspended = true }

-- sigsuspend returns.
unfoldable pub wake : Target → Target
wake g = record g { pc = woken; resume_pending = false }

-- `_tx_posix_thread_suspended = 0`, and the handler returns.
unfoldable pub leave : Target → Target
leave g = record g { pc = outside; suspended = false }

abbrev pub change : System → ℕ → Target → System
change s t g = record s { target = update s.target t g }

-- How many bytes a pipe holds is a parameter.
module _ (capacity : ℕ) where
  -- The write does not block: into a full pipe it writes nothing.
  unfoldable pub push : (pipe : ℕ) → ℕ
  push pipe = if ltb pipe capacity then pipe + 1 else pipe

  -- The caller makes a call to suspend only for a pthread that is not asleep, and one to resume only
  -- for one that is.
  pub data Step (s : System) : System → Type 0 where
    -- _tx_posix_thread_suspend: the signal is sent.
    kill_suspend :
        (t : ℕ)
        → s.caller ≡ idle
        → s.asleep t ≡ false
        → Step s (record (change s t (record (s.target t) { suspend_pending = true })) {
          caller = reading t;
        })
    -- _tx_posix_thread_suspend: the byte is read.
    acknowledged :
        (t n : ℕ)
        → s.caller ≡ reading t
        → s.pipe ≡ suc n
        → Step s (record s { caller = idle; pipe = n; asleep = update s.asleep t true })
    -- _tx_posix_thread_resume
    kill_resume :
        (t : ℕ)
        → s.caller ≡ idle
        → s.asleep t ≡ true
        → Step s (record (change s t (record (s.target t) { resume_pending = true })) {
          asleep = update s.asleep t false;
        })
    deliver :
        (t : ℕ)
        → (s.target t).pc ≡ outside
        → (s.target t).suspend_pending ≡ true
        → Step s (change s t (enter (s.target t)))
    write :
        (t : ℕ)
        → (s.target t).pc ≡ entered
        → Step s (record (change s t (record (s.target t) { pc = written })) { pipe = push s.pipe })
    sleep : (t : ℕ) → (s.target t).pc ≡ written → Step s (change s t (pause (s.target t)))
    awake :
        (t : ℕ)
        → (s.target t).pc ≡ paused
        → (s.target t).resume_pending ≡ true
        → Step s (change s t (wake (s.target t)))
    return : (t : ℕ) → (s.target t).pc ≡ woken → Step s (change s t (leave (s.target t)))

  pub data Reach (s : System) : System → Type 0 where
    here : Reach s s
    later : {u w : System} → Reach s u → Step u w → Reach s w
