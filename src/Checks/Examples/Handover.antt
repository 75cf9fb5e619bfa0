-- ===== src/Checks/Examples/Handover.antt =====
-- The pthreads of ports/threadx/posix-host, at concrete inputs.
use thread_metric_benchmark.Base.{
  ℕ, ◌+◌, ◌-◌, ◌*◌, ◌≡◌, refl, ◌⊎◌, true, false, Option, none, some, [], ◌∷◌, arith, ltb, ◌==◌,
  if◌then◌else◌,
}
use thread_metric_benchmark.Port.ThreadX.Posix.Lock.{
  tx_thread_interrupt_disable, Mutex, Context, is_stale, int_enable, tx_posix_mutex_lock,
  tx_posix_mutex_unlock, unlock_times, tx_posix_mutex_recursive_unlock, set_thread,
  tx_thread_interrupt_control, tx_thread_interrupt_restore,
}
use thread_metric_benchmark.Port.ThreadX.Posix.Deletion.{
  Pthreads, completed, tx_thread_delete_port_completion, tx_thread_reset_port_completion, accepts,
  refuses, port_completion_ends,
}
use thread_metric_benchmark.Port.ThreadX.Posix.Semaphore.{
  tx_posix_sem_post, tx_posix_sem_wait, tx_posix_sem_trywait, drain,
}
use thread_metric_benchmark.Port.ThreadX.Posix.Nesting.{
  resume, Scheduler, update, send, post_scheduler,
}
use thread_metric_benchmark.Port.ThreadX.Posix.Schedule.{
  handing, select, post_run, hold_timer, release_timer, schedule_round,
}
use thread_metric_benchmark.Port.ThreadX.Posix.Return.{waits, take_over, tx_thread_system_return}
use thread_metric_benchmark.Port.ThreadX.Posix.Returned.{given_up, let_go, yielded_slice_returns}
use thread_metric_benchmark.Port.ThreadX.Handover.{
  choosing, outside, parked, woken, System, Reach, here, later, offer, take, tell, hand_over,
}
use thread_metric_benchmark.Port.ThreadX.Handover.Owner.{active}
use thread_metric_benchmark.Port.ThreadX.Handover.Safety.{
  IsStart, one_thread_at_a_time, running_is_current,
}
use thread_metric_benchmark.Port.ThreadX.Handover.Progress.{IsRun, wanted_thread_runs}
use thread_metric_benchmark.Port.ThreadX.Signals as Signals
use thread_metric_benchmark.Port.ThreadX.Signals.Safety as SignalsSafety
use thread_metric_benchmark.Port.ThreadX.Signals.Progress as SignalsProgress
use thread_metric_benchmark.Port.ThreadX.LowLevel.{Posix, Boot, tx_initialize_low_level}
use thread_metric_benchmark.Port.ThreadX.LowLevel.Outcomes.{
  IsReady, Ends, tx_initialize_low_level-Ends,
}

-- Thread 2 is wanted, and gets slices of five ticks.
abbrev resting : Scheduler
resting = record {
  execute = some 2;
  preempt_disable = 0;
  timer_slice = 0;
  time_slice = λ t. 5;
  suspension_type = λ t. 0;
  semaphore = 0;
  isr_semaphore = 0;
  timer_waiting = 0;
  run_semaphore = λ t. 0;
  run_count = λ t. 0;
  terminated = λ t. false;
  signals = [];
}

abbrev first_choice : System
first_choice = record {
  sched = choosing;
  timer = outside;
  pc = λ t. parked;
  stopped = λ t. false;
  current = none;
  kernel = resting;
}

first_choice-IsStart : IsStart first_choice
first_choice-IsStart = record {
  sched = refl;
  current = refl;
  semaphore = refl;
  threads = λ i. (refl, refl);
  run_semaphore = λ i. refl;
  suspension_type = λ i. refl;
}

-- Thread 2 has taken its semaphore, and the scheduler does not know yet.
one_thread_at_a_time_example : ◌≡◌ {A = ℕ} 2 2
unfolding active hold_timer post_run select send drain tx_posix_sem_post tx_posix_sem_wait
    tx_posix_sem_trywait
one_thread_at_a_time_example =
    one_thread_at_a_time first_choice first_choice-IsStart
      (later (later here (offer 2 refl (λ e. cc e) refl refl)) (take 2 0 (refl, refl) refl)) 2 2
      woken woken (refl, refl) refl (refl, refl) refl

-- Thread 2 runs.
running_is_current_example : ◌≡◌ {A = Option ℕ} (some 2) (some 2)
unfolding hold_timer post_run select send drain post_scheduler tx_posix_sem_post tx_posix_sem_wait
    tx_posix_sem_trywait release_timer
running_is_current_example =
    running_is_current first_choice 2 first_choice-IsStart
      (later
        (later
          (later (later here (offer 2 refl (λ e. cc e) refl refl)) (take 2 0 (refl, refl) refl))
          (tell 2 (refl, refl)))
        (hand_over 0 refl refl))
      (λ e. cc e) (refl, refl)

wanted_thread_runs_example :
    (w : System) × Reach first_choice w × IsRun w 2 × (w.kernel.timer_slice ≡ 5)
wanted_thread_runs_example =
    wanted_thread_runs first_choice 2 first_choice-IsStart here refl (λ e. cc e) refl (λ e. cc e)

abbrev counter : Mutex ℕ
counter = record { lock = λ n. n + 1; unlock = λ n. n - 1 }

-- Thread 7 runs, with three ticks left.
abbrev runs_7 : Context ℕ
runs_7 = record {
  mutex = 0;
  lock_count = 0;
  threadx_thread = true;
  self = 7;
  current = some 7;
  system_state = 0;
  thread_id = λ t. t;
  int_disabled = λ t. false;
  global_int_disabled = false;
}

abbrev three_left : Scheduler
three_left = record resting { timer_slice = 3 }

abbrev wants_7 : Scheduler
wants_7 = record (given_up 7 three_left) { execute = some 7 }

yielded_slice_returns_example :
    (tx_thread_system_return counter (runs_7, three_left)
      ≡ waits 7 (let_go counter runs_7) (given_up 7 three_left))
    × ((given_up 7 three_left).semaphore ≡ 1)
    × ((c' : Context ℕ) × (w' : Scheduler) × (w'' : Scheduler) × (schedule_round counter
            (record runs_7 { current = none }, wants_7)
          ≡ handing c' w')
        × (c'.current ≡ some 7)
        × (w'.timer_slice ≡ 3)
        × (take_over 7 w' ≡ some w'')
        × (w''.run_semaphore 7 ≡ 0)
        × (w''.semaphore ≡ wants_7.semaphore + 1))
unfolding is_stale
yielded_slice_returns_example =
    yielded_slice_returns counter 7 runs_7 (record runs_7 { current = none }) three_left wants_7
      refl refl refl (omega arith) refl refl refl refl

-- No pthread is stopped.
abbrev all_run : Signals.System
all_run = record {
  caller = Signals.idle;
  pipe = 0;
  target = λ t. record {
    pc = Signals.outside;
    suspended = false;
    suspend_pending = false;
    resume_pending = false;
  };
  asleep = λ t. false;
}

all_run-IsStart : SignalsSafety.IsStart all_run
all_run-IsStart = record { caller = refl; pipe = refl; asleep = λ i. refl; target = λ i. refl }

-- The pthread 3 is stopped, and in sigsuspend.
stopped_stays_example :
    ◌≡◌ {A = Signals.HandlerPc} Signals.paused Signals.written
    ⊎ ◌≡◌ {A = Signals.HandlerPc} Signals.paused Signals.paused
unfolding Signals.enter Signals.pause Signals.push
stopped_stays_example =
    SignalsSafety.stopped_stays 8 all_run 3 (omega arith) all_run-IsStart
      (Signals.later
        (Signals.later
          (Signals.later
            (Signals.later (Signals.later Signals.here (Signals.kill_suspend 3 refl refl))
              (Signals.deliver 3 refl refl))
            (Signals.write 3 refl))
          (Signals.acknowledged 3 0 refl refl))
        (Signals.sleep 3 refl))
      refl

signal_is_answered_example :
    ◌≡◌ {A = Signals.Caller} (Signals.reading 3) (Signals.reading 3)
    × ◌≡◌ {A = ℕ} 0 0
    × ◌≡◌ {A = Signals.HandlerPc} Signals.entered Signals.entered
unfolding Signals.enter
signal_is_answered_example =
    SignalsSafety.signal_is_answered 8 all_run 3 (omega arith) all_run-IsStart
      (Signals.later Signals.here (Signals.kill_suspend 3 refl refl)) refl refl

-- The caller has sent the signal to the pthread 3.
abbrev asks_3 : Signals.System
asks_3 = record all_run {
  caller = Signals.reading 3;
  target =
      update
        (λ t. record {
          pc = Signals.outside;
          suspended = false;
          suspend_pending = false;
          resume_pending = false;
        })
        3
        (record {
          pc = Signals.outside;
          suspended = false;
          suspend_pending = true;
          resume_pending = false;
        });
}

suspend_returns_example : (w : Signals.System) × SignalsProgress.IsReturned 8 asks_3 3 w
suspend_returns_example =
    SignalsProgress.suspend_returns 8 all_run 3 (omega arith) all_run-IsStart
      (Signals.later Signals.here (Signals.kill_suspend 3 refl refl)) refl

-- A process that counts its calls; the third pipe and the tenth pthread fail.
abbrev host : Posix ℕ
host = record {
  linux = true;
  malloc = λ size n. (some 4096, n + 1);
  pipe = λ n. (if n == 3 then none else some (record { read_end = n; write_end = n + 1 }), n + 1);
  set_nonblocking = λ fd n. n + 1;
  install = λ signal n. n + 1;
  block = λ signal n. n + 1;
  elevate = λ priority i n. n + 1;
  self = λ n. 0;
  mutex_init = λ n. n + 1;
  create = λ start n. (if n == 10 then none else some n, n + 1);
}

abbrev before_boot : Boot ℕ
before_boot = record {
  process = 0;
  unused_memory = none;
  timer_pipe = none;
  other_pipe = none;
  wait_mask = [];
  semaphore = 5;
  timer_semaphore = 5;
  isr_semaphore = 5;
  global_int_disabled = true;
  timer_id = none;
}

tx_initialize_low_level-Ends_example : Ends IsReady (tx_initialize_low_level host before_boot)
tx_initialize_low_level-Ends_example = tx_initialize_low_level-Ends host before_boot

-- A process that counts: it refuses to cancel a pthread while the count is below 2.
abbrev stubborn : Pthreads ℕ
stubborn = record { cancel = λ i n. (ltb n 2, n + 1); join = λ i n. 2 * n; destroy = λ t n. n + t }

-- Thread 7 behind the restore, and behind TX_DISABLE.
abbrev restored_7 : Context ℕ
restored_7 = record runs_7 { int_disabled = update (λ t. false) 7 false }

abbrev disabled_7 : Context ℕ
disabled_7 = record restored_7 {
  mutex = 1;
  lock_count = 1;
  int_disabled = update restored_7.int_disabled 7 true;
}

port_completion_ends_example :
    (v' : Scheduler) × (tx_thread_delete_port_completion stubborn counter 5 3 int_enable runs_7
        resting 0
      ≡ some (completed int_enable disabled_7 v' 9))
    × (tx_thread_reset_port_completion stubborn counter 5 3 int_enable runs_7 resting 0
        ≡ some (completed int_enable disabled_7 v' 9))
    × (v'.run_semaphore 3 ≡ 2)
    × (v'.signals ≡ resume 3 ∷ resume 3 ∷ resting.signals)
unfolding tx_thread_interrupt_restore tx_thread_interrupt_disable tx_thread_interrupt_control
    tx_posix_mutex_lock tx_posix_mutex_recursive_unlock tx_posix_mutex_unlock unlock_times
    set_thread is_stale
port_completion_ends_example =
    port_completion_ends stubborn counter 5 3 2 int_enable int_enable int_enable runs_7 restored_7
      disabled_7 resting 0 3 refl refl
      (refuses 1 0 1 3 refl (refuses 0 1 2 3 refl (accepts 2 3 refl))) (omega arith)
