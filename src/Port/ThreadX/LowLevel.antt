-- ===== src/Port/ThreadX/LowLevel.antt =====
-- ports/threadx/posix-host/tx_initialize_low_level.c but for the signals while the kernel runs, and
-- tx_thread_stack_build.c. The calls of POSIX are a parameter.
pub mod Outcomes
use thread_metric_benchmark.Base.{
  ℕ, ◌-◌, Bool, false, Option, none, some, List, [], ◌∷◌, if◌then◌else◌, Bytes, codes,
}
use thread_metric_benchmark.Port.ThreadX.Posix.Lock.{Mutex, Context}
use thread_metric_benchmark.Port.ThreadX.Posix.Timer.{Timer, TimerKernel, tick}
use thread_metric_benchmark.Port.ThreadX.Posix.Nesting.{
  Scheduler, update, Restored, tx_thread_context_save, tx_thread_context_restore,
}
use thread_metric_benchmark.Port.ThreadX.Posix.Semaphore.{tx_posix_sem_post}

-- What a new pthread runs.
pub data Start : Type 0 where
  timer_interrupt : Start  -- _tx_posix_timer_interrupt
  thread_entry : (t : ℕ) → Start  -- _tx_posix_thread_entry

-- The two ends of a pipe.
pub record Pipe : Type 0 where
  pub read_end : ℕ
  pub write_end : ℕ

-- The signals of this port, and their handlers.
pub data SignalNumber : Type 0 where
  suspend_sig : SignalNumber  -- SIGUSR1
  resume_sig : SignalNumber  -- SIGUSR2

-- The calls of the C library and of POSIX, on a state of the process.
pub record Posix (P : Type 0) : Type 0 where
  pub linux : Bool  -- __linux__
  pub malloc : (size : ℕ) → P → Option ℕ × P  -- nothing for a null pointer
  pub pipe : P → Option Pipe × P  -- nothing for a failure
  pub set_nonblocking : (fd : ℕ) → P → P  -- fcntl (fd, F_SETFL, O_NONBLOCK)
  pub install : SignalNumber → P → P  -- sigaction, with the handler of the signal and a full mask
  pub block : SignalNumber → P → P  -- pthread_sigmask
  pub elevate : (priority : ℕ) → (thread_id : ℕ) → P → P  -- pthread_setschedparam
  pub self : P → ℕ
  pub mutex_init : P → P  -- pthread_mutex_init, recursive
  pub create : Start → P → Option ℕ × P  -- pthread_create; nothing for a failure

-- The variables that the initialization writes.
pub record Boot (P : Type 0) : Type 0 where
  pub process : P
  pub unused_memory : Option ℕ  -- _tx_initialize_unused_memory
  pub timer_pipe : Option Pipe
  pub other_pipe : Option Pipe
  pub wait_mask : List SignalNumber  -- the signals that sigsuspend lets through
  pub semaphore : ℕ
  pub timer_semaphore : ℕ
  pub isr_semaphore : ℕ
  pub global_int_disabled : Bool
  pub timer_id : Option ℕ

-- The initialization goes on, or writes a message and loops forever.
pub data Booted (P : Type 0) : Type 0 where
  goes_on : Boot P → Booted P
  hangs : Bytes → Boot P → Booted P

unfoldable pub then_boot : {P : Type 0} → Booted P → (Boot P → Booted P) → Booted P
then_boot (goes_on b) k = k b
then_boot (hangs message b) k = hangs message b

module _ {P : Type 0} (posix : Posix P) where
  -- One of the two pipes; the second is not made when the first fails.
  unfoldable pub open_pipe : (Option Pipe → Boot P → Boot P) → Boot P → Booted P
  open_pipe store b =
      let (made, process) = posix.pipe b.process in
      elim made [
        | none ↦
            hangs (codes "ThreadX POSIX error creating pipes!\n") (record b { process = process })
        | some fds ↦ goes_on (store (some fds) (record b { process = process }))
      ]

  unfoldable pub write_ends : Boot P → P → P
  write_ends b process = nonblocking b.other_pipe (nonblocking b.timer_pipe process)
    where
      nonblocking : Option Pipe → P → P
      nonblocking none q = q
      nonblocking (some fds) q = posix.set_nonblocking fds.write_end q

  -- _tx_posix_thread_init, behind the pipes
  unfoldable pub install_signals : Boot P → Boot P
  unfolding write_ends
  install_signals b =
      let process = posix.install suspend_sig (posix.install resume_sig (write_ends b b.process)) in
      record b { process = posix.block resume_sig process; wait_mask = resume_sig ∷ [] }

  -- _tx_posix_thread_init
  unfoldable pub tx_posix_thread_init : Boot P → Booted P
  unfolding then_boot open_pipe install_signals
  tx_posix_thread_init b = then_boot (open_pipe (λ fds c. record c { timer_pipe = fds }) b) (λ c.
      then_boot (open_pipe (λ fds d. record d { other_pipe = fds }) c)
        (λ d. goes_on (install_signals d)))

  unfoldable pub elevate_on_linux : (priority thread_id : ℕ) → P → P
  elevate_on_linux priority thread_id process =
      if posix.linux then posix.elevate priority thread_id process else process

  -- The mutex and the semaphores.
  unfoldable pub initialize_objects : Boot P → Boot P
  unfolding elevate_on_linux
  initialize_objects b = record b {
    process = posix.mutex_init (elevate_on_linux 3 (posix.self b.process) b.process);
    semaphore = 0;
    global_int_disabled = false;
    timer_semaphore = 0;
    isr_semaphore = 0;
  }

  unfoldable pub create_timer : Boot P → Booted P
  unfolding elevate_on_linux
  create_timer b =
      let (made, process) = posix.create timer_interrupt b.process in
      elim made [
        | none ↦
            hangs (codes "ThreadX POSIX error creating timer thread!\n")
              (record b { process = process })
        | some i ↦ goes_on (record b { process = elevate_on_linux 2 i process; timer_id = some i })
      ]

  -- malloc, with TX_POSIX_MEMORY_SIZE
  unfoldable pub allocate : Boot P → Booted P
  allocate b =
      let (made, process) = posix.malloc 64000 b.process in
      let c = record b { process = process; unused_memory = made } in
      elim made [
        | none ↦ hangs (codes "ThreadX POSIX error allocating memory!\n") c
        | some a ↦ goes_on c
      ]

  -- _tx_initialize_low_level
  unfoldable pub tx_initialize_low_level : Boot P → Booted P
  unfolding then_boot allocate tx_posix_thread_init initialize_objects create_timer
  tx_initialize_low_level b =
      then_boot (allocate b)
        (λ c. then_boot (tx_posix_thread_init c) (λ d. create_timer (initialize_objects d)))

  -- _tx_initialize_start_interrupts
  unfoldable pub tx_initialize_start_interrupts : Boot P → Boot P
  unfolding tx_posix_sem_post
  tx_initialize_start_interrupts b = record b {
    timer_semaphore = tx_posix_sem_post b.timer_semaphore;
  }

-- The stack of a thread: it is not used as one, and only its ends are written.
pub record Stack : Type 0 where
  pub stack_end : ℕ  -- tx_thread_stack_end
  pub stack_ptr : ℕ  -- tx_thread_stack_ptr
  pub memory : ℕ → ℕ  -- the ULONG at an address

-- What tx_thread_stack_build.c reads and writes.
pub record Build (P M : Type 0) : Type 0 where
  pub process : P
  pub context : Context M
  pub kernel : Scheduler
  pub stack : Stack

-- The thread is built, or the pthread was not created: a message is written, and the call loops
-- forever.
pub data Built (P M : Type 0) : Type 0 where
  built : Build P M → Built P M
  fails : Bytes → Build P M → Built P M

-- The address is 8 bytes below the end; a ULONG has `ulong_size` bytes.
unfoldable pub build_stack : (ulong_size : ℕ) → Stack → Stack
build_stack ulong_size k =
    let top = k.stack_end - 8 in
    record k { stack_ptr = top; memory = update k.memory (top - ulong_size) 0 }

module _ {P M : Type 0} (posix : Posix P) (ulong_size : ℕ) where
  unfoldable pub with_pthread : (t i : ℕ) → Build P M → Build P M
  unfolding elevate_on_linux build_stack
  with_pthread t i b = record b {
    process = elevate_on_linux posix 1 i b.process;
    context = record (b.context) {
      thread_id = update b.context.thread_id t i;
      int_disabled = update b.context.int_disabled t false;
    };
    kernel = record (b.kernel) { suspension_type = update b.kernel.suspension_type t 0 };
    stack = build_stack ulong_size b.stack;
  }

  -- _tx_thread_stack_build
  unfoldable pub tx_thread_stack_build : (t : ℕ) → Build P M → Built P M
  unfolding with_pthread
  tx_thread_stack_build t b₀ =
      let b = record b₀ {
        kernel = record (b₀.kernel) { run_semaphore = update b₀.kernel.run_semaphore t 0 };
      } in
      let (made, process) = posix.create (thread_entry t) b.process in
      elim made [
        | none ↦
            fails (codes "ThreadX POSIX error creating thread!\n") (record b { process = process })
        | some i ↦ built (with_pthread t i (record b { process = process }))
      ]

-- A round of _tx_posix_timer_interrupt behind its sleep: the kernel's timer and the variables of
-- the scheduler share the time slice, and `wanted` is the thread that the kernel's part of the
-- interrupt leaves as the one to run. The calls of the trace are left out.
unfoldable pub timer_interrupt_round :
    {M K : Type 0} (posix : Mutex M) (kernel : TimerKernel K) (wanted : K → Option ℕ)
    → (Context M × Scheduler) × Timer K
    → Restored posix × Timer K
unfolding tx_thread_context_save tx_thread_context_restore tick
timer_interrupt_round posix kernel wanted (w, timer) =
    let (s, v) = tx_thread_context_save posix w in
    let ticked = tick kernel (record timer { time_slice = v.timer_slice }) in
    (
      tx_thread_context_restore posix
          (s, record v { timer_slice = ticked.time_slice; execute = wanted ticked.kernel }),
      ticked,
    )
