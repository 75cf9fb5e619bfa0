-- ===== src/Lib.antt =====
-- Thread-Metric, a benchmark of real-time kernels: its reporting code, its eight tests, its layers
-- for FreeRTOS and ThreadX, and its port of the ThreadX kernel to POSIX hosts.
--
-- The program is one test at a time. `main` reads the parameters (src/tm_report.c), the layer
-- (ports/*/tm_port.c) initializes the kernel and calls the test's initialization, which creates the
-- threads and objects through the services of include/tm_api.h, each call under TM_CHECK. Worker
-- threads then use the services and count; a reporting thread sleeps, prints the counts with
-- `tm_printf`, looks for errors, and exits after a given number of cycles.
--
-- - Base: numbers with the widths of C, lists, tests, bytes. `unsigned long` has 64 bits, `int` 32,
--   as on the POSIX hosts (LP64); wrap-around is written out, `% 2 ^ 64`. What is said of a test's
--   counters on a layer is therefore said of the layer's POSIX build: on the Cortex-M `unsigned long`
--   has 32 bits, which only the sizes of the queues' messages take into account.
-- - Report: src/tm_report.c. Report/Number is `tm_print_unsigned_long` and `tm_print_int`,
--   Report/Printf is `tm_printf`, Report/Options is `tm_report_init` and `tm_report_init_argv`.
--   What is printed is the list of the bytes handed to `tm_putchar`; `none` is undefined behaviour.
--   Report/Loop is TM_REPORT_LOOP of include/tm_api.h and `tm_report_finish`; the body of the loop
--   is a parameter, and what the thread does is a list of events. The loop is followed for a given
--   number of tests of its condition: one more than the number of cycles is enough for it to exit.
-- - Api: include/tm_api.h. The services are the record `Api` over the state of layer and kernel;
--   Api/Laws says what a test may expect of threads, queue, semaphore and pool; Api/Check is
--   TM_CHECK with `tm_check_fail`; Api/Start follows a chain of checked calls, and
--   Suite/Calls gives those of each test as a list.
-- - Suite: src/*.c, one module for each test, with the initialization and the reporting thread;
--   its counters are read where the source reads them, and the values read are arguments. The
--   children are the worker threads: Suite/Basic, Suite/Message, Suite/Memory and
--   Suite/Synchronization have one thread, a loop that is followed for a given number of rounds;
--   Suite/Preemptive has five threads, of which the scheduler runs one statement at a time, as a
--   step relation and as a function; Suite/Cooperative has five that take turns in a ring;
--   Suite/Interrupt and Suite/InterruptPreemption have threads and a handler, and how the layer
--   calls the handler is a parameter. A call that is the whole of a statement, and an increment,
--   are one step each.
-- - Port: Port/Start is what the two `main` do before they enter the kernel. Port/CortexM is the
--   vector table and the semihosting calls of ports/common/cortex-m.
--   Port/FreeRtos is ports/freertos/tm_port.c and ports/freertos/cortex-m/tm_isr_dispatch.c over a
--   kernel that is the record `Kernel` of the functions called: Services is threads, queue and
--   semaphore, Pool the memory pool with the pointers that its blocks hold, Interrupt the
--   synchronous trigger, Entry `tm_initialize`, the trampoline of the tasks, the asynchronous
--   triggers and the registers of the interrupt controller, with what the processor does of them.
--   Semaphore, Queue and Promises fill the laws of Api/Laws, Programs puts tests on the layer,
--   Trigger and Initialize are about Entry, and Guards is about arguments out of range.
--   Port/ThreadX is ports/threadx/tm_port.c and ports/threadx/cortex-m/tm_isr_dispatch.c, over a
--   `Kernel` of its own: Interrupt is the synthetic interrupt context and the synchronous triggers,
--   Services the services, Entry `tm_initialize`, the shells of the threads and the asynchronous
--   triggers. Bracket, Trigger, Semaphore, Queue, Pool and Threads fill the laws of Api/Laws from
--   those of the kernel, for both builds; Shells, Guards and Programs are as for FreeRTOS.
--   Port/ThreadX/Posix is ports/threadx/posix-host: Lock is the recursive mutex of tx_port.h and
--   tx_thread_interrupt_control.c, and Sections and Nested are about critical sections on it; Timer
--   is tx_timer_interrupt.c, and Wheel follows its ticks; Semaphore is the semaphores of tx_port.h,
--   Nesting is tx_thread_context_save.c and tx_thread_context_restore.c, which a wait splits in two,
--   Interrupted what they do to a thread, and Ticked the same with the kernel's tick between them; Schedule is a round of the loop of
--   tx_thread_schedule.c, split at its waits, and Slices follows a time slice over preemption.
--   Return is tx_thread_system_return.c and the first lines of a thread, split at the wait, and
--   Returned follows a thread from there back to the processor; Deletion is the end of a pthread, in
--   tx_thread_schedule.c, whose loop has a bound on its rounds. The loops that drain a semaphore
--   have as many rounds as the count, which are enough; in the functions of the scheduler and of the
--   interrupt a signal to a pthread is an entry of a list. The laws of a mutex are those of POSIX, as
--   the pthread that calls sees it.
--   Three more modules are about the same directory. Port/ThreadX/Handover puts the scheduler, the
--   threads and the timer's interrupt side by side as pthreads: a step is the work of one of them
--   between two waits, or under the mutex, on the functions of the files above, and an invariant says who has the
--   processor (Owner). Port/ThreadX/Signals is the part of tx_initialize_low_level.c that stops and
--   resumes a pthread, as steps of the caller, of the handler and of the delivery.
--   Port/ThreadX/LowLevel is the rest of that file and tx_thread_stack_build.c, over the calls of
--   POSIX.
-- - Checks: a small layer, its scheduler and small kernels, on which the theorems are run.
--
-- Not modelled: the FreeRTOS and ThreadX kernels, which are not in the repository, so that what
-- the layers rely on is stated as laws of their functions; in the port of ThreadX to POSIX hosts the
-- pthread mutex and condition inside a semaphore, the creation and deletion of threads as steps of
-- the hand-over, and the calls of the trace; what the kernels do of the constants in their
-- configuration files; time (the reporting thread wakes at any time, and a timer ticks at any time);
-- the start-up code in assembly and the console.
pub mod Base
pub mod Report
pub mod Api
pub mod Suite
pub mod Port
pub mod Checks
