-- ===== src/Port/ThreadX.antt =====
-- ports/threadx/tm_port.c over the ThreadX kernel, which is a parameter, and the kernel's own port
-- to POSIX hosts, ports/threadx/posix-host.
pub mod Kernel
pub mod Interrupt
pub mod Services
pub mod Entry
pub mod Bracket
pub mod Semaphore
pub mod Trigger
pub mod Queue
pub mod Threads
pub mod Pool
pub mod Shells
pub mod Guards
pub mod Programs
pub mod Posix
pub mod Handover
pub mod Signals
pub mod LowLevel
