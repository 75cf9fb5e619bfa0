-- ===== src/Port/ThreadX/Posix.antt =====
-- The ThreadX kernel's port to POSIX hosts, ports/threadx/posix-host.
pub mod Lock
pub mod Sections
pub mod Nested
pub mod Timer
pub mod Wheel
pub mod Semaphore
pub mod Nesting
pub mod Interrupted
pub mod Schedule
pub mod Slices
pub mod Ticked
pub mod Return
pub mod Returned
pub mod Deletion
