-- ===== src/Checks.antt =====
-- Concrete layers and kernels, and runs of the theorems on them.
mod Machine
mod Scheduler
mod ThreadXMachine
mod ThreadXLaws
mod Examples
