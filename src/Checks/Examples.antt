-- ===== src/Checks/Examples.antt =====
-- The theorems at concrete inputs: the small layer, FreeRTOS on the small kernel, and numbers.
mod Threads
mod Turns
mod Report
mod Rounds
mod FreeRtos
mod ThreadX
mod Posix
mod Handover
mod Entry
