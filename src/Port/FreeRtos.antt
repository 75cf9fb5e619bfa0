-- ===== src/Port/FreeRtos.antt =====
-- ports/freertos/tm_port.c over the FreeRTOS kernel, which is a parameter.
pub mod Kernel
pub mod Pool
pub mod Services
pub mod Guards
pub mod Semaphore
pub mod Queue
pub mod Promises
pub mod Interrupt
pub mod Programs
pub mod Entry
pub mod Trigger
pub mod Initialize
