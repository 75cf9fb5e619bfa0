-- ===== src/Report.antt =====
-- src/tm_report.c and the reporting loop of include/tm_api.h.
pub mod Number
pub mod Printf
pub mod Options
pub mod Loop
