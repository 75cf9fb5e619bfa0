-- ===== src/Port.antt =====
-- The porting layers, ports/.
pub mod Target
pub mod CortexM
pub mod Start
pub mod FreeRtos
pub mod ThreadX
