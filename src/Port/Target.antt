-- ===== src/Port/Target.antt =====
-- The two builds of a porting layer.
use thread_metric_benchmark.Base.{ℕ, ◌≤◌, ℤ, pos, negsuc}

-- For the Cortex-M, or with TM_ISR_VIA_THREAD for a POSIX host.
pub data Target : Type 0 where
  cortex_m : Target
  posix_host : Target

-- An identifier that is not below the bound.
abbrev pub IsOutside : ℕ → ℤ → Type 0
IsOutside bound (pos n) = bound ≤ n
IsOutside bound (negsuc n) = Unit
