-- ===== src/Port/Start.antt =====
-- What main of ports/threadx/main.c and of ports/freertos/main.c does before it enters the kernel:
-- the parameters from the environment, then from the command line, then the first message.
use thread_metric_benchmark.Base.{
  ◌≡◌, refl, Bool, true, false, Option, some, List, [], ◌∷◌, ◌++◌, arith, if◌then◌else◌, ℤ, pos,
  negsuc, ◌≤ℤ◌, int_max, Bytes, codes,
}
use thread_metric_benchmark.Report.Number.Decimal.{IsInt, shown_int}
use thread_metric_benchmark.Report.Printf.{int, printf}
use thread_metric_benchmark.Report.Printf.Pieces.{text, signed, printf_pieces}
use thread_metric_benchmark.Report.Options.{Params, tm_report_init, tm_report_init_argv}
use thread_metric_benchmark.Report.Options.Accepted.{
  IsValid, tm_report_init-IsValid, tm_report_init_argv-IsValid,
}
use thread_metric_benchmark.Suite.Rounds.{plain}

-- The parameters, and the message. `defaults` are those of the build. A build with TM_SEMIHOSTING
-- does nothing in tm_report_init, one without it nothing in tm_report_init_argv.
unfoldable pub start :
    (semihosting : Bool) (getenv : Bytes → Option Bytes) (argv : List Bytes) (defaults : Params)
    → Params × Option Bytes
start semihosting getenv argv defaults =
    let p =
      if semihosting then tm_report_init_argv argv defaults else tm_report_init getenv defaults in
    (p, printf (codes "Thread-Metric: reporting interval = %d s\n") (int p.duration ∷ []))

IsValid-IsInt : (z : ℤ) → pos 1 ≤ℤ z → z ≤ℤ pos int_max → IsInt z
IsValid-IsInt (pos n) lo hi = omega arith
IsValid-IsInt (negsuc n) lo hi = absurd (omega arith)

announced :
    (z : ℤ)
    → IsInt z
    → printf (codes "Thread-Metric: reporting interval = %d s\n") (int z ∷ [])
      ≡ some (codes "Thread-Metric: reporting interval = " ++ (shown_int z ++ codes " s\n"))
announced z h =
    printf_pieces
      (text (codes "Thread-Metric: reporting interval = ") ∷ signed z ∷ text (codes " s\n") ∷ [])
      (
        plain (codes "Thread-Metric: reporting interval = ") refl,
        (h, (plain (codes " s\n") refl, tt)),
      )

-- In a build with semihosting and in one without it, whatever the environment and the command line
-- hold, if the parameters of the build have a positive
-- duration and a number of cycles that is not negative, both within int, then so have those with
-- which the kernel is entered, and the first message tells their duration in decimal.
pub start-IsValid :
    (semihosting : Bool) (getenv : Bytes → Option Bytes) (argv : List Bytes) (defaults : Params)
    → IsValid defaults
    → IsValid (start semihosting getenv argv defaults).0
      × ((start semihosting getenv argv defaults).1
          ≡ some (
              codes "Thread-Metric: reporting interval = "
              ++ (shown_int (start semihosting getenv argv defaults).0.duration ++ codes " s\n")))
unfolding start
start-IsValid true getenv argv defaults h =
    let v = tm_report_init_argv-IsValid argv defaults h in
    (v, announced _ (IsValid-IsInt _ v.positive v.duration_max))
start-IsValid false getenv argv defaults h =
    let v = tm_report_init-IsValid getenv defaults h in
    (v, announced _ (IsValid-IsInt _ v.positive v.duration_max))
