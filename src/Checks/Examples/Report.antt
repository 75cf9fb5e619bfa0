-- ===== src/Checks/Examples/Report.antt =====
-- The prints, the parameters and the reporting loop, at concrete inputs.
use thread_metric_benchmark.Base.{
  ℕ, ◌+◌, ◌≤◌, ◌≡◌, refl, true, Option, none, some, List, [], ◌∷◌, ◌++◌, arith, length, pos, negsuc,
  Bytes, codes,
}
use thread_metric_benchmark.Report.Number.{print_unsigned_long}
use thread_metric_benchmark.Report.Number.Decimal.{shown_int, Spells, print_unsigned_long_lem}
use thread_metric_benchmark.Report.Printf.{printf}
use thread_metric_benchmark.Report.Printf.Pieces.{
  Piece, text, number, signed, string, percent, format_of, args_of, text_of, printf_pieces,
}
use thread_metric_benchmark.Report.Options.{Params, tm_report_init}
use thread_metric_benchmark.Port.Start.{start, start-IsValid}
use thread_metric_benchmark.Report.Options.Accepted.{IsValid, tm_report_init-Spells}
use thread_metric_benchmark.Report.Loop.{Event, sleep, exit, finished, report_loop}
use thread_metric_benchmark.Report.Loop.Cycles.{report_loop_exits, rounds_from}

print_unsigned_long_lem_example :
    (ds : Bytes) × (print_unsigned_long 4095 ≡ some ds) × Spells 4095 ds × (length ds ≤ 20)
print_unsigned_long_lem_example = print_unsigned_long_lem 4095 (omega arith) (omega arith)

abbrev pieces : List Piece
pieces =
    text (codes "a")
    ∷ number 7
    ∷ signed (negsuc 4)
    ∷ string (some (codes "b"))
    ∷ percent
    ∷ string none
    ∷ []

printf_pieces_example : printf (format_of pieces) (args_of pieces) ≡ some (text_of pieces)
printf_pieces_example =
    printf_pieces pieces ((omega arith, tt), (omega arith, (omega arith, (tt, (tt, (tt, tt))))))

-- Three cycles of thirty seconds, and the endless default.
abbrev three_cycles : Params
three_cycles = record { duration = pos 30; cycles = pos 3 }

abbrev endless : Params
endless = record { duration = pos 30; cycles = pos 0 }

three_cycles-IsValid : IsValid three_cycles
three_cycles-IsValid = record {
  positive = ground arith;
  duration_max = ground arith;
  nonneg = ground arith;
  cycles_max = ground arith;
}

-- A round that only sleeps, and counts in its local.
abbrev nap : ℕ → ℕ → Option (List Event × ℕ)
nap k n = some (sleep (pos 30) ∷ [], n + 1)

report_loop_exits_example :
    report_loop three_cycles nap 4 0 0 0 []
    ≡ finished ((sleep (pos 30) ∷ sleep (pos 30) ∷ sleep (pos 30) ∷ []) ++ exit 0 ∷ [])
report_loop_exits_example =
    report_loop_exits three_cycles nap 3 4 0 3
      (sleep (pos 30) ∷ sleep (pos 30) ∷ sleep (pos 30) ∷ []) refl (omega arith) (omega arith)
      (unfold rounds_from in refl)

-- An environment that holds "12" under every name.
abbrev twelve : Bytes → Option Bytes
twelve name = some (codes "12")

twelve-Spells : Spells 12 (codes "12")
twelve-Spells = record {
  digits = ((omega arith, omega arith), ((omega arith, omega arith), tt));
  spelt = refl;
  leading = omega arith;
}

tm_report_init-Spells_example :
    tm_report_init twelve three_cycles ≡ record { duration = pos 12; cycles = pos 12 }
tm_report_init-Spells_example =
    tm_report_init-Spells twelve three_cycles 12 12 (codes "12") (codes "12") refl refl
      twelve-Spells twelve-Spells (omega arith, omega arith) (omega arith, omega arith)

start-IsValid_example :
    IsValid (start true twelve (codes "tm" ∷ codes "--cycles=-5" ∷ []) three_cycles).0
    × ((start true twelve (codes "tm" ∷ codes "--cycles=-5" ∷ []) three_cycles).1
        ≡ some (
            codes "Thread-Metric: reporting interval = "
            ++ (shown_int
                  (start true twelve
                    (codes "tm" ∷ codes "--cycles=-5" ∷ [])
                    three_cycles).0.duration
                ++ codes " s\n")))
start-IsValid_example =
    start-IsValid true twelve (codes "tm" ∷ codes "--cycles=-5" ∷ []) three_cycles
      three_cycles-IsValid
