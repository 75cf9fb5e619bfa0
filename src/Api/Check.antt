-- ===== src/Api/Check.antt =====
-- TM_CHECK of include/tm_api.h and `tm_check_fail` of src/tm_report.c.
use thread_metric_benchmark.Base.{List, [], ◌∷◌, ◌++◌, Bytes, codes}
use thread_metric_benchmark.Api.{Status, tm_success, tm_error}
use thread_metric_benchmark.Report.Loop.{Event, write, exit}

-- An initialization is at work, or has ended the program; what it did to the console is the trace.
pub data Outcome (S : Type 0) : Type 0 where
  running : S → Outcome S
  aborted : List Event → Outcome S

infixl 5 ◌>>◌
unfoldable pub ◌>>◌ : {S : Type 0} → (S → Outcome S) → (S → Outcome S) → S → Outcome S
◌>>◌ m k s = elim (m s) [ running s' ↦ k s' | aborted out ↦ aborted out ]

-- `tm_check_fail`: the message, then `exit (1)`.
unfoldable pub tm_check_fail : Bytes → List Event
tm_check_fail msg = write msg ∷ exit 1 ∷ []

-- The literal that TM_CHECK makes of the text of the call.
abbrev pub failure : Bytes → Bytes
failure call = codes "FATAL: " ++ (call ++ codes " failed\n")

-- `if ((call) != TM_SUCCESS) tm_check_fail (…)`, on what the call returned.
unfoldable pub checked : {S : Type 0} → Bytes → Status → S → Outcome S
unfolding tm_check_fail
checked text tm_success s = running s
checked text tm_error s = aborted (tm_check_fail (failure text))

unfoldable pub tm_check : {S : Type 0} → Bytes → (S → Status × S) → S → Outcome S
unfolding checked
tm_check text call s = checked text (call s).0 (call s).1
