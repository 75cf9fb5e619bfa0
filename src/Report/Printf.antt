-- ===== src/Report/Printf.antt =====
-- `tm_printf` of src/tm_report.c.
pub mod Pieces
use thread_metric_benchmark.Base.{
  ℕ, ◌≡◌, refl, true, false, Option, none, some, List, [], ◌∷◌, ◌++◌, ◌==◌, ◌>>=◌, ℤ, negsuc, Bytes,
  codes,
}
use thread_metric_benchmark.Report.Number.{print_unsigned_long, print_int}

-- The variable arguments, with the types at which the source passes them.
pub data Arg : Type 0 where
  ulong : ℕ → Arg
  int : ℤ → Arg
  str : Option Bytes → Arg  -- a `char *`, `none` for `NULL`

-- `va_arg`: a missing argument or one of another type is undefined behaviour, `none`.
unfoldable pub arg_ulong : List Arg → Option (ℕ × List Arg)
arg_ulong (ulong n ∷ args) = some (n, args)
arg_ulong _ = none

unfoldable pub arg_int : List Arg → Option (ℤ × List Arg)
arg_int (int n ∷ args) = some (n, args)
arg_int _ = none

unfoldable pub arg_str : List Arg → Option (Option Bytes × List Arg)
arg_str (str s ∷ args) = some (s, args)
arg_str _ = none

-- The bytes of a string argument, with the substitute for `NULL`.
unfoldable pub str_bytes : Option Bytes → Bytes
str_bytes (some s) = s
str_bytes none = codes "(null)"

-- What is written before `rest` is: `none` if either is undefined.
abbrev pub then_rest : Bytes → Option Bytes → Option Bytes
then_rest out rest = do more ← rest; some (out ++ more)

unfoldable mutual
  unfolding arg_ulong arg_int arg_str str_bytes

  -- `while (*fmt)`
  pub printf : Bytes → List Arg → Option Bytes
  printf [] args = some []
  printf (c ∷ fmt) args = elim (c == b'%') [
    | true ↦ directive fmt args
    | false ↦ then_rest (c ∷ []) (printf fmt args)
  ]

  -- `switch (*fmt)` behind a '%'
  pub directive : Bytes → List Arg → Option Bytes
  directive [] args = some []
  directive (c ∷ fmt) args = elim (c == b'l') [
    | true ↦ long_directive fmt args
    | false ↦ elim (c == b'd') [
      | true ↦ do (n, args') ← arg_int args; out ← print_int n; then_rest out (printf fmt args')
      | false ↦ elim (c == b's') [
        | true ↦ do (s, args') ← arg_str args; then_rest (str_bytes s) (printf fmt args')
        | false ↦ elim (c == b'%') [
          | true ↦ then_rest (b'%' ∷ []) (printf fmt args)
          | false ↦ then_rest (b'%' ∷ c ∷ []) (printf fmt args)
        ]
      ]
    ]
  ]

  -- behind "%l"
  pub long_directive : Bytes → List Arg → Option Bytes
  long_directive [] args = some (b'%' ∷ b'l' ∷ [])
  long_directive (c ∷ fmt) args = elim (c == b'u') [
    | true ↦ do
      (n, args') ← arg_ulong args
      out ← print_unsigned_long n
      then_rest out (printf fmt args')
    | false ↦ then_rest (b'%' ∷ b'l' ∷ c ∷ []) (printf fmt args)
  ]

mixed_runs :
    printf (codes "a%d %lu%%%s%q%lx%l") (int (negsuc 4) ∷ ulong 70 ∷ str none ∷ [])
    ≡ some (codes "a-5 70%(null)%q%lx%l")
unfolding printf print_int print_unsigned_long
mixed_runs = refl
