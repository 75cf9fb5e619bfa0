-- ===== src/Report/Printf/Pieces.antt =====
-- `tm_printf` of src/tm_report.c against a reference: a message is a list of pieces, which has a
-- format, its arguments and its text.
use thread_metric_benchmark.Base.{
  ℕ, ◌<◌, ◌≡◌, refl, ◌≢◌, Option, some, List, [], ◌∷◌, ◌++◌, arith, All, ℤ, ulong_mod, Bytes,
}
use thread_metric_benchmark.Report.Number.Decimal.{
  shown, shown_int, print_unsigned_long-shown, print_int-shown, IsInt,
}
use thread_metric_benchmark.Report.Printf.{Arg, ulong, int, str, str_bytes, printf}

pub data Piece : Type 0 where
  text : Bytes → Piece
  number : ℕ → Piece  -- %lu
  signed : ℤ → Piece  -- %d
  string : Option Bytes → Piece  -- %s
  percent : Piece  -- %%

abbrev pub Plain : Bytes → Type 0
Plain = All (λ c. c ≢ b'%')

-- The values are in the range of their C types, and text holds no '%'.
abbrev pub Fits : Piece → Type 0
Fits (text s) = Plain s
Fits (number n) = n < ulong_mod
Fits (signed z) = IsInt z
Fits (string s) = Unit
Fits percent = Unit

abbrev pub format_of : List Piece → Bytes
format_of [] = []
format_of (text s ∷ ps) = s ++ format_of ps
format_of (number n ∷ ps) = b'%' ∷ b'l' ∷ b'u' ∷ format_of ps
format_of (signed z ∷ ps) = b'%' ∷ b'd' ∷ format_of ps
format_of (string s ∷ ps) = b'%' ∷ b's' ∷ format_of ps
format_of (percent ∷ ps) = b'%' ∷ b'%' ∷ format_of ps

abbrev pub args_of : List Piece → List Arg
args_of [] = []
args_of (text s ∷ ps) = args_of ps
args_of (number n ∷ ps) = ulong n ∷ args_of ps
args_of (signed z ∷ ps) = int z ∷ args_of ps
args_of (string s ∷ ps) = str s ∷ args_of ps
args_of (percent ∷ ps) = args_of ps

abbrev pub text_of : List Piece → Bytes
text_of [] = []
text_of (text s ∷ ps) = s ++ text_of ps
text_of (number n ∷ ps) = shown n ++ text_of ps
text_of (signed z ∷ ps) = shown_int z ++ text_of ps
text_of (string s ∷ ps) = str_bytes s ++ text_of ps
text_of (percent ∷ ps) = b'%' ∷ text_of ps

-- Text without '%' is copied.
printf-Plain :
    (s fmt : Bytes) (args : List Arg) (out : Bytes)
    → Plain s
    → printf fmt args ≡ some out
    → printf (s ++ fmt) args ≡ some (s ++ out)
unfolding printf
printf-Plain [] fmt args out h e = e
printf-Plain (c ∷ s) fmt args out h e = ground (arith, printf-Plain s fmt args out h.1 e)

-- For every list of pieces whose values are in the range of their C types and whose texts hold no
-- percent sign, tm_printf on the format and the arguments of the list writes the concatenation of
-- the texts of the pieces, and no behaviour is undefined.
pub printf_pieces :
    (ps : List Piece) → All Fits ps → printf (format_of ps) (args_of ps) ≡ some (text_of ps)
unfolding printf
printf_pieces [] h = refl
printf_pieces (text s ∷ ps) h = printf-Plain s _ _ _ h.0 (printf_pieces ps h.1)
printf_pieces (number n ∷ ps) h = rw (print_unsigned_long-shown n h.0, printf_pieces ps h.1)
printf_pieces (signed z ∷ ps) h = rw (print_int-shown z h.0, printf_pieces ps h.1)
printf_pieces (string s ∷ ps) h = rw (printf_pieces ps h.1)
printf_pieces (percent ∷ ps) h = rw (printf_pieces ps h.1)
