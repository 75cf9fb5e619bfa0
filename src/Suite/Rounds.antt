-- ===== src/Suite/Rounds.antt =====
-- What the reporting threads and the worker threads of src/*.c share.
use thread_metric_benchmark.Base.{
  ℕ, zero, suc, ◌+◌, ◌≤◌, ◌<◌, ◌≡◌, refl, ap, ◌∙◌, Bool, true, false, not, ◌&&◌, ◌||◌, Option, some,
  List, [], ◌∷◌, ◌++◌, append-nil, arith, ltb, ◌==◌, if◌then◌else◌, ◌>>=◌, ulong_mod, add_ulong,
  sub_ulong, Bytes, codes,
}
use thread_metric_benchmark.Report.Number.Decimal.{shown}
use thread_metric_benchmark.Report.Printf.{Arg, ulong, printf}
use thread_metric_benchmark.Report.Printf.Pieces.{Plain, text, number, printf_pieces}
use thread_metric_benchmark.Report.Loop.{Event, write}

-- The locals of a reporting thread: `last_counter` or `last_total`, and `relative_time`.
pub record Local : Type 0 where
  pub last : ℕ
  pub relative_time : ℕ

abbrev pub local_init : Local
local_init = record { last = 0; relative_time = 0 }

-- The values of one `volatile` counter where a round reads it: in the test, in the total, and when
-- it is saved.
pub record Reads : Type 0 where
  pub tested : ℕ
  pub totalled : ℕ
  pub saved : ℕ

unfoldable pub writes : Bytes → List Arg → Option (List Event)
writes fmt args = do out ← printf fmt args; some (write out ∷ [])

-- A print under an `if`.
abbrev pub when : Bool → Option (List Event) → Option (List Event)
when b m = if b then m else some []

-- `(c < (average - 1)) || (c > (average + 1))`
unfoldable pub out_of_range : (average c : ℕ) → Bool
out_of_range average c = ltb c (sub_ulong average 1) || ltb (add_ulong average 1) c

-- A counter that is at most one off the average passes the test.
pub in_range :
    (average c : ℕ)
    → 0 < average
    → average + 1 < ulong_mod
    → average ≤ c + 1
    → c ≤ average + 1
    → out_of_range average c ≡ false
unfolding out_of_range
in_range average c p q lo hi = ground arith

-- A worker thread after some rounds of its loop: still in it, or out of it by `break` or `return`.
pub data Work (G S : Type 0) : Type 0 where
  working : G → S → Work G S
  stopped : G → S → Work G S

unfoldable pub repeat : {G S : Type 0} → (G → S → Work G S) → ℕ → G → S → Work G S
repeat round zero g s = working g s
repeat round (suc n) g s = elim (round g s) [
  | working g' s' ↦ repeat round n g' s'
  | stopped g' s' ↦ stopped g' s'
]

repeat-suc :
    {G S : Type 0} (round : G → S → Work G S) (n : ℕ) (g g' : G) (s s' : S)
    → round g s ≡ working g' s'
    → repeat round (suc n) g s ≡ repeat round n g' s'
unfolding repeat
repeat-suc round n g g' s s' e = rw (e, repeat)

repeat-zero :
    {G S : Type 0} (round : G → S → Work G S) (g : G) (s : S) → repeat round 0 g s ≡ working g s
unfolding repeat
repeat-zero round g s = refl

-- A loop whose rounds go from one known state to the next, while `P` holds of the rest.
pub repeat-working :
    {G S : Type 0} (round : G → S → Work G S) (at : ℕ → G) (P : S → Type 0)
    → ((k : ℕ) (s : S) → P s → (s' : S) × (round (at k) s ≡ working (at (suc k)) s') × P s')
    → (n k m : ℕ) (s : S) → k + n ≡ m
    → P s
    → (s' : S) × (repeat round n (at k) s ≡ working (at m) s') × P s'
repeat-working {G} round at P step zero k m s e h =
    (s, repeat-zero round (at k) s ∙ ap (λ (i : ℕ). working (at i) s) (omega arith), h)
repeat-working {G} {S} round at P step (suc n) k m s e h =
    let (s₁, e₁, h₁) = step k s h in
    let (s₂, e₂, h₂) = repeat-working round at P step n (suc k) m s₁ (omega arith) h₁ in
    (s₂, repeat-suc round n (at k) (at (suc k)) s s₁ e₁ ∙ e₂, h₂)

abbrev pub is_plain : Bytes → Bool
is_plain [] = true
is_plain (c ∷ s) = not (c == b'%') && is_plain s

pub plain : (s : Bytes) → is_plain s ≡ true → Plain s
plain [] h = tt
plain (c ∷ s) h = (ground arith, plain s (ground arith))

printf-text : (s : Bytes) → Plain s → printf s [] ≡ some s
printf-text s h = simp append-nil at (printf_pieces (text s ∷ []) (h, tt))

printf-number :
    (before after : Bytes) (n : ℕ)
    → Plain before
    → Plain after
    → n < ulong_mod
    → printf (before ++ (codes "%lu" ++ after)) (ulong n ∷ []) ≡ some (before ++ (shown n ++ after))
printf-number before after n hb ha hn =
    simp append-nil at
      (printf_pieces (text before ∷ number n ∷ text after ∷ []) (hb, (hn, (ha, tt))))

pub writes_text : (s : Bytes) → is_plain s ≡ true → writes s [] ≡ some (write s ∷ [])
unfolding writes
writes_text s h = rw (printf-text s (plain s h))

-- A message with one `%lu`.
pub writes_number :
    (before after : Bytes) (n : ℕ)
    → is_plain before ≡ true
    → is_plain after ≡ true
    → n < ulong_mod
    → writes (before ++ (codes "%lu" ++ after)) (ulong n ∷ [])
      ≡ some (write (before ++ (shown n ++ after)) ∷ [])
unfolding writes
writes_number before after n hb ha hn =
    rw (printf-number before after n (plain before hb) (plain after ha) hn)

-- A round of three messages, the second under a test.
pub three_messages :
    {header error total : Option (List Event)} {h e t : Event} (b : Bool) (first : Event)
    (st : Local)
    → header ≡ some (h ∷ [])
    → error ≡ some (e ∷ [])
    → total ≡ some (t ∷ [])
    → ◌≡◌ {A = Option (List Event × Local)}
        (do
          header' ← header
          error' ← when b error
          total' ← total
          some (first ∷ (header' ++ (error' ++ total')), st))
        (some (first ∷ h ∷ ((if b then e ∷ [] else []) ++ t ∷ []), st))
three_messages true first st p q r = rw (p, q, r)
three_messages false first st p q r = rw (p, r)
