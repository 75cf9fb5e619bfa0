-- ===== src/Suite/Basic/Worker.antt =====
-- The processing thread of src/basic_processing.c.
use Prim.Native.Nat.{bit_xor}
use mathlib.Core.List.{map}
use mathlib.Core.Path.{ap₂}
use thread_metric_benchmark.Base.{
  ℕ, zero, suc, ◌+◌, ◌%◌, ◌^◌, ◌≡◌, refl, sym, ap, ◌∙◌, List, [], ◌∷◌, ◌++◌, append_assoc, arith,
  length, set, get_or, replicate, length-append, length-replicate, ulong_mod, add_ulong,
}

-- `tm_basic_processing_counter` and `tm_basic_processing_array`.
pub record Globals : Type 0 where
  pub counter : ℕ
  pub array : List ℕ

unfoldable pub array_size : ℕ
array_size = 1024

-- The first loop, with `left` rounds to go.
unfoldable pub clear_array : (left i : ℕ) → List ℕ → List ℕ
clear_array zero i a = a
clear_array (suc left) i a = clear_array left (i + 1) (set a i 0)

-- `(array[i] + counter_snapshot) ^ array[i]`
unfoldable pub mix : ℕ → ℕ → ℕ
mix snapshot v = bit_xor (add_ulong v snapshot) v

-- The inner loop, with `left` rounds to go.
unfoldable pub update_array : (left i snapshot : ℕ) → List ℕ → List ℕ
update_array zero i snapshot a = a
update_array (suc left) i snapshot a =
    update_array left (i + 1) snapshot (set a i (mix snapshot (get_or a i 0)))

-- One round of `while (1)`.
unfoldable pub outer_round : Globals → Globals
outer_round g = record {
  counter = add_ulong g.counter 1;
  array = update_array array_size 0 g.counter g.array;
}

unfoldable pub outer_rounds : ℕ → Globals → Globals
outer_rounds zero g = g
outer_rounds (suc n) g = outer_rounds n (outer_round g)

-- The thread after `rounds` rounds.
unfoldable pub tm_basic_processing_thread_0_entry : ℕ → Globals → Globals
tm_basic_processing_thread_0_entry rounds g =
    outer_rounds rounds (record g { array = clear_array array_size 0 g.array })

-- A loop that writes every place in turn is a map.
set-length :
    (pre rest : List ℕ) (x v : ℕ) → set (pre ++ x ∷ rest) (length pre) v ≡ (pre ++ v ∷ []) ++ rest
set-length [] rest x v = refl
set-length (y ∷ pre) rest x v = ap (λ l. y ∷ l) (set-length pre rest x v)

get_or-length : (pre rest : List ℕ) (x d : ℕ) → get_or (pre ++ x ∷ rest) (length pre) d ≡ x
get_or-length [] rest x d = refl
get_or-length (y ∷ pre) rest x d = get_or-length pre rest x d

length-snoc : (pre : List ℕ) (v : ℕ) → length (pre ++ v ∷ []) ≡ length pre + 1
length-snoc pre v = omega (arith, length-append pre (v ∷ []))

update_array-map :
    (rest pre : List ℕ) (snapshot : ℕ)
    → update_array (length rest) (length pre) snapshot (pre ++ rest)
      ≡ pre ++ map (mix snapshot) rest
unfolding update_array
update_array-map [] pre snapshot = refl
update_array-map (x ∷ rest) pre snapshot =
    let v = mix snapshot x in
    ap
      (λ y.
        update_array (length rest) (length pre + 1) snapshot
          (set (pre ++ x ∷ rest) (length pre) (mix snapshot y)))
      (get_or-length pre rest x 0)
    ∙ (ap (update_array (length rest) (length pre + 1) snapshot) (set-length pre rest x v)
        ∙ (ap (λ i. update_array (length rest) i snapshot ((pre ++ v ∷ []) ++ rest))
              (sym (length-snoc pre v))
            ∙ (update_array-map rest (pre ++ v ∷ []) snapshot ∙ append_assoc pre (v ∷ []) _)))

clear_array-replicate :
    (rest pre : List ℕ)
    → clear_array (length rest) (length pre) (pre ++ rest) ≡ pre ++ replicate (length rest) 0
unfolding clear_array
clear_array-replicate [] pre = refl
clear_array-replicate (x ∷ rest) pre =
    ap (clear_array (length rest) (length pre + 1)) (set-length pre rest x 0)
    ∙ (ap (λ i. clear_array (length rest) i ((pre ++ 0 ∷ []) ++ rest)) (sym (length-snoc pre 0))
        ∙ (clear_array-replicate rest (pre ++ 0 ∷ []) ∙ append_assoc pre (0 ∷ []) _))

-- The value that every place of the array has after `n` rounds.
pub expected_entry : ℕ → ℕ
expected_entry zero = 0
expected_entry (suc n) = bit_xor ((expected_entry n + n % 2 ^ 64) % 2 ^ 64) (expected_entry n)

map-replicate : (f : ℕ → ℕ) (n a : ℕ) → map f (replicate n a) ≡ replicate n (f a)
map-replicate f zero a = refl
map-replicate f (suc n) a = ap (λ l. f a ∷ l) (map-replicate f n a)

-- The state after n rounds from the start.
abbrev pub state_after : ℕ → Globals
state_after n = record { counter = n % ulong_mod; array = replicate array_size (expected_entry n) }

update_array-replicate :
    (size snapshot a : ℕ)
    → update_array size 0 snapshot (replicate size a) ≡ replicate size (mix snapshot a)
update_array-replicate size snapshot a =
    ap (λ m. update_array m 0 snapshot (replicate size a)) (sym (length-replicate size a))
    ∙ (update_array-map (replicate size a) [] snapshot ∙ map-replicate (mix snapshot) size a)

outer_round-state_after : (n : ℕ) → outer_round (state_after n) ≡ state_after (suc n)
unfolding outer_round expected_entry mix
outer_round-state_after n =
    ap₂ (λ c a. record { counter = c; array = a }) (omega arith)
      (update_array-replicate array_size (n % ulong_mod) (expected_entry n))

outer_rounds-state_after :
    (rounds n m : ℕ) → n + rounds ≡ m → outer_rounds rounds (state_after n) ≡ state_after m
unfolding outer_rounds
outer_rounds-state_after zero n m e = ap state_after (omega arith)
outer_rounds-state_after (suc rounds) n m e =
    ap (outer_rounds rounds) (outer_round-state_after n)
    ∙ outer_rounds-state_after rounds (suc n) m (omega arith)

-- From a zero counter and an array of 1024 places of any contents, after n rounds the counter is n
-- modulo 2 ^ 64 and all 1024 places hold the n-th value of the recurrence that starts at 0 and
-- goes from v to (v + k) ^ v in round k, with k and the sum modulo 2 ^ 64.
pub basic_processing_thread_lem :
    (n : ℕ) (g : Globals)
    → g.counter ≡ 0
    → length g.array ≡ array_size
    → tm_basic_processing_thread_0_entry n g ≡ state_after n
unfolding tm_basic_processing_thread_0_entry expected_entry
basic_processing_thread_lem n g c l =
    ap (outer_rounds n) (
      ap₂ (λ k a. record { counter = k; array = a }) c
        (ap (λ m. clear_array m 0 g.array) (sym l)
          ∙ (clear_array-replicate g.array [] ∙ ap (λ m. replicate m 0) l)))
    ∙ outer_rounds-state_after n 0 n (omega arith)
