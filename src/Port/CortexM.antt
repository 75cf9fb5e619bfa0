-- ===== src/Port/CortexM.antt =====
-- What all layers share on the Cortex-M, ports/common/cortex-m: vector_table.c, and the calls of
-- tm_putchar.c to the debugger.
use thread_metric_benchmark.Base.{
  ℕ, zero, suc, ◌+◌, ◌%◌, ◌^◌, ◌≤◌, ◌<◌, ◌≡◌, refl, ap, ◌∙◌, Option, none, some, List, [], ◌∷◌,
  ◌++◌, arith, length, get_elem?, ℤ, pos, negsuc,
}

-- The handlers, by name. Each but the first is a weak alias of Default_Handler.
pub data Symbol : Type 0 where
  reset : Symbol
  nmi : Symbol
  hard_fault : Symbol
  mem_manage : Symbol
  bus_fault : Symbol
  usage_fault : Symbol
  svc : Symbol
  debug_mon : Symbol
  pend_sv : Symbol
  sys_tick : Symbol
  irq : ℕ → Symbol

-- An entry of the table: `_estack`, a handler, or 0.
pub data Vector : Type 0 where
  stack_top : Vector
  handler : Symbol → Vector
  reserved : Vector

unfoldable pub vector_table : List Vector
vector_table =
    stack_top
    ∷ handler reset
    ∷ handler nmi
    ∷ handler hard_fault
    ∷ handler mem_manage
    ∷ handler bus_fault
    ∷ handler usage_fault
    ∷ reserved
    ∷ reserved
    ∷ reserved
    ∷ reserved
    ∷ handler svc
    ∷ handler debug_mon
    ∷ reserved
    ∷ handler pend_sv
    ∷ handler sys_tick
    ∷ handler (irq 0)
    ∷ handler (irq 1)
    ∷ handler (irq 2)
    ∷ handler (irq 3)
    ∷ handler (irq 4)
    ∷ handler (irq 5)
    ∷ handler (irq 6)
    ∷ handler (irq 7)
    ∷ handler (irq 8)
    ∷ handler (irq 9)
    ∷ handler (irq 10)
    ∷ handler (irq 11)
    ∷ handler (irq 12)
    ∷ handler (irq 13)
    ∷ handler (irq 14)
    ∷ handler (irq 15)
    ∷ handler (irq 16)
    ∷ handler (irq 17)
    ∷ handler (irq 18)
    ∷ handler (irq 19)
    ∷ handler (irq 20)
    ∷ handler (irq 21)
    ∷ handler (irq 22)
    ∷ handler (irq 23)
    ∷ handler (irq 24)
    ∷ handler (irq 25)
    ∷ handler (irq 26)
    ∷ handler (irq 27)
    ∷ handler (irq 28)
    ∷ handler (irq 29)
    ∷ handler (irq 30)
    ∷ handler (irq 31)
    ∷ []

-- What an exception runs: a function that is linked under the handler's name, or Default_Handler,
-- which loops forever, or nothing that the table has.
pub data Run (F : Type 0) : Type 0 where
  runs : F → Run F
  default_handler : Run F
  no_handler : Run F

-- A weak alias gives way to a function of its name, if one is linked.
unfoldable pub resolve : {F : Type 0} → (linked : Symbol → Option F) → Symbol → Run F
resolve linked s = elim (linked s) [ some f ↦ runs f | none ↦ default_handler ]

unfoldable pub entry : {F : Type 0} → (linked : Symbol → Option F) → Option Vector → Run F
unfolding resolve
entry linked none = no_handler
entry linked (some stack_top) = no_handler
entry linked (some reserved) = no_handler
entry linked (some (handler s)) = resolve linked s

-- The processor enters the exception `n`.
unfoldable pub exception : {F : Type 0} → (linked : Symbol → Option F) → (n : ℕ) → Run F
unfolding entry vector_table
exception linked n = entry linked (get_elem? vector_table n)

-- The semihosting call that writes a character: its number and the byte that its argument points to.
unfoldable pub tm_putchar : (c : ℕ) → ℕ × ℕ
tm_putchar c = (0x03, c % 2 ^ 8)

-- The semihosting call that ends the program: its number and the reason. Behind it the code loops
-- forever.
unfoldable pub tm_semihosting_exit : (code : ℤ) → ℕ × ℕ
tm_semihosting_exit (pos zero) = (0x18, 0x20026)
tm_semihosting_exit (pos (suc code)) = (0x18, 0x20024)
tm_semihosting_exit (negsuc code) = (0x18, 0x20024)

-- The handlers of so many external interrupts, from the number `k` on.
interrupts : (count k : ℕ) → List Vector
interrupts zero k = []
interrupts (suc count) k = handler (irq k) ∷ interrupts count (suc k)

interrupt_at :
    (count k i : ℕ) → i < count → get_elem? (interrupts count k) i ≡ some (handler (irq (k + i)))
unfolding interrupts
interrupt_at zero k i h = absurd (omega arith)
interrupt_at (suc count) k zero h = ap (λ n. some (handler (irq n))) (omega arith)
interrupt_at (suc count) k (suc i) h =
    interrupt_at count (suc k) i (omega arith) ∙ ap (λ n. some (handler (irq n))) (omega arith)

-- The entries of the system, as in the table.
system : List Vector
system =
    stack_top
    ∷ handler reset
    ∷ handler nmi
    ∷ handler hard_fault
    ∷ handler mem_manage
    ∷ handler bus_fault
    ∷ handler usage_fault
    ∷ reserved
    ∷ reserved
    ∷ reserved
    ∷ reserved
    ∷ handler svc
    ∷ handler debug_mon
    ∷ reserved
    ∷ handler pend_sv
    ∷ handler sys_tick
    ∷ []

behind :
    (xs ys : List Vector) (i m : ℕ) → m ≡ length xs + i → get_elem? (xs ++ ys) m ≡ get_elem? ys i
behind [] ys i m e = ap (get_elem? ys) (omega (arith, e))
behind (x ∷ xs) ys i zero e = absurd (omega (arith, e))
behind (x ∷ xs) ys i (suc m) e = behind xs ys i m (omega (arith, e))

past : (xs : List Vector) (m : ℕ) → length xs ≤ m → get_elem? xs m ≡ none
past [] m h = refl
past (x ∷ xs) zero h = absurd (omega (arith, h))
past (x ∷ xs) (suc m) h = past xs m (omega (arith, h))

external_entry : (n : ℕ) → n < 32 → get_elem? vector_table (16 + n) ≡ some (handler (irq n))
unfolding vector_table interrupts system
external_entry n h =
    behind system (interrupts 32 0) n (16 + n) refl
    ∙ interrupt_at 32 0 n h
    ∙ ap (λ k. some (handler (irq k))) (omega arith)

no_entry : (n : ℕ) → get_elem? vector_table (48 + n) ≡ none
unfolding vector_table
no_entry n = past vector_table (48 + n) (omega arith)

-- On the Cortex-M, for the external interrupts 0 to 31: the interrupt n enters the exception 16 + n,
-- which runs the function that is linked as its handler if there is one, whatever the handlers of
-- the other interrupts are, and Default_Handler if there is none; from the exception 48 on the table
-- has no handler.
pub external_interrupt :
    {F : Type 0} (linked : Symbol → Option F) (n : ℕ)
    → n < 32
    → (exception linked (16 + n) ≡ resolve linked (irq n))
      × (exception linked (48 + n) ≡ no_handler)
unfolding exception entry
external_interrupt linked n h =
    (ap (entry linked) (external_entry n h), ap (entry linked) (no_entry n))
