-- ===== src/Suite/Interrupt/Worker.antt =====
-- The thread and the handler of src/interrupt_processing.c, one statement at a time. How the layer
-- calls the handler is a parameter, with what include/tm_api.h says of it.
use thread_metric_benchmark.Base.{ℕ, zero, suc, ◌≡◌, pos, add_ulong}
use thread_metric_benchmark.Api.{Status, tm_success, tm_error, Api}
use thread_metric_benchmark.Api.Laws.{SemaphoreLaws}

-- `tm_interrupt_thread_0_counter` and `tm_interrupt_handler_counter`.
pub record Globals : Type 0 where
  pub thread_0_counter : ℕ
  pub handler_counter : ℕ

pub data Pc : Type 0 where
  first_get : Pc
  trigger : Pc  -- head of the loop
  pick_up : Pc  -- behind the interrupt
  count_up : Pc  -- behind a get that succeeded
  returned : Pc

-- The globals, and the state of the layer.
abbrev pub World : Type 0 → Type 0
World S = Globals × S

unfoldable pub tm_interrupt_handler : {Entry S : Type 0} → Api Entry S → World S → World S
tm_interrupt_handler api (g, s) =
    (record g { handler_counter = add_ulong g.handler_counter 1 }, (api.semaphore_put (pos 0) s).1)

-- Where a get leads, by its status.
unfoldable pub unless_error : Pc → Status → Pc
unless_error pc tm_success = pc
unless_error pc tm_error = returned

-- `tm_cause_interrupt_sync` of a layer, given the handler that it calls.
abbrev pub Trigger : Type 0 → Type 0
Trigger S = (World S → World S) → World S → World S

unfoldable pub tm_interrupt_thread_0_entry :
    {Entry S : Type 0} → Api Entry S → Trigger S → Pc → World S → Pc × World S
unfolding unless_error
tm_interrupt_thread_0_entry api cause first_get (g, s) =
    let (status, s') = api.semaphore_get (pos 0) s in (unless_error trigger status, (g, s'))
tm_interrupt_thread_0_entry api cause trigger w = (pick_up, cause (tm_interrupt_handler api) w)
tm_interrupt_thread_0_entry api cause pick_up (g, s) =
    let (status, s') = api.semaphore_get (pos 0) s in (unless_error count_up status, (g, s'))
tm_interrupt_thread_0_entry api cause count_up (g, s) =
    (trigger, (record g { thread_0_counter = add_ulong g.thread_0_counter 1 }, s))
tm_interrupt_thread_0_entry api cause returned w = (returned, w)

-- The thread after `n` statements.
unfoldable pub run : {Entry S : Type 0} → Api Entry S → Trigger S → ℕ → Pc × World S → Pc × World S
run api cause zero (pc, w) = (pc, w)
run api cause (suc n) (pc, w) = run api cause n (tm_interrupt_thread_0_entry api cause pc w)

-- The synchronous interrupt calls its handler once, in-line, whatever that does: it hands the globals
-- over and back as they are, and its own work on the layer does not change the semaphore's count.
pub record TriggerLaws {Entry S : Type 0} (api : Api Entry S) (laws : SemaphoreLaws api)
    (cause : Trigger S) : Type 0 where
  pub cause_lem :
      (handler : World S → World S) (g : Globals) (s : S)
      → (s₀ s₁ : S) × (laws.count s₀ ≡ laws.count s)
        × (cause handler (g, s) ≡ ((handler (g, s₀)).0, s₁))
        × (laws.count s₁ ≡ laws.count (handler (g, s₀)).1)
