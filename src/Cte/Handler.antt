-- ===== src/Cte/Handler.antt =====
-- abstract-machine/am/src/riscv/nemu/cte.c and trap.S, for 32 registers of 32 bits.
use bailuwan.Base.{ℕ, ◌+◌, ◌-◌, ◌*◌, ◌^◌, Bool, ◌==◌, ◌&&◌, ◌||◌, if◌then◌else◌, Option, some, none}
use bailuwan.Base.Run.{Run, ok, stop, assert_fail, and_then}
use bailuwan.Riscv.State.{Machine, update, csr_mcause, csr_mstatus, csr_mepc}
use bailuwan.Riscv.Word.{word}

-- The fields of `struct Context` but `pdir`, which nothing here uses.
pub record Context : Type 0 where
  pub gpr : ℕ → ℕ
  pub mcause : ℕ
  pub mstatus : ℕ
  pub mepc : ℕ

-- The events that `__am_irq_handle` makes.
pub data Event : Type 0 where
  event_yield event_error : Event

-- A context with its address.
abbrev pub Placed : Type 0
Placed = ℕ × Context

-- A handler is code of the program. `none` is a context that is NULL.
abbrev pub Handler : Type 0
Handler = Event → Placed → Option Placed

unfoldable pub is_yield : Context → Bool
is_yield c = c.mcause == 11 && c.gpr 17 == 2 ^ 32 - 1

-- The `switch`.
unfoldable pub irq_event : Placed → Event × Placed
unfolding is_yield
irq_event (at, c) =
    if is_yield c
    then (event_yield, (at, record c { mepc = word (c.mepc + 4) }))
    else (event_error, (at, c))

abbrev pub not_null : Option Placed → Run Placed
not_null none = stop assert_fail
not_null (some c) = ok c

-- `none` is a `user_handler` that is NULL.
unfoldable pub am_irq_handle : Option Handler → Placed → Run Placed
unfolding irq_event
am_irq_handle none c = ok c
am_irq_handle (some handler) c = let (ev, c') = irq_event c in not_null (handler ev c')

-- A new context below the end of the stack, over what `memory` holds there.
unfoldable pub kcontext : ℕ → ℕ → ℕ → Context → Placed
kcontext stack_end entry arg memory = (
  word (stack_end + 2 ^ 32 - 144),
  record memory { mepc = entry; mstatus = 0x1800; gpr = update memory.gpr 10 arg },
)

-- (NR_REGS + 3) * XLEN
abbrev pub context_size : ℕ
context_size = (32 + 3) * 4

-- `__am_asm_trap` up to the call. Registers 0 and 2 are not pushed: `stack` is what the memory
-- holds in their places.
unfoldable pub save_context : (ℕ → ℕ) → Machine → Placed
save_context stack m = (
  word (m.cpu.gpr 2 + 2 ^ 32 - context_size),
  record {
    gpr = λ i. if i == 0 || i == 2 then stack i else m.cpu.gpr i;
    mcause = m.cpu.csr csr_mcause;
    mstatus = m.cpu.csr csr_mstatus;
    mepc = m.cpu.csr csr_mepc;
  },
)

-- From the call to before mret. No other part of the processor is read before it is assigned.
unfoldable pub restore_context : Placed → Machine → Machine
unfolding update
restore_context (at, c) m = record m {
  cpu = record (m.cpu) {
    gpr = λ i. if i == 0 then m.cpu.gpr 0 else if i == 2 then word (at + context_size) else c.gpr i;
    csr = update (update m.cpu.csr csr_mstatus c.mstatus) csr_mepc c.mepc;
  };
}

unfoldable pub asm_trap : Option Handler → (ℕ → ℕ) → Machine → Run Machine
unfolding save_context am_irq_handle restore_context
asm_trap user stack m =
    and_then (am_irq_handle user (save_context stack m)) λ c. ok (restore_context c m)
