-- ===== src/Cte/Yield.antt =====
-- What the call `yield` of a program comes to on the emulator: the instruction ecall, the trap
-- code, the handler, and the instruction mret.
use bailuwan.Base.{
  ◌≤◌, fun_ext, ◌≢◌, ◌||◌, ℕ, ◌+◌, ◌-◌, ◌^◌, ◌<◌, ◌≡◌, refl, Option, some, arith, ap, ◌∙◌, ◌==◌,
  if◌then◌else◌,
}
use bailuwan.Base.Run.{Run, ok, and_then}
use bailuwan.Decode.Digits.{agrees}
use bailuwan.Memory.Bus.{Env}
use bailuwan.Riscv.Word.{word}
use bailuwan.Riscv.State.{
  Machine, update, csr_read, csr_write, csr_mepc, csr_mtval, csr_mcause, csr_mtvec, csr_mstatus,
}
use bailuwan.Riscv.Lines.{exec_lines, ecall, mret, line, type_n}
use bailuwan.Riscv.Operand.{decode_operand}
use bailuwan.Riscv.Exec.{Decode, jump, riscv_ecall, riscv_mret, isa_raise_intr}
use bailuwan.Riscv.Body.{decode_exec, run_line, body, compute, control}
use bailuwan.Riscv.Dispatch.{decode_exec-run_line}
use bailuwan.Riscv.Step.{HasAllRegs, gpr_write-ok}
use bailuwan.Cte.Handler.{
  kcontext, Context, Event, event_yield, Placed, Handler, is_yield, irq_event, am_irq_handle,
  save_context, restore_context, asm_trap, context_size,
}

-- The processor after ecall at `pc`.
abbrev pub trapped : ℕ → Machine → Machine
trapped pc m = record m {
  cpu = record (m.cpu) {
    gpr = update m.cpu.gpr 0 0;
    csr =
        update (update (update m.cpu.csr csr_mepc pc) csr_mtval pc) csr_mcause
          (m.cpu.priv_level + 8);
  };
}

abbrev pub zeroed : Machine → Machine
zeroed m = record m { cpu = record (m.cpu) { gpr = update m.cpu.gpr 0 0 } }

-- A context that goes on behind the ecall at `pc`.
abbrev behind_ecall : ℕ → Machine → (ℕ → ℕ) → Placed
behind_ecall pc m gpr = (
  word (m.cpu.gpr 2 + 2 ^ 32 - context_size),
  record { gpr = gpr; mcause = 11; mstatus = m.cpu.csr csr_mstatus; mepc = word (pc + 4) },
)

abbrev yield_event : ℕ → Machine → (ℕ → ℕ) → Event × Placed
yield_event pc m gpr = (event_yield, behind_ecall pc m gpr)

-- The context that the handler is given for a `yield` at `pc`.
abbrev pub yielded : (ℕ → ℕ) → ℕ → Machine → Placed
yielded stack pc m = behind_ecall pc m (λ i. if i == 0 || i == 2 then stack i else m.cpu.gpr i)

irq_event-yielded :
    (pc : ℕ) (m : Machine) (stack : ℕ → ℕ)
    → m.cpu.priv_level ≡ 3
    → m.cpu.gpr 17 ≡ 2 ^ 32 - 1
    → irq_event (save_context stack (trapped pc m)) ≡ (event_yield, yielded stack pc m)
unfolding irq_event is_yield save_context update
irq_event-yielded pc m stack machine_mode number =
    let kept : ◌≡◌ {A = ℕ → ℕ}
        (λ i. if i == 0 || i == 2 then stack i else (if i == 0 then 0 else m.cpu.gpr i))
        (λ i. if i == 0 || i == 2 then stack i else m.cpu.gpr i) =
      fun_ext (λ i. ground arith) in
    rw (machine_mode, number) (ap (yield_event pc m) kept)

asm_trap-yielded :
    (pc : ℕ) (m : Machine) (stack : ℕ → ℕ) (handler : Handler) (c : Placed)
    → m.cpu.priv_level ≡ 3
    → m.cpu.gpr 17 ≡ 2 ^ 32 - 1
    → handler event_yield (yielded stack pc m) ≡ some c
    → asm_trap (some handler) stack (trapped pc m) ≡ ok (restore_context c (trapped pc m))
unfolding asm_trap am_irq_handle
asm_trap-yielded pc m stack handler c machine_mode number given =
    rw (irq_event-yielded pc m stack machine_mode number, given) refl

module _ (env : Env) (all : HasAllRegs env) where
  ecall-trapped :
      (s : Decode) (m : Machine)
      → s.inst ≡ 0x0000_0073
      → decode_exec env s m ≡ ok (jump (m.cpu.csr csr_mtvec) s, trapped s.pc m)
  unfolding run_line decode_operand body compute control riscv_ecall isa_raise_intr csr_write
      csr_read update agrees exec_lines
  ecall-trapped s m e =
      decode_exec-run_line env 38 (line "0000000 00000 00000 000 00000 11100 11" ecall type_n) s m
        refl (rw e refl)
      ∙ rw
          (gpr_write-ok env all 0 0
            (record (trapped s.pc m) { cpu = record (trapped s.pc m).cpu { gpr = m.cpu.gpr } })
            (omega arith))
          refl

  mret-zeroed :
      (s : Decode) (m : Machine)
      → s.inst ≡ 0x3020_0073
      → decode_exec env s m ≡ ok (jump (m.cpu.csr csr_mepc) s, zeroed m)
  unfolding run_line decode_operand body compute control riscv_mret csr_read update agrees
      exec_lines
  mret-zeroed s m e =
      decode_exec-run_line env 54 (line "0011000 00010 00000 000 00000 11100 11" mret type_n) s m
        refl (rw e refl)
      ∙ rw (gpr_write-ok env all 0 0 m (omega arith)) refl

  -- The instruction ecall, the trap code and the instruction mret, one after the other.
  abbrev pub yield : Decode → Decode → Option Handler → (ℕ → ℕ) → Machine → Run (Decode × Machine)
  yield s t user stack m =
      and_then (decode_exec env s m)
        λ (s', m1). and_then (asm_trap user stack m1) λ m2. decode_exec env t m2

  -- With all 32 registers and in machine mode, a `yield` of a program calls its handler with the
  -- event of a yield and the context that goes on behind the ecall. If the handler returns a
  -- context, the program goes on at the address in it, with its registers and its mstatus, and the
  -- stack pointer behind it.
  pub yield-resumed :
      (s t : Decode) (m : Machine) (stack : ℕ → ℕ) (handler : Handler) (at : ℕ) (c : Context)
      → s.inst ≡ 0x0000_0073
      → t.inst ≡ 0x3020_0073
      → m.cpu.priv_level ≡ 3
      → m.cpu.gpr 17 ≡ 2 ^ 32 - 1
      → handler event_yield (yielded stack s.pc m) ≡ some (at, c)
      → (m' : Machine) × (yield s t (some handler) stack m ≡ ok (jump c.mepc t, m'))
        × (m'.cpu.csr csr_mstatus ≡ c.mstatus)
        × (m'.cpu.gpr 2 ≡ word (at + context_size))
        × ((i : ℕ) → 0 < i → i ≢ 2 → m'.cpu.gpr i ≡ c.gpr i)
  unfolding restore_context update
  yield-resumed s t m stack handler at c is_ecall is_mret machine_mode number given =
      let m2 = restore_context (at, c) (trapped s.pc m) in
      (
        zeroed m2,
        rw
            (
              ecall-trapped s m is_ecall,
              asm_trap-yielded s.pc m stack handler (at, c) machine_mode number given,
              mret-zeroed t m2 is_mret,
            )
            refl,
        refl,
        refl,
        λ i positive other. ground arith,
      )

  -- With all 32 registers and in machine mode, a `yield` with a handler that returns a new context,
  -- on a stack that ends at 144 or above and below 2 ^ 32, goes on at the entry of the context,
  -- with the argument in a0, 0x1800 in mstatus, and a stack pointer 4 bytes below the end.
  pub yield-kcontext :
      (s t : Decode) (m : Machine) (stack : ℕ → ℕ) (handler : Handler) (stack_end entry arg : ℕ)
      (memory : Context)
      → s.inst ≡ 0x0000_0073
      → t.inst ≡ 0x3020_0073
      → m.cpu.priv_level ≡ 3
      → m.cpu.gpr 17 ≡ 2 ^ 32 - 1
      → 144 ≤ stack_end
      → stack_end < 2 ^ 32
      → handler event_yield (yielded stack s.pc m) ≡ some (kcontext stack_end entry arg memory)
      → (m' : Machine) × (yield s t (some handler) stack m ≡ ok (jump entry t, m'))
        × (m'.cpu.csr csr_mstatus ≡ 0x1800)
        × (m'.cpu.gpr 2 ≡ stack_end - 4)
        × (m'.cpu.gpr 10 ≡ arg)
  unfolding kcontext update
  yield-kcontext s t m stack handler stack_end entry arg memory is_ecall is_mret machine_mode number
        low high given =
      let at = word (stack_end + 2 ^ 32 - 144) in
      let c : Context = record memory {
        mepc = entry;
        mstatus = 0x1800;
        gpr = update memory.gpr 10 arg;
      } in
      let (m', run, status, sp, regs) =
        yield-resumed s t m stack handler at c is_ecall is_mret machine_mode number given in
      (m', run, status, sp ∙ omega arith, regs 10 (omega arith) (λ e. absurd (omega (arith, e))))
