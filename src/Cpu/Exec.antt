-- ===== src/Cpu/Exec.antt =====
-- nemu/src/cpu/cpu-exec.c: `cpu_exec` and what it calls, for a build without CONFIG_DEVICE,
-- CONFIG_DIFFTEST and the traces. Time and messages are left out.
use bailuwan.Base.{zero, ◌^◌, ◌%◌, ◌+◌, suc, if◌then◌else◌, ℕ, Bool}
use bailuwan.Base.Run.{Run, Cmd, ok, and_then, ◌>>=◌}
use bailuwan.Memory.Bus.{Env}
use bailuwan.Riscv.State.{Machine, Status, nemu_running, nemu_stop, nemu_end, nemu_abort, nemu_quit}
use bailuwan.Riscv.Exec.{Decode}
use bailuwan.Riscv.Body.{isa_exec_once}
use bailuwan.Sdb.Breakpoint.{Breakpoints, bp_update, is_running}
use bailuwan.Sdb.Watchpoint.{Watchpoints, wp_update}

-- CONFIG_WATCHPOINT and CONFIG_BREAKPOINT.
pub record Hooks : Type 0 where
  pub watchpoint : Bool
  pub breakpoint : Bool

-- The machine with the debugger's pools and `g_nr_guest_inst`.
pub record System : Type 0 where
  pub machine : Machine
  pub watchpoints : Watchpoints
  pub breakpoints : Breakpoints
  pub nr_guest_inst : ℕ

-- `nemu_state.state = …`
abbrev pub set_state : Status → System → System
set_state t sys = record sys {
  machine = record (sys.machine) { nemu = record (sys.machine.nemu) { state = t } };
}

-- The second `switch`.
abbrev pub finish : System → System
finish sys = if is_running sys.machine.nemu.state then set_state nemu_stop sys else sys

module _ (env : Env) (hooks : Hooks) where
  abbrev set_pc : Decode → Cmd Machine Decode
  set_pc s m = ok (s, record m { cpu = record (m.cpu) { pc = s.dnpc } })

  unfoldable pub exec_once : Decode → ℕ → Cmd Machine Decode
  unfolding isa_exec_once
  exec_once s pc = do s' ← isa_exec_once env (record s { pc = pc; snpc = pc }); set_pc s'

  abbrev watch : System → Run System
  watch sys =
      and_then (wp_update env (sys.watchpoints, sys.machine))
        λ (u, (w, m)). ok (record sys { watchpoints = w; machine = m })

  abbrev break : System → System
  break sys = record sys { machine = bp_update sys.breakpoints sys.machine }

  unfoldable pub trace_and_difftest : System → Run System
  unfolding wp_update bp_update
  trace_and_difftest sys =
      let watched = if hooks.watchpoint then watch sys else ok sys in
      and_then watched λ sys'. ok (if hooks.breakpoint then break sys' else sys')

  -- The loop, whose local `s` is kept from one instruction to the next.
  unfoldable pub execute : ℕ → Decode → System → Run System
  unfolding exec_once trace_and_difftest
  execute zero s sys = ok sys
  execute (suc n) s sys = and_then (exec_once s sys.machine.cpu.pc sys.machine) λ (s', m).
      and_then
        (trace_and_difftest
          (record sys { machine = m; nr_guest_inst = (sys.nr_guest_inst + 1) % 2 ^ 64 }))
        λ sys'.
          let rest = execute n s' sys' in
          if is_running sys'.machine.nemu.state then rest else ok sys'

  -- The first `switch`, at the state of the emulator, and what follows.
  unfoldable pub cpu_exec_at : Status → ℕ → Decode → System → Run System
  unfolding execute
  cpu_exec_at nemu_end n s sys = ok sys
  cpu_exec_at nemu_abort n s sys = ok sys
  cpu_exec_at nemu_quit n s sys = ok sys
  cpu_exec_at _ n s sys =
      and_then (execute n s (set_state nemu_running sys)) λ sys'. ok (finish sys')

  -- `s` is the uninitialised local of `execute`.
  unfoldable pub cpu_exec : ℕ → Decode → System → Run System
  unfolding cpu_exec_at
  cpu_exec n s sys = cpu_exec_at sys.machine.nemu.state n s sys
