-- ===== src/Cpu/Kept.antt =====
-- What every run of the execution loop keeps.
use mathlib.Core.Path.{subst}
use bailuwan.Memory.BusBytes.{CallsKeepBytes}
use bailuwan.Base.{
  ℕ, zero, suc, ◌+◌, ◌%◌, ◌^◌, ◌<◌, ◌≡◌, Bool, true, false, Bool-cases, inl, inr, Option, some,
  none, if◌then◌else◌, ◌==◌,
}
use bailuwan.Base.Run.{ok, and_then-ok, ok_cancel, and_then}
use bailuwan.Memory.Bus.{Env}
use bailuwan.Riscv.State.{
  Machine, Nemu, Status, nemu_running, nemu_stop, nemu_end, nemu_abort, nemu_quit,
}
use bailuwan.Riscv.Exec.{Decode}
use bailuwan.Riscv.Body.{isa_exec_once}
use bailuwan.Riscv.Typed.{IsMachine}
use bailuwan.Riscv.Typing.{IsDecode, Typed}
use bailuwan.Riscv.Invariant.{isa_exec_once-Typed}
use bailuwan.Sdb.Breakpoint.{
  Breakpoints, bp_update, bp_update_loop, bp_update_one, stop_if_running, is_running, nr_bp,
}
use bailuwan.Cpu.Exec.{
  System, Hooks, exec_once, execute, trace_and_difftest, cpu_exec, cpu_exec_at, set_state, finish,
}

with_nemu : (m : Machine) (nemu : Nemu) → IsMachine m → IsMachine (record m { nemu = nemu })
with_nemu m nemu v = record {
  gpr_words = v.gpr_words;
  csr_words = v.csr_words;
  pc_word = v.pc_word;
  priv_in = v.priv_in;
  bus_bytes = v.bus_bytes;
}

stop_if_running-IsMachine : (m : Machine) → IsMachine m → IsMachine (stop_if_running m)
unfolding stop_if_running
stop_if_running-IsMachine m v = on_state (is_running m.nemu.state)
  where
    on_state :
        (b : Bool)
        → IsMachine (if b then record m { nemu = record (m.nemu) { state = nemu_stop } } else m)
    on_state true = with_nemu m (record (m.nemu) { state = nemu_stop }) v
    on_state false = v

bp_update_one-IsMachine :
    (b : Breakpoints) (p : ℕ) (m : Machine) → IsMachine m → IsMachine (bp_update_one b p m)
unfolding bp_update_one
bp_update_one-IsMachine b p m v = on_test (m.cpu.pc == b.addr p)
  where
    on_test : (t : Bool) → IsMachine (if t then stop_if_running m else m)
    on_test true = stop_if_running-IsMachine m v
    on_test false = v

bp_update_loop-IsMachine :
    (fuel : ℕ) (b : Breakpoints) (p : Option ℕ) (m : Machine)
    → IsMachine m
    → IsMachine (bp_update_loop fuel b p m)
unfolding bp_update_loop
bp_update_loop-IsMachine zero b p m v = v
bp_update_loop-IsMachine (suc fuel) b none m v = v
bp_update_loop-IsMachine (suc fuel) b (some p) m v =
    bp_update_loop-IsMachine fuel b (b.pool.next p) (bp_update_one b p m)
      (bp_update_one-IsMachine b p m v)

bp_update-IsMachine : (b : Breakpoints) (m : Machine) → IsMachine m → IsMachine (bp_update b m)
unfolding bp_update
bp_update-IsMachine b m v = bp_update_loop-IsMachine nr_bp b b.pool.head m v

set_state-IsMachine :
    (t : Status) (sys : System) → IsMachine sys.machine → IsMachine (set_state t sys).machine
set_state-IsMachine t sys v = with_nemu sys.machine (record (sys.machine.nemu) { state = t }) v

finish-IsMachine : (sys : System) → IsMachine sys.machine → IsMachine (finish sys).machine
finish-IsMachine sys v = on_state (is_running sys.machine.nemu.state)
  where
    on_state : (b : Bool) → IsMachine (if b then set_state nemu_stop sys else sys).machine
    on_state true = set_state-IsMachine nemu_stop sys v
    on_state false = v

module _ (env : Env) (calls : CallsKeepBytes env) (hooks : Hooks)
    (unwatched : hooks.watchpoint ≡ false) where
  exec_once-Typed :
      (s : Decode) (pc : ℕ)
      → s.dnpc < 2 ^ 32
      → pc < 2 ^ 32
      → Typed IsDecode (exec_once env hooks s pc)
  unfolding exec_once
  exec_once-Typed s pc next at m m' s' v h =
      let start : Decode = record s { pc = pc; snpc = pc } in
      let ((s1, m1), ran, e) = and_then-ok (isa_exec_once env start m) _ h in
      let (v1, w1) =
        isa_exec_once-Typed env calls start
          (record { pc_word = at; snpc_word = at; dnpc_word = next }) m m1 s1 v ran in
      subst (λ (r : Decode × Machine). IsMachine r.1 × IsDecode r.0) (ok_cancel e)
        (
          record {
            gpr_words = v1.gpr_words;
            csr_words = v1.csr_words;
            pc_word = w1.dnpc_word;
            priv_in = v1.priv_in;
            bus_bytes = v1.bus_bytes;
          },
          w1,
        )

  trace-IsMachine :
      (sys sys' : System)
      → IsMachine sys.machine
      → trace_and_difftest env hooks sys ≡ ok sys'
      → IsMachine sys'.machine
  unfolding trace_and_difftest
  trace-IsMachine sys sys' v h =
      subst (λ (t : System). IsMachine t.machine) (ok_cancel (rw unwatched at h))
        (on_hook hooks.breakpoint)
    where
      on_hook :
          (b : Bool)
          → IsMachine
              (if b
                then record sys { machine = bp_update sys.breakpoints sys.machine }
                else sys).machine
      on_hook true = bp_update-IsMachine sys.breakpoints sys.machine v
      on_hook false = v

  execute-IsMachine :
      (n : ℕ) (s : Decode) (sys sys' : System)
      → s.dnpc < 2 ^ 32
      → IsMachine sys.machine
      → execute env hooks n s sys ≡ ok sys'
      → IsMachine sys'.machine
  unfolding execute
  execute-IsMachine zero s sys sys' next v h =
      subst (λ (t : System). IsMachine t.machine) (ok_cancel h) v
  execute-IsMachine (suc n) s sys sys' next v h =
      let ((s1, m), run, traced) =
        and_then-ok (exec_once env hooks s sys.machine.cpu.pc sys.machine) _ h in
      let (v1, w1) = exec_once-Typed s sys.machine.cpu.pc next v.pc_word sys.machine m s1 v run in
      let sys0 : System = record sys {
        machine = m;
        nr_guest_inst = (sys.nr_guest_inst + 1) % 2 ^ 64;
      } in
      let (sys1, trace, rest) = and_then-ok (trace_and_difftest env hooks sys0) _ traced in
      let v2 = trace-IsMachine sys0 sys1 v1 trace in
      elim (Bool-cases (is_running sys1.machine.nemu.state)) [
        | inl running ↦ execute-IsMachine n s1 sys1 sys' w1.dnpc_word v2 (rw running at rest)
        | inr stopped ↦
            subst (λ (t : System). IsMachine t.machine) (ok_cancel (rw stopped at rest)) v2
      ]

  run-IsMachine :
      (n : ℕ) (s : Decode) (sys sys' : System)
      → s.dnpc < 2 ^ 32
      → IsMachine sys.machine
      → and_then (execute env hooks n s (set_state nemu_running sys)) (λ t. ok (finish t)) ≡ ok sys'
      → IsMachine sys'.machine
  run-IsMachine n s sys sys' next v h =
      let (sys1, run, e) = and_then-ok (execute env hooks n s (set_state nemu_running sys)) _ h in
      let v1 =
        execute-IsMachine n s (set_state nemu_running sys) sys1 next
          (set_state-IsMachine nemu_running sys v) run in
      subst (λ (t : System). IsMachine t.machine) (ok_cancel e) (finish-IsMachine sys1 v1)

  cpu_exec_at-IsMachine :
      (t : Status) (n : ℕ) (s : Decode) (sys sys' : System)
      → s.dnpc < 2 ^ 32
      → IsMachine sys.machine
      → cpu_exec_at env hooks t n s sys ≡ ok sys'
      → IsMachine sys'.machine
  unfolding cpu_exec_at
  cpu_exec_at-IsMachine nemu_end n s sys sys' next v h =
      subst (λ (u : System). IsMachine u.machine) (ok_cancel h) v
  cpu_exec_at-IsMachine nemu_abort n s sys sys' next v h =
      subst (λ (u : System). IsMachine u.machine) (ok_cancel h) v
  cpu_exec_at-IsMachine nemu_quit n s sys sys' next v h =
      subst (λ (u : System). IsMachine u.machine) (ok_cancel h) v
  cpu_exec_at-IsMachine nemu_running n s sys sys' next v h = run-IsMachine n s sys sys' next v h
  cpu_exec_at-IsMachine nemu_stop n s sys sys' next v h = run-IsMachine n s sys sys' next v h

  -- Without watchpoints, where the functions behind the devices store bytes, a call of `cpu_exec`
  -- that returns leaves words in the registers, the CSRs and the program counter, a privilege
  -- level of two bits, and bytes in the memory and the registers of the devices, if it has found
  -- them so.
  pub cpu_exec-IsMachine :
      (n : ℕ) (s : Decode) (sys sys' : System)
      → s.dnpc < 2 ^ 32
      → IsMachine sys.machine
      → cpu_exec env hooks n s sys ≡ ok sys'
      → IsMachine sys'.machine
  unfolding cpu_exec
  cpu_exec-IsMachine n s sys sys' next v h =
      cpu_exec_at-IsMachine sys.machine.nemu.state n s sys sys' next v h
