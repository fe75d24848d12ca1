-- ===== src/Cpu/Steps.antt =====
-- What `cpu_exec` leaves.
use bailuwan.Riscv.State.{Machine, nemu_stop, nemu_quit, nemu_abort, nemu_running, nemu_end, Status}
use mathlib.Core.Path.{subst}
use bailuwan.Sdb.Breakpoint.{is_running}
use bailuwan.Riscv.Exec.{Decode}
use bailuwan.Base.{
  ap, refl, zero, inr, ◌∙◌, Bool-cases, inl, suc, ◌⊎◌, false, true, ◌^◌, ◌<◌, ◌%◌, ◌+◌, ◌≤◌, ℕ,
  arith, ◌≡◌,
}
use bailuwan.Cpu.Exec.{
  set_state, cpu_exec_at, finish, exec_once, cpu_exec, execute, System, Hooks, trace_and_difftest,
}
use bailuwan.Base.Run.{and_then, and_then-ok, ok_cancel, ok}
use bailuwan.Memory.Bus.{Env}

module _ (env : Env) (hooks : Hooks) where
  trace_and_difftest-count :
      (sys sys' : System)
      → trace_and_difftest env hooks sys ≡ ok sys'
      → sys'.nr_guest_inst ≡ sys.nr_guest_inst
  unfolding trace_and_difftest
  trace_and_difftest-count sys sys' h = ground arith

  abbrev with_count : System → ℕ → System
  with_count sys c = record sys { nr_guest_inst = c }

  -- One instruction at the program counter and what the debugger does behind it, whatever the
  -- counter of instructions is before and after.
  abbrev pub Step : Decode → System → Decode → System → Type 0
  Step s sys s' sys' =
      (m : Machine) × (c : ℕ) × (c' : ℕ) × (exec_once env hooks s sys.machine.cpu.pc sys.machine
        ≡ ok (s', m))
      × (trace_and_difftest env hooks (with_count (record sys { machine = m }) c)
          ≡ ok (with_count sys' c'))

  -- A sequence of instructions, of which each but the last leaves the program running.
  pub data Steps : ℕ → Decode → System → Decode → System → Type 0 where
    no_steps : (s : Decode) (sys : System) → Steps 0 s sys s sys
    last_step : (s s' : Decode) (sys sys' : System) → Step s sys s' sys' → Steps 1 s sys s' sys'
    next_step :
        (k : ℕ) (s s1 s' : Decode) (sys sys1 sys' : System)
        → Step s sys s1 sys1
        → is_running sys1.machine.nemu.state ≡ true
        → Steps k s1 sys1 s' sys'
        → Steps (suc k) s sys s' sys'

  -- `k` instructions have been executed and counted, all `n` unless the program has stopped
  -- running.
  abbrev pub Executed : ℕ → Decode → System → System → Type 0
  Executed n s sys sys' =
      (k : ℕ) × (s' : Decode) × Steps k s sys s' sys'
      × (k ≤ n)
      × (sys'.nr_guest_inst ≡ (sys.nr_guest_inst + k) % 2 ^ 64)
      × ((k ≡ n) ⊎ (is_running sys'.machine.nemu.state ≡ false))

  one_more : (c k : ℕ) → ((c + 1) % 2 ^ 64 + k) % 2 ^ 64 ≡ (c + suc k) % 2 ^ 64
  one_more c k = omega arith

  -- A call of `execute` that returns has executed instructions one after the other, each while the
  -- program was running, and has counted each of them: `n`, or fewer if the program has stopped
  -- running.
  pub execute-Executed :
      (n : ℕ) (s : Decode) (sys sys' : System)
      → sys.nr_guest_inst < 2 ^ 64
      → execute env hooks n s sys ≡ ok sys'
      → Executed n s sys sys'
  unfolding execute
  execute-Executed zero s sys sys' small h =
      subst (Executed 0 s sys) (ok_cancel h)
        (0, s, no_steps s sys, omega arith, omega arith, inl refl)
  execute-Executed (suc n) s sys sys' small h =
      let ((s1, m), run, traced) =
        and_then-ok (exec_once env hooks s sys.machine.cpu.pc sys.machine) _ h in
      let c = (sys.nr_guest_inst + 1) % 2 ^ 64 in
      let sys0 : System = record sys { machine = m; nr_guest_inst = c } in
      let (sys1, trace, rest) = and_then-ok (trace_and_difftest env hooks sys0) _ traced in
      let counted : sys1.nr_guest_inst ≡ c = trace_and_difftest-count sys0 sys1 trace in
      let step : Step s sys s1 sys1 = (m, c, sys1.nr_guest_inst, run, trace) in
      elim (Bool-cases (is_running sys1.machine.nemu.state)) [
        | inl running ↦
            let (k, s', steps, le, count, all) =
              execute-Executed n s1 sys1 sys' (omega (arith, counted)) (rw running at rest) in
            (
              suc k,
              s',
              next_step k s s1 s' sys sys1 sys' step running steps,
              omega arith,
              count ∙ rw counted (one_more sys.nr_guest_inst k),
              all_more k all,
            )
        | inr stopped ↦
            subst (Executed (suc n) s sys) (ok_cancel (rw stopped at rest))
              (1, s1, last_step s s1 sys sys1 step, omega arith, counted, inr stopped)
      ]
    where
      all_more :
          (k : ℕ)
          → (k ≡ n) ⊎ (is_running sys'.machine.nemu.state ≡ false)
          → (suc k ≡ suc n) ⊎ (is_running sys'.machine.nemu.state ≡ false)
      all_more k (inl e) = inl (ap suc e)
      all_more k (inr e) = inr e

  finish-is_running : (sys : System) → is_running (finish sys).machine.nemu.state ≡ false
  finish-is_running sys = elim (Bool-cases (is_running sys.machine.nemu.state)) [
    | inl running ↦ rw running
    | inr stopped ↦ rw (stopped, stopped)
  ]

  finished :
      (n : ℕ) (s : Decode) (sys sys' : System)
      → and_then (execute env hooks n s (set_state nemu_running sys)) (λ sys1. ok (finish sys1))
        ≡ ok sys'
      → is_running sys'.machine.nemu.state ≡ false
  finished n s sys sys' h =
      let (sys1, run, e) = and_then-ok (execute env hooks n s (set_state nemu_running sys)) _ h in
      subst (λ (t : System). is_running t.machine.nemu.state ≡ false) (ok_cancel e)
        (finish-is_running sys1)

  ended :
      (t : Status) (sys sys' : System)
      → sys.machine.nemu.state ≡ t
      → is_running t ≡ false
      → ok sys ≡ ok sys'
      → is_running sys'.machine.nemu.state ≡ false
  ended t sys sys' at stopped h =
      subst (λ (c : System). is_running c.machine.nemu.state ≡ false) (ok_cancel h) (rw at stopped)

  cpu_exec_at-is_running :
      (t : Status) (n : ℕ) (s : Decode) (sys sys' : System)
      → sys.machine.nemu.state ≡ t
      → cpu_exec_at env hooks t n s sys ≡ ok sys'
      → is_running sys'.machine.nemu.state ≡ false
  unfolding cpu_exec_at
  cpu_exec_at-is_running nemu_end n s sys sys' at h = ended nemu_end sys sys' at refl h
  cpu_exec_at-is_running nemu_abort n s sys sys' at h = ended nemu_abort sys sys' at refl h
  cpu_exec_at-is_running nemu_quit n s sys sys' at h = ended nemu_quit sys sys' at refl h
  cpu_exec_at-is_running nemu_running n s sys sys' at h = finished n s sys sys' h
  cpu_exec_at-is_running nemu_stop n s sys sys' at h = finished n s sys sys' h

  -- After a call of `cpu_exec` that returns the program is not running.
  pub cpu_exec-is_running :
      (n : ℕ) (s : Decode) (sys sys' : System)
      → cpu_exec env hooks n s sys ≡ ok sys'
      → is_running sys'.machine.nemu.state ≡ false
  unfolding cpu_exec
  cpu_exec-is_running n s sys sys' h =
      cpu_exec_at-is_running sys.machine.nemu.state n s sys sys' refl h
