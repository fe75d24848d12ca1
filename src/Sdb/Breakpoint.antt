-- ===== src/Sdb/Breakpoint.antt =====
-- nemu/src/monitor/sdb/breakpoint.c: breakpoints. Printing is left out.
use bailuwan.Base.{none, zero, some, suc, false, Option, ◌==◌, true, if◌then◌else◌, Bool, ℕ}
use bailuwan.Sdb.Pool.{Pool, init_pool, new_node, free_node}
use bailuwan.Base.Run.{Cmd, ok, and_then}
use bailuwan.Riscv.State.{Machine, nemu_running, nemu_stop, Status}

abbrev pub nr_wp : ℕ
nr_wp = 32

abbrev pub nr_bp : ℕ
nr_bp = 32

-- `bp_pool`; the number of the element `i` is `nr_wp + i`.
pub record Breakpoints : Type 0 where
  pub pool : Pool
  pub addr : ℕ → ℕ

-- The elements are zeroed before `init_bp_pool`.
unfoldable pub init_bp_pool : Breakpoints
unfolding init_pool
init_bp_pool = record { pool = init_pool nr_bp; addr = λ i. 0 }

unfoldable pub new_bp : Cmd Breakpoints ℕ
unfolding new_node
new_bp b = and_then (new_node b.pool) λ (p, pool). ok (p, record b { pool = pool })

unfoldable pub free_bp : ℕ → Cmd Breakpoints (Unit {0})
unfolding free_node
free_bp bp b = and_then (free_node nr_bp bp b.pool) λ (u, pool). ok (u, record b { pool = pool })

abbrev pub is_running : Status → Bool
is_running nemu_running = true
is_running _ = false

-- `if (nemu_state.state == NEMU_RUNNING) nemu_state.state = NEMU_STOP;`
unfoldable pub stop_if_running : Machine → Machine
stop_if_running m =
    if is_running m.nemu.state then record m { nemu = record (m.nemu) { state = nemu_stop } } else m

unfoldable pub bp_update_one : Breakpoints → ℕ → Machine → Machine
unfolding stop_if_running
bp_update_one b p m = if m.cpu.pc == b.addr p then stop_if_running m else m

-- The loop from `p` on.
unfoldable pub bp_update_loop : ℕ → Breakpoints → Option ℕ → Machine → Machine
unfolding bp_update_one
bp_update_loop zero b p m = m
bp_update_loop (suc fuel) b none m = m
bp_update_loop (suc fuel) b (some p) m = bp_update_loop fuel b (b.pool.next p) (bp_update_one b p m)

-- No list is longer than the array.
unfoldable pub bp_update : Breakpoints → Machine → Machine
unfolding bp_update_loop
bp_update b m = bp_update_loop nr_bp b b.pool.head m

unfoldable pub bp_create : ℕ → Cmd (Breakpoints × Machine) (Unit {0})
unfolding new_bp bp_update_one
bp_create addr (b, m) = and_then (new_bp b) λ (p, b').
    let b'' = record b' { addr = λ i. if i == p then addr else b'.addr i } in
    ok (tt, (b'', bp_update_one b'' p m))

-- `&bp_pool[NO]`
unfoldable pub bp_delete : ℕ → Cmd Breakpoints (Unit {0})
unfolding free_bp
bp_delete number b = free_bp number b
