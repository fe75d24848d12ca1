-- ===== src/Sdb/Command.antt =====
-- nemu/src/monitor/sdb/sdb.c: the commands on the pools.
use bailuwan.Base.{
  ◌^◌, ◌%◌, none, some, ◌+◌, ◌&&◌, strtol, leb, some, ltb, List, if◌then◌else◌, Option, ℕ,
}
use bailuwan.Sdb.Breakpoint.{Breakpoints, bp_delete, nr_wp, nr_bp}
use bailuwan.Sdb.Watchpoint.{Watchpoints, wp_delete}
use bailuwan.Base.Run.{Cmd, ok, and_then}

-- The debugger's state.
pub record Debugger : Type 0 where
  pub watchpoints : Watchpoints
  pub breakpoints : Breakpoints

-- `n` is the number read, as an `int`, without the sign that makes it invalid.
unfoldable pub delete_number : ℕ → Cmd Debugger (Unit {0})
unfolding wp_delete bp_delete
delete_number n d =
    if ltb n nr_wp
    then and_then (wp_delete n d.watchpoints) (λ (u, w). ok (u, record d { watchpoints = w }))
    else if leb nr_wp n && ltb n (nr_wp + nr_bp)
    then and_then (bp_delete n d.breakpoints) (λ (u, b). ok (u, record d { breakpoints = b }))
    else ok (tt, d)

-- `none` for the arguments is NULL. `(int)strtoll(args, &endptr, 10)` is negative where the word is
-- not below 2 ^ 31, and then no number of a watchpoint or breakpoint either.
unfoldable pub cmd_d : Option (List ℕ) → Cmd Debugger (Unit {0})
unfolding delete_number
cmd_d none d = ok (tt, d)
cmd_d (some args) d = elim (strtol 10 args) [
  | none ↦ ok (tt, d)
  | some n ↦ delete_number (n % 2 ^ 32) d
]
