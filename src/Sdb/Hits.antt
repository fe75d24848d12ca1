-- ===== src/Sdb/Hits.antt =====
-- Breakpoints in use stop the program; deleting one does not work.
use bailuwan.Base.{
  zero, ◌∙◌, inr, refl, leb, inl, true, ltb, suc, Bool-cases, ◌+◌, ◌<◌, ◌^◌, [], ◌%◌, ◌≤◌, ◌||◌,
  some, length, ◌∷◌, strtol, ◌==◌, Option, arith, if◌then◌else◌, false, List, ◌≡◌, Bool, ℕ,
}
use bailuwan.Sdb.Chain.{Chain}
use bailuwan.Sdb.Count.{count, one_if}
use bailuwan.Sdb.Partition.{IsPool}
use bailuwan.Sdb.Release.{free_node-absent}
use bailuwan.Sdb.Breakpoint.{
  Breakpoints, bp_update, bp_update_loop, bp_update_one, stop_if_running, bp_delete, free_bp, nr_bp,
  nr_wp, is_running,
}
use bailuwan.Sdb.Command.{Debugger, cmd_d, delete_number}
use bailuwan.Base.Run.{stop, panic}
use bailuwan.Riscv.State.{Machine}

abbrev pub any : (ℕ → Bool) → List ℕ → Bool
any q [] = false
any q (x ∷ xs) = q x || any q xs

abbrev pub stopped_if : Bool → Machine → Machine
stopped_if b m = if b then stop_if_running m else m

stop_if_running-pc : (m : Machine) → (stop_if_running m).cpu ≡ m.cpu
unfolding stop_if_running
stop_if_running-pc m = ground arith

stop_if_running-twice : (m : Machine) → stop_if_running (stop_if_running m) ≡ stop_if_running m
unfolding stop_if_running
stop_if_running-twice m = elim (Bool-cases (is_running m.nemu.state)) [
  | inl running ↦ rw running
  | inr not_running ↦ rw (not_running, not_running)
]

stopped_if-stop : (c : Bool) (m : Machine) → stopped_if c (stop_if_running m) ≡ stop_if_running m
stopped_if-stop true m = stop_if_running-twice m
stopped_if-stop false m = refl

bp_update_loop-any :
    (fuel : ℕ) (b : Breakpoints) (p : Option ℕ) (xs : List ℕ) (m : Machine)
    → Chain b.pool.next p xs
    → length xs ≤ fuel
    → bp_update_loop fuel b p m ≡ stopped_if (any (λ i. m.cpu.pc == b.addr i) xs) m
unfolding bp_update_loop bp_update_one
bp_update_loop-any zero b p [] m h room = refl
bp_update_loop-any zero b p (x ∷ xs) m h room = absurd (omega arith)
bp_update_loop-any (suc fuel) b p [] m h room = rw h
bp_update_loop-any (suc fuel) b p (x ∷ xs) m (e, h) room =
    let next : (m' : Machine)
        → bp_update_loop fuel b (b.pool.next x) m'
          ≡ stopped_if (any (λ i. m'.cpu.pc == b.addr i) xs) m' =
      λ m'. bp_update_loop-any fuel b (b.pool.next x) xs m' h (omega arith) in
    elim (Bool-cases (m.cpu.pc == b.addr x)) [
      | inl hit ↦ rw (e, hit) (next (stop_if_running m) ∙ stopped_if-stop _ m)
      | inr miss ↦ rw (e, miss) (next m)
    ]

-- With a well-formed pool, `bp_update` stops a running program exactly if the address of a
-- breakpoint in use is the program counter.
pub bp_update-any :
    (b : Breakpoints) (m : Machine) (used free : List ℕ)
    → IsPool nr_bp b.pool used free
    → bp_update b m ≡ stopped_if (any (λ i. m.cpu.pc == b.addr i) used) m
unfolding bp_update
bp_update-any b m used free h =
    bp_update_loop-any nr_bp b b.pool.head used m h.used_chain (omega (arith, h.all))

-- With a well-formed pool, for each number that breakpoints have, the command `d` panics: it takes
-- the number for an index.
pub cmd_d-panic :
    (d : Debugger) (used free args : List ℕ) (n : ℕ)
    → IsPool nr_bp d.breakpoints.pool used free
    → strtol 10 args ≡ some n
    → nr_wp ≤ n % 2 ^ 32
    → n % 2 ^ 32 < nr_wp + nr_bp
    → cmd_d (some args) d ≡ stop panic
unfolding cmd_d delete_number bp_delete free_bp
cmd_d-panic d used free args n h read lo hi =
    let number : ℕ = n % 2 ^ 32 in
    let big : ltb number nr_bp ≡ false = ground arith in
    let from : leb nr_wp number ≡ true = ground arith in
    let to : ltb number (nr_wp + nr_bp) ≡ true = ground arith in
    let none_left : one_if (ltb number nr_bp) ≡ 0 = rw big in
    let out : count number used ≡ 0 = omega (arith, h.once number, none_left) in
    let absent = free_node-absent nr_bp number d.breakpoints.pool used free h out in
    rw (cmd_d, read, delete_number, big, from, to, bp_delete, free_bp, absent)
