-- ===== src/Sdb/Pool.antt =====
-- nemu/src/monitor/sdb/watchpoint.c and breakpoint.c: the two lists that both files thread through
-- an array. A pointer is an index of the array, or `none` for NULL.
use bailuwan.Base.Run.{ok, stop, assert_fail, panic, Cmd}
use bailuwan.Base.{none, some, zero, suc, ◌+◌, ◌==◌, false, if◌then◌else◌, ℕ, Option, Bool}

pub record Pool : Type 0 where
  pub next : ℕ → Option ℕ
  pub head : Option ℕ
  pub free_ : Option ℕ

-- `p->next = v`
unfoldable pub set_next : (ℕ → Option ℕ) → ℕ → Option ℕ → ℕ → Option ℕ
set_next next p v i = if i == p then v else next i

-- `p == &pool[i]`
unfoldable pub points_to : Option ℕ → ℕ → Bool
points_to none i = false
points_to (some p) i = p == i

-- `init_wp_pool` and `init_bp_pool`, for an array of `nr` elements.
unfoldable pub init_pool : ℕ → Pool
init_pool nr = record {
  next = λ i. if i + 1 == nr then none else some (i + 1);
  head = none;
  free_ = some 0;
}

-- `new_wp` and `new_bp`
unfoldable pub new_node : Cmd Pool ℕ
unfolding set_next
new_node s = elim s.free_ [
  | none ↦ stop assert_fail
  | some p ↦ ok (p, record { next = set_next s.next p s.head; head = some p; free_ = s.next p })
]

-- The loop of `free_wp` and `free_bp` from `p` on: the element before `wp`.
unfoldable pub find_prev : ℕ → (ℕ → Option ℕ) → Option ℕ → ℕ → Option ℕ
unfolding points_to
find_prev zero next p wp = none
find_prev (suc fuel) next none wp = none
find_prev (suc fuel) next (some p) wp =
    let rest = find_prev fuel next (next p) wp in if points_to (next p) wp then some p else rest

-- `free_wp` and `free_bp` of the element `wp`. No list is longer than the array.
unfoldable pub free_node : ℕ → ℕ → Cmd Pool (Unit {0})
unfolding set_next points_to find_prev
free_node nr wp s =
    if points_to s.head wp
    then ok (tt, record { next = set_next s.next wp s.free_; head = s.next wp; free_ = some wp })
    else elim (find_prev nr s.next s.head wp) [
      | none ↦ stop panic
      | some p ↦ ok (
        tt,
        record s { next = set_next (set_next s.next p (s.next wp)) wp s.free_; free_ = some wp },
      )
    ]
