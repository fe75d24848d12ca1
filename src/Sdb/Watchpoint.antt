-- ===== src/Sdb/Watchpoint.antt =====
-- nemu/src/monitor/sdb/watchpoint.c: watchpoints. Printing is left out.
use bailuwan.Base.{zero, none, true, ◌==◌, suc, some, if◌then◌else◌, Bool, List, Option, false, ℕ}
use bailuwan.Sdb.Pool.{Pool, init_pool, new_node, free_node}
use bailuwan.Sdb.Breakpoint.{nr_wp, stop_if_running}
use bailuwan.Sdb.Eval.{expr, syntax_check}
use bailuwan.Base.Run.{Run, Cmd, ok, stop, undefined, assert_fail, and_then}
use bailuwan.Memory.Bus.{Env}
use bailuwan.Riscv.State.{Machine}

-- The pointer `expr` of a watchpoint: to a copy of the expression, or to one that has been freed.
pub data ExprPointer : Type 0 where
  null : ExprPointer
  text : List ℕ → ExprPointer
  dangling : ExprPointer

-- `wp_pool`; the number of the element `i` is `i`.
pub record Watchpoints : Type 0 where
  pub pool : Pool
  pub expr_of : ℕ → ExprPointer
  pub last_val : ℕ → ℕ
  pub last_val_valid : ℕ → Bool

unfoldable pub put {ℓ} : {A : Type ℓ} → (ℕ → A) → ℕ → A → ℕ → A
put f p v i = if i == p then v else f i

-- The elements are zeroed before `init_wp_pool`.
unfoldable pub init_wp_pool : Watchpoints
unfolding init_pool
init_wp_pool = record {
  pool = init_pool nr_wp;
  expr_of = λ i. null;
  last_val = λ i. 0;
  last_val_valid = λ i. false;
}

unfoldable pub new_wp : Cmd Watchpoints ℕ
unfolding new_node
new_wp w = and_then (new_node w.pool) λ (p, pool). ok (p, record w { pool = pool })

-- `free(wp->expr)`
unfoldable pub free_expr : ExprPointer → Run ExprPointer
free_expr null = ok null
free_expr (text e) = ok dangling
free_expr dangling = stop undefined

unfoldable pub free_wp : ℕ → Cmd Watchpoints (Unit {0})
unfolding free_expr free_node put
free_wp wp w = and_then (free_expr (w.expr_of wp)) λ e.
    and_then (free_node nr_wp wp w.pool)
      λ (u, pool). ok (u, record w { pool = pool; expr_of = put w.expr_of wp e })

-- A call of `expr` fails an assertion on NULL.
unfoldable pub expr_at : Env → ExprPointer → Cmd Machine (Option ℕ)
unfolding expr
expr_at env null m = stop assert_fail
expr_at env (text e) m = expr env e m
expr_at env dangling m = stop undefined

abbrev pub value_or_zero : Option ℕ → ℕ
value_or_zero none = 0
value_or_zero (some v) = v

abbrev pub is_some : Option ℕ → Bool
is_some none = false
is_some (some v) = true

-- What follows the evaluation where there is no last value.
unfoldable pub first_value : ℕ → Option ℕ → Watchpoints → Watchpoints
unfolding put
first_value p r w = record w {
  last_val = put w.last_val p (value_or_zero r);
  last_val_valid = put w.last_val_valid p (is_some r);
}

-- What follows where there is one.
unfoldable pub next_value : ℕ → Option ℕ → Watchpoints × Machine → Watchpoints × Machine
unfolding put stop_if_running
next_value p none s = s
next_value p (some v) (w, m) =
    if w.last_val p == v
    then (w, m)
    else (record w { last_val = put w.last_val p v }, stop_if_running m)

unfoldable pub wp_update_one : Env → ℕ → Cmd (Watchpoints × Machine) (Unit {0})
unfolding expr_at first_value next_value
wp_update_one env p (w, m) = and_then (expr_at env (w.expr_of p) m) λ (r, m').
    ok (tt, (if w.last_val_valid p then next_value p r (w, m') else (first_value p r w, m')))

-- The loop from `p` on.
unfoldable pub wp_update_loop : Env → ℕ → Option ℕ → Cmd (Watchpoints × Machine) (Unit {0})
unfolding wp_update_one
wp_update_loop env zero p s = ok (tt, s)
wp_update_loop env (suc fuel) none s = ok (tt, s)
wp_update_loop env (suc fuel) (some p) s =
    and_then (wp_update_one env p s) λ (u, s'). wp_update_loop env fuel (s'.0.pool.next p) s'

-- No list is longer than the array.
unfoldable pub wp_update : Env → Cmd (Watchpoints × Machine) (Unit {0})
unfolding wp_update_loop
wp_update env s = wp_update_loop env nr_wp s.0.pool.head s

-- The new element's expression, without a value.
unfoldable pub with_expr : ℕ → List ℕ → Watchpoints → Watchpoints
unfolding put
with_expr p e w = record w {
  expr_of = put w.expr_of p (text e);
  last_val = put w.last_val p 0;
  last_val_valid = put w.last_val_valid p false;
}

unfoldable pub wp_create : Env → List ℕ → Cmd (Watchpoints × Machine) (Unit {0})
unfolding syntax_check new_wp with_expr wp_update_one
wp_create env e (w, m) = and_then (syntax_check e) λ good.
    if good
    then and_then (new_wp w) (λ (p, w'). wp_update_one env p (with_expr p e w', m))
    else ok (tt, (w, m))

-- `&wp_pool[NO]`
unfoldable pub wp_delete : ℕ → Cmd Watchpoints (Unit {0})
unfolding free_wp
wp_delete number w = free_wp number w
