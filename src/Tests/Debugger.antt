-- ===== src/Tests/Debugger.antt =====
-- The theorems on the debugger at concrete inputs.
use bailuwan.Sdb.Syntax.{expr-syntax_check}
use bailuwan.Sdb.Fuel.{eval_enough}
use bailuwan.Sdb.Lexer.{
  Token, match_unary_from, match_unary_tokens, try_rules, make_token_loop, make_token,
}
use bailuwan.Base.{none, length, ◌<◌, List, refl, arith, ◌<◌, false, true, ◌⊎◌, [], codes}
use bailuwan.Base.{some, ◌≡◌, ◌∷◌, ℕ}
use bailuwan.Sdb.Tokens.{match_length, rules, tk_num, tk_lpar, tk_rpar}
use bailuwan.Sdb.Scan.{check_loop, check_parentheses, surrounded, not_surrounded}
use bailuwan.Sdb.Eval.{
  syntax_shape, syntax_check_impl, eval_num, eval_token, eval_shape, split, syntax_check, expr,
  eval_or, array,
}
use bailuwan.Sdb.Parentheses.{check_parentheses-Enclosed, Enclosed}
use bailuwan.Tests.Setup.{env, machine}
use bailuwan.Sdb.Pool.{Pool, init_pool, new_node, free_node}
use bailuwan.Sdb.Count.{count}
use bailuwan.Sdb.Partition.{IsPool, range, taken, taken-IsPool, init_pool-IsPool, new_node-IsPool}
use bailuwan.Sdb.Release.{free_node-IsPool}
use bailuwan.Sdb.Breakpoint.{Breakpoints, bp_update}
use bailuwan.Sdb.Watchpoint.{
  Watchpoints, text, null, wp_delete, wp_create, init_wp_pool, put, with_expr, first_value, new_wp,
  wp_update_one, expr_at,
}
use bailuwan.Sdb.Command.{cmd_d}
use bailuwan.Sdb.Hits.{stopped_if, bp_update-any, cmd_d-panic}
use bailuwan.Sdb.Watched.{IsWatched, wp_delete-IsWatched, wp_create-IsWatched}
use bailuwan.Base.Run.{pure, halt, ok, stop, panic, assert_fail, undefined}

abbrev zero_only : List ℕ
zero_only = 0 ∷ []

-- A pool of which one element is in use.
abbrev one_used : ℕ → Pool
one_used nr = taken (init_pool nr) 0

one_used-IsPool : IsPool 4 (one_used 4) (0 ∷ []) (1 ∷ 2 ∷ 3 ∷ [])
one_used-IsPool = taken-IsPool 4 (init_pool 4) [] (1 ∷ 2 ∷ 3 ∷ []) 0 (init_pool-IsPool 3)

one_used-IsPool_full : IsPool 32 (one_used 32) (0 ∷ []) (range 1 31)
one_used-IsPool_full = taken-IsPool 32 (init_pool 32) [] (range 1 31) 0 (init_pool-IsPool 31)

new_node-IsPool_example :
    ((length zero_only ≡ 4) × (new_node (one_used 4) ≡ stop assert_fail))
    ⊎ ((length zero_only < 4)
        × ((p : ℕ) × (rest : List ℕ) × (s' : Pool) × (new_node (one_used 4) ≡ ok (p, s'))
            × (1 ∷ 2 ∷ 3 ∷ [] ≡ p ∷ rest)
            × IsPool 4 s' (p ∷ 0 ∷ []) rest))
new_node-IsPool_example = new_node-IsPool 4 (one_used 4) (0 ∷ []) (1 ∷ 2 ∷ 3 ∷ []) one_used-IsPool

free_node-IsPool_example :
    ((count 0 (0 ∷ []) ≡ 0) × (free_node 4 0 (one_used 4) ≡ stop panic))
    ⊎ ((count 0 (0 ∷ []) ≡ 1)
        × ((s' : Pool) × (free_node 4 0 (one_used 4) ≡ ok (tt, s'))
            × IsPool 4 s' [] (0 ∷ 1 ∷ 2 ∷ 3 ∷ [])))
free_node-IsPool_example =
    free_node-IsPool 4 0 (one_used 4) (0 ∷ []) (1 ∷ 2 ∷ 3 ∷ []) one_used-IsPool

abbrev at_reset : Breakpoints
at_reset = record { pool = one_used 32; addr = λ i. 0x8000_0000 }

bp_update-any_example : bp_update at_reset machine ≡ stopped_if true machine
bp_update-any_example = bp_update-any at_reset machine (0 ∷ []) (range 1 31) one_used-IsPool_full

abbrev watching : Watchpoints
watching = record {
  pool = one_used 32;
  expr_of = λ i. text (codes "$a0");
  last_val = λ i. 0;
  last_val_valid = λ i. false;
}

watching-IsWatched : IsWatched watching (0 ∷ []) (range 1 31)
watching-IsWatched = record {
  watched = one_used-IsPool_full;
  has_text = λ i there. (codes "$a0", refl);
}

cmd_d-panic_example :
    cmd_d (some (codes "32")) (record { watchpoints = watching; breakpoints = at_reset })
    ≡ stop panic
cmd_d-panic_example =
    cmd_d-panic (record { watchpoints = watching; breakpoints = at_reset }) (0 ∷ []) (range 1 31)
      (codes "32") 32 one_used-IsPool_full refl (omega arith) (omega arith)

wp_delete-IsWatched_example :
    ((count 0 (0 ∷ []) ≡ 1)
      × ((w' : Watchpoints) × (wp_delete 0 watching ≡ ok (tt, w'))
          × IsWatched w' [] (0 ∷ range 1 31)))
    ⊎ ((count 0 (0 ∷ []) ≡ 0)
        × ((wp_delete 0 watching ≡ stop panic) ⊎ (wp_delete 0 watching ≡ stop undefined)))
wp_delete-IsWatched_example =
    wp_delete-IsWatched 0 watching (0 ∷ []) (range 1 31) watching-IsWatched

-- (7)
abbrev seven_tokens : List Token
seven_tokens =
    record { token_type = tk_lpar; str = [] }
    ∷ record { token_type = tk_num; str = codes "7" }
    ∷ record { token_type = tk_rpar; str = [] }
    ∷ []

check_parentheses-Enclosed_example :
    ((check_parentheses (array seven_tokens) 0 3 ≡ surrounded) × Enclosed (array seven_tokens) 0 3)
    ⊎ ((check_parentheses (array seven_tokens) 0 3 ≡ not_surrounded)
        × ¬ Enclosed (array seven_tokens) 0 3)
check_parentheses-Enclosed_example =
    check_parentheses-Enclosed (array seven_tokens) 0 3 (omega arith)

eval_enough_example :
    eval_or env (halt panic) 4 (array seven_tokens) 0 3
    ≡ eval_or env (pure none) 100 (array seven_tokens) 0 3
eval_enough_example =
    eval_enough env (halt panic) (pure none) 4 100 (array seven_tokens) 0 3 (omega arith)
      (omega arith)

seven_value : expr env (codes "(7)") machine ≡ ok (some 7, machine)
unfolding expr make_token make_token_loop try_rules rules match_length match_unary_tokens
    match_unary_from eval_or split check_parentheses check_loop eval_shape eval_token eval_num
seven_value = refl

expr-syntax_check_example : syntax_check (codes "(7)") ≡ ok true
expr-syntax_check_example = expr-syntax_check env (codes "(7)") 7 machine machine seven_value

abbrev watching_seven : Watchpoints
watching_seven = record {
  pool = taken (init_pool 32) 0;
  expr_of = put (λ i. null) 0 (text (codes "(7)"));
  last_val = put (put (λ i. 0) 0 0) 0 7;
  last_val_valid = put (put (λ i. false) 0 false) 0 true;
}

seven_created :
    wp_create env (codes "(7)") (init_wp_pool, machine) ≡ ok (tt, (watching_seven, machine))
unfolding wp_create init_wp_pool new_wp new_node init_pool with_expr wp_update_one expr_at
    first_value put syntax_check syntax_check_impl syntax_shape expr make_token make_token_loop
    try_rules rules match_length match_unary_tokens match_unary_from eval_or split check_parentheses
    check_loop eval_shape eval_token eval_num
seven_created = refl

init_wp_pool-IsWatched : IsWatched init_wp_pool [] (range 0 32)
unfolding init_wp_pool
init_wp_pool-IsWatched = record {
  watched = init_pool-IsPool 31;
  has_text = λ i there. absurd (omega arith);
}

wp_create-IsWatched_example :
    ((syntax_check (codes "(7)") ≡ ok false)
      × (init_wp_pool ≡ watching_seven)
      × (machine ≡ machine))
    ⊎ ((syntax_check (codes "(7)") ≡ ok true)
        × ((p : ℕ) × (rest : List ℕ) × (range 0 32 ≡ p ∷ rest)
            × IsWatched watching_seven (p ∷ []) rest
            × (watching_seven.expr_of p ≡ text (codes "(7)"))))
wp_create-IsWatched_example =
    wp_create-IsWatched env (codes "(7)") init_wp_pool watching_seven machine machine []
      (range 0 32) init_wp_pool-IsWatched seven_created
