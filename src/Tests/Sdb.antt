-- ===== src/Tests/Sdb.antt =====
-- Expressions of the debugger and its pools at concrete inputs.
use bailuwan.Riscv.Names.{reg_index, regs, find_reg, isa_reg_str2val}
use bailuwan.Riscv.Word.{complement, sub_word, add_word}
use bailuwan.Base.Int.{◌+ℤ◌}
use bailuwan.Riscv.State.{gpr_read, Machine}
use bailuwan.Tests.Setup.{env, machine}
use bailuwan.Sdb.Eval.{expr, eval_or, eval_token, eval_num, eval_reg, apply_unary, apply_binary}
use bailuwan.Sdb.Scan.{
  check_parentheses, check_loop, find_dominant_operator, scan_loop, scan_token, get_precedence,
}
use bailuwan.Sdb.Lexer.{
  make_token, make_token_loop, try_rules, match_unary_tokens, match_unary_from,
}
use bailuwan.Sdb.Tokens.{rules, match_length}
use bailuwan.Base.{codes, none, some, ℕ, ◌≡◌, refl, Option, List}
use bailuwan.Base.Run.{Run, ok, and_then}

value : Run (Option ℕ × Machine) → Run (Option ℕ)
value r = and_then r λ (v, m). ok v

-- An expression, evaluated with everything open.
unfoldable expr_value : List ℕ → Run (Option ℕ)
unfolding value expr make_token make_token_loop try_rules rules match_length match_unary_tokens
    match_unary_from eval_or check_parentheses check_loop find_dominant_operator scan_loop
    scan_token get_precedence apply_unary apply_binary eval_token eval_num eval_reg ◌+ℤ◌ add_word
    sub_word isa_reg_str2val find_reg regs reg_index gpr_read
expr_value e = value (expr env e machine)

precedence_run : expr_value (codes "1 + 2*(3-1) << 2") ≡ ok (some 20)
unfolding expr_value complement
precedence_run = refl

hex_run : expr_value (codes "0x1F & -1") ≡ ok (some 31)
unfolding expr_value complement
hex_run = refl

register_run : expr_value (codes "$pc == 2147483648 && $a0 == 0") ≡ ok (some 1)
unfolding expr_value complement
register_run = refl

division_run : expr_value (codes "1/0") ≡ ok none
unfolding expr_value complement
division_run = refl

-- Of two unary operators in a row only the last counts.
negation_run : expr_value (codes "- -5") ≡ ok (some 0xffff_fffb)
unfolding expr_value complement
negation_run = refl

-- What stands before a unary operator is dropped.
dropped_run : expr_value (codes "7 ~0") ≡ ok (some 0xffff_ffff)
unfolding expr_value complement
dropped_run = refl
