-- ===== src/Sdb/Eval.antt =====
-- nemu/src/monitor/sdb/expr.c: `eval`, `expr` and `syntax_check`. A range of tokens is from `p` to
-- before `e`, as in Sdb.Scan.
use bailuwan.Sdb.Scan.{
  Tokens, check_parentheses, surrounded, not_surrounded, invalid, find_dominant_operator,
}
use bailuwan.Sdb.Tokens.{
  TokenType, tk_num, tk_reg, tk_eq, tk_ne, tk_le, tk_lt, tk_ge, tk_gt, tk_add, tk_sub, tk_mul,
  tk_div, tk_rem, tk_and, tk_or, tk_xor, tk_shl, tk_lshr, tk_ashr, tk_land, tk_lor, tk_unary_not,
  tk_unary_lnot, tk_unary_minus, tk_unary_deref, is_binary_token, is_unary_token,
}
use bailuwan.Sdb.Lexer.{Token, make_token, match_unary_tokens}
use bailuwan.Base.Run.{
  Run, Cmd, pure, halt, ok, stop, panic, undefined, assert_fail, and_then, ◌>>=◌,
}
use bailuwan.Riscv.State.{Machine, mem_read}
use bailuwan.Riscv.Names.{isa_reg_str2val, isa_csr_str2val}
use bailuwan.Riscv.Word.{word, add_word, sub_word, complement, signed, asr, of_int}
use bailuwan.Memory.Bus.{Env}
use bailuwan.Base.{
  strtol, ◌∷◌, [], ◌%◌, ◌||◌, ◌&&◌, ◌/◌, ◌^◌, bit_xor, bit_or, bit_and, zero, true, ◌*◌, ◌-◌, leb,
  ◌+◌, suc, not, false, [], none, drop, ◌==◌, some, if◌then◌else◌, Option, Bool, ℕ, List, length,
  get_or, ltb,
}

-- The conditions that `eval` and `syntax_check_impl` begin with, and what they find.
pub data Shape : Type 0 where
  empty_range single_token in_parentheses mismatch no_operator : Shape
  operator_at : ℕ → Shape

abbrev pub operator_or : Option ℕ → Shape
operator_or none = no_operator
operator_or (some op) = operator_at op

unfoldable pub split : Tokens → ℕ → ℕ → Run Shape
unfolding check_parentheses find_dominant_operator
split ts p e =
    if leb e p
    then ok empty_range
    else if e == p + 1
    then ok single_token
    else elim (check_parentheses ts p e) [
      | surrounded ↦ ok in_parentheses
      | invalid ↦ ok mismatch
      | not_surrounded ↦ and_then (find_dominant_operator ts p e) λ found. ok (operator_or found)
    ]

-- `str[0] == '0' && (str[1] == 'x' || str[1] == 'X')`
abbrev pub has_prefix : List ℕ → Bool
has_prefix (z ∷ x ∷ s) = z == b'0' && (x == b'x' || x == b'X')
has_prefix _ = false

unfoldable pub eval_num : List ℕ → Option ℕ
eval_num str = elim (strtol (if has_prefix str then 16 else 10) str) [
  | none ↦ none
  | some n ↦ some (word n)
]

-- `val1 << val2` and the like are undefined where `val2` is not below 32.
abbrev pub shift_by : ℕ → Option ℕ → Run (Option ℕ)
shift_by val2 result = if ltb val2 32 then ok result else stop undefined

abbrev pub truth : Bool → Run (Option ℕ)
truth b = ok (some (if b then 1 else 0))

-- Division and remainder by 0 fail.
abbrev pub unless_zero : ℕ → ℕ → Run (Option ℕ)
unless_zero val2 result = ok (if val2 == 0 then none else some result)

-- Both operands have been evaluated, also those of `&&` and `||`.
unfoldable pub apply_binary : TokenType → ℕ → ℕ → Run (Option ℕ)
apply_binary tk_eq a b = truth (a == b)
apply_binary tk_ne a b = truth (not (a == b))
apply_binary tk_le a b = truth (leb a b)
apply_binary tk_lt a b = truth (ltb a b)
apply_binary tk_ge a b = truth (leb b a)
apply_binary tk_gt a b = truth (ltb b a)
apply_binary tk_add a b = ok (some (add_word a b))
apply_binary tk_sub a b = ok (some (sub_word a b))
apply_binary tk_mul a b = ok (some (word (a * b)))
apply_binary tk_and a b = ok (some (bit_and a b))
apply_binary tk_or a b = ok (some (bit_or a b))
apply_binary tk_xor a b = ok (some (bit_xor a b))
apply_binary tk_shl a b = shift_by b (some (word (a * 2 ^ b)))
apply_binary tk_lshr a b = shift_by b (some (a / 2 ^ b))
apply_binary tk_land a b = truth (not (a == 0) && not (b == 0))
apply_binary tk_lor a b = truth (not (a == 0) || not (b == 0))
apply_binary tk_ashr a b = shift_by b (some (of_int (asr (signed a) b)))
apply_binary tk_div a b = unless_zero b (a / b)
apply_binary tk_rem a b = unless_zero b (a % b)
apply_binary _ a b = stop panic

-- The array of a list of tokens.
abbrev pub array : List Token → Tokens
array ts i = get_or ts i (record { token_type = tk_num; str = [] })

module _ (env : Env) where
  unfoldable pub apply_unary : TokenType → ℕ → Cmd Machine (Option ℕ)
  apply_unary tk_unary_not v = pure (some (complement v))
  apply_unary tk_unary_lnot v = pure (some (if v == 0 then 1 else 0))
  apply_unary tk_unary_minus v = pure (some (sub_word 0 v))
  apply_unary tk_unary_deref v = do r ← mem_read env v 4; pure (some r)
  apply_unary _ v = halt panic

  -- A name that is no register is looked up among the CSRs.
  unfoldable pub eval_reg : List ℕ → Cmd Machine (Option ℕ)
  eval_reg name = do
    r ← isa_reg_str2val env name
    elim r [ some v ↦ pure (some v) | none ↦ isa_csr_str2val env name ]

  -- A range of one token.
  unfoldable pub eval_token : Token → Cmd Machine (Option ℕ)
  unfolding eval_num eval_reg
  eval_token t = elim t.token_type [
    | tk_num ↦ pure (eval_num t.str)
    | tk_reg ↦ eval_reg (drop 1 t.str)
    | _ ↦ pure none
  ]

  -- Where the evaluation of an operand fails, the rest is not evaluated.
  abbrev pub on_some : (ℕ → Cmd Machine (Option ℕ)) → Option ℕ → Cmd Machine (Option ℕ)
  on_some rest none = pure none
  on_some rest (some v) = rest v

  abbrev pub and_some :
      Cmd Machine (Option ℕ) → (ℕ → Cmd Machine (Option ℕ)) → Cmd Machine (Option ℕ)
  and_some first rest = do r ← first; on_some rest r

  abbrev pub lift : Run (Option ℕ) → Cmd Machine (Option ℕ)
  lift r m = and_then r λ v. ok (v, m)

  -- The operator of type `t` between its operands, or before the right one.
  unfoldable pub eval_operator :
      TokenType → (left right : Cmd Machine (Option ℕ)) → Cmd Machine (Option ℕ)
  unfolding apply_unary apply_binary
  eval_operator t left right =
      if is_unary_token t
      then and_some right (apply_unary t)
      else if is_binary_token t
      then and_some left (λ val1. and_some right (λ val2. lift (apply_binary t val1 val2)))
      else halt assert_fail

  -- `rec` is the recursive call.
  unfoldable pub eval_shape :
      Tokens → (rec : ℕ → ℕ → Cmd Machine (Option ℕ)) → ℕ → ℕ → Shape → Cmd Machine (Option ℕ)
  unfolding eval_token eval_operator
  eval_shape ts rec p e empty_range = pure none
  eval_shape ts rec p e single_token = eval_token (ts p)
  eval_shape ts rec p e in_parentheses = rec (p + 1) (e - 1)
  eval_shape ts rec p e mismatch = pure none
  eval_shape ts rec p e no_operator = pure none
  eval_shape ts rec p e (operator_at op) =
      eval_operator (ts op).token_type (rec p op) (rec (op + 1) e)

  -- `none` is `*success == false`. The fuel is for the depth of the recursion; `out` is what a call
  -- does that has none left.
  unfoldable pub eval_or : Cmd Machine (Option ℕ) → ℕ → Tokens → ℕ → ℕ → Cmd Machine (Option ℕ)
  unfolding split eval_shape
  eval_or out zero ts p e m = out m
  eval_or out (suc fuel) ts p e m =
      and_then (split ts p e) λ shape. eval_shape ts (eval_or out fuel ts) p e shape m

  abbrev pub eval : ℕ → Tokens → ℕ → ℕ → Cmd Machine (Option ℕ)
  eval = eval_or (pure none)

  unfoldable pub expr : List ℕ → Cmd Machine (Option ℕ)
  unfolding make_token match_unary_tokens eval_or
  expr e = elim (make_token e) [
    | none ↦ pure none
    | some tokens ↦ eval (length tokens + 1) (array (match_unary_tokens tokens)) 0 (length tokens)
  ]

unfoldable pub syntax_shape : Tokens → (rec : ℕ → ℕ → Run Bool) → ℕ → ℕ → Shape → Run Bool
syntax_shape ts rec p e empty_range = ok false
syntax_shape ts rec p e single_token = ok true
syntax_shape ts rec p e in_parentheses = rec (p + 1) (e - 1)
syntax_shape ts rec p e mismatch = ok false
syntax_shape ts rec p e no_operator = ok false
syntax_shape ts rec p e (operator_at op) =
    if is_unary_token (ts op).token_type
    then rec (op + 1) e
    else and_then (rec p op) (λ l. if l then rec (op + 1) e else ok false)

unfoldable pub syntax_check_impl : ℕ → Tokens → ℕ → ℕ → Run Bool
unfolding split syntax_shape
syntax_check_impl zero ts p e = ok false
syntax_check_impl (suc fuel) ts p e =
    and_then (split ts p e) λ shape. syntax_shape ts (syntax_check_impl fuel ts) p e shape

unfoldable pub syntax_check : List ℕ → Run Bool
unfolding make_token match_unary_tokens syntax_check_impl
syntax_check e = elim (make_token e) [
  | none ↦ ok false
  | some tokens ↦
      syntax_check_impl (length tokens + 1) (array (match_unary_tokens tokens)) 0 (length tokens)
]
