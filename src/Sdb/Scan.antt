-- ===== src/Sdb/Scan.antt =====
-- nemu/src/monitor/sdb/expr.c: the parentheses around a range of tokens, and its dominant operator.
-- A range is from `p` to before `e`, where the source has `p` and `q` with `e == q + 1`, since `q`
-- can be -1.
use bailuwan.Base.{
  none, some, zero, ◌^◌, leb, ◌-◌, ◌+◌, ◌||◌, ◌&&◌, false, ◌==◌, suc, Option, not, if◌then◌else◌,
  Bool, ℕ,
}
use bailuwan.Sdb.Tokens.{
  is_rpar, is_lpar, TokenType, tk_eq, tk_ne, tk_le, tk_lt, tk_ge, tk_gt, tk_add, tk_sub, tk_mul,
  tk_div, tk_rem, tk_and, tk_or, tk_xor, tk_shl, tk_lshr, tk_ashr, tk_land, tk_lor, tk_unary_not,
  tk_unary_lnot, tk_unary_minus, tk_unary_deref, is_binary_token, is_unary_token,
}
use bailuwan.Sdb.Lexer.{Token}
use bailuwan.Base.Int.{ℤ, pos, negsuc, ◌+ℤ◌}
use bailuwan.Base.Run.{Run, ok, stop, panic, and_then}

-- The array `tokens`.
abbrev pub Tokens : Type 0
Tokens = ℕ → Token

-- The result of `check_parentheses`; `invalid` is `*invalid_expr` set.
pub data ParenCheck : Type 0 where
  surrounded not_surrounded invalid : ParenCheck

-- The loop, with the number of tokens that are left, behind whose last is `e`.
unfoldable pub check_loop : Tokens → ℕ → ℕ → ℕ → ℕ → ParenCheck
check_loop ts e zero i cnt = if cnt == 0 then surrounded else not_surrounded
check_loop ts e (suc n) i cnt =
    let deeper = check_loop ts e n (i + 1) (cnt + 1) in
    let outer = check_loop ts e n (i + 1) (cnt - 1) in
    let same = check_loop ts e n (i + 1) cnt in
    if is_lpar (ts i).token_type
    then deeper
    else if is_rpar (ts i).token_type
    then if cnt == 1 && not (i + 1 == e)
      then not_surrounded
      else if cnt == 0
      then invalid
      else outer
    else same

unfoldable pub check_parentheses : Tokens → ℕ → ℕ → ParenCheck
unfolding check_loop
check_parentheses ts p e =
    if is_lpar (ts p).token_type && is_rpar (ts (e - 1)).token_type
    then check_loop ts e (e - p) p 0
    else not_surrounded

unfoldable pub get_precedence : TokenType → Run ℕ
get_precedence tk_unary_not = ok 100
get_precedence tk_unary_lnot = ok 100
get_precedence tk_unary_minus = ok 100
get_precedence tk_unary_deref = ok 100
get_precedence tk_mul = ok 90
get_precedence tk_div = ok 90
get_precedence tk_rem = ok 90
get_precedence tk_add = ok 80
get_precedence tk_sub = ok 80
get_precedence tk_shl = ok 70
get_precedence tk_lshr = ok 70
get_precedence tk_ashr = ok 70
get_precedence tk_le = ok 60
get_precedence tk_ge = ok 60
get_precedence tk_lt = ok 60
get_precedence tk_gt = ok 60
get_precedence tk_eq = ok 50
get_precedence tk_ne = ok 50
get_precedence tk_and = ok 40
get_precedence tk_xor = ok 30
get_precedence tk_or = ok 20
get_precedence tk_land = ok 10
get_precedence tk_lor = ok 0
get_precedence _ = stop panic

abbrev is_positive : ℤ → Bool
is_positive (pos n) = not (n == 0)
is_positive (negsuc n) = false

-- The locals of `find_dominant_operator`; `idx` is `none` for -1.
pub record Scan : Type 0 where
  pub min_prec : ℕ
  pub idx : Option ℕ
  pub paren : ℤ

-- The body of the loop, at the token `i` of type `t`.
unfoldable pub scan_token : TokenType → ℕ → Scan → Run Scan
unfolding get_precedence
scan_token t i s =
    if is_lpar t
    then ok (record s { paren = s.paren +ℤ pos 1 })
    else if is_rpar t
    then ok (record s { paren = s.paren +ℤ negsuc 0 })
    else if is_positive s.paren
    then ok s
    else if is_binary_token t || is_unary_token t
    then and_then (get_precedence t)
        (λ prec. ok (if leb prec s.min_prec then record s { min_prec = prec; idx = some i } else s))
    else ok s

unfoldable pub scan_loop : Tokens → ℕ → ℕ → Scan → Run Scan
unfolding scan_token
scan_loop ts zero i s = ok s
scan_loop ts (suc n) i s =
    and_then (scan_token (ts i).token_type i s) λ s'. scan_loop ts n (i + 1) s'

-- `none` is `*success == false`.
unfoldable pub find_dominant_operator : Tokens → ℕ → ℕ → Run (Option ℕ)
unfolding scan_loop
find_dominant_operator ts p e =
    and_then (scan_loop ts (e - p) p (record { min_prec = 2 ^ 31 - 1; idx = none; paren = pos 0 }))
      λ s. ok s.idx
