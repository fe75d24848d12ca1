-- ===== src/Sdb/Lexer.antt =====
-- nemu/src/monitor/sdb/expr.c: `make_token` and `match_unary_tokens`.
use bailuwan.Sdb.Tokens.{
  is_lpar, rules, match_length, Rule, TokenType, tk_notype, tk_num, tk_reg, tk_mul, tk_sub,
  tk_unary_deref, tk_unary_minus, is_binary_token, is_unary_token,
}
use bailuwan.Base.{
  ◌&&◌, length, if◌then◌else◌, take, drop, none, some, zero, suc, [], ◌∷◌, ◌||◌, ℕ, Bool, true,
  false, List, Option,
}

-- `str` is empty where the source has NULL.
pub record Token : Type 0 where
  pub token_type : TokenType
  pub str : List ℕ

-- The loop over the rules: the first one that matches here, and the length of the match.
unfoldable pub try_rules : List Rule → List ℕ → Option (TokenType × ℕ)
unfolding match_length
try_rules [] e = none
try_rules (r ∷ rs) e =
    let later = try_rules rs e in
    elim (match_length r.regex e) [ some n ↦ some (r.token_type, n) | none ↦ later ]

abbrev pub keeps_text : TokenType → Bool
keeps_text tk_num = true
keeps_text tk_reg = true
keeps_text _ = false

-- The token that is recorded for a match; none is for blanks.
abbrev pub record_token : TokenType → List ℕ → List Token → List Token
record_token tk_notype text rest = rest
record_token t text rest = record { token_type = t; str = if keeps_text t then text else [] } ∷ rest

abbrev pub record_some : TokenType → List ℕ → Option (List Token) → Option (List Token)
record_some t text none = none
record_some t text (some rest) = some (record_token t text rest)

-- The loop over the positions; `none` is a syntax error. No match is empty, so that the string's
-- length is enough fuel.
unfoldable pub make_token_loop : ℕ → List ℕ → Option (List Token)
unfolding try_rules
make_token_loop fuel [] = some []
make_token_loop zero (c ∷ s) = none
make_token_loop (suc fuel) (c ∷ s) = elim (try_rules rules (c ∷ s)) [
  | none ↦ none
  | some (t, n) ↦ record_some t (take n (c ∷ s)) (make_token_loop fuel (drop n (c ∷ s)))
]

unfoldable pub make_token : List ℕ → Option (List Token)
unfolding make_token_loop
make_token e = make_token_loop (length e) e

abbrev pub expecting_an_expr : TokenType → Bool
expecting_an_expr t = is_binary_token t || is_unary_token t || is_lpar t

abbrev pub has_unary : TokenType → Bool
has_unary tk_mul = true
has_unary tk_sub = true
has_unary _ = false

abbrev pub to_unary : TokenType → TokenType
to_unary tk_mul = tk_unary_deref
to_unary _ = tk_unary_minus

-- The type of a token where an operand is expected, or behind an operand.
abbrev pub matched_unary : Bool → TokenType → TokenType
matched_unary expected t = if has_unary t && expected then to_unary t else t

-- The loop, with whether an operand is expected at its first token.
unfoldable pub match_unary_from : Bool → List Token → List Token
match_unary_from expected [] = []
match_unary_from expected (t ∷ ts) =
    let t' = matched_unary expected t.token_type in
    record t { token_type = t' } ∷ match_unary_from (expecting_an_expr t') ts

unfoldable pub match_unary_tokens : List Token → List Token
unfolding match_unary_from
match_unary_tokens ts = match_unary_from true ts
