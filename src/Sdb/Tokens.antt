-- ===== src/Sdb/Tokens.antt =====
-- nemu/src/monitor/sdb/expr.c: the tokens of an expression and the rules that recognise them.
use Prim.Native.String.{String}
use bailuwan.Base.{
  codes, between, ◌==◌, ◌||◌, if◌then◌else◌, ◌+◌, drop, none, some, suc, [], ◌∷◌, ℕ, Bool, true,
  false, List, Option,
}

-- The token types that occur in an array of tokens, without the marks of the ranges.
pub data TokenType : Type 0 where
  tk_notype tk_num tk_reg : TokenType
  tk_eq tk_ne tk_le tk_lt tk_ge tk_gt : TokenType
  tk_add tk_sub tk_mul tk_div tk_rem : TokenType
  tk_and tk_or tk_xor tk_shl tk_lshr tk_ashr tk_land tk_lor : TokenType
  tk_unary_not tk_unary_lnot tk_unary_minus tk_unary_deref : TokenType
  tk_lpar tk_rpar : TokenType

abbrev pub is_unary_token : TokenType → Bool
is_unary_token tk_unary_not = true
is_unary_token tk_unary_lnot = true
is_unary_token tk_unary_minus = true
is_unary_token tk_unary_deref = true
is_unary_token _ = false

abbrev pub is_binary_token : TokenType → Bool
is_binary_token tk_notype = false
is_binary_token tk_num = false
is_binary_token tk_reg = false
is_binary_token tk_unary_not = false
is_binary_token tk_unary_lnot = false
is_binary_token tk_unary_minus = false
is_binary_token tk_unary_deref = false
is_binary_token tk_lpar = false
is_binary_token tk_rpar = false
is_binary_token _ = true

abbrev pub is_lpar : TokenType → Bool
is_lpar tk_lpar = true
is_lpar _ = false

abbrev pub is_rpar : TokenType → Bool
is_rpar tk_rpar = true
is_rpar _ = false

-- The regular expressions of the rules are made of sets of characters: one of the set, one or more,
-- and at most one. In each rule what follows a repetition is not in its set, so that the longest
-- match takes as many characters as it can.
pub data Item : Type 0 where
  one many1 maybe : (ℕ → Bool) → Item

pub record Rule : Type 0 where
  pub regex : List Item
  pub token_type : TokenType

abbrev is_code : ℕ → ℕ → Bool
is_code d c = c == d

abbrev exactly : List ℕ → List Item
exactly [] = []
exactly (c ∷ s) = one (is_code c) ∷ exactly s

-- A rule for a text that stands for itself.
abbrev literal : String → TokenType → Rule
literal s t = record { regex = exactly (codes s); token_type = t }

abbrev blank : ℕ → Bool
blank c = c == 32 || c == 9 || c == 10

abbrev decimal : ℕ → Bool
decimal c = between b'0' b'9' c

abbrev hexadecimal : ℕ → Bool
hexadecimal c = decimal c || between b'a' b'f' c || between b'A' b'F' c

abbrev letter_x : ℕ → Bool
letter_x c = c == b'x' || c == b'X'

abbrev letter_u : ℕ → Bool
letter_u c = c == b'u' || c == b'U'

abbrev word_char : ℕ → Bool
word_char c = between b'A' b'Z' c || between b'a' b'z' c || decimal c || c == b'_'

unfoldable pub rules : List Rule
rules =
    record { regex = many1 blank ∷ []; token_type = tk_notype }
    ∷ literal "&&" tk_land
    ∷ literal "||" tk_lor
    ∷ literal ">>>" tk_ashr
    ∷ literal ">>" tk_lshr
    ∷ literal "<<" tk_shl
    ∷ literal "==" tk_eq
    ∷ literal "!=" tk_ne
    ∷ literal "<=" tk_le
    ∷ literal ">=" tk_ge
    ∷ literal "<" tk_lt
    ∷ literal ">" tk_gt
    ∷ literal "!" tk_unary_lnot
    ∷ literal "~" tk_unary_not
    ∷ literal "&" tk_and
    ∷ literal "|" tk_or
    ∷ literal "^" tk_xor
    ∷ literal "+" tk_add
    ∷ literal "-" tk_sub
    ∷ literal "*" tk_mul
    ∷ literal "/" tk_div
    ∷ literal "%" tk_rem
    ∷ literal "(" tk_lpar
    ∷ literal ")" tk_rpar
    ∷ record {
      regex = one (is_code b'0') ∷ one letter_x ∷ many1 hexadecimal ∷ maybe letter_u ∷ [];
      token_type = tk_num;
    }
    ∷ record { regex = many1 decimal ∷ maybe letter_u ∷ []; token_type = tk_num }
    ∷ record { regex = one (is_code b'$') ∷ many1 word_char ∷ []; token_type = tk_reg }
    ∷ []

-- How many characters at the front are in a set.
abbrev pub span_length : (ℕ → Bool) → List ℕ → ℕ
span_length p [] = 0
span_length p (c ∷ s) = let rest = span_length p s in if p c then suc rest else 0

abbrev pub longer : ℕ → Option ℕ → Option ℕ
longer n none = none
longer n (some k) = some (n + k)

-- `regexec`, where the match starts at the front: the length of the match.
unfoldable pub match_length : List Item → List ℕ → Option ℕ
match_length [] s = some 0
match_length (one p ∷ is) [] = none
match_length (one p ∷ is) (c ∷ s) =
    let rest = match_length is s in if p c then longer 1 rest else none
match_length (many1 p ∷ is) s =
    let rest = match_length is (drop (span_length p s) s) in
    if span_length p s == 0 then none else longer (span_length p s) rest
match_length (maybe p ∷ is) [] = match_length is []
match_length (maybe p ∷ is) (c ∷ s) =
    let with_it = match_length is s in
    let without = match_length is (c ∷ s) in if p c then longer 1 with_it else without
