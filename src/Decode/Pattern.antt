-- ===== src/Decode/Pattern.antt =====
-- nemu/include/cpu/decode.h: `pattern_decode` and the test of INSTPAT. A pattern is the list of
-- its character codes.
use bailuwan.Base.Run.{and_then, assert_fail, ok, panic, stop, Run}
use bailuwan.Base.{
  [], zero, some, ◌+◌, ◌∷◌, if◌then◌else◌, none, suc, ◌%◌, ◌||◌, bit_and, ◌*◌, ◌==◌, Option, ◌^◌,
  bit_or, Bool, ◌/◌, ℕ, List,
}

abbrev pub Pattern : Type 0
Pattern = List ℕ

-- The 64-bit numbers that `pattern_decode` computes.
pub record Test : Type 0 where
  pub key : ℕ
  pub mask : ℕ
  pub shift : ℕ

unfoldable pub is_pattern_char : ℕ → Bool
is_pattern_char c = c == b'0' || c == b'1' || c == b'?'

-- The effect of one character on the three accumulators.
unfoldable pub push_char : ℕ → Test → Test
push_char c t = record {
  key = bit_or (t.key * 2 % 2 ^ 64) (if c == b'1' then 1 else 0);
  mask = bit_or (t.mask * 2 % 2 ^ 64) (if c == b'?' then 0 else 1);
  shift = if c == b'?' then t.shift + 1 else 0;
}

unfoldable pub finish : Test → Test
finish t = record { key = t.key / 2 ^ t.shift; mask = t.mask / 2 ^ t.shift; shift = t.shift }

-- The unrolled loop, with the number of copies of `macro` that are left.
unfoldable pub decode_loop : ℕ → Pattern → Test → Run Test
unfolding push_char finish is_pattern_char
decode_loop zero cs t = stop panic
decode_loop (suc n) [] t = ok (finish t)
decode_loop (suc n) (c ∷ cs) t =
    let skip = decode_loop n cs t in
    let take = decode_loop n cs (push_char c t) in
    if c == b' ' then skip else if is_pattern_char c then take else stop assert_fail

unfoldable pub pattern_decode : Pattern → Run Test
unfolding decode_loop
pattern_decode str = decode_loop 64 str (record { key = 0; mask = 0; shift = 0 })

-- The condition of INSTPAT.
unfoldable pub passes : ℕ → Test → Bool
passes inst t = bit_and (inst / 2 ^ t.shift) t.mask == t.key

-- A line `INSTPAT(pattern, name, type, …)`; `name` stands for its body.
pub record Line (Name Kind : Type 0) : Type 0 where
  pub pattern : Pattern
  pub name : Name
  pub kind : Kind

-- The lines between INSTPAT_START and INSTPAT_END: the first one that matches.
unfoldable pub first_match :
    {Name Kind : Type 0} → List (Line Name Kind) → ℕ → Run (Option (Line Name Kind))
unfolding pattern_decode passes
first_match [] inst = ok none
first_match (l ∷ ls) inst =
    let rest = first_match ls inst in
    and_then (pattern_decode l.pattern) λ t. if passes inst t then ok (some l) else rest
