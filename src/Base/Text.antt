-- ===== src/Base/Text.antt =====
-- Strings as lists of character codes, and the functions of the C library that the sources call.
use Prim.Native.String.{String}
use Prim.Native.Char.{code}
use Prim.Native.Nat.{ℕ, ◌+◌, ◌-◌, ◌*◌, ◌%◌, ◌^◌, min}
use mathlib.Core.Bool.{Bool, true, false, ◌&&◌, ◌||◌}
use mathlib.Core.List.{List, [], ◌∷◌}
use mathlib.Core.Option.{Option, none, some}
use bailuwan.Base.Tests.{leb, ltb, ◌==◌, if◌then◌else◌}

-- The characters before the NUL.
abbrev pub codes : String → List ℕ
codes String.[] = []
codes (String.◌∷◌ c s) = code c ∷ codes s

-- `strcmp(s, t) == 0`
abbrev pub equal_text : List ℕ → List ℕ → Bool
equal_text [] [] = true
equal_text [] (d ∷ t) = false
equal_text (c ∷ s) [] = false
equal_text (c ∷ s) (d ∷ t) = c == d && equal_text s t

abbrev pub between : ℕ → ℕ → ℕ → Bool
between lo hi c = leb lo c && leb c hi

-- The value of a digit; 99 for a character that is none.
abbrev pub digit_value : ℕ → ℕ
digit_value c =
    if between b'0' b'9' c
    then c - b'0'
    else if between b'a' b'z' c
    then c - b'a' + 10
    else if between b'A' b'Z' c
    then c - b'A' + 10
    else 99

abbrev pub is_space : ℕ → Bool
is_space c = c == 32 || between 9 13 c

-- The number that the digits at the front stand for, `none` if there are none; `acc` is the number
-- that the digits before stand for.
abbrev pub digits : ℕ → Option ℕ → List ℕ → Option ℕ
digits base acc [] = acc
digits base none (c ∷ s) =
    let rest = digits base (some (digit_value c)) s in
    if ltb (digit_value c) base then rest else none
digits base (some n) (c ∷ s) =
    let rest = digits base (some (n * base + digit_value c)) s in
    if ltb (digit_value c) base then rest else some n

-- Behind `0x`, if a hexadecimal digit follows it.
abbrev skip_prefix : List ℕ → List ℕ
skip_prefix (z ∷ x ∷ d ∷ s) =
    if z == b'0' && (x == b'x' || x == b'X') && ltb (digit_value d) 16 then d ∷ s else z ∷ x ∷ d ∷ s
skip_prefix s = s

-- The number of a sign and its digits, cut to what a `long` holds and written in 64 bits.
abbrev signed_long : Bool → ℕ → ℕ
signed_long negative n = if negative then (2 ^ 64 - min n (2 ^ 63)) % 2 ^ 64 else min n (2 ^ 63 - 1)

abbrev unsigned_part : ℕ → List ℕ → Option ℕ
unsigned_part base s = digits base none (if base == 16 then skip_prefix s else s)

abbrev with_long_sign : Bool → Option ℕ → Option ℕ
with_long_sign negative none = none
with_long_sign negative (some n) = some (signed_long negative n)

abbrev long_of : ℕ → List ℕ → Option ℕ
long_of base [] = none
long_of base (c ∷ s) =
    if c == b'-'
    then with_long_sign true (unsigned_part base s)
    else if c == b'+'
    then with_long_sign false (unsigned_part base s)
    else with_long_sign false (unsigned_part base (c ∷ s))

-- `strtol(s, &end, base)` for base 10 or 16; `none` where `end` is `s`.
abbrev pub strtol : ℕ → List ℕ → Option ℕ
strtol base [] = none
strtol base (c ∷ s) = let rest = strtol base s in if is_space c then rest else long_of base (c ∷ s)
