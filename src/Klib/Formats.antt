-- ===== src/Klib/Formats.antt =====
-- What a format of abstract-machine/klib/src/stdio.c and its arguments stand for.
use bailuwan.Base.{
  ◌||◌, ℕ, zero, suc, ◌-◌, ◌^◌, ◌%◌, ◌<◌, ◌≤◌, ◌≡◌, Bool, false, ◌==◌, ◌&&◌, leb, if◌then◌else◌,
  List, [], ◌∷◌, ◌++◌, Option, none, some, codes,
}
use bailuwan.Klib.Print.{Arg, integer, text}
use bailuwan.Klib.Numeral.{IsInteger, Field}
use bailuwan.Klib.Directive.{decimal, Directive}

-- The width of an integer argument.
abbrev pub int_bits : ℕ → ℕ → ℕ
int_bits long_bits zero = 32
int_bits long_bits (suc zero) = long_bits
int_bits long_bits (suc (suc len)) = 64

-- The sign and the magnitude of an argument of `w` bits, which `d` takes for a signed one.
abbrev pub minus : ℕ → ℕ → ℕ → Bool
minus conv w n = conv == b'd' && leb (2 ^ (w - 1)) (n % 2 ^ w)

abbrev pub magnitude : ℕ → ℕ → ℕ → ℕ
magnitude conv w n = if minus conv w n then 2 ^ w - n % 2 ^ w else n % 2 ^ w

abbrev pub IntegerField : ℕ → ℕ → Bool → List ℕ → ℕ → List ℕ → Type 0
IntegerField w conv zero_pad ws n x =
    Field conv zero_pad (decimal 0 ws) (minus conv w n) (magnitude conv w n) x

abbrev pub shown : Option (List ℕ) → List ℕ
shown none = codes "(null)"
shown (some s) = s

-- One byte or one specification at the start of a format: the text that it stands for, and the
-- format and the arguments that are left.
pub data Piece (long_bits : ℕ) : List ℕ → List Arg → List ℕ → List ℕ → List Arg → Type 0 where
  plain :
      (c : ℕ) (f : List ℕ) (args : List Arg)
      → (c == b'%') ≡ false
      → Piece long_bits (c ∷ f) args (c ∷ []) f args
  percent :
      (f : List ℕ) (args : List Arg) → Piece long_bits (b'%' ∷ b'%' ∷ f) args (b'%' ∷ []) f args
  string :
      (fmt : List ℕ) (zero_pad : Bool) (ws f : List ℕ) (s : Option (List ℕ)) (args : List Arg)
      → Directive fmt zero_pad ws 0 (b's' ∷ f)
      → Piece long_bits (b'%' ∷ fmt) (text s ∷ args) (shown s) f args
  number :
      (fmt : List ℕ) (zero_pad : Bool) (ws : List ℕ) (len conv : ℕ) (f : List ℕ) (n : ℕ)
      (args : List Arg) (x : List ℕ)
      → Directive fmt zero_pad ws len (conv ∷ f)
      → IsInteger conv
      → IntegerField (int_bits long_bits len) conv zero_pad ws n x
      → Piece long_bits (b'%' ∷ fmt) (integer n ∷ args) x f args
  -- Any other conversion stands for itself, and so does the NUL behind a modifier.
  unknown :
      (fmt : List ℕ) (zero_pad : Bool) (ws : List ℕ) (len c : ℕ) (f : List ℕ) (args : List Arg)
      → Directive fmt zero_pad ws len (c ∷ f)
      → (c == b'd' || c == b'u' || c == b'x' || c == b'X') ≡ false
      → (len ≡ 0 → (c == b's') ≡ false)
      → Piece long_bits (b'%' ∷ fmt) args (b'%' ∷ c ∷ []) f args
  cut_modifier :
      (fmt : List ℕ) (zero_pad : Bool) (ws : List ℕ) (len : ℕ) (args : List Arg)
      → Directive fmt zero_pad ws len []
      → 0 < len
      → Piece long_bits (b'%' ∷ fmt) args (b'%' ∷ 0 ∷ []) [] args

-- The text of a format and its arguments. A specification that ends with its width is left out.
pub data Formats (long_bits : ℕ) : List ℕ → List Arg → List ℕ → Type 0 where
  at_end : (args : List Arg) → Formats long_bits [] args []
  cut :
      (fmt : List ℕ) (zero_pad : Bool) (ws : List ℕ) (args : List Arg)
      → Directive fmt zero_pad ws 0 []
      → Formats long_bits (b'%' ∷ fmt) args []
  piece :
      (fmt f : List ℕ) (args args' : List Arg) (x t : List ℕ)
      → Piece long_bits fmt args x f args'
      → Formats long_bits f args' t
      → Formats long_bits fmt args (x ++ t)

abbrev pub NoText : List Arg → Type 0
NoText (text s ∷ args) = ⊥
NoText _ = Unit {0}

abbrev pub NoInteger : List Arg → Type 0
NoInteger (integer n ∷ args) = ⊥
NoInteger _ = Unit {0}

-- Formats and arguments for which C defines nothing: a width that no `int` holds, or an argument
-- that is missing or of the wrong kind.
pub data Undefined (long_bits : ℕ) : List ℕ → List Arg → Type 0 where
  wide :
      (fmt : List ℕ) (zero_pad : Bool) (ws : List ℕ) (len : ℕ) (f : List ℕ) (args : List Arg)
      → Directive fmt zero_pad ws len f
      → 2 ^ 31 ≤ decimal 0 ws
      → Undefined long_bits (b'%' ∷ fmt) args
  no_text :
      (fmt : List ℕ) (zero_pad : Bool) (ws f : List ℕ) (args : List Arg)
      → Directive fmt zero_pad ws 0 (b's' ∷ f)
      → NoText args
      → Undefined long_bits (b'%' ∷ fmt) args
  no_integer :
      (fmt : List ℕ) (zero_pad : Bool) (ws : List ℕ) (len conv : ℕ) (f : List ℕ) (args : List Arg)
      → Directive fmt zero_pad ws len (conv ∷ f)
      → IsInteger conv
      → NoInteger args
      → Undefined long_bits (b'%' ∷ fmt) args
  later :
      (fmt f : List ℕ) (args args' : List Arg) (x : List ℕ)
      → Piece long_bits fmt args x f args'
      → Undefined long_bits f args'
      → Undefined long_bits fmt args
