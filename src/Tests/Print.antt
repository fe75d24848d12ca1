-- ===== src/Tests/Print.antt =====
-- The texts and the heap of klib at concrete inputs.
use bailuwan.Base.{
  ◌-◌, ◌^◌, ℕ, ◌≡◌, ◌≢◌, refl, true, false, List, [], ◌∷◌, codes, arith, none, some,
}
use bailuwan.Base.Run.{ok, stop, undefined}
use bailuwan.Klib.Memory.{Bytes}
use bailuwan.Klib.Print.{
  hex_digits, dec_digits, hex_digits, dec_digits, format_step, Arg, integer, text, print_integer,
  is_digit,
}
use bailuwan.Klib.Format.{append, format, vsnprintf}
use bailuwan.Klib.Formats.{Formats}
use bailuwan.Klib.Rounds.{vsnprintf-runs}
use bailuwan.Klib.Stdlib.{atoi, skip_spaces, read_digits}
use bailuwan.Klib.Decimal.{atoi-print_integer}
use bailuwan.Klib.Allocation.{mallocs, InOrder, mallocs-InOrder}

abbrev nothing : Bytes
nothing i = 7

abbrev fmt : List ℕ
fmt = codes "%04d|%s%%%x"

abbrev args : List Arg
args = integer 42 ∷ text none ∷ integer 255 ∷ []

format_run : format 32 fmt args ≡ ok (some (codes "0042|(null)%ff"))
unfolding format format_step hex_digits dec_digits
format_run = refl

format_negative : format 32 (codes "%5d") (integer (2 ^ 32 - 42) ∷ []) ≡ ok (some (codes "  -42"))
unfolding format format_step hex_digits dec_digits
format_negative = refl

vsnprintf-runs_example : vsnprintf 32 nothing 100 8 fmt args ≢ ok none
vsnprintf-runs_example = vsnprintf-runs 32 nothing 100 8 fmt args

atoi-print_integer_example :
    (t : List ℕ) × (print_integer append false 1234 true 6 b'u' [] ≡ ok t) × (atoi t ≡ ok 1234)
atoi-print_integer_example = atoi-print_integer 1234 true 6 (omega arith)

-- The largest `int` overflows on the way.
atoi_largest : atoi (codes "2147483647") ≡ stop undefined
unfolding atoi skip_spaces read_digits is_digit
atoi_largest = refl

mallocs-InOrder_example : InOrder 1000 100 (mallocs 100 1000 (10 ∷ 2000 ∷ 20 ∷ []) (2 ^ 32 - 1))
mallocs-InOrder_example =
    mallocs-InOrder 100 1000 (10 ∷ 2000 ∷ 20 ∷ []) (omega arith)
      (omega arith, (omega arith, (omega arith, tt)))
