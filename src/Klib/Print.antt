-- ===== src/Klib/Print.antt =====
-- abstract-machine/klib/src/stdio.c: the formatted output. A text is the list of the bytes before
-- its NUL.
use bailuwan.Base.{
  ℕ, zero, suc, ◌+◌, ◌-◌, ◌*◌, ◌/◌, ◌%◌, ◌^◌, Bool, true, false, ◌==◌, ◌&&◌, ◌||◌, leb, ltb,
  between, if◌then◌else◌, List, [], ◌∷◌, length, Option, none, some, bit_and, codes,
}
use bailuwan.Base.Run.{Run, ok, stop, panic, undefined, and_then}

-- A variable argument: the bits of an integer, or a text, `none` for a null pointer.
pub data Arg : Type 0 where
  integer : ℕ → Arg
  text : Option (List ℕ) → Arg

unfoldable pub is_digit : ℕ → Bool
is_digit c = between b'0' b'9' c

-- The digits that go into `buf` in reverse, at most `slots` of them.
unfoldable pub hex_digits : ℕ → ℕ → ℕ → List ℕ
hex_digits zero fmt v = []
hex_digits (suc slots) fmt v =
    let rest = hex_digits slots fmt (v / 2 ^ 4) in
    let digit = bit_and v 15 in
    if v == 0
    then []
    else (if ltb digit 10
        then b'0' + digit
        else (if fmt == b'X' then b'A' else b'a') + (digit - 10))
      ∷ rest

unfoldable pub dec_digits : ℕ → ℕ → List ℕ
dec_digits zero v = []
dec_digits (suc slots) v =
    let rest = dec_digits slots (v / 10) in if v == 0 then [] else (b'0' + v % 10) ∷ rest

-- The contents of `buf`. A call of `halt` ends the program, like a panic.
unfoldable pub digits_buf : ℕ → ℕ → Run (List ℕ)
digits_buf fmt abs_val =
    if abs_val == 0
    then ok (b'0' ∷ [])
    else if fmt == b'x' || fmt == b'X'
    then ok (hex_digits 128 fmt abs_val)
    else if fmt == b'd' || fmt == b'u'
    then ok (dec_digits 128 abs_val)
    else stop panic

-- The width and the rest of the format.
unfoldable pub parse_width : List ℕ → ℕ → ℕ × List ℕ
unfolding is_digit
parse_width [] width = (width, [])
parse_width (c ∷ f) width =
    let rest = parse_width f (width * 10 + (c - b'0')) in
    if is_digit c then rest else (width, c ∷ f)

-- The flag `0` before the width.
unfoldable pub parse_zero : List ℕ → Bool × List ℕ
parse_zero [] = (false, [])
parse_zero (c ∷ f) = if c == b'0' then (true, f) else (false, c ∷ f)

unfoldable pub parse_long : List ℕ → ℕ × List ℕ
parse_long [] = (1, [])
parse_long (c ∷ f) = if c == b'l' then (2, f) else (1, c ∷ f)

-- The length modifier: 0 for none, 1 for `l`, 2 for `ll`.
unfoldable pub parse_length : List ℕ → ℕ × List ℕ
unfolding parse_long
parse_length [] = (0, [])
parse_length (c ∷ f) = if c == b'l' then parse_long f else (0, c ∷ f)

-- The bits of an `int`, a `long` and a `long long`.
unfoldable pub arg_bits : ℕ → ℕ → ℕ
arg_bits long_bits len = if len == 0 then 32 else if len == 1 then long_bits else 64

-- One round of the loop ends it, or goes on with the rest of the format and of the arguments.
pub data Next (S : Type 0) : Type 0 where
  done : S → Next S
  more : List ℕ → List Arg → S → Next S

-- The code writes every byte by WRITE_CHAR: `put` stands for it, on what it changes.
module _ {S : Type 0} (put : ℕ → S → S) where
  unfoldable pub write_text : List ℕ → S → S
  write_text [] s = s
  write_text (c ∷ cs) s = write_text cs (put c s)

  unfoldable pub write_pad : ℕ → ℕ → S → S
  write_pad zero c s = s
  write_pad (suc n) c s = write_pad n c (put c s)

  -- `while (bi > 0) WRITE_CHAR(buf[--bi])`
  unfoldable pub write_reverse : List ℕ → S → S
  write_reverse [] s = s
  write_reverse (c ∷ buf) s = put c (write_reverse buf s)

  unfoldable pub write_number : Bool → List ℕ → Bool → ℕ → S → S
  unfolding write_pad write_reverse
  write_number negative buf zero_pad width s =
      let digits_len = length buf in
      if negative
      then if zero_pad && ltb 0 width
        then write_reverse buf (write_pad (width - 1 - digits_len) b'0' (put b'-' s))
        else write_reverse buf (put b'-' (write_pad (width - 1 - digits_len) b' ' s))
      else write_reverse buf (write_pad (width - digits_len) (if zero_pad then b'0' else b' ') s)

  unfoldable pub print_integer : Bool → ℕ → Bool → ℕ → ℕ → S → Run S
  unfolding digits_buf write_number
  print_integer negative abs_val zero_pad width fmt s =
      and_then (digits_buf fmt abs_val) λ buf. ok (write_number negative buf zero_pad width s)

  unfoldable pub convert_text : List ℕ → List Arg → S → Run (Next S)
  unfolding write_text
  convert_text f (text (some t) ∷ args) s = ok (more f args (write_text t s))
  convert_text f (text none ∷ args) s = ok (more f args (write_text (codes "(null)") s))
  convert_text f (integer n ∷ args) s = stop undefined
  convert_text f [] s = stop undefined

  -- `%d`, and `%u`, `%x`, `%X`, for an argument of `w` bits.
  unfoldable pub convert_integer : ℕ → ℕ → Bool → ℕ → List ℕ → List Arg → S → Run (Next S)
  unfolding print_integer
  convert_integer w fmt zero_pad width f (integer n ∷ args) s =
      let v = n % 2 ^ w in
      let negative = fmt == b'd' && leb (2 ^ (w - 1)) v in
      let abs_val = if negative then 2 ^ w - v else v in
      and_then (print_integer negative abs_val zero_pad width fmt s) λ s'. ok (more f args s')
  convert_integer w fmt zero_pad width f (text t ∷ args) s = stop undefined
  convert_integer w fmt zero_pad width f [] s = stop undefined

  unfoldable pub convert_number : ℕ → Bool → ℕ → List ℕ → List Arg → S → Run (Next S)
  unfolding convert_integer
  convert_number w zero_pad width [] args s = ok (more [] args (put 0 (put b'%' s)))
  convert_number w zero_pad width (c ∷ f) args s =
      if c == b'd' || c == b'u' || c == b'x' || c == b'X'
      then convert_integer w c zero_pad width f args s
      else ok (more f args (put c (put b'%' s)))

  unfoldable pub convert_specifier : ℕ → Bool → ℕ → List ℕ → List Arg → S → Run (Next S)
  unfolding convert_text convert_number parse_length arg_bits
  convert_specifier long_bits zero_pad width [] args s = ok (done s)
  convert_specifier long_bits zero_pad width (c ∷ f) args s =
      let (len, f') = parse_length (c ∷ f) in
      if c == b's'
      then convert_text f args s
      else convert_number (arg_bits long_bits len) zero_pad width f' args s

  -- Behind a `%`. A width that no `int` holds is an overflow.
  unfoldable pub convert : ℕ → List ℕ → List Arg → S → Run (Next S)
  unfolding convert_specifier parse_zero parse_width
  convert long_bits [] args s = ok (done s)
  convert long_bits (c ∷ f) args s =
      let (zero_pad, f1) = parse_zero (c ∷ f) in
      let (width, f2) = parse_width f1 0 in
      if c == b'%'
      then ok (more f args (put b'%' s))
      else if ltb width (2 ^ 31)
      then convert_specifier long_bits zero_pad width f2 args s
      else stop undefined

  unfoldable pub format_step : ℕ → List ℕ → List Arg → S → Run (Next S)
  unfolding convert
  format_step long_bits [] args s = ok (done s)
  format_step long_bits (c ∷ f) args s =
      if c == b'%' then convert long_bits f args s else ok (more f args (put c s))

  -- `none` if the fuel does not suffice.
  unfoldable pub format_loop : ℕ → ℕ → List ℕ → List Arg → S → Run (Option S)
  format_loop long_bits zero fmt args s = ok none
  format_loop long_bits (suc fuel) fmt args s = and_then (format_step long_bits fmt args s) λ next.
      elim next [ done s' ↦ ok (some s') | more f args' s' ↦ format_loop long_bits fuel f args' s' ]
