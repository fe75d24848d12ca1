-- ===== src/Klib/Rounds.antt =====
-- The loop of `vsnprintf` in abstract-machine/klib/src/stdio.c: each round reads the format on.
use bailuwan.Base.{
  codes, ◌%◌, leb, Bool-cases, ◌^◌, ◌&&◌, ◌*◌, ℕ, zero, suc, ◌+◌, ◌-◌, ◌<◌, ◌≤◌, ◌≢◌, refl, Bool,
  true, false, ◌==◌, ◌||◌, ltb, if◌then◌else◌, List, [], ◌∷◌, length, arith, inl, inr, Option, none,
  some,
}
use bailuwan.Base.Run.{Stop, Run, ok, stop, and_then, undefined}
use bailuwan.Klib.Memory.{Bytes}
use bailuwan.Klib.Print.{
  write_text, Arg, integer, text, Next, done, more, print_integer, convert_text, convert_integer,
  convert_number, convert_specifier, convert, format_step, format_loop, parse_length, parse_long,
  parse_zero, parse_width, arg_bits, is_digit,
}
use bailuwan.Klib.Format.{Buffer, write_char, vsnprintf, terminate}

length-parse_zero : (f : List ℕ) → length (parse_zero f).1 ≤ length f
unfolding parse_zero
length-parse_zero [] = omega arith
length-parse_zero (c ∷ f) = ground arith

length-parse_width : (f : List ℕ) (width : ℕ) → length (parse_width f width).1 ≤ length f
unfolding parse_width
length-parse_width [] width = omega arith
length-parse_width (c ∷ f) width =
    let rest = length-parse_width f (width * 10 + (c - b'0')) in
    elim (Bool-cases (is_digit c)) [
      | inl digit ↦ rw digit (omega arith)
      | inr other ↦ rw other (omega arith)
    ]

length-parse_length : (f : List ℕ) → length (parse_length f).1 ≤ length f
unfolding parse_length parse_long
length-parse_length [] = omega arith
length-parse_length (c ∷ []) = ground arith
length-parse_length (c ∷ d ∷ f) = ground arith

-- A round that goes on leaves less than `n` bytes of the format.
data Shorter {S : Type 0} (n : ℕ) : Run (Next S) → Type 0 where
  stops : (w : Stop) → Shorter n (stop w)
  ends : (s : S) → Shorter n (ok (done s))
  goes : (f : List ℕ) (args : List Arg) (s : S) → length f < n → Shorter n (ok (more f args s))

Shorter-if :
    {S : Type 0} (n : ℕ) (b : Bool) {x y : Run (Next S)}
    → Shorter n x
    → Shorter n y
    → Shorter n (if b then x else y)
Shorter-if n true hx hy = hx
Shorter-if n false hx hy = hy

Shorter-more :
    {S : Type 0} (n : ℕ) (f : List ℕ) (args : List Arg) (r : Run S)
    → length f < n
    → Shorter n (and_then r λ s. ok (more f args s))
Shorter-more n f args (ok s) h = goes f args s h
Shorter-more n f args (stop w) h = stops w

module _ {S : Type 0} (put : ℕ → S → S) where
  convert_text-Shorter :
      (n : ℕ) (f : List ℕ) (args : List Arg) (s : S)
      → length f < n
      → Shorter n (convert_text put f args s)
  unfolding convert_text
  convert_text-Shorter n f [] s h = stops undefined
  convert_text-Shorter n f (integer v ∷ args) s h = stops undefined
  convert_text-Shorter n f (text none ∷ args) s h =
      goes f args (write_text put (codes "(null)") s) h
  convert_text-Shorter n f (text (some t) ∷ args) s h = goes f args (write_text put t s) h

  convert_integer-Shorter :
      (n w fmt : ℕ) (zero_pad : Bool) (width : ℕ) (f : List ℕ) (args : List Arg) (s : S)
      → length f < n
      → Shorter n (convert_integer put w fmt zero_pad width f args s)
  unfolding convert_integer
  convert_integer-Shorter n w fmt zero_pad width f [] s h = stops undefined
  convert_integer-Shorter n w fmt zero_pad width f (text t ∷ args) s h = stops undefined
  convert_integer-Shorter n w fmt zero_pad width f (integer v ∷ args) s h =
      let negative = fmt == b'd' && leb (2 ^ (w - 1)) (v % 2 ^ w) in
      let abs_val = if negative then 2 ^ w - v % 2 ^ w else v % 2 ^ w in
      Shorter-more n f args (print_integer put negative abs_val zero_pad width fmt s) h

  convert_number-Shorter :
      (n w : ℕ) (zero_pad : Bool) (width : ℕ) (f : List ℕ) (args : List Arg) (s : S)
      → 0 < n
      → length f ≤ n
      → Shorter n (convert_number put w zero_pad width f args s)
  unfolding convert_number
  convert_number-Shorter n w zero_pad width [] args s pos h = goes [] args (put 0 (put b'%' s)) pos
  convert_number-Shorter n w zero_pad width (c ∷ f) args s pos h =
      Shorter-if n (c == b'd' || c == b'u' || c == b'x' || c == b'X')
        (convert_integer-Shorter n w c zero_pad width f args s (omega arith))
        (goes f args (put c (put b'%' s)) (omega arith))

  convert_specifier-Shorter :
      (n long_bits : ℕ) (zero_pad : Bool) (width : ℕ) (f : List ℕ) (args : List Arg) (s : S)
      → length f ≤ n
      → Shorter n (convert_specifier put long_bits zero_pad width f args s)
  unfolding convert_specifier
  convert_specifier-Shorter n long_bits zero_pad width [] args s h = ends s
  convert_specifier-Shorter n long_bits zero_pad width (c ∷ f) args s h =
      let rest = length-parse_length (c ∷ f) in
      Shorter-if n (c == b's') (convert_text-Shorter n f args s (omega arith)) (
        convert_number-Shorter n (arg_bits long_bits (parse_length (c ∷ f)).0) zero_pad width
          (parse_length (c ∷ f)).1 args s (omega arith) (omega arith))

  convert-Shorter :
      (n long_bits : ℕ) (f : List ℕ) (args : List Arg) (s : S)
      → length f ≤ n
      → Shorter n (convert put long_bits f args s)
  unfolding convert
  convert-Shorter n long_bits [] args s h = ends s
  convert-Shorter n long_bits (c ∷ f) args s h =
      let flag = parse_zero (c ∷ f) in
      let width = parse_width flag.1 0 in
      let f_left : length width.1 ≤ n =
        omega (arith, length-parse_width flag.1 0, length-parse_zero (c ∷ f)) in
      Shorter-if n (c == b'%') (goes f args (put b'%' s) (omega arith)) (
        Shorter-if n (ltb width.0 (2 ^ 31))
          (convert_specifier-Shorter n long_bits flag.0 width.0 width.1 args s f_left)
          (stops undefined))

  format_step-Shorter :
      (long_bits c : ℕ) (f : List ℕ) (args : List Arg) (s : S)
      → Shorter (suc (length f)) (format_step put long_bits (c ∷ f) args s)
  unfolding format_step
  format_step-Shorter long_bits c f args s =
      Shorter-if (suc (length f)) (c == b'%')
        (convert-Shorter (suc (length f)) long_bits f args s (omega arith))
        (goes f args (put c s) (omega arith))

  next-runs :
      (long_bits fuel n : ℕ) (r : Run (Next S))
      → Shorter n r
      → ((f : List ℕ) (args : List Arg) (s : S)
          → length f < n
          → format_loop put long_bits fuel f args s ≢ ok none)
      → (and_then r λ next. elim next [
        | done s' ↦ ok (some s')
        | more f args s' ↦ format_loop put long_bits fuel f args s'
      ])
        ≢ ok none
  next-runs long_bits fuel n _ (stops w) rest = λ e. cc
  next-runs long_bits fuel n _ (ends s) rest = λ e. cc
  next-runs long_bits fuel n _ (goes f args s h) rest = rest f args s h

  -- The fuel of `vsnprintf` is enough.
  pub format_loop-runs :
      (long_bits fuel : ℕ) (f : List ℕ) (args : List Arg) (s : S)
      → length f < fuel
      → format_loop put long_bits fuel f args s ≢ ok none
  unfolding format_loop format_step
  format_loop-runs long_bits zero f args s h = absurd (omega arith)
  format_loop-runs long_bits (suc fuel) [] args s h = λ e. cc
  format_loop-runs long_bits (suc fuel) (c ∷ f) args s h =
      next-runs long_bits fuel (suc (length f)) (format_step put long_bits (c ∷ f) args s)
        (format_step-Shorter long_bits c f args s)
        (λ f' args' s' h'. format_loop-runs long_bits fuel f' args' s' (omega arith))

terminate-none :
    (n : ℕ) (r : Run (Option Buffer)) → r ≢ ok none → (and_then r λ o. terminate n o) ≢ ok none
unfolding terminate
terminate-none n (ok none) h = absurd (h refl)
terminate-none n (ok (some b)) h = λ e. cc
terminate-none n (stop w) h = λ e. cc

-- `vsnprintf` ends.
pub vsnprintf-runs :
    (long_bits : ℕ) (mem : Bytes) (out n : ℕ) (fmt : List ℕ) (args : List Arg)
    → vsnprintf long_bits mem out n fmt args ≢ ok none
unfolding vsnprintf
vsnprintf-runs long_bits mem out n fmt args =
    terminate-none n _
      (format_loop-runs write_char long_bits (length fmt + 1) fmt args _ (omega arith))
