-- ===== src/Klib/Decimal.antt =====
-- Numbers that `print_integer` of abstract-machine/klib/src/stdio.c prints and `atoi` of stdlib.c
-- reads.
use bailuwan.Base.Run.{ok, ok_cancel, stop≢ok}
use mathlib.Core.List.{append_assoc, append-nil}
use native.Mathlib.Nat.{pow-suc}
use bailuwan.Base.{
  ap, ltb, length, false, if◌then◌else◌, Bool, ◌∙◌, replicate, sym, Bool-cases, ℕ, zero, suc, ◌+◌,
  ◌-◌, ◌*◌, ◌/◌, ◌^◌, ◌<◌, ◌≤◌, ◌≡◌, refl, true, ◌==◌, List, [], ◌∷◌, ◌++◌, arith, inl, inr,
}
use bailuwan.Klib.Print.{
  write_number, print_integer, digits_buf, is_digit, dec_digits, write_pad, write_reverse,
}
use bailuwan.Klib.Format.{append}
use bailuwan.Klib.Stdlib.{atoi, skip_spaces, read_digits}

-- The value of the digits in `buf`, which holds the last one first.
pub value : List ℕ → ℕ
value [] = 0
value (c ∷ buf) = value buf * 10 + (c - b'0')

unfoldable pub AllDigits : List ℕ → Type 0
AllDigits [] = Unit {0}
AllDigits (c ∷ cs) = (is_digit c ≡ true) × AllDigits cs

value-dec_digits :
    (slots v : ℕ)
    → v < 10 ^ slots
    → (value (dec_digits slots v) ≡ v) × AllDigits (dec_digits slots v)
unfolding value AllDigits dec_digits is_digit
value-dec_digits zero v h = (omega arith, tt)
value-dec_digits (suc slots) v h =
    let (rest, digits) = value-dec_digits slots (v / 10) (omega (arith, pow-suc 10 slots)) in
    elim (Bool-cases (v == 0)) [
      | inl nothing ↦ rw nothing (ground arith, tt)
      | inr more ↦ rw more (ground (arith, rest), (ground arith, digits))
    ]

-- Digits whose value, with what has been read, fits.
read_digits-append :
    (cs ds : List ℕ) (x y : ℕ)
    → AllDigits cs
    → read_digits cs x ≡ ok y
    → read_digits (cs ++ ds) x ≡ read_digits ds y
unfolding read_digits AllDigits
read_digits-append [] ds x y h e = rw (ok_cancel e) refl
read_digits-append (c ∷ cs) ds x y (digit, h) e = elim (Bool-cases (ltb (x * 10 + c) (2 ^ 31))) [
  | inl fits ↦
      rw (digit, fits) (read_digits-append cs ds (x * 10 + c - b'0') y h (rw (digit, fits) at e))
  | inr over ↦ absurd (stop≢ok (rw (digit, over) at e))
]

AllDigits-append : (cs ds : List ℕ) → AllDigits cs → AllDigits ds → AllDigits (cs ++ ds)
unfolding AllDigits
AllDigits-append [] ds hc hd = hd
AllDigits-append (c ∷ cs) ds (digit, hc) hd = (digit, AllDigits-append cs ds hc hd)

-- The digits of a `buf`, in the order in which they are written.
abbrev pub reverse : List ℕ → List ℕ
reverse [] = []
reverse (c ∷ buf) = reverse buf ++ (c ∷ [])

reverse-AllDigits : (buf : List ℕ) → AllDigits buf → AllDigits (reverse buf)
unfolding AllDigits
reverse-AllDigits [] h = tt
reverse-AllDigits (c ∷ buf) (digit, h) =
    AllDigits-append (reverse buf) (c ∷ []) (reverse-AllDigits buf h) (digit, tt)

read_digits-reverse :
    (buf : List ℕ)
    → AllDigits buf
    → value buf + 48 < 2 ^ 31
    → read_digits (reverse buf) 0 ≡ ok (value buf)
unfolding value AllDigits read_digits is_digit
read_digits-reverse [] h small = refl
read_digits-reverse (c ∷ buf) (digit, h) small =
    let order : b'0' ≤ c = ground (arith, digit) in
    let rest = read_digits-reverse buf h (omega arith) in
    let fits : ltb (value buf * 10 + c) (2 ^ 31) ≡ true = ground (arith, order, small) in
    let exact : value buf * 10 + c - b'0' ≡ value buf * 10 + (c - b'0') = omega arith in
    rw
      (
        read_digits-append (reverse buf) (c ∷ []) 0 (value buf) (reverse-AllDigits buf h) rest,
        digit,
        fits,
      )
      (ap ok exact)

pub write_reverse-append : (buf t : List ℕ) → write_reverse append buf t ≡ t ++ reverse buf
unfolding write_reverse append
write_reverse-append [] t = sym (append-nil t)
write_reverse-append (c ∷ buf) t =
    rw (write_reverse-append buf t) (append_assoc t (reverse buf) (c ∷ []))

pub write_pad-append : (n c : ℕ) (t : List ℕ) → write_pad append n c t ≡ t ++ replicate n c
unfolding write_pad append
write_pad-append zero c t = sym (append-nil t)
write_pad-append (suc n) c t =
    write_pad-append n c (t ++ (c ∷ [])) ∙ append_assoc t (c ∷ []) (replicate n c)

skip_spaces-replicate :
    (n : ℕ) (cs : List ℕ) → skip_spaces (replicate n b' ' ++ cs) ≡ skip_spaces cs
unfolding skip_spaces
skip_spaces-replicate zero cs = refl
skip_spaces-replicate (suc n) cs = skip_spaces-replicate n cs

read_digits-replicate :
    (n : ℕ) (cs : List ℕ) → read_digits (replicate n b'0' ++ cs) 0 ≡ read_digits cs 0
unfolding read_digits is_digit
read_digits-replicate zero cs = refl
read_digits-replicate (suc n) cs = read_digits-replicate n cs

skip_spaces-AllDigits : (cs : List ℕ) → AllDigits cs → skip_spaces cs ≡ cs
unfolding skip_spaces AllDigits is_digit
skip_spaces-AllDigits [] h = refl
skip_spaces-AllDigits (c ∷ cs) (digit, h) = ground arith

AllDigits-replicate : (n : ℕ) → AllDigits (replicate n b'0')
unfolding AllDigits is_digit
AllDigits-replicate zero = tt
AllDigits-replicate (suc n) = (refl, AllDigits-replicate n)

-- Padding of either kind does not change what `atoi` reads.
atoi-padded :
    (zero_pad : Bool) (n : ℕ) (buf : List ℕ)
    → AllDigits buf
    → value buf + 48 < 2 ^ 31
    → atoi (replicate n (if zero_pad then b'0' else b' ') ++ reverse buf) ≡ ok (value buf)
unfolding atoi
atoi-padded true n buf h small =
    let digits =
      AllDigits-append (replicate n b'0') (reverse buf) (AllDigits-replicate n)
        (reverse-AllDigits buf h) in
    rw
      (
        skip_spaces-AllDigits (replicate n b'0' ++ reverse buf) digits,
        read_digits-replicate n (reverse buf),
      )
      (read_digits-reverse buf h small)
atoi-padded false n buf h small =
    rw
      (
        skip_spaces-replicate n (reverse buf),
        skip_spaces-AllDigits (reverse buf) (reverse-AllDigits buf h),
      )
      (read_digits-reverse buf h small)

digits_buf-value :
    (v : ℕ)
    → v < 10 ^ 128
    → (buf : List ℕ) × (digits_buf b'u' v ≡ ok buf) × (value buf ≡ v) × AllDigits buf
unfolding digits_buf
digits_buf-value v h = elim (Bool-cases (v == 0)) [
  | inl nothing ↦ (
    b'0' ∷ [],
    rw nothing refl,
    (unfold value in ground arith),
    (unfold AllDigits is_digit in (refl, tt)),
  )
  | inr some_digits ↦
      let (exact, digits) = value-dec_digits 128 v h in
      (dec_digits 128 v, rw some_digits refl, exact, digits)
]

-- `atoi` reads back a number below 2 ^ 31 - 48 that was printed with any width, with zeros or
-- spaces: no step of it overflows.
pub atoi-print_integer :
    (v : ℕ) (zero_pad : Bool) (width : ℕ)
    → v + 48 < 2 ^ 31
    → (t : List ℕ) × (print_integer append false v zero_pad width b'u' [] ≡ ok t) × (atoi t ≡ ok v)
unfolding print_integer write_number
atoi-print_integer v zero_pad width small =
    let (buf, run, exact, digits) = digits_buf-value v (omega arith) in
    let pad = if zero_pad then b'0' else b' ' in
    let n = width - length buf in
    (
      replicate n pad ++ reverse buf,
      rw (run, write_pad-append n pad [], write_reverse-append buf (replicate n pad)) refl,
      atoi-padded zero_pad n buf digits (omega (arith, exact, small)) ∙ ap ok exact,
    )
