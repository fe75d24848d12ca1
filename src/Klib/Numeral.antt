-- ===== src/Klib/Numeral.antt =====
-- What a conversion of an integer is to write, and that the digits which `print_integer` of
-- abstract-machine/klib/src/stdio.c takes are those of the number.
use bailuwan.Base.{
  ◌||◌, ℕ, zero, suc, ◌+◌, ◌-◌, ◌*◌, ◌/◌, ◌%◌, ◌^◌, ◌<◌, ◌≡◌, refl, Bool, true, false, ◌==◌, ltb,
  ◌⊎◌, if◌then◌else◌, List, [], ◌∷◌, ◌++◌, length, replicate, ◌||◌, arith, inl, inr, ap, sym, ◌∙◌,
  Bool-cases, bit_and,
}
use native.Mathlib.Nat.{pow-suc}
use bailuwan.Base.Bits.{bit_and_mask}
use mathlib.Core.Path.{subst}
use bailuwan.Base.Run.{ok, ok_cancel}
use bailuwan.Klib.Print.{digits_buf, dec_digits, hex_digits}
use bailuwan.Klib.Decimal.{reverse}

-- The conversions `d`, `u`, `x` and `X`.
abbrev pub base : ℕ → ℕ
base conv = if conv == b'd' then 10 else if conv == b'u' then 10 else 16

-- The character of a digit.
abbrev pub digit_char : ℕ → ℕ → ℕ
digit_char conv d = if ltb d 10 then b'0' + d else (if conv == b'X' then b'A' else b'a') + (d - 10)

-- The text writes the number in positional notation, the first digit not being 0.
pub data Digits (conv : ℕ) : ℕ → List ℕ → Type 0 where
  first_digit : (d : ℕ) → 0 < d → d < base conv → Digits conv d (digit_char conv d ∷ [])
  next_digit :
      (v d : ℕ) (t : List ℕ)
      → Digits conv v t
      → d < base conv
      → Digits conv (v * base conv + d) (t ++ (digit_char conv d ∷ []))

-- The digit 0 alone stands for 0.
abbrev pub Numeral : ℕ → ℕ → List ℕ → Type 0
Numeral conv v t = ((v ≡ 0) × (t ≡ b'0' ∷ [])) ⊎ Digits conv v t

abbrev pub sign : Bool → List ℕ
sign negative = if negative then b'-' ∷ [] else []

-- A numeral behind its sign, filled up to the width by zeros between the two or by spaces before
-- them.
abbrev pub field : Bool → ℕ → Bool → List ℕ → List ℕ
field zero_pad width negative digits =
    let pad = width - (length (sign negative) + length digits) in
    if zero_pad
    then sign negative ++ (replicate pad b'0' ++ digits)
    else replicate pad b' ' ++ (sign negative ++ digits)

abbrev pub Field : ℕ → Bool → ℕ → Bool → ℕ → List ℕ → Type 0
Field conv zero_pad width negative v t =
    (digits : List ℕ) × Numeral conv v digits × (t ≡ field zero_pad width negative digits)

-- One more digit, of a number of which the others are the quotient.
Digits-snoc :
    (conv v q d c : ℕ) (t : List ℕ)
    → v ≡ q * base conv + d
    → d < base conv
    → 0 < v
    → c ≡ digit_char conv d
    → ((q ≡ 0) × (t ≡ [])) ⊎ Digits conv q t
    → Digits conv v (t ++ (c ∷ []))
Digits-snoc conv v q d c t whole small pos char (inl (none_before, empty)) =
    let only : v ≡ d = whole ∙ ap (λ (k : ℕ). k * base conv + d) none_before ∙ omega arith in
    rw (empty, char, only) (first_digit d (omega (arith, only)) small)
Digits-snoc conv v q d c t whole small pos char (inr before) =
    rw (char, whole) (next_digit q d t before small)

dec_digits-zero : (slots : ℕ) → dec_digits slots 0 ≡ []
unfolding dec_digits
dec_digits-zero zero = refl
dec_digits-zero (suc slots) = refl

hex_digits-zero : (slots conv : ℕ) → hex_digits slots conv 0 ≡ []
unfolding hex_digits
hex_digits-zero zero conv = refl
hex_digits-zero (suc slots) conv = refl

dec_digits-Digits :
    (conv slots v : ℕ)
    → base conv ≡ 10
    → 0 < v
    → v < 10 ^ slots
    → Digits conv v (reverse (dec_digits slots v))
unfolding dec_digits
dec_digits-Digits conv zero v ten pos h = absurd (omega arith)
dec_digits-Digits conv (suc slots) v ten pos h =
    let more : (v == 0) ≡ false = ground arith in
    let whole : v ≡ v / 10 * base conv + v % 10 = rw ten (omega arith) in
    let small : v % 10 < base conv = rw ten (omega arith) in
    let char : b'0' + v % 10 ≡ digit_char conv (v % 10) = ground arith in
    rw more (
      Digits-snoc conv v (v / 10) (v % 10) (b'0' + v % 10) (reverse (dec_digits slots (v / 10)))
        whole small pos char
        (others (Bool-cases (v / 10 == 0)) (λ some_left.
          dec_digits-Digits conv slots (v / 10) ten some_left
            (omega (arith, h, pow-suc 10 slots)))))
  where
    others :
        (v / 10 == 0 ≡ true) ⊎ (v / 10 == 0 ≡ false)
        → (0 < v / 10 → Digits conv (v / 10) (reverse (dec_digits slots (v / 10))))
        → ((v / 10 ≡ 0) × (reverse (dec_digits slots (v / 10)) ≡ []))
          ⊎ Digits conv (v / 10) (reverse (dec_digits slots (v / 10)))
    others (inl nothing) later =
        let e : v / 10 ≡ 0 = ground arith in
        inl (e, ap (λ (q : ℕ). reverse (dec_digits slots q)) e ∙ ap reverse (dec_digits-zero slots))
    others (inr more) later = inr (later (ground arith))

hex_digits-Digits :
    (conv slots v : ℕ)
    → base conv ≡ 16
    → 0 < v
    → v < 16 ^ slots
    → Digits conv v (reverse (hex_digits slots conv v))
unfolding hex_digits
hex_digits-Digits conv zero v sixteen pos h = absurd (omega arith)
hex_digits-Digits conv (suc slots) v sixteen pos h =
    let more : (v == 0) ≡ false = ground arith in
    let d = bit_and v 15 in
    let last : d ≡ v % 16 = bit_and_mask 4 v in
    let whole : v ≡ v / 16 * base conv + d = rw sixteen (omega (arith, last)) in
    let small : d < base conv = rw sixteen (omega (arith, last)) in
    rw more (
      Digits-snoc conv v (v / 16) d (digit_char conv d) (reverse (hex_digits slots conv (v / 16)))
        whole small pos refl
        (others (Bool-cases (v / 16 == 0)) (λ some_left.
          hex_digits-Digits conv slots (v / 16) sixteen some_left
            (omega (arith, h, pow-suc 16 slots)))))
  where
    others :
        (v / 16 == 0 ≡ true) ⊎ (v / 16 == 0 ≡ false)
        → (0 < v / 16 → Digits conv (v / 16) (reverse (hex_digits slots conv (v / 16))))
        → ((v / 16 ≡ 0) × (reverse (hex_digits slots conv (v / 16)) ≡ []))
          ⊎ Digits conv (v / 16) (reverse (hex_digits slots conv (v / 16)))
    others (inl nothing) later =
        let e : v / 16 ≡ 0 = ground arith in
        inl (
          e,
          ap (λ (q : ℕ). reverse (hex_digits slots conv q)) e
              ∙ ap reverse (hex_digits-zero slots conv),
        )
    others (inr more) later = inr (later (ground arith))

-- The conversions of integers.
abbrev pub IsInteger : ℕ → Type 0
IsInteger c = (c == b'd' || c == b'u' || c == b'x' || c == b'X') ≡ true

pub digits_buf-Numeral :
    (conv v : ℕ) (buf : List ℕ)
    → IsInteger conv
    → v < 2 ^ 64
    → digits_buf conv v ≡ ok buf
    → Numeral conv v (reverse buf)
unfolding digits_buf
digits_buf-Numeral conv v buf integer small h = elim (Bool-cases (v == 0)) [
  | inl nothing ↦ inl (ground arith, ap reverse (sym (ok_cancel (rw nothing at h))))
  | inr pos ↦ elim (Bool-cases (conv == b'x' || conv == b'X')) [
    | inl hex ↦ inr (
        subst (λ (b : List ℕ). Digits conv v (reverse b)) (ok_cancel (rw (pos, hex) at h))
          (hex_digits-Digits conv 128 v (ground (arith, hex)) (ground arith) (omega arith)))
    | inr not_hex ↦
        let dec : (conv == b'd' || conv == b'u') ≡ true = ground (arith, integer, not_hex) in
        inr (
          subst (λ (b : List ℕ). Digits conv v (reverse b))
            (ok_cancel (rw (pos, not_hex, dec) at h))
            (dec_digits-Digits conv 128 v (ground (arith, dec)) (ground arith) (omega arith)))
  ]
]

pub digits_buf-ok : (conv v : ℕ) → IsInteger conv → (buf : List ℕ) × (digits_buf conv v ≡ ok buf)
unfolding digits_buf
digits_buf-ok conv v integer = elim (Bool-cases (v == 0)) [
  | inl nothing ↦ (b'0' ∷ [], rw nothing refl)
  | inr pos ↦ elim (Bool-cases (conv == b'x' || conv == b'X')) [
    | inl hex ↦ (hex_digits 128 conv v, rw (pos, hex) refl)
    | inr not_hex ↦
        let dec : (conv == b'd' || conv == b'u') ≡ true = ground (arith, integer, not_hex) in
        (dec_digits 128 v, rw (pos, not_hex, dec) refl)
  ]
]
