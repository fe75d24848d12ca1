-- ===== src/Klib/Padding.antt =====
-- `print_integer` of abstract-machine/klib/src/stdio.c pads a numeral as its field has it.
use bailuwan.Klib.Numeral.{field, Field, IsInteger, digits_buf-Numeral, digits_buf-ok}
use bailuwan.Base.{
  ℕ, ◌+◌, ◌-◌, ◌^◌, ◌<◌, ◌≡◌, refl, Bool, true, false, ltb, List, [], ◌∷◌, ◌++◌, length, replicate,
  length-append, arith, inl, inr, ap, ◌∙◌, Bool-cases,
}
use mathlib.Core.List.{append_assoc}
use bailuwan.Base.Run.{ok}
use bailuwan.Klib.Print.{print_integer, write_number, write_pad, write_reverse}
use bailuwan.Klib.Format.{append}
use bailuwan.Klib.Decimal.{reverse, write_reverse-append, write_pad-append}

length-reverse : (buf : List ℕ) → length (reverse buf) ≡ length buf
length-reverse [] = refl
length-reverse (c ∷ buf) = omega (arith, length-append (reverse buf) (c ∷ []), length-reverse buf)

-- The three ways in which the code pads, each as a text behind `t`.
padded :
    (c k : ℕ) (buf t : List ℕ)
    → write_reverse append buf (write_pad append k c t) ≡ t ++ (replicate k c ++ reverse buf)
padded c k buf t =
    write_reverse-append buf (write_pad append k c t)
    ∙ ap (λ (u : List ℕ). u ++ reverse buf) (write_pad-append k c t)
    ∙ append_assoc t (replicate k c) (reverse buf)

write_number-field :
    (negative zero_pad : Bool) (buf : List ℕ) (width : ℕ) (t : List ℕ)
    → write_number append negative buf zero_pad width t
      ≡ t ++ field zero_pad width negative (reverse buf)
unfolding write_number append
write_number-field false true buf width t =
    let size : width - (0 + length (reverse buf)) ≡ width - length buf =
      omega (arith, length-reverse buf) in
    rw size (padded b'0' (width - length buf) buf t)
write_number-field false false buf width t =
    let size : width - (0 + length (reverse buf)) ≡ width - length buf =
      omega (arith, length-reverse buf) in
    rw size (padded b' ' (width - length buf) buf t)
write_number-field true false buf width t =
    let k = width - 1 - length buf in
    let size : width - (1 + length (reverse buf)) ≡ k = omega (arith, length-reverse buf) in
    rw size (
      write_reverse-append buf (write_pad append k b' ' t ++ (b'-' ∷ []))
      ∙ ap (λ (u : List ℕ). (u ++ (b'-' ∷ [])) ++ reverse buf) (write_pad-append k b' ' t)
      ∙ ap (λ (u : List ℕ). u ++ reverse buf) (append_assoc t (replicate k b' ') (b'-' ∷ []))
      ∙ append_assoc t (replicate k b' ' ++ (b'-' ∷ [])) (reverse buf)
      ∙ ap (λ (u : List ℕ). t ++ u) (append_assoc (replicate k b' ') (b'-' ∷ []) (reverse buf)))
write_number-field true true buf width t =
    let k = width - 1 - length buf in
    let size : width - (1 + length (reverse buf)) ≡ k = omega (arith, length-reverse buf) in
    elim (Bool-cases (ltb 0 width)) [
      | inl wide ↦
          rw (size, wide)
            (padded b'0' k buf (t ++ (b'-' ∷ []))
              ∙ append_assoc t (b'-' ∷ []) (replicate k b'0' ++ reverse buf))
      | inr narrow ↦
          let none_left : k ≡ 0 = ground arith in
          rw (size, narrow, none_left)
            (write_reverse-append buf (t ++ (b'-' ∷ [])) ∙ append_assoc t (b'-' ∷ []) (reverse buf))
    ]

-- `print_integer` returns, and has added a field.
pub print_integer-Field :
    (negative : Bool) (v : ℕ) (zero_pad : Bool) (width conv : ℕ) (t : List ℕ)
    → IsInteger conv
    → v < 2 ^ 64
    → (x : List ℕ) × (print_integer append negative v zero_pad width conv t ≡ ok (t ++ x))
      × Field conv zero_pad width negative v x
unfolding print_integer
print_integer-Field negative v zero_pad width conv t integer small =
    let (buf, digits) = digits_buf-ok conv v integer in
    (
      field zero_pad width negative (reverse buf),
      rw digits (ap ok (write_number-field negative zero_pad buf width t)),
      (reverse buf, digits_buf-Numeral conv v buf integer small digits, refl),
    )
