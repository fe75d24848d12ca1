-- ===== src/Klib/Pieces.antt =====
-- What a round of the loop of `vsnprintf` in abstract-machine/klib/src/stdio.c writes.
use bailuwan.Klib.Decimal.{AllDigits}
use mathlib.Core.List.{append_assoc, append-nil}
use mathlib.Core.Path.{subst}
use native.Mathlib.Nat.{pow-le-pow_right, mod-lt}
use bailuwan.Base.Bits.{two-pow_pos}
use bailuwan.Base.{
  ltb, ◌||◌, ℕ, zero, suc, ◌-◌, ◌^◌, ◌%◌, ◌<◌, ◌≤◌, ◌≡◌, refl, Bool, false, ◌==◌, List, [], ◌∷◌,
  ◌++◌, arith, inl, inr, sym, ◌∙◌, Bool-cases, none, some, codes,
}
use bailuwan.Base.Run.{undefined, Run, ok, stop, and_then}
use bailuwan.Klib.Print.{
  parse_width, parse_zero, format_step, convert, parse_long, Arg, integer, text, Next, done, more,
  write_text, convert_text, convert_integer, convert_number, convert_specifier, parse_length,
  arg_bits,
}
use bailuwan.Klib.Format.{append}
use bailuwan.Klib.Numeral.{IsInteger}
use bailuwan.Klib.Padding.{print_integer-Field}
use bailuwan.Klib.Directive.{parse-Directive, HeadNot, decimal, Directive, parse_length-rest}
use bailuwan.Klib.Formats.{
  int_bits, minus, magnitude, Piece, plain, percent, string, number, unknown, cut_modifier, Formats,
  cut, at_end, Undefined, wide, no_text, no_integer,
}

-- A round stops only where C defines nothing, ends at the end of the text, or writes a piece.
unfoldable pub Round : ℕ → List ℕ → List Arg → List ℕ → Run (Next (List ℕ)) → Type 0
Round long_bits fmt args t0 (stop w) = (w ≡ undefined) × Undefined long_bits fmt args
Round long_bits fmt args t0 (ok (done t)) = (t ≡ t0) × Formats long_bits fmt args []
Round long_bits fmt args t0 (ok (more f args' t)) =
    (x : List ℕ) × (t ≡ t0 ++ x) × Piece long_bits fmt args x f args'

write_text-append : (s t : List ℕ) → write_text append s t ≡ t ++ s
unfolding write_text append
write_text-append [] t = sym (append-nil t)
write_text-append (c ∷ s) t = write_text-append s (t ++ (c ∷ [])) ∙ append_assoc t (c ∷ []) s

no_modifier :
    (c : ℕ) (f : List ℕ)
    → (c == b's') ≡ false
    → (parse_length (c ∷ f)).0 ≡ 0
    → HeadNot (λ k. k == b's') (parse_length (c ∷ f)).1
unfolding parse_length parse_long
no_modifier c [] other h = elim (Bool-cases (c == b'l')) [
  | inl is_l ↦ absurd (ground (arith, h, is_l))
  | inr not_l ↦ rw not_l other
]
no_modifier c (d ∷ f) other h = elim (Bool-cases (c == b'l')) [
  | inl is_l ↦ absurd (ground (arith, h, is_l))
  | inr not_l ↦ rw not_l other
]

module _ (long_bits : ℕ) (small : long_bits ≤ 64) where
  magnitude-lt : (conv w n : ℕ) → w ≤ 64 → magnitude conv w n < 2 ^ 64
  magnitude-lt conv w n h =
      let fits : 2 ^ w ≤ 2 ^ 64 = pow-le-pow_right (omega arith) h in
      let pos = two-pow_pos w in
      let half = two-pow_pos (w - 1) in
      let below : n % 2 ^ w < 2 ^ w = mod-lt n pos in ground (arith, fits, pos, half, below)

  int_bits-le : (len : ℕ) → int_bits long_bits len ≤ 64
  int_bits-le zero = omega arith
  int_bits-le (suc zero) = small
  int_bits-le (suc (suc len)) = omega arith

  arg_bits-int_bits : (len : ℕ) → arg_bits long_bits len ≡ int_bits long_bits len
  unfolding arg_bits
  arg_bits-int_bits zero = refl
  arg_bits-int_bits (suc zero) = refl
  arg_bits-int_bits (suc (suc len)) = ground arith

  convert_text-Round :
      (fmt : List ℕ) (zero_pad : Bool) (ws f : List ℕ) (args : List Arg) (t0 : List ℕ)
      → Directive fmt zero_pad ws 0 (b's' ∷ f)
      → Round long_bits (b'%' ∷ fmt) args t0 (convert_text append f args t0)
  unfolding convert_text Round
  convert_text-Round fmt zero_pad ws f [] t0 d = (refl, no_text fmt zero_pad ws f [] d tt)
  convert_text-Round fmt zero_pad ws f (integer n ∷ args) t0 d =
      (refl, no_text fmt zero_pad ws f (integer n ∷ args) d tt)
  convert_text-Round fmt zero_pad ws f (text none ∷ args) t0 d =
      (codes "(null)", write_text-append (codes "(null)") t0, string fmt zero_pad ws f none args d)
  convert_text-Round fmt zero_pad ws f (text (some s) ∷ args) t0 d =
      (s, write_text-append s t0, string fmt zero_pad ws f (some s) args d)

  convert_integer-Round :
      (fmt : List ℕ) (zero_pad : Bool) (ws : List ℕ) (len conv : ℕ) (f : List ℕ) (args : List Arg)
      (t0 : List ℕ)
      → Directive fmt zero_pad ws len (conv ∷ f)
      → IsInteger conv
      → Round long_bits
          (b'%' ∷ fmt)
          args
          t0
          (convert_integer append (int_bits long_bits len) conv zero_pad (decimal 0 ws) f args t0)
  unfolding convert_integer Round
  convert_integer-Round fmt zero_pad ws len conv f [] t0 d int =
      (refl, no_integer fmt zero_pad ws len conv f [] d int tt)
  convert_integer-Round fmt zero_pad ws len conv f (text s ∷ args) t0 d int =
      (refl, no_integer fmt zero_pad ws len conv f (text s ∷ args) d int tt)
  convert_integer-Round fmt zero_pad ws len conv f (integer n ∷ args) t0 d int =
      let w = int_bits long_bits len in
      let (x, printed, is_field) =
        print_integer-Field (minus conv w n) (magnitude conv w n) zero_pad (decimal 0 ws) conv t0
          int (magnitude-lt conv w n (int_bits-le len)) in
      subst
        (λ (r : Run (List ℕ)).
          Round long_bits (b'%' ∷ fmt) (integer n ∷ args) t0 (and_then r λ t. ok (more f args t)))
        (sym printed) (x, refl, number fmt zero_pad ws len conv f n args x d int is_field)

  two_more : (a b : ℕ) (t : List ℕ) → append b (append a t) ≡ t ++ (a ∷ b ∷ [])
  unfolding append
  two_more a b t = append_assoc t (a ∷ []) (b ∷ [])

  convert_number-Round :
      (fmt : List ℕ) (zero_pad : Bool) (ws : List ℕ) (len : ℕ) (f : List ℕ) (args : List Arg)
      (t0 : List ℕ)
      → Directive fmt zero_pad ws len f
      → (f ≡ [] → 0 < len)
      → (len ≡ 0 → HeadNot (λ c. c == b's') f)
      → Round long_bits
          (b'%' ∷ fmt)
          args
          t0
          (convert_number append (int_bits long_bits len) zero_pad (decimal 0 ws) f args t0)
  unfolding convert_number Round
  convert_number-Round fmt zero_pad ws len [] args t0 d some_modifier no_s = (
    b'%' ∷ 0 ∷ [],
    two_more b'%' 0 t0,
    cut_modifier fmt zero_pad ws len args d (some_modifier refl),
  )
  convert_number-Round fmt zero_pad ws len (c ∷ f) args t0 d some_modifier no_s =
      elim (Bool-cases (c == b'd' || c == b'u' || c == b'x' || c == b'X')) [
        | inl int ↦ rw int (convert_integer-Round fmt zero_pad ws len c f args t0 d int)
        | inr other ↦
            rw other
              (b'%' ∷ c ∷ [], two_more b'%' c t0, unknown fmt zero_pad ws len c f args d other no_s)
      ]

  -- What follows the width of a specification.
  convert_specifier-Round :
      (fmt : List ℕ) (zero_pad : Bool) (ws : List ℕ) (f : List ℕ) (args : List Arg) (t0 : List ℕ)
      → Directive fmt zero_pad ws (parse_length f).0 (parse_length f).1
      → Round long_bits
          (b'%' ∷ fmt)
          args
          t0
          (convert_specifier append long_bits zero_pad (decimal 0 ws) f args t0)
  unfolding convert_specifier Round parse_length parse_long
  convert_specifier-Round fmt zero_pad ws [] args t0 d = (refl, cut fmt zero_pad ws args d)
  convert_specifier-Round fmt zero_pad ws (c ∷ f) args t0 d = elim (Bool-cases (c == b's')) [
    | inl is_s ↦
        let char : c ≡ b's' = ground arith in
        let not_l : (c == b'l') ≡ false = ground arith in
        rw is_s (
          convert_text-Round fmt zero_pad ws f args t0
            (subst (λ (k : ℕ). Directive fmt zero_pad ws 0 (k ∷ f)) char (rw not_l at d)))
    | inr other ↦
        rw (other, arg_bits-int_bits (parse_length (c ∷ f)).0)
          (convert_number-Round fmt zero_pad ws (parse_length (c ∷ f)).0 (parse_length (c ∷ f)).1
            args t0 d (parse_length-rest c f) (no_modifier c f other))
  ]

  convert-Round :
      (fmt : List ℕ) (args : List Arg) (t0 : List ℕ)
      → Round long_bits (b'%' ∷ fmt) args t0 (convert append long_bits fmt args t0)
  unfolding convert Round parse_zero parse_width parse_length append
  convert-Round [] args t0 = (refl, cut [] false [] args nothing_read)
    where
      nothing_read : Directive [] false [] 0 []
      nothing_read = record {
        parts = refl;
        not_percent = tt;
        whole_flag = λ h. tt;
        digits = unfold AllDigits in tt;
        whole_width = tt;
        few = omega arith;
        whole_modifier = λ h. tt;
      }
  convert-Round (c ∷ f) args t0 = elim (Bool-cases (c == b'%')) [
    | inl twice ↦
        let char : c ≡ b'%' = ground arith in
        rw twice (
          b'%' ∷ [],
          refl,
          subst (λ (k : ℕ). Piece long_bits (b'%' ∷ k ∷ f) args (b'%' ∷ []) f args) (sym char)
              (percent f args),
        )
    | inr other ↦
        let f2 = (parse_width (parse_zero (c ∷ f)).1 0).1 in
        let (ws, width, d) = parse-Directive (c ∷ f) other in
        elim (Bool-cases (ltb (decimal 0 ws) (2 ^ 31))) [
          | inl fits ↦
              rw (other, width, fits)
                (convert_specifier-Round (c ∷ f) (parse_zero (c ∷ f)).0 ws f2 args t0 d)
          | inr over ↦
              rw (other, width, over)
                (
                  refl,
                  wide (c ∷ f) (parse_zero (c ∷ f)).0 ws (parse_length f2).0 (parse_length f2).1
                      args d (ground arith),
                )
        ]
  ]

  pub format_step-Round :
      (fmt : List ℕ) (args : List Arg) (t0 : List ℕ)
      → Round long_bits fmt args t0 (format_step append long_bits fmt args t0)
  unfolding format_step Round append
  format_step-Round [] args t0 = (refl, at_end args)
  format_step-Round (c ∷ f) args t0 = elim (Bool-cases (c == b'%')) [
    | inl special ↦
        let char : c ≡ b'%' = ground arith in
        rw special (
          subst (λ (k : ℕ). Round long_bits (k ∷ f) args t0 (convert append long_bits f args t0))
            (sym char) (convert-Round f args t0))
    | inr other ↦ rw other (c ∷ [], refl, plain c f args other)
  ]
