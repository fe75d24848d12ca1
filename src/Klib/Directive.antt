-- ===== src/Klib/Directive.antt =====
-- The parts of a conversion specification of abstract-machine/klib/src/stdio.c.
use mathlib.Core.Path.{subst}
use bailuwan.Base.{
  ℕ, zero, suc, ◌+◌, ◌-◌, ◌*◌, ◌<◌, ◌≤◌, ◌≡◌, ◌≢◌, refl, Bool, false, ◌==◌, if◌then◌else◌, List, [],
  ◌∷◌, ◌++◌, arith, inl, inr, ap, ◌∙◌, Bool-cases,
}
use bailuwan.Klib.Print.{is_digit, parse_zero, parse_width, parse_length, parse_long}
use bailuwan.Klib.Decimal.{AllDigits}

-- A text does not begin with a byte for which the test holds.
abbrev pub HeadNot : (ℕ → Bool) → List ℕ → Type 0
HeadNot test [] = Unit {0}
HeadNot test (c ∷ f) = test c ≡ false

abbrev pub flag : Bool → List ℕ
flag zero_pad = if zero_pad then b'0' ∷ [] else []

-- The modifiers of 0, 1 and 2.
abbrev pub modifier : ℕ → List ℕ
modifier zero = []
modifier (suc len) = b'l' ∷ modifier len

-- The number that decimal digits stand for, behind the digits of `x`.
abbrev pub decimal : ℕ → List ℕ → ℕ
decimal x [] = x
decimal x (c ∷ ws) = decimal (x * 10 + (c - b'0')) ws

-- Behind a `%`: the flag, the width, the modifier, each as long as possible, and the rest of the
-- format.
pub record Directive (fmt : List ℕ) (zero_pad : Bool) (ws : List ℕ) (len : ℕ) (rest : List ℕ)
    : Type 0 where
  pub parts : fmt ≡ flag zero_pad ++ (ws ++ (modifier len ++ rest))
  pub not_percent : HeadNot (λ c. c == b'%') fmt
  pub whole_flag : zero_pad ≡ false → HeadNot (λ c. c == b'0') fmt
  pub digits : AllDigits ws
  pub whole_width : HeadNot is_digit (modifier len ++ rest)
  pub few : len ≤ 2
  pub whole_modifier : len < 2 → HeadNot (λ c. c == b'l') rest

parse_zero-flag :
    (fmt : List ℕ)
    → (fmt ≡ flag (parse_zero fmt).0 ++ (parse_zero fmt).1)
      × ((parse_zero fmt).0 ≡ false → HeadNot (λ c. c == b'0') fmt)
unfolding parse_zero
parse_zero-flag [] = (refl, λ h. tt)
parse_zero-flag (c ∷ f) = elim (Bool-cases (c == b'0')) [
  | inl is_it ↦
      let char : c ≡ b'0' = ground arith in
      (rw is_it (ap (λ (k : ℕ). k ∷ f) char), λ h. absurd (ground (arith, h, is_it)))
  | inr is_not ↦ (rw is_not refl, λ h. is_not)
]

parse_width-digits :
    (f : List ℕ) (x : ℕ)
    → (ws : List ℕ) × (f ≡ ws ++ (parse_width f x).1)
      × AllDigits ws
      × ((parse_width f x).0 ≡ decimal x ws)
      × HeadNot is_digit (parse_width f x).1
unfolding parse_width AllDigits
parse_width-digits [] x = ([], refl, tt, refl, tt)
parse_width-digits (c ∷ f) x = elim (Bool-cases (is_digit c)) [
  | inl digit ↦
      let (ws, parts, digits, number, ends) = parse_width-digits f (x * 10 + (c - b'0')) in
      (
        c ∷ ws,
        rw digit (ap (λ (u : List ℕ). c ∷ u) parts),
        (digit, digits),
        rw digit number,
        rw digit ends,
      )
  | inr other ↦ ([], rw other refl, tt, rw other refl, rw other other)
]

parse_length-modifier :
    (f : List ℕ)
    → (f ≡ modifier (parse_length f).0 ++ (parse_length f).1)
      × ((parse_length f).0 ≤ 2)
      × ((parse_length f).0 < 2 → HeadNot (λ c. c == b'l') (parse_length f).1)
unfolding parse_length parse_long
parse_length-modifier [] = (refl, omega arith, λ h. tt)
parse_length-modifier (c ∷ []) = elim (Bool-cases (c == b'l')) [
  | inl is_it ↦
      let char : c ≡ b'l' = ground arith in
      (rw is_it (ap (λ (k : ℕ). k ∷ []) char), rw is_it (omega arith), λ h. rw is_it tt)
  | inr is_not ↦ (rw is_not refl, rw is_not (omega arith), λ h. rw is_not is_not)
]
parse_length-modifier (c ∷ d ∷ f) = elim (Bool-cases (c == b'l')) [
  | inl is_it ↦
      let char : c ≡ b'l' = ground arith in
      elim (Bool-cases (d == b'l')) [
        | inl two ↦
            let second : d ≡ b'l' = ground arith in
            (
              rw (is_it, two)
                  (ap (λ (k : ℕ). k ∷ d ∷ f) char ∙ ap (λ (k : ℕ). b'l' ∷ k ∷ f) second),
              rw (is_it, two) (omega arith),
              λ h. absurd (ground (arith, h, is_it, two)),
            )
        | inr one ↦ (
          rw (is_it, one) (ap (λ (k : ℕ). k ∷ d ∷ f) char),
          rw (is_it, one) (omega arith),
          λ h. rw (is_it, one) one,
        )
      ]
  | inr is_not ↦ (rw is_not refl, rw is_not (omega arith), λ h. rw is_not is_not)
]

-- What the code reads behind a `%`.
pub parse-Directive :
    (fmt : List ℕ)
    → HeadNot (λ c. c == b'%') fmt
    → let f2 = (parse_width (parse_zero fmt).1 0).1 in
      (ws : List ℕ) × ((parse_width (parse_zero fmt).1 0).0 ≡ decimal 0 ws)
      × Directive fmt (parse_zero fmt).0 ws (parse_length f2).0 (parse_length f2).1
parse-Directive fmt other =
    let (flagged, no_flag) = parse_zero-flag fmt in
    let (ws, parts, digits, number, ends) = parse_width-digits (parse_zero fmt).1 0 in
    let f2 = (parse_width (parse_zero fmt).1 0).1 in
    let (modified, few, whole) = parse_length-modifier f2 in
    (
      ws,
      number,
      record {
        parts =
            flagged
            ∙ ap (λ (u : List ℕ). flag (parse_zero fmt).0 ++ u)
                (parts ∙ ap (λ (u : List ℕ). ws ++ u) modified);
        not_percent = other;
        whole_flag = no_flag;
        digits = digits;
        whole_width = subst (λ (u : List ℕ). HeadNot is_digit u) modified ends;
        few = few;
        whole_modifier = whole;
      },
    )

cons≢nil : {c : ℕ} {f : List ℕ} → (c ∷ f) ≢ []
cons≢nil h = cc

-- Without a modifier nothing has been read of what follows.
pub parse_length-rest :
    (c : ℕ) (f : List ℕ) → (parse_length (c ∷ f)).1 ≡ [] → 0 < (parse_length (c ∷ f)).0
unfolding parse_length parse_long
parse_length-rest c [] h = elim (Bool-cases (c == b'l')) [
  | inl is_it ↦ rw is_it (omega arith)
  | inr is_not ↦ absurd (cons≢nil (rw is_not at h))
]
parse_length-rest c (d ∷ f) h = elim (Bool-cases (c == b'l')) [
  | inl is_it ↦ elim (Bool-cases (d == b'l')) [
    | inl two ↦ rw (is_it, two) (omega arith)
    | inr one ↦ rw (is_it, one) (omega arith)
  ]
  | inr is_not ↦ absurd (cons≢nil (rw is_not at h))
]
