-- ===== src/Decode/Match.antt =====
-- What a pattern means: the fixed characters are the instruction's bits at their places.
use bailuwan.Decode.Digits.{
  push-IsTest, and_assoc, and_true, push-holds, passes-finish, fits_char, agrees, IsTest, width,
  holds, IsPattern,
}
use bailuwan.Base.Run.{ok}
use native.Mathlib.Nat.{div-div-eq-div-mul, pow-suc}
use bailuwan.Base.Bits.{bit_and-zero}
use bailuwan.Base.{
  refl, zero, length, ◌≤◌, sym, inr, ◌+◌, ◌∙◌, inl, arith, ap, Bool-cases, ◌<◌, ◌&&◌, [], ◌%◌, ◌^◌,
  suc, ◌/◌, ◌==◌, ◌≡◌, true, Bool, ◌∷◌, ℕ,
}
use bailuwan.Decode.Pattern.{
  pattern_decode, decode_loop, push_char, is_pattern_char, finish, Test, passes, Pattern,
}

agrees-step :
    (n c inst w : ℕ) (rest : Bool) (t : Test)
    → n < 64
    → IsTest n t
    → is_pattern_char c ≡ true
    → (holds (push_char c t) (inst / 2 ^ w) && rest)
      ≡ (holds t (inst / 2 ^ suc w) && (fits_char c (inst / 2 ^ w % 2) && rest))
agrees-step n c inst w rest t room is char =
    let deeper : inst / 2 ^ w / 2 ≡ inst / 2 ^ suc w =
      div-div-eq-div-mul inst (2 ^ w) 2 ∙ ap (λ (t : ℕ). inst / t) (sym (pow-suc 2 w)) in
    ap (λ (b : Bool). b && rest)
      (push-holds n c (inst / 2 ^ w) t room is char
        ∙ ap (λ (y : ℕ). holds t y && fits_char c (inst / 2 ^ w % 2)) deeper)
    ∙ and_assoc (holds t (inst / 2 ^ suc w)) (fits_char c (inst / 2 ^ w % 2)) rest

-- The loop tests what was read before it, and the bits of the characters it reads.
decode_loop-agrees :
    (cs : Pattern) (fuel n : ℕ) (t : Test)
    → IsPattern cs
    → IsTest n t
    → length cs < fuel
    → n + width cs < 65
    → (t' : Test) × (decode_loop fuel cs t ≡ ok t')
      × ((inst : ℕ) → passes inst t' ≡ (holds t (inst / 2 ^ width cs) && agrees cs inst))
unfolding decode_loop
decode_loop-agrees cs zero n t pattern is room narrow = absurd (omega arith)
decode_loop-agrees [] (suc fuel) n t pattern is room narrow = (
  finish t,
  refl,
  λ inst.
      let one : inst / 1 ≡ inst = omega arith in
      rw one (passes-finish n inst t is ∙ sym (and_true (holds t inst))),
)
decode_loop-agrees (c ∷ cs) (suc fuel) n t pattern is room narrow = elim (Bool-cases (c == b' ')) [
  | inl e ↦ rw e (decode_loop-agrees cs fuel n t pattern.1 is (omega arith) (rw e at narrow))
  | inr e ↦
      let char : is_pattern_char c ≡ true = ground arith in
      let tight : n + suc (width cs) < 65 = rw e at narrow in
      let next = push-IsTest n c t (omega arith) is char in
      let (t', run, means) =
        decode_loop-agrees cs fuel (suc n) (push_char c t) pattern.1 next (omega arith)
          (omega arith) in
      rw (e, char)
        (
          t',
          run,
          λ inst.
              means inst ∙ agrees-step n c inst (width cs) (agrees cs inst) t (omega arith) is char,
        )
]

abbrev start : Test
start = record { key = 0; mask = 0; shift = 0 }

pattern_decode-loop : (str : Pattern) → pattern_decode str ≡ decode_loop 64 str start
unfolding pattern_decode
pattern_decode-loop str = refl

start-IsTest : IsTest 0 start
start-IsTest = record {
  key_zeros = refl;
  mask_zeros = refl;
  key_lt = omega arith;
  mask_lt = omega arith;
}

start-holds : (y : ℕ) → holds start y ≡ true
start-holds y = rw (bit_and-zero y)

width-le-length : (cs : Pattern) → width cs ≤ length cs
width-le-length [] = omega arith
width-le-length (c ∷ cs) = ground (arith, width-le-length cs)

-- A pattern of '0', '1', '?' and spaces that is shorter than 64 characters decodes to a test that
-- an instruction passes exactly when every '0' and '1' of the pattern is the instruction's bit at
-- that place.
pub pattern_decode-agrees :
    (str : Pattern)
    → IsPattern str
    → length str < 64
    → (t : Test) × (pattern_decode str ≡ ok t) × ((inst : ℕ) → passes inst t ≡ agrees str inst)
pattern_decode-agrees str pattern short =
    let (t, run, means) =
      decode_loop-agrees str 64 0 start pattern start-IsTest short
        (omega (arith, width-le-length str)) in
    (
      t,
      pattern_decode-loop str ∙ run,
      λ inst.
          means inst ∙ ap (λ (b : Bool). b && agrees str inst) (start-holds (inst / 2 ^ width str)),
    )
