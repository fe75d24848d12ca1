-- ===== src/Decode/Digits.antt =====
-- The bits that the characters of a pattern stand for, and what `push_char` does to a test.
use native.Mathlib.Numerals.{add-one}
use Prim.Native.Nat.{min}
use native.Mathlib.Nat.{mul-div_left, pow-le-pow_right, pow-suc, mod-eq_of_lt}
use mathlib.Core.Path.{ap₂}
use bailuwan.Base.Bits.{bit_and_lowest, bit_or_disjoint, two-pow_pos, bit_and_shifted}
use bailuwan.Base.{
  false, refl, ◌≤◌, sym, inr, ◌+◌, ◌∙◌, inl, arith, bit_or, ap, Bool-cases, ◌≢◌, ◌<◌, ◌&&◌, [], ◌*◌,
  ◌%◌, ◌^◌, ◌||◌, suc, bit_and, ◌/◌, ◌⊎◌, ◌==◌, ◌≡◌, true, if◌then◌else◌, Bool, ◌∷◌, ℕ,
}
use bailuwan.Decode.Pattern.{push_char, is_pattern_char, finish, Test, passes, Pattern}

-- The number of bits that a pattern speaks of.
abbrev pub width : Pattern → ℕ
width [] = 0
width (c ∷ cs) = if c == b' ' then width cs else suc (width cs)

-- Every '0' and '1' of the pattern is the bit of the instruction at its place; the last
-- character is bit 0, '?' stands for any bit, and spaces are for the reader.
abbrev pub agrees : Pattern → ℕ → Bool
agrees [] inst = true
agrees (c ∷ cs) inst =
    if c == b' '
    then agrees cs inst
    else (c == b'?' || inst / 2 ^ width cs % 2 == (if c == b'1' then 1 else 0)) && agrees cs inst

abbrev pub IsPattern : Pattern → Type 0
IsPattern [] = Unit {0}
IsPattern (c ∷ cs) = ((c ≡ b' ') ⊎ (is_pattern_char c ≡ true)) × IsPattern cs

-- The accumulators after `n` characters: the bits that a shift will drop are zero.
pub record IsTest (n : ℕ) (t : Test) : Type 0 where
  pub key_zeros : t.key ≡ t.key / 2 ^ t.shift * 2 ^ t.shift
  pub mask_zeros : t.mask ≡ t.mask / 2 ^ t.shift * 2 ^ t.shift
  pub key_lt : t.key < 2 ^ n
  pub mask_lt : t.mask < 2 ^ n

-- The test before the final shift.
abbrev pub holds : Test → ℕ → Bool
holds t inst = bit_and inst t.mask == t.key

mul_ne : (a b p : ℕ) → 0 < p → a ≢ b → a * p ≢ b * p
mul_ne a b p h ne e = ne (grind arith)

==-mul : (a b p : ℕ) → 0 < p → (a == b) ≡ (a * p == b * p)
==-mul a b p h = elim (Bool-cases (a == b)) [
  | inl e ↦ let same : a ≡ b = ground arith in ground (arith, ap (λ (t : ℕ). t * p) same)
  | inr e ↦ elim (Bool-cases (a * p == b * p)) [
    | inl f ↦ absurd (mul_ne a b p h (ground arith) (ground arith))
    | inr f ↦ rw (e, f)
  ]
]

-- Shifting does not change the test.
pub passes-finish : (n inst : ℕ) (t : Test) → IsTest n t → passes inst (finish t) ≡ holds t inst
unfolding passes finish
passes-finish n inst t is =
    let p = 2 ^ t.shift in
    let lifted : bit_and inst t.mask ≡ bit_and (inst / p) (t.mask / p) * p =
      ap (bit_and inst) is.mask_zeros ∙ bit_and_shifted t.shift inst (t.mask / p) in
    ==-mul (bit_and (inst / p) (t.mask / p)) (t.key / p) p (two-pow_pos t.shift)
    ∙ ap₂ (λ (a b : ℕ). a == b) (sym lifted) (sym is.key_zeros)

-- One more character looks at one more bit.
abbrev pub fits_char : ℕ → ℕ → Bool
fits_char c bit = c == b'?' || bit == (if c == b'1' then 1 else 0)

room_of_lt : (n a : ℕ) → n < 64 → a < 2 ^ n → a * 2 < 2 ^ 64
room_of_lt n a h lt =
    let top : 2 ^ n ≤ 2 ^ 63 =
      pow-le-pow_right {n = 2} (omega arith) {i = n} {j = 63} (omega arith) in
    omega arith

abbrev pub mask_bit : ℕ → ℕ
mask_bit c = if c == b'?' then 0 else 1

abbrev pub key_bit : ℕ → ℕ
key_bit c = if c == b'1' then 1 else 0

pub push-digit : (n a b : ℕ) → n < 64 → a < 2 ^ n → b < 2 → bit_or (a * 2 % 2 ^ 64) b ≡ a * 2 + b
push-digit n a b h lt small =
    let exact : a * 2 % 2 ^ 64 ≡ a * 2 = mod-eq_of_lt (room_of_lt n a h lt) in
    rw exact (bit_or_disjoint 1 a b small)

pub bit_and-digit :
    (x m d : ℕ) → d < 2 → bit_and x (m * 2 + d) ≡ bit_and (x / 2) m * 2 + min (x % 2) d
bit_and-digit x m d h =
    let half : (m * 2 + d) / 2 ≡ m = omega arith in
    omega (arith, bit_and_lowest x (m * 2 + d), ap (bit_and (x / 2)) half)

pub digit-holds :
    (c a k b : ℕ)
    → b < 2
    → is_pattern_char c ≡ true
    → (a * 2 + min b (mask_bit c) == k * 2 + key_bit c) ≡ ((a == k) && fits_char c b)
unfolding is_pattern_char
digit-holds c a k b small char = ground arith

pub push_char-digits :
    (n c : ℕ) (t : Test)
    → n < 64
    → IsTest n t
    → ((push_char c t).key ≡ t.key * 2 + key_bit c)
      × ((push_char c t).mask ≡ t.mask * 2 + mask_bit c)
unfolding push_char
push_char-digits n c t room is = (
  push-digit n t.key (key_bit c) room is.key_lt (ground arith),
  push-digit n t.mask (mask_bit c) room is.mask_lt (ground arith),
)

pub push-holds :
    (n c inst : ℕ) (t : Test)
    → n < 64
    → IsTest n t
    → is_pattern_char c ≡ true
    → holds (push_char c t) inst ≡ (holds t (inst / 2) && fits_char c (inst % 2))
push-holds n c inst t room is char =
    let (key, mask) = push_char-digits n c t room is in
    ap₂ (λ (m k : ℕ). bit_and inst m == k) mask key
    ∙ ap (λ (a : ℕ). a == t.key * 2 + key_bit c)
        (bit_and-digit inst t.mask (mask_bit c) (ground arith))
    ∙ digit-holds c (bit_and (inst / 2) t.mask) t.key (inst % 2) (omega arith) char

abbrev pub Zeros : ℕ → ℕ → Type 0
Zeros s a = a ≡ a / 2 ^ s * 2 ^ s

pub Zeros-mul : (a q s : ℕ) → a ≡ q * 2 ^ s → Zeros s a
Zeros-mul a q s e =
    let quotient : a / 2 ^ s ≡ q = ap (λ (t : ℕ). t / 2 ^ s) e ∙ mul-div_left q (two-pow_pos s) in
    e ∙ ap (λ (t : ℕ). t * 2 ^ s) (sym quotient)

pub Zeros-double : (a s : ℕ) → Zeros s a → Zeros (s + 1) (a * 2)
Zeros-double a s h =
    Zeros-mul (a * 2) (a / 2 ^ s) (s + 1) (rw (add-one, pow-suc 2 s) (omega (arith, h)))

pub Zeros-push :
    (c a s d : ℕ)
    → (c ≡ b'?' → d ≡ 0)
    → Zeros s a
    → Zeros (if c == b'?' then s + 1 else 0) (a * 2 + d)
Zeros-push c a s d none h = elim (Bool-cases (c == b'?')) [
  | inl e ↦
      let gone : d ≡ 0 = none (ground arith) in
      let exact : a * 2 + d ≡ a * 2 = omega arith in rw (e, exact) (Zeros-double a s h)
  | inr e ↦ rw e (omega arith)
]

pub push-IsTest :
    (n c : ℕ) (t : Test)
    → n < 64
    → IsTest n t
    → is_pattern_char c ≡ true
    → IsTest (suc n) (push_char c t)
push-IsTest n c t room is char =
    let (key, mask) = push_char-digits n c t room is in
    record {
      key_zeros =
          rw key
            (unfold push_char in Zeros-push c t.key t.shift (key_bit c) (λ e. rw e) is.key_zeros);
      mask_zeros =
          rw mask (
            unfold push_char in Zeros-push c t.mask t.shift (mask_bit c) (λ e. rw e) is.mask_zeros);
      key_lt = rw key (ground (arith, pow-suc 2 n, is.key_lt));
      mask_lt = rw mask (ground (arith, pow-suc 2 n, is.mask_lt));
    }

pub and_true : (b : Bool) → (b && true) ≡ b
and_true true = refl
and_true false = refl

pub and_assoc : (a b c : Bool) → ((a && b) && c) ≡ (a && (b && c))
and_assoc true b c = refl
and_assoc false b c = refl
