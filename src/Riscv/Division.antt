-- ===== src/Riscv/Division.antt =====
-- The division instructions against the identity that the instruction set prescribes.
use native.Mathlib.Nat.{mul-le-mul_right, div-add-mod, mod-lt}
use bailuwan.Riscv.Word.{of_int, signed}
use bailuwan.Riscv.Alu.{
  with_sign, riscv_rem, riscv_div, overflows, is_negative, magnitude, rem_int, quot_int,
}
use bailuwan.Base.{
  ltb→lt, inr, ne→==, ltb, inl, ◌-◌, Bool-cases, refl, zero, true, ◌/◌, ◌⊎◌, not, suc, false, ◌%◌,
  if◌then◌else◌, ◌≢◌, Bool, ◌≤◌, ◌*◌, arith, ◌≡◌, ◌+◌, ◌^◌, ◌<◌, ℕ,
}
use bailuwan.Base.Int.{+ℤ_parts, eq_of_parts, negsuc, ◌+ℤ◌, pos, neg_part, pos_part, ◌*ℤ◌, ℤ}

-- `-2^31 ≤ z < 2^31`
abbrev pub FitsWord : ℤ → Type 0
FitsWord z = (pos_part z < 2 ^ 31) × (neg_part z ≤ 2 ^ 31)

pub signed-of_int : (z : ℤ) → FitsWord z → signed (of_int z) ≡ z
signed-of_int (pos n) h = ground arith
signed-of_int (negsuc n) h = ground arith

pub signed-FitsWord : (w : ℕ) → w < 2 ^ 32 → FitsWord (signed w)
signed-FitsWord w h = ground arith

-- The parts of a product.
mul_parts :
    (a b : ℤ)
    → pos_part (a *ℤ b) + (pos_part a * neg_part b + neg_part a * pos_part b)
      ≡ neg_part (a *ℤ b) + (pos_part a * pos_part b + neg_part a * neg_part b)
unfolding ◌*ℤ◌
mul_parts a b = ground arith

with_sign_parts :
    (b : Bool) (n : ℕ)
    → (pos_part (with_sign b n) ≡ (if b then 0 else n))
      × (neg_part (with_sign b n) ≡ (if b then n else 0))
with_sign_parts false n = (refl, refl)
with_sign_parts true zero = (refl, refl)
with_sign_parts true (suc n) = (refl, refl)

magnitude-with_sign : (b : Bool) (n : ℕ) → magnitude (with_sign b n) ≡ n
magnitude-with_sign false n = refl
magnitude-with_sign true zero = refl
magnitude-with_sign true (suc n) = refl

-- The parts of a product with a factor whose parts are known.
mul_known :
    (a b : ℤ) (p n : ℕ)
    → pos_part a ≡ p
    → neg_part a ≡ n
    → pos_part (a *ℤ b) + (p * neg_part b + n * pos_part b)
      ≡ neg_part (a *ℤ b) + (p * pos_part b + n * neg_part b)
mul_known a b p n e f = rw (← e, ← f) (mul_parts a b)

-- The identity for each pair of signs: `a = q * b + r` by magnitudes.
identity_parts :
    (a b : ℤ) (q r : ℕ)
    → magnitude b * q + r ≡ magnitude a
    → a
      ≡ with_sign (if is_negative a then not (is_negative b) else is_negative b) q *ℤ b
        +ℤ with_sign (is_negative a) r
identity_parts (pos m) (pos n) q r h =
    eq_of_parts _ _
      (omega (arith, mul_known (pos q) (pos n) q 0 refl refl, +ℤ_parts (pos q *ℤ pos n) (pos r)))
identity_parts (pos m) (negsuc n) q r h = eq_of_parts _ _ (
    omega (
      arith,
      mul_known (with_sign true q) (negsuc n) 0 q (with_sign_parts true q).0
          (with_sign_parts true q).1,
      +ℤ_parts (with_sign true q *ℤ negsuc n) (pos r),
    ))
identity_parts (negsuc m) (pos n) q r h = eq_of_parts _ _ (
    omega (
      arith,
      mul_known (with_sign true q) (pos n) 0 q (with_sign_parts true q).0
          (with_sign_parts true q).1,
      +ℤ_parts (with_sign true q *ℤ pos n) (with_sign true r),
      with_sign_parts true r,
    ))
identity_parts (negsuc m) (negsuc n) q r h = eq_of_parts _ _ (
    omega (
      arith,
      mul_known (pos q) (negsuc n) q 0 refl refl,
      +ℤ_parts (pos q *ℤ negsuc n) (with_sign true r),
      with_sign_parts true r,
    ))

quot_rem_identity : (a b : ℤ) → a ≡ quot_int a b *ℤ b +ℤ rem_int a b
unfolding quot_int rem_int
quot_rem_identity a b =
    identity_parts a b (magnitude a / magnitude b) (magnitude a % magnitude b)
      (div-add-mod (magnitude a) (magnitude b))

rem_int-lt : (a b : ℤ) → 0 < magnitude b → magnitude (rem_int a b) < magnitude b
unfolding rem_int
rem_int-lt a b h = rw magnitude-with_sign (mod-lt (magnitude a) h)

FitsWord-with_sign : (b : Bool) (n : ℕ) → n < 2 ^ 31 → FitsWord (with_sign b n)
FitsWord-with_sign false n h = omega arith
FitsWord-with_sign true zero h = omega arith
FitsWord-with_sign true (suc n) h = omega arith

magnitude-le : (w : ℕ) → w < 2 ^ 32 → magnitude (signed w) ≤ 2 ^ 31
magnitude-le w h = ground arith

magnitude_pos : (w : ℕ) → w < 2 ^ 32 → w ≢ 0 → 0 < magnitude (signed w)
magnitude_pos w h ne = ground arith

rem_int-FitsWord :
    (a b : ℕ) → a < 2 ^ 32 → b < 2 ^ 32 → b ≢ 0 → FitsWord (rem_int (signed a) (signed b))
unfolding rem_int
rem_int-FitsWord a b ha hb ne =
    FitsWord-with_sign (is_negative (signed a)) (magnitude (signed a) % magnitude (signed b))
      (omega (arith, mod-lt (magnitude (signed a)) (magnitude_pos b hb ne), magnitude-le b hb))

half_or_less : (m n : ℕ) → m ≤ 2 ^ 31 → 2 ≤ n → m / n < 2 ^ 31
half_or_less m n h two =
    let whole = div-add-mod m n in
    let bound = mul-le-mul_right (m / n) two in omega (arith, whole, bound)

FitsWord-min :
    (b : Bool) (n : ℕ) → n ≤ 2 ^ 31 → (b ≡ true) ⊎ (n < 2 ^ 31) → FitsWord (with_sign b n)
FitsWord-min false n h g = FitsWord-with_sign false n (ground arith)
FitsWord-min true zero h g = omega arith
FitsWord-min true (suc n) h g = omega arith

-- A divisor of magnitude 1.
unit_divisor : (b : ℕ) → b < 2 ^ 32 → b ≢ 0 → magnitude (signed b) < 2 → (b ≡ 1) ⊎ (b ≡ 2 ^ 32 - 1)
unit_divisor b h ne small = ground arith

magnitude-lt :
    (a : ℕ) → a < 2 ^ 32 → (is_negative (signed a) ≡ true) ⊎ (magnitude (signed a) < 2 ^ 31)
magnitude-lt a h = ground arith

magnitude-lt_ne : (a : ℕ) → a < 2 ^ 32 → a ≢ 2 ^ 31 → magnitude (signed a) < 2 ^ 31
magnitude-lt_ne a h ne = ground arith

not_min : (a b : ℕ) → b ≡ 2 ^ 32 - 1 → overflows a b ≡ false → a ≢ 2 ^ 31
unfolding overflows
not_min a b e fine = ground arith

quot_int-FitsWord :
    (a b : ℕ)
    → a < 2 ^ 32
    → b < 2 ^ 32
    → b ≢ 0
    → overflows a b ≡ false
    → FitsWord (quot_int (signed a) (signed b))
unfolding quot_int
quot_int-FitsWord a b ha hb ne fine =
    let m = magnitude (signed a) in
    let n = magnitude (signed b) in
    let whole : m / 1 ≡ m = omega arith in
    elim (Bool-cases (ltb n 2)) [
      | inl unit ↦ elim (unit_divisor b hb ne (ltb→lt n 2 unit)) [
        | inl e ↦
            rw (e, whole)
              (FitsWord-min (if is_negative (signed a) then true else false) m (magnitude-le a ha)
                (ground (arith, magnitude-lt a ha)))
        | inr e ↦
            rw (e, whole)
              (FitsWord-with_sign (if is_negative (signed a) then false else true) m
                (magnitude-lt_ne a ha (not_min a b e fine)))
      ]
      | inr more ↦
          FitsWord-with_sign
            (if is_negative (signed a)
              then not (is_negative (signed b))
              else is_negative (signed b))
            (m / n) (half_or_less m n (magnitude-le a ha) (ground arith))
    ]

signed-riscv_div :
    (a b : ℕ)
    → a < 2 ^ 32
    → b < 2 ^ 32
    → b ≢ 0
    → overflows a b ≡ false
    → signed (riscv_div a b) ≡ quot_int (signed a) (signed b)
unfolding riscv_div
signed-riscv_div a b ha hb ne fine =
    rw (ne→== b 0 ne, fine) (signed-of_int _ (quot_int-FitsWord a b ha hb ne fine))

signed-riscv_rem :
    (a b : ℕ)
    → a < 2 ^ 32
    → b < 2 ^ 32
    → b ≢ 0
    → overflows a b ≡ false
    → signed (riscv_rem a b) ≡ rem_int (signed a) (signed b)
unfolding riscv_rem
signed-riscv_rem a b ha hb ne fine =
    rw (ne→== b 0 ne, fine) (signed-of_int _ (rem_int-FitsWord a b ha hb ne))

-- The integer that the remainder stands for is 0 or has the sign of the dividend.
rem_int-sign : (a b : ℤ) → (rem_int a b ≡ pos 0) ⊎ (is_negative (rem_int a b) ≡ is_negative a)
unfolding rem_int
rem_int-sign (pos m) b = inr refl
rem_int-sign (negsuc m) b = ground arith

-- Division of words that are neither by zero nor the overflow case: the dividend is the quotient
-- times the divisor plus the remainder, and the remainder is smaller than the divisor and has the
-- sign of the dividend, unless it is 0.
pub riscv_div-riscv_rem :
    (a b : ℕ)
    → a < 2 ^ 32
    → b < 2 ^ 32
    → b ≢ 0
    → overflows a b ≡ false
    → (signed a ≡ signed (riscv_div a b) *ℤ signed b +ℤ signed (riscv_rem a b))
      × (magnitude (signed (riscv_rem a b)) < magnitude (signed b))
      × ((signed (riscv_rem a b) ≡ pos 0)
          ⊎ (is_negative (signed (riscv_rem a b)) ≡ is_negative (signed a)))
riscv_div-riscv_rem a b ha hb ne fine =
    rw (signed-riscv_div a b ha hb ne fine, signed-riscv_rem a b ha hb ne fine)
      (
        quot_rem_identity (signed a) (signed b),
        rem_int-lt (signed a) (signed b) (magnitude_pos b hb ne),
        rem_int-sign (signed a) (signed b),
      )
