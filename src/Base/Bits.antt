-- ===== src/Base/Bits.antt =====
-- The digit recursion of the native bit operations without its fuel, and what follows from it at
-- every width: masks are remainders, disjoint fields add up, and results stay in range.
use Prim.Native.Nat.{
  ◌-◌, min, max, differ, digits, bitwise, bit_and-bitwise, bit_or-bitwise, bit_xor-bitwise,
}
use Prim.Native.Nat.{ℕ, zero, suc, ◌+◌, ◌*◌, ◌/◌, ◌%◌, ◌^◌, ◌≤◌, ◌<◌, bit_and, bit_or, bit_xor}
use mathlib.Core.Path.{sym, ◌∙◌, ◌≡◌, refl, ap}
use native.Mathlib.Nat.{
  div-div-eq-div-mul, mod-eq_of_lt, add-mul-mod_self_left, mod-lt, pow-succ', div-add-mod,
  one-le-pow, pow-suc,
}
use native.Mathlib.Omega.{arith}

-- One equation for the lowest digit, for any operation that takes 0 and 0 to 0.
module _ (z : ℕ → ℕ) (f : ℕ → ℕ → ℕ) where
  digits-zero : (b steps : ℕ) → digits z f steps 0 b ≡ z b
  digits-zero b zero = refl
  digits-zero b (suc steps) = refl

  -- Any count of steps that is not below the first number gives the same digits.
  settled : (steps more x y : ℕ) → x ≤ more → x ≤ steps → digits z f steps x y ≡ digits z f more x y
  settled steps more zero y _ _ = digits-zero y steps ∙ sym (digits-zero y more)
  settled zero more (suc x) y _ h = absurd (omega arith)
  settled (suc steps) zero (suc x) y h _ = absurd (omega arith)
  settled (suc steps) (suc more) (suc x) y h g =
      ap (λ (high : ℕ). high * 2 + f (suc x % 2) (y % 2))
        (settled steps more (suc x / 2) (y / 2) (omega arith) (omega arith))

  lowest :
      (a b : ℕ)
      → bitwise z f (suc a) b ≡ bitwise z f (suc a / 2) (b / 2) * 2 + f (suc a % 2) (b % 2)
  lowest a b =
      ap (λ (t : ℕ). t * 2 + f (suc a % 2) (b % 2))
        (settled a (suc a / 2) (suc a / 2) (b / 2) (omega arith) (omega arith))

differ-lt : (a b : ℕ) → a < 2 → b < 2 → differ a b < 2
differ-lt zero b p q = q
differ-lt (suc zero) zero p q = omega arith
differ-lt (suc zero) (suc zero) p q = omega arith
differ-lt (suc zero) (suc (suc b)) p q = absurd (omega arith)
differ-lt (suc (suc a)) b p q = absurd (omega arith)

pub bit_and_lowest : (a b : ℕ) → bit_and a b ≡ bit_and (a / 2) (b / 2) * 2 + min (a % 2) (b % 2)
bit_and_lowest zero b = omega (arith, bit_and-bitwise 0 b, bit_and-bitwise 0 (b / 2))
bit_and_lowest (suc a) b = omega (
  arith,
  bit_and-bitwise (suc a) b,
  bit_and-bitwise (suc a / 2) (b / 2),
  lowest (λ y. zero) min a b,
)

pub bit_or_lowest : (a b : ℕ) → bit_or a b ≡ bit_or (a / 2) (b / 2) * 2 + max (a % 2) (b % 2)
bit_or_lowest zero b = omega (arith, bit_or-bitwise 0 b, bit_or-bitwise 0 (b / 2))
bit_or_lowest (suc a) b =
    omega
      (arith, bit_or-bitwise (suc a) b, bit_or-bitwise (suc a / 2) (b / 2), lowest (λ y. y) max a b)

pub bit_xor_lowest : (a b : ℕ) → bit_xor a b ≡ bit_xor (a / 2) (b / 2) * 2 + differ (a % 2) (b % 2)
bit_xor_lowest zero b = omega (arith, bit_xor-bitwise 0 b, bit_xor-bitwise 0 (b / 2))
bit_xor_lowest (suc a) b = omega (
  arith,
  bit_xor-bitwise (suc a) b,
  bit_xor-bitwise (suc a / 2) (b / 2),
  lowest (λ y. y) differ a b,
)

-- Results in range: words stay words.
pub bit_and-lt : (k a b : ℕ) → a < 2 ^ k → bit_and a b < 2 ^ k
bit_and-lt zero a b h = let e : a ≡ 0 = omega arith in rw (e, bit_and-bitwise) (omega arith)
bit_and-lt (suc k) a b h =
    let half = bit_and-lt k (a / 2) (b / 2) (omega (arith, pow-suc 2 k)) in
    omega (arith, bit_and_lowest a b, pow-suc 2 k)

pub bit_or-lt : (k a b : ℕ) → a < 2 ^ k → b < 2 ^ k → bit_or a b < 2 ^ k
bit_or-lt zero a b h g = let e : a ≡ 0 = omega arith in rw (e, bit_or-bitwise) (omega arith)
bit_or-lt (suc k) a b h g =
    let half =
      bit_or-lt k (a / 2) (b / 2) (omega (arith, pow-suc 2 k)) (omega (arith, pow-suc 2 k)) in
    omega (arith, bit_or_lowest a b, pow-suc 2 k)

pub bit_xor-lt : (k a b : ℕ) → a < 2 ^ k → b < 2 ^ k → bit_xor a b < 2 ^ k
bit_xor-lt zero a b h g = let e : a ≡ 0 = omega arith in rw (e, bit_xor-bitwise) (omega arith)
bit_xor-lt (suc k) a b h g =
    let half =
      bit_xor-lt k (a / 2) (b / 2) (omega (arith, pow-suc 2 k)) (omega (arith, pow-suc 2 k)) in
    omega (
      arith,
      bit_xor_lowest a b,
      differ-lt (a % 2) (b % 2) (omega arith) (omega arith),
      pow-suc 2 k,
    )

bit_and-zero_below : (k a : ℕ) → a < 2 ^ k → bit_and a 0 ≡ 0
bit_and-zero_below zero a h = let e : a ≡ 0 = omega arith in rw (e, bit_and-bitwise)
bit_and-zero_below (suc k) a h =
    omega (arith, bit_and_lowest a 0, bit_and-zero_below k (a / 2) (omega (arith, pow-suc 2 k)))

lt-two-pow : (n : ℕ) → n < 2 ^ n
lt-two-pow zero = omega arith
lt-two-pow (suc n) = omega (arith, lt-two-pow n, pow-suc 2 n)

pub bit_and-zero : (a : ℕ) → bit_and a 0 ≡ 0
bit_and-zero a = bit_and-zero_below a a (lt-two-pow a)

bit_or-zero_below : (k a : ℕ) → a < 2 ^ k → bit_or a 0 ≡ a
bit_or-zero_below zero a h = let e : a ≡ 0 = omega arith in rw (e, bit_or-bitwise)
bit_or-zero_below (suc k) a h =
    omega (arith, bit_or_lowest a 0, bit_or-zero_below k (a / 2) (omega (arith, pow-suc 2 k)))

pub bit_or-zero : (a : ℕ) → bit_or a 0 ≡ a
bit_or-zero a = bit_or-zero_below a a (lt-two-pow a)

product_bound : (r b q c : ℕ) → r < b → q < c → r + b * q < b * c
product_bound r b q c h g = grind arith

-- A remainder by a product, in two steps.
pub mod-mul : (a b c : ℕ) → 0 < b → 0 < c → a % (b * c) ≡ a % b + b * (a / b % c)
mod-mul a b c hb hc =
    let r = a % b + b * (a / b % c) in
    let whole : a ≡ a % b + b * (a / b % c) + b * c * (a / b / c) =
      omega (arith, div-add-mod a b, ap (λ (t : ℕ). b * t) (div-add-mod (a / b) c)) in
    let small : a % b + b * (a / b % c) < b * c =
      product_bound (a % b) b (a / b % c) c (mod-lt a hb) (mod-lt (a / b) hc) in
    ap (λ (t : ℕ). t % (b * c)) whole
    ∙ add-mul-mod_self_left (a % b + b * (a / b % c)) (b * c) (a / b / c)
    ∙ mod-eq_of_lt small

pub two-pow_pos : (k : ℕ) → 0 < 2 ^ k
two-pow_pos k = one-le-pow k 2 (omega arith)

-- Masks and shifted operands.
mask_double : (p a : ℕ) → 0 < p → bit_and a (2 * p - 1) ≡ bit_and (a / 2) (p - 1) * 2 + a % 2
mask_double p a h =
    let half : (2 * p - 1) / 2 ≡ p - 1 = omega arith in
    omega (arith, bit_and_lowest a (2 * p - 1), ap (bit_and (a / 2)) half)

pub bit_and_mask : (k a : ℕ) → bit_and a (2 ^ k - 1) ≡ a % 2 ^ k
bit_and_mask zero a = omega (arith, bit_and-zero a)
bit_and_mask (suc k) a = rw (pow-succ' 2 k) (
    omega (
      arith,
      mask_double (2 ^ k) a (two-pow_pos k),
      bit_and_mask k (a / 2),
      mod-mul a 2 (2 ^ k) (omega arith) (two-pow_pos k),
    ))

or_double : (q r : ℕ) → bit_or (q * 2) r ≡ bit_or q (r / 2) * 2 + r % 2
or_double q r =
    let half : q * 2 / 2 ≡ q = omega arith in
    omega (arith, bit_or_lowest (q * 2) r, ap (λ (t : ℕ). bit_or t (r / 2)) half)

-- `(q << k) | r` adds up where `r` fits into `k` bits.
pub bit_or_disjoint : (k q r : ℕ) → r < 2 ^ k → bit_or (q * 2 ^ k) r ≡ q * 2 ^ k + r
bit_or_disjoint zero q r h =
    let e : r ≡ 0 = omega arith in rw e (omega (arith, bit_or-zero (q * 2 ^ 0)))
bit_or_disjoint (suc k) q r h =
    let double : q * 2 ^ suc k ≡ q * 2 ^ k * 2 =
      omega (arith, ap (λ (t : ℕ). q * t) (pow-suc 2 k)) in
    rw double (
      omega
        (arith, or_double (q * 2 ^ k) r, bit_or_disjoint k q (r / 2) (omega (arith, pow-suc 2 k))))

and_double : (x m : ℕ) → bit_and x (m * 2) ≡ bit_and (x / 2) m * 2
and_double x m =
    let half : m * 2 / 2 ≡ m = omega arith in
    omega (arith, bit_and_lowest x (m * 2), ap (bit_and (x / 2)) half)

-- A mask that ends in `k` zeros looks at the bits from the `k`-th on.
pub bit_and_shifted : (k x m : ℕ) → bit_and x (m * 2 ^ k) ≡ bit_and (x / 2 ^ k) m * 2 ^ k
bit_and_shifted zero x m =
    let one : m * 2 ^ 0 ≡ m = omega arith in
    let all : x / 2 ^ 0 ≡ x = omega arith in rw (one, all) (omega arith)
bit_and_shifted (suc k) x m =
    let double : m * 2 ^ suc k ≡ m * 2 ^ k * 2 =
      omega (arith, ap (λ (t : ℕ). m * t) (pow-suc 2 k)) in
    let deep : x / 2 ^ suc k ≡ x / 2 / 2 ^ k =
      ap (λ (t : ℕ). x / t) (pow-succ' 2 k) ∙ sym (div-div-eq-div-mul x 2 (2 ^ k)) in
    rw (double, deep)
      (omega (
        arith,
        and_double x (m * 2 ^ k),
        bit_and_shifted k (x / 2) m,
        ap (λ (t : ℕ). bit_and (x / 2 / 2 ^ k) m * t) (pow-suc 2 k),
      ))

-- `a | r` adds up where `a` ends in `k` zeros and `r` fits into them.
pub bit_or-add : (k a r : ℕ) → a % 2 ^ k ≡ 0 → r < 2 ^ k → bit_or a r ≡ a + r
bit_or-add k a r zeros small =
    let whole : a ≡ a / 2 ^ k * 2 ^ k = omega (arith, div-add-mod a (2 ^ k)) in
    ap (λ (t : ℕ). bit_or t r) whole
    ∙ bit_or_disjoint k (a / 2 ^ k) r small
    ∙ ap (λ (t : ℕ). t + r) (sym whole)

-- The bits below the `k`-th and those from it on are computed apart.
pub bit_and_split :
    (k a b : ℕ)
    → bit_and a b ≡ bit_and (a / 2 ^ k) (b / 2 ^ k) * 2 ^ k + bit_and (a % 2 ^ k) (b % 2 ^ k)
bit_and_split zero a b =
    let all : (x : ℕ) → x / 2 ^ 0 ≡ x = λ x. omega arith in
    let nothing : (x : ℕ) → x % 2 ^ 0 ≡ 0 = λ x. omega arith in
    rw (all a, all b, nothing a, nothing b) (omega (arith, bit_and-zero 0))
bit_and_split (suc k) a b =
    let deep : (x : ℕ) → x / 2 ^ suc k ≡ x / 2 / 2 ^ k =
      λ x. ap (λ (t : ℕ). x / t) (pow-succ' 2 k) ∙ sym (div-div-eq-div-mul x 2 (2 ^ k)) in
    let low : (x : ℕ) → x % 2 ^ suc k ≡ x % 2 + 2 * (x / 2 % 2 ^ k) = λ x.
      ap (λ (t : ℕ). x % t) (pow-succ' 2 k) ∙ mod-mul x 2 (2 ^ k) (omega arith) (two-pow_pos k) in
    let half : (x : ℕ) → (x % 2 + 2 * (x / 2 % 2 ^ k)) / 2 ≡ x / 2 % 2 ^ k = λ x. omega arith in
    let bit : (x : ℕ) → (x % 2 + 2 * (x / 2 % 2 ^ k)) % 2 ≡ x % 2 = λ x. omega arith in
    let lowest_low = bit_and_lowest (a % 2 + 2 * (a / 2 % 2 ^ k)) (b % 2 + 2 * (b / 2 % 2 ^ k)) in
    rw (deep a, deep b, low a, low b, lowest_low, half a, half b, bit a, bit b)
      (omega (
        arith,
        bit_and_lowest a b,
        bit_and_split k (a / 2) (b / 2),
        ap (λ (t : ℕ). bit_and (a / 2 / 2 ^ k) (b / 2 / 2 ^ k) * t) (pow-suc 2 k),
      ))

bit_or_comm_below : (n a b : ℕ) → a ≤ n → b ≤ n → bit_or a b ≡ bit_or b a
bit_or_comm_below zero a b ha hb =
    let ea : a ≡ 0 = omega arith in let eb : b ≡ 0 = omega arith in rw (ea, eb) refl
bit_or_comm_below (suc n) a b ha hb = omega (
  arith,
  bit_or_lowest a b,
  bit_or_lowest b a,
  bit_or_comm_below n (a / 2) (b / 2) (omega arith) (omega arith),
)

pub bit_or_comm : (a b : ℕ) → bit_or a b ≡ bit_or b a
bit_or_comm a b = bit_or_comm_below (a + b) a b (omega arith) (omega arith)
