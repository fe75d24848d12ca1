-- ===== src/Klib/Compare.antt =====
-- What `memcmp` compares, and what `strncpy` leaves alone.
use mathlib.Core.Path.{subst}
use bailuwan.Base.{
  refl, zero, inr, ◌==◌, Bool-cases, suc, inl, ◌+◌, ◌⊎◌, arith, ◌<◌, ◌≡◌, ◌≢◌, ◌≤◌, ℕ,
}
use bailuwan.Klib.Memory.{Bytes, memcmp, memcmp_loop, strncpy, strncpy_loop, strncpy_pad, set_byte}
use bailuwan.Base.Int.{pos, sub_ℕ}

-- The blocks agree on the `n` bytes from index `i` on.
abbrev pub Agree : Bytes → ℕ → ℕ → ℕ → ℕ → Type 0
Agree m a b n i = (k : ℕ) → i ≤ k → k < i + n → m (a + k) ≡ m (b + k)

sub_ℕ-ne : (x y : ℕ) → x ≢ y → sub_ℕ x y ≢ pos 0
sub_ℕ-ne x y h = ground arith

Agree-front :
    (n : ℕ) (m : Bytes) (a b i : ℕ)
    → m (a + i) ≡ m (b + i)
    → Agree m a b n (i + 1)
    → Agree m a b (suc n) i
Agree-front n m a b i first agree = λ k lo hi. elim (Bool-cases (k == i)) [
  | inl here ↦ let at : i ≡ k = ground arith in subst (λ t. m (a + t) ≡ m (b + t)) at first
  | inr later ↦ agree k (ground arith) (omega arith)
]

memcmp_loop-Agree :
    (n : ℕ) (m : Bytes) (a b i : ℕ)
    → ((memcmp_loop n m a b i ≡ pos 0) × Agree m a b n i)
      ⊎ ((memcmp_loop n m a b i ≢ pos 0)
          × ((k : ℕ) × (i ≤ k) × (k < i + n) × (m (a + k) ≢ m (b + k))))
unfolding memcmp_loop
memcmp_loop-Agree zero m a b i = inl (refl, λ k lo hi. absurd (omega arith))
memcmp_loop-Agree (suc n) m a b i = elim (Bool-cases (m (a + i) == m (b + i))) [
  | inr differ ↦
      let apart : m (a + i) ≢ m (b + i) = ground arith in
      inr (rw differ (sub_ℕ-ne (m (a + i)) (m (b + i)) apart), (i, omega arith, omega arith, apart))
  | inl same ↦ elim (memcmp_loop-Agree n m a b (i + 1)) [
    | inl (zero_left, agree) ↦ inl (rw same zero_left, Agree-front n m a b i (ground arith) agree)
    | inr (left, (k, lo, hi, apart)) ↦ inr (rw same left, (k, omega arith, omega arith, apart))
  ]
]

-- `memcmp` is 0 if the two blocks are the same, and otherwise there is a byte where they differ and
-- it is not 0.
pub memcmp-Agree :
    (m : Bytes) (s1 s2 n : ℕ)
    → ((memcmp m s1 s2 n ≡ pos 0) × Agree m s1 s2 n 0)
      ⊎ ((memcmp m s1 s2 n ≢ pos 0) × ((k : ℕ) × (0 ≤ k) × (k < 0 + n) × (m (s1 + k) ≢ m (s2 + k))))
unfolding memcmp
memcmp-Agree m s1 s2 n = memcmp_loop-Agree n m s1 s2 0

strncpy_pad_outside :
    (n : ℕ) (m : Bytes) (dst i j : ℕ)
    → (j < dst + i) ⊎ (dst + i + n ≤ j)
    → strncpy_pad n m dst i j ≡ m j
unfolding strncpy_pad set_byte
strncpy_pad_outside zero m dst i j h = refl
strncpy_pad_outside (suc n) m dst i j h =
    ground (arith, strncpy_pad_outside n (set_byte m (dst + i) 0) dst (i + 1) j)

strncpy_loop_outside :
    (n : ℕ) (m : Bytes) (dst src i j : ℕ)
    → (j < dst + i) ⊎ (dst + i + n ≤ j)
    → strncpy_loop n m dst src i j ≡ m j
unfolding strncpy_loop set_byte
strncpy_loop_outside zero m dst src i j h = refl
strncpy_loop_outside (suc n) m dst src i j h = elim (Bool-cases (m (src + i) == 0)) [
  | inl end ↦ rw end (strncpy_pad_outside (suc n) m dst i j h)
  | inr more ↦ rw more (
      ground (arith, strncpy_loop_outside n (set_byte m (dst + i) (m (src + i))) dst src (i + 1) j))
]

-- `strncpy` writes to no byte outside the `n` bytes of its target.
pub strncpy_outside :
    (m : Bytes) (dst src n j : ℕ) → (j < dst) ⊎ (dst + n ≤ j) → strncpy m dst src n j ≡ m j
unfolding strncpy
strncpy_outside m dst src n j h = strncpy_loop_outside n m dst src 0 j (ground arith)
