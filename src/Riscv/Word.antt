-- ===== src/Riscv/Word.antt =====
-- `word_t` as a number below 2 ^ 32, `sword_t` as the integer that such a number stands for, and
-- the macros BITS and SEXT of nemu/include/macro.h.
use bailuwan.Base.Bits.{bit_and_mask}
use bailuwan.Base.Int.{ltb_ℤ, negsuc, pos, ℤ}
use bailuwan.Base.{
  arith, ltb, ◌-◌, ◌<◌, ◌≡◌, ◌/◌, Bool, if◌then◌else◌, ◌*◌, bit_and, ◌^◌, ◌+◌, ◌%◌, ℕ,
}

abbrev pub word : ℕ → ℕ
word n = n % 2 ^ 32

unfoldable pub add_word : ℕ → ℕ → ℕ
add_word a b = word (a + b)

unfoldable pub sub_word : ℕ → ℕ → ℕ
sub_word a b = word (a + 2 ^ 32 - b)

unfoldable pub complement : ℕ → ℕ
complement a = 2 ^ 32 - 1 - a

-- `((1ull << (bits)) - 1)`
unfoldable pub bitmask : ℕ → ℕ
bitmask bits = 2 ^ bits - 1

-- `(((x) >> (lo)) & BITMASK((hi) - (lo) + 1))`
unfoldable pub bits : ℕ → ℕ → ℕ → ℕ
unfolding bitmask
bits x hi lo = bit_and (x / 2 ^ lo) (bitmask (hi - lo + 1))

-- A bit field of `len` bits read as a signed number, as a `uint64_t`.
unfoldable pub sext : ℕ → ℕ → ℕ
sext x len = let n = x % 2 ^ len in if ltb n (2 ^ (len - 1)) then n else n + (2 ^ 64 - 2 ^ len)

-- `uint64_t` shifted to the left.
unfoldable pub shl64 : ℕ → ℕ → ℕ
shl64 x k = x * 2 ^ k % 2 ^ 64

-- `(sword_t)w`
abbrev pub signed : ℕ → ℤ
signed w = if ltb w (2 ^ 31) then pos w else negsuc (2 ^ 32 - 1 - w)

-- `(word_t)z`
abbrev pub of_int : ℤ → ℕ
of_int (pos n) = word n
of_int (negsuc n) = 2 ^ 32 - 1 - word n

-- `(sword_t)a < (sword_t)b`
unfoldable pub less_signed : ℕ → ℕ → Bool
less_signed a b = ltb_ℤ (signed a) (signed b)

-- `a << (k & 0x1f)` and `a >> (k & 0x1f)` on `word_t`, and the latter on `sword_t`, where the host
-- shifts copies of the sign in.
unfoldable pub shift_left : ℕ → ℕ → ℕ
shift_left a k = word (a * 2 ^ bit_and k 0x1f)

unfoldable pub shift_right : ℕ → ℕ → ℕ
shift_right a k = a / 2 ^ bit_and k 0x1f

-- `z >> k` on a signed type.
unfoldable pub asr : ℤ → ℕ → ℤ
asr (pos n) k = pos (n / 2 ^ k)
asr (negsuc n) k = negsuc (n / 2 ^ k)

unfoldable pub shift_right_signed : ℕ → ℕ → ℕ
unfolding asr
shift_right_signed a k = of_int (asr (signed a) (bit_and k 0x1f))

pub bits-field : (x hi lo : ℕ) → bits x hi lo ≡ x / 2 ^ lo % 2 ^ (hi - lo + 1)
unfolding bits
bits-field x hi lo = bit_and_mask (hi - lo + 1) (x / 2 ^ lo)

pub of_int-lt : (z : ℤ) → of_int z < 2 ^ 32
of_int-lt (pos n) = omega arith
of_int-lt (negsuc n) = omega arith

-- Casting a word to the signed type and back changes nothing.
pub of_int-signed : (w : ℕ) → w < 2 ^ 32 → of_int (signed w) ≡ w
of_int-signed w h = ground arith
