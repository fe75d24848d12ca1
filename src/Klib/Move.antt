-- ===== src/Klib/Move.antt =====
-- What the copies leave in memory.
use bailuwan.Base.{
  ap, fun_ext, zero, ◌-◌, suc, ltb, arith, ◌+◌, ◌&&◌, ◌≡◌, ◌⊎◌, leb, ◌≤◌, if◌then◌else◌, ℕ,
}
use bailuwan.Klib.Memory.{memcpy, memmove, Bytes, set_byte, copy_forward, copy_backward}

-- `n` bytes from `s` on as they are in `m`, at `d`; the rest of `m`.
abbrev pub moved : Bytes → ℕ → ℕ → ℕ → Bytes
moved m d s n j = if leb d j && ltb j (d + n) then m (s + (j - d)) else m j

copy_forward-byte :
    (n : ℕ) (m : Bytes) (d s i j : ℕ)
    → (d ≤ s) ⊎ (s + i + n ≤ d + i)
    → copy_forward n m d s i j
      ≡ (if leb (d + i) j && ltb j (d + i + n) then m (s + (j - d)) else m j)
unfolding copy_forward set_byte
copy_forward-byte zero m d s i j h = ground arith
copy_forward-byte (suc n) m d s i j h =
    ground (arith, copy_forward-byte n (set_byte m (d + i) (m (s + i))) d s (i + 1) j)

copy_backward-byte :
    (n : ℕ) (m : Bytes) (d s j : ℕ) → s ≤ d → copy_backward n m d s j ≡ moved m d s n j
unfolding copy_backward set_byte
copy_backward-byte zero m d s j h = ground arith
copy_backward-byte (suc n) m d s j h =
    ground (arith, copy_backward-byte n (set_byte m (d + n) (m (s + n))) d s j)

-- `memmove` moves the block as it was before the call, also where the two blocks overlap, and
-- changes nothing else.
pub memmove-moved : (m : Bytes) (dst src n : ℕ) → memmove m dst src n ≡ moved m dst src n
unfolding memmove
memmove-moved m dst src n =
    fun_ext
      (λ j. ground (arith, copy_forward-byte n m dst src 0 j, copy_backward-byte n m dst src j))

-- `memcpy` does what `memmove` does where the blocks do not overlap or the target begins first.
pub memcpy-memmove :
    (m : Bytes) (out src n : ℕ)
    → (out ≤ src) ⊎ (src + n ≤ out)
    → memcpy m out src n ≡ memmove m out src n
unfolding memcpy
memcpy-memmove m out src n apart = fun_ext (λ j.
    let moved_byte : memmove m out src n j ≡ moved m out src n j =
      ap (λ f. f j) (memmove-moved m out src n) in
    ground (arith, copy_forward-byte n m out src 0 j))
