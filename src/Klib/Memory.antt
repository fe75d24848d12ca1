-- ===== src/Klib/Memory.antt =====
-- abstract-machine/klib/src/string.c: the functions on blocks of memory. A pointer is an address, and
-- memory maps addresses to bytes.
use bailuwan.Base.Int.{sub_ℕ, pos, ℤ}
use bailuwan.Base.{◌%◌, zero, suc, ◌+◌, ◌==◌, ◌||◌, ltb, if◌then◌else◌, ℕ}

abbrev pub Bytes : Type 0
Bytes = ℕ → ℕ

-- `*p = v`
unfoldable pub set_byte : Bytes → ℕ → ℕ → Bytes
set_byte m p v j = if j == p then v else m j

-- The loops that count up, with `n` bytes left from index `i` on.
unfoldable pub fill_loop : ℕ → Bytes → ℕ → ℕ → ℕ → Bytes
unfolding set_byte
fill_loop zero m s uc i = m
fill_loop (suc n) m s uc i = fill_loop n (set_byte m (s + i) uc) s uc (i + 1)

unfoldable pub memset : Bytes → ℕ → ℕ → ℕ → Bytes
unfolding fill_loop
memset m s c n = fill_loop n m s (c % 256) 0

unfoldable pub copy_forward : ℕ → Bytes → ℕ → ℕ → ℕ → Bytes
unfolding set_byte
copy_forward zero m d s i = m
copy_forward (suc n) m d s i = copy_forward n (set_byte m (d + i) (m (s + i))) d s (i + 1)

-- The loop that counts down, from index `n - 1` on.
unfoldable pub copy_backward : ℕ → Bytes → ℕ → ℕ → Bytes
unfolding set_byte
copy_backward zero m d s = m
copy_backward (suc n) m d s = copy_backward n (set_byte m (d + n) (m (s + n))) d s

unfoldable pub memmove : Bytes → ℕ → ℕ → ℕ → Bytes
unfolding copy_forward copy_backward
memmove m dst src n =
    if dst == src || n == 0
    then m
    else if ltb dst src
    then copy_forward n m dst src 0
    else copy_backward n m dst src

unfoldable pub memcpy : Bytes → ℕ → ℕ → ℕ → Bytes
unfolding copy_forward
memcpy m out in' n = copy_forward n m out in' 0

-- The loop of `memcmp`, for an unsigned `char`.
unfoldable pub memcmp_loop : ℕ → Bytes → ℕ → ℕ → ℕ → ℤ
memcmp_loop zero m a b i = pos 0
memcmp_loop (suc n) m a b i =
    let rest = memcmp_loop n m a b (i + 1) in
    if m (a + i) == m (b + i) then rest else sub_ℕ (m (a + i)) (m (b + i))

unfoldable pub memcmp : Bytes → ℕ → ℕ → ℕ → ℤ
unfolding memcmp_loop
memcmp m s1 s2 n = memcmp_loop n m s1 s2 0

-- The second loop of `strncpy`.
unfoldable pub strncpy_pad : ℕ → Bytes → ℕ → ℕ → Bytes
unfolding set_byte
strncpy_pad zero m dst i = m
strncpy_pad (suc n) m dst i = strncpy_pad n (set_byte m (dst + i) 0) dst (i + 1)

-- The first loop, and then the second.
unfoldable pub strncpy_loop : ℕ → Bytes → ℕ → ℕ → ℕ → Bytes
unfolding strncpy_pad set_byte
strncpy_loop zero m dst src i = m
strncpy_loop (suc n) m dst src i =
    let rest = strncpy_loop n (set_byte m (dst + i) (m (src + i))) dst src (i + 1) in
    if m (src + i) == 0 then strncpy_pad (suc n) m dst i else rest

unfoldable pub strncpy : Bytes → ℕ → ℕ → ℕ → Bytes
unfolding strncpy_loop
strncpy m dst src n = strncpy_loop n m dst src 0
