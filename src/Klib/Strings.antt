-- ===== src/Klib/Strings.antt =====
-- abstract-machine/klib/src/string.c: the functions on texts that a NUL ends. Each loop runs on
-- fuel, and comes to `none` if that does not suffice.
use bailuwan.Base.{ℕ, zero, suc, ◌+◌, ◌-◌, ◌==◌, ◌&&◌, not, if◌then◌else◌, Option, none, some}
use bailuwan.Base.Int.{ℤ, pos, sub_ℕ}
use bailuwan.Klib.Memory.{Bytes, set_byte}

-- The address of the NUL.
unfoldable pub find_nul : ℕ → Bytes → ℕ → Option ℕ
find_nul zero m p = none
find_nul (suc fuel) m p = let rest = find_nul fuel m (p + 1) in if m p == 0 then some p else rest

distance : ℕ → Option ℕ → Option ℕ
distance s none = none
distance s (some p) = some (p - s)

unfoldable pub strlen : ℕ → Bytes → ℕ → Option ℕ
unfolding find_nul distance
strlen fuel m s = distance s (find_nul fuel m s)

-- `while ((*dst++ = *src++) != '\0')`
unfoldable pub copy_text : ℕ → Bytes → ℕ → ℕ → Option Bytes
unfolding set_byte
copy_text zero m dst src = none
copy_text (suc fuel) m dst src =
    let m' = set_byte m dst (m src) in
    let rest = copy_text fuel m' (dst + 1) (src + 1) in if m src == 0 then some m' else rest

unfoldable pub strcpy : ℕ → Bytes → ℕ → ℕ → Option Bytes
unfolding copy_text
strcpy fuel m dst src = copy_text fuel m dst src

copy_behind : ℕ → Bytes → Option ℕ → ℕ → Option Bytes
unfolding copy_text
copy_behind fuel m none src = none
copy_behind fuel m (some p) src = copy_text fuel m p src

unfoldable pub strcat : ℕ → Bytes → ℕ → ℕ → Option Bytes
unfolding copy_behind find_nul
strcat fuel m dst src = copy_behind fuel m (find_nul fuel m dst) src

unfoldable pub strcmp : ℕ → Bytes → ℕ → ℕ → Option ℤ
strcmp zero m s1 s2 = none
strcmp (suc fuel) m s1 s2 =
    let rest = strcmp fuel m (s1 + 1) (s2 + 1) in
    if not (m s1 == 0) && m s1 == m s2 then rest else some (sub_ℕ (m s1) (m s2))

-- The loop of `strncmp` with `n` bytes left.
unfoldable pub strncmp_loop : ℕ → Bytes → ℕ → ℕ → ℤ
strncmp_loop zero m s1 s2 = pos 0
strncmp_loop (suc n) m s1 s2 =
    let rest = strncmp_loop n m (s1 + 1) (s2 + 1) in
    if not (m s1 == 0) && m s1 == m s2 then rest else sub_ℕ (m s1) (m s2)

unfoldable pub strncmp : Bytes → ℕ → ℕ → ℕ → ℤ
unfolding strncmp_loop
strncmp m s1 s2 n = if n == 0 then pos 0 else strncmp_loop n m s1 s2
