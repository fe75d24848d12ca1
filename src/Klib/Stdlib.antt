-- ===== src/Klib/Stdlib.antt =====
-- abstract-machine/klib/src/stdlib.c and the macro ROUNDUP of klib-macros.h, on a 32-bit target.
use bailuwan.Base.{
  ℕ, ◌+◌, ◌-◌, ◌*◌, ◌/◌, ◌%◌, ◌^◌, ◌==◌, ltb, if◌then◌else◌, List, [], ◌∷◌, Option, none, some,
  bit_and,
}
use bailuwan.Base.Run.{Run, ok, stop, undefined}
use bailuwan.Klib.Print.{is_digit}

-- `next` is an `unsigned long`.
unfoldable pub rand : ℕ → ℕ × ℕ
rand next = let next' = (next * 1_103_515_245 + 12_345) % 2 ^ 32 in (next' / 65_536 % 32_768, next')

unfoldable pub skip_spaces : List ℕ → List ℕ
skip_spaces [] = []
skip_spaces (c ∷ cs) = let rest = skip_spaces cs in if c == b' ' then rest else c ∷ cs

-- The loop over the digits. `x * 10 + *nptr - '0'` is an `int`, of which every step must fit.
unfoldable pub read_digits : List ℕ → ℕ → Run ℕ
unfolding is_digit
read_digits [] x = ok x
read_digits (c ∷ cs) x =
    let rest = read_digits cs (x * 10 + c - b'0') in
    if is_digit c then if ltb (x * 10 + c) (2 ^ 31) then rest else stop undefined else ok x

unfoldable pub atoi : List ℕ → Run ℕ
unfolding skip_spaces read_digits
atoi nptr = read_digits (skip_spaces nptr) 0

-- ROUNDUP(a, 8): `((a + 7) & ~7)` on `uintptr_t`.
unfoldable pub round_up : ℕ → ℕ
round_up a = bit_and ((a + 7) % 2 ^ 32) (2 ^ 32 - 8)

-- `alloc_base`, and -1 for the first call.
unfoldable pub malloc : ℕ → ℕ → ℕ → ℕ → Option ℕ × ℕ
unfolding round_up
malloc heap_start heap_end size alloc_base =
    let base = if alloc_base == 2 ^ 32 - 1 then round_up heap_start else alloc_base in
    let new_base = (base + round_up size) % 2 ^ 32 in
    if ltb heap_end new_base then (none, base) else (some base, new_base)
