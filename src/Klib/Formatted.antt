-- ===== src/Klib/Formatted.antt =====
-- `vsnprintf` of abstract-machine/klib/src/stdio.c and the text that its format stands for.
use bailuwan.Base.{
  ℕ, ◌+◌, ◌-◌, ◌^◌, ◌%◌, ◌<◌, ◌≤◌, ◌≡◌, List, ◌++◌, length, get_or, ◌⊎◌, Option, none, some,
}
use bailuwan.Base.Int.{ℤ}
use bailuwan.Riscv.Word.{signed}
use bailuwan.Base.Run.{Run, ok, stop, undefined}
use bailuwan.Klib.Memory.{Bytes}
use bailuwan.Klib.Print.{Arg}
use bailuwan.Klib.Formats.{Formats, Undefined}
use bailuwan.Klib.Snprintf.{least}

-- What the loop comes to that begins with the text `t0`.
Looped : ℕ → List ℕ → List Arg → List ℕ → Run (Option (List ℕ)) → Type 0
Looped long_bits fmt args t0 (stop w) = (w ≡ undefined) × Undefined long_bits fmt args
Looped long_bits fmt args t0 (ok none) = Unit {0}
Looped long_bits fmt args t0 (ok (some t)) =
    (u : List ℕ) × (t ≡ t0 ++ u) × Formats long_bits fmt args u

-- The result of `vsnprintf` where its format has a text: the memory after it, and the length of
-- the text as an `int`.
abbrev pub Printed : Bytes → ℕ → ℕ → List ℕ → Run (Option (Bytes × ℤ)) → Type 0
Printed mem out n t r =
    (mem' : Bytes) × (r ≡ ok (some (mem', signed (length t % 2 ^ 32))))
    × ((i : ℕ) → i < n - 1 → i < length t → mem' (out + i) ≡ get_or t i 0)
    × (0 < n → mem' (out + least (length t) (n - 1)) ≡ 0)
    × ((j : ℕ) → (j < out) ⊎ (out + n ≤ j) → mem' j ≡ mem j)
