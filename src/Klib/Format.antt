-- ===== src/Klib/Format.antt =====
-- What abstract-machine/klib/src/stdio.c promises: a text of the format and the arguments, of which
-- the buffer holds what fits.
use bailuwan.Base.Int.{ℤ}
use bailuwan.Riscv.Word.{signed}
use bailuwan.Base.{
  ℕ, ◌^◌, ◌%◌, ◌+◌, ◌-◌, ltb, if◌then◌else◌, List, [], ◌∷◌, ◌++◌, length, Option, none, some,
}
use bailuwan.Base.Run.{Run, ok, and_then}
use bailuwan.Klib.Memory.{Bytes, set_byte}
use bailuwan.Klib.Print.{Arg, format_loop}

-- Where WRITE_CHAR writes: memory, the start of the buffer, and the variables of `vsnprintf`. Of
-- `needed` these are the lowest 32 bits, which are all that is returned of it.
pub record Buffer : Type 0 where
  pub mem : Bytes
  pub out : ℕ
  pub pos : ℕ
  pub cap : ℕ
  pub needed : ℕ

unfoldable pub write_char : ℕ → Buffer → Buffer
unfolding set_byte
write_char c b =
    if ltb b.pos b.cap
    then record b {
      mem = set_byte b.mem (b.out + b.pos) c;
      pos = b.pos + 1;
      needed = (b.needed + 1) % 2 ^ 32;
    }
    else record b { needed = (b.needed + 1) % 2 ^ 32 }

-- The end of `vsnprintf`, for the state that its loop leaves, with `(int)needed`.
unfoldable pub terminate : ℕ → Option Buffer → Run (Option (Bytes × ℤ))
unfolding set_byte
terminate n none = ok none
terminate n (some b) =
    ok (some (if ltb 0 n then set_byte b.mem (b.out + b.pos) 0 else b.mem, signed b.needed))

-- The fuel is enough for the rounds of the loop, of which each reads a byte of the format.
unfoldable pub vsnprintf : ℕ → Bytes → ℕ → ℕ → List ℕ → List Arg → Run (Option (Bytes × ℤ))
unfolding format_loop write_char terminate
vsnprintf long_bits mem out n fmt args =
    let b : Buffer = record {
      mem = mem;
      out = out;
      pos = 0;
      cap = if ltb 0 n then n - 1 else 0;
      needed = 0;
    } in
    and_then (format_loop write_char long_bits (length fmt + 1) fmt args b) λ r. terminate n r

-- The whole text.
unfoldable pub append : ℕ → List ℕ → List ℕ
append c t = t ++ (c ∷ [])

unfoldable pub format : ℕ → List ℕ → List Arg → Run (Option (List ℕ))
unfolding format_loop append
format long_bits fmt args = format_loop append long_bits (length fmt + 1) fmt args []
