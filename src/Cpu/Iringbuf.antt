-- ===== src/Cpu/Iringbuf.antt =====
-- nemu/src/cpu/cpu-exec.c: the ring buffer of the latest instructions (CONFIG_ITRACE).
use bailuwan.Base.{ℕ, zero, suc, ◌+◌, ◌%◌, Bool, ◌==◌, if◌then◌else◌, List, [], ◌∷◌}
use bailuwan.Device.Port.{set_register}

abbrev pub iringbuf_sz : ℕ
iringbuf_sz = 16

-- An entry is the text that `disasm_and_dump` writes for an instruction; a number stands for it.
pub record Iringbuf : Type 0 where
  pub buf : ℕ → ℕ
  pub rptr : ℕ
  pub wptr : ℕ

abbrev pub empty_iringbuf : Iringbuf
empty_iringbuf = record { buf = λ i. 0; rptr = 0; wptr = 0 }

unfoldable pub iringbuf_push : ℕ → Iringbuf → Iringbuf
iringbuf_push text b =
    let wptr = (b.wptr + 1) % iringbuf_sz in
    record {
      buf = set_register b.buf b.wptr text;
      rptr = if wptr == b.rptr then (b.rptr + 1) % iringbuf_sz else b.rptr;
      wptr = wptr;
    }

-- The lines, and whether they carry the mark. The loop stops at `wptr` after less than 16 rounds.
unfoldable pub display_loop : ℕ → ℕ → Iringbuf → List (ℕ × Bool)
display_loop zero i b = []
display_loop (suc fuel) i b =
    let rest = display_loop fuel ((i + 1) % iringbuf_sz) b in
    if i == b.wptr then [] else (b.buf i, i + 1 == b.wptr) ∷ rest

unfoldable pub iringbuf_display : Iringbuf → List (ℕ × Bool)
unfolding display_loop
iringbuf_display b = display_loop iringbuf_sz b.rptr b
