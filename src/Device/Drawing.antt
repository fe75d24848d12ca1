-- ===== src/Device/Drawing.antt =====
-- What the driver of the screen draws.
use bailuwan.Base.Bits.{bit_or_disjoint}
use bailuwan.Base.{
  refl, ◌%◌, true, ◌/◌, ap, bit_or, Bool-cases, ◌^◌, ◌==◌, ◌⊎◌, ℕ, zero, suc, ◌+◌, ◌-◌, ◌*◌, ◌<◌,
  ◌≤◌, ◌≡◌, ◌≢◌, false, ◌&&◌, leb, ltb, if◌then◌else◌, arith, inl, inr,
}
use bailuwan.Base.Run.{ok}
use bailuwan.Device.Port.{Registers, set_register}
use bailuwan.Device.Screen.{
  Vga, init_vga, am_gpu_config, am_gpu_fbdraw, vga_update_screen, draw_rows, FbDraw, draw_row,
}

-- The pixels after a row, and after rows, that lie in the frame buffer.
drawn_row : ℕ → ℕ → FbDraw → ℕ → ℕ → Registers → Registers
drawn_row width zero ctl row col fb = fb
drawn_row width (suc n) ctl row col fb =
    drawn_row width n ctl row (col + 1)
      (set_register fb ((ctl.y + row) * width + ctl.x + col) (ctl.pixels (row * ctl.w + col)))

drawn_rows : ℕ → ℕ → FbDraw → ℕ → Registers → Registers
drawn_rows width zero ctl row fb = fb
drawn_rows width (suc n) ctl row fb =
    drawn_rows width n ctl (row + 1) (drawn_row width ctl.w ctl row 0 fb)

draw_row-drawn_row :
    (size width n : ℕ) (ctl : FbDraw) (row col : ℕ) (fb : Registers)
    → (ctl.y + row) * width + ctl.x + col + n ≤ size
    → draw_row size width n ctl row col fb ≡ ok (drawn_row width n ctl row col fb)
unfolding draw_row drawn_row
draw_row-drawn_row size width zero ctl row col fb h = refl
draw_row-drawn_row size width (suc n) ctl row col fb h =
    let at = (ctl.y + row) * width + ctl.x + col in
    let inside : ltb at size ≡ true = ground arith in
    rw inside (
      draw_row-drawn_row size width n ctl row (col + 1)
        (set_register fb at (ctl.pixels (row * ctl.w + col))) (omega arith))

drawn_row_lem :
    (width n : ℕ) (ctl : FbDraw) (row col : ℕ) (fb : Registers) (p : ℕ)
    → let base = (ctl.y + row) * width + ctl.x + col in
      drawn_row width n ctl row col fb p ≡ (
        if leb base p && ltb p (base + n)
        then ctl.pixels (row * ctl.w + col + (p - base))
        else fb p)
unfolding drawn_row
drawn_row_lem width zero ctl row col fb p = ground arith
drawn_row_lem width (suc n) ctl row col fb p =
    let base = (ctl.y + row) * width + ctl.x + col in
    let rest =
      drawn_row_lem width n ctl row (col + 1)
        (set_register fb base (ctl.pixels (row * ctl.w + col))) p in
    ground (arith, rest)

rows_above : (width a b : ℕ) → a < b → a * width + width ≤ b * width
rows_above width a b h =
    let k = b - suc a in let whole : b ≡ suc a + k = omega arith in rw whole (omega arith)

ltb_cases : (a b : ℕ) → b ≢ a → (a < b) ⊎ (b < a)
ltb_cases a b h = ground arith

row_apart :
    (width r y x X w : ℕ)
    → X < width
    → x + w ≤ width
    → y ≢ r
    → (leb (r * width + x) (y * width + X) && ltb (y * width + X) (r * width + x + w)) ≡ false
row_apart width r y x X w hX hw ne = elim (ltb_cases r y ne) [
  | inl above ↦ let far = rows_above width r y above in ground arith
  | inr below ↦ let far = rows_above width y r below in ground arith
]

-- One row, at the pixel `X` of the line `Y`.
drawn_row_at :
    (width : ℕ) (ctl : FbDraw) (row : ℕ) (fb : Registers) (X Y : ℕ)
    → X < width
    → ctl.x + ctl.w ≤ width
    → drawn_row width ctl.w ctl row 0 fb (Y * width + X) ≡ (
        if Y == ctl.y + row && (leb ctl.x X && ltb X (ctl.x + ctl.w))
        then ctl.pixels (row * ctl.w + (X - ctl.x))
        else fb (Y * width + X))
drawn_row_at width ctl row fb X Y hX hw =
    let whole = drawn_row_lem width ctl.w ctl row 0 fb (Y * width + X) in
    elim (Bool-cases (Y == ctl.y + row)) [
      | inl here ↦
          let line : Y * width ≡ (ctl.y + row) * width = ap (λ (t : ℕ). t * width) (ground arith) in
          ground (arith, whole, here, line)
      | inr other ↦
          let apart = row_apart width (ctl.y + row) Y ctl.x X ctl.w hX hw (ground arith) in
          ground (arith, whole, other, apart)
    ]

drawn_rows_at :
    (width n : ℕ) (ctl : FbDraw) (row : ℕ) (fb : Registers) (X Y : ℕ)
    → X < width
    → ctl.x + ctl.w ≤ width
    → drawn_rows width n ctl row fb (Y * width + X) ≡ (
        if (leb (ctl.y + row) Y && ltb Y (ctl.y + row + n))
          && (leb ctl.x X && ltb X (ctl.x + ctl.w))
        then ctl.pixels ((Y - ctl.y) * ctl.w + (X - ctl.x))
        else fb (Y * width + X))
unfolding drawn_rows
drawn_rows_at width zero ctl row fb X Y hX hw = ground arith
drawn_rows_at width (suc n) ctl row fb X Y hX hw =
    let first = drawn_row_at width ctl row fb X Y hX hw in
    let rest = drawn_rows_at width n ctl (row + 1) (drawn_row width ctl.w ctl row 0 fb) X Y hX hw in
    elim (Bool-cases (Y == ctl.y + row)) [
      | inl here ↦
          let line : row * ctl.w ≡ (Y - ctl.y) * ctl.w = ap (λ (t : ℕ). t * ctl.w) (ground arith) in
          ground (arith, first, rest, here, line)
      | inr other ↦ ground (arith, first, rest, other)
    ]

width_lem :
    (width height : ℕ)
    → width < 2 ^ 16
    → height < 2 ^ 16
    → bit_or (width * 2 ^ 16) height / 2 ^ 16 % 2 ^ 16 ≡ width
width_lem width height hw hh = rw (bit_or_disjoint 16 width height hh) (omega arith)

draw_rows-drawn_rows :
    (width height n : ℕ) (ctl : FbDraw) (row : ℕ) (fb : Registers)
    → ctl.x + ctl.w ≤ width
    → ctl.y + row + n ≤ height
    → draw_rows (width * height) width n ctl row fb ≡ ok (drawn_rows width n ctl row fb)
unfolding draw_rows drawn_rows
draw_rows-drawn_rows width height zero ctl row fb hx hy = refl
draw_rows-drawn_rows width height (suc n) ctl row fb hx hy =
    let line = rows_above width (ctl.y + row) height (omega arith) in
    let fits : (ctl.y + row) * width + ctl.x + 0 + ctl.w ≤ width * height = omega arith in
    rw (draw_row-drawn_row (width * height) width ctl.w ctl row 0 fb fits) (
      draw_rows-drawn_rows width height n ctl (row + 1) (drawn_row width ctl.w ctl row 0 fb) hx
        (omega arith))

-- After `init_vga` with a width and a height below 2 ^ 16, a rectangle inside the frame buffer that
-- the guest draws with `sync` is drawn, stands on the screen after the next update, and the rest of
-- the screen is black.
pub vga_update_screen-am_gpu_fbdraw :
    (width height : ℕ) (ctl : FbDraw) (v : Vga) (X Y : ℕ)
    → width < 2 ^ 16
    → height < 2 ^ 16
    → ctl.sync ≡ true
    → ctl.x + ctl.w ≤ width
    → ctl.y + ctl.h ≤ height
    → X < width
    → Y < height
    → (v' : Vga) × (am_gpu_fbdraw (width * height) ctl (init_vga width height v) ≡ ok v')
      × ((vga_update_screen v').screen (Y * width + X) ≡ (
          if (leb ctl.y Y && ltb Y (ctl.y + ctl.h)) && (leb ctl.x X && ltb X (ctl.x + ctl.w))
          then ctl.pixels ((Y - ctl.y) * ctl.w + (X - ctl.x))
          else 0))
unfolding vga_update_screen am_gpu_fbdraw am_gpu_config init_vga
vga_update_screen-am_gpu_fbdraw width height ctl v X Y hw hh sync inside below hX hY =
    let start = init_vga width height v in
    let ctl' : FbDraw = record ctl { sync = true } in
    let vmem = drawn_rows width ctl.h ctl' 0 start.vmem in
    let drawn = drawn_rows_at width ctl.h ctl' 0 start.vmem X Y hX inside in
    let line : ctl.y + 0 ≡ ctl.y = omega arith in
    let row = rows_above width Y height hY in
    let on_screen : ltb (Y * width + X) (width * height) ≡ true = ground (arith, row) in
    (
      record start { vmem = vmem; vgactl = set_register start.vgactl 1 1 },
      rw
          (
            sync,
            width_lem width height hw hh,
            draw_rows-drawn_rows width height ctl.h ctl' 0 start.vmem inside (omega arith),
          )
          refl,
      rw (line, on_screen) at drawn,
    )
