-- ===== src/Device/Screen.antt =====
-- nemu/src/device/vga.c: the screen; abstract-machine/am/src/platform/nemu/ioe/gpu.c: its driver.
use bailuwan.Base.{ℕ, zero, suc, ◌+◌, ◌*◌, ◌/◌, ◌%◌, ◌^◌, Bool, ◌==◌, ltb, bit_or, if◌then◌else◌}
use bailuwan.Base.Run.{Run, ok, stop, assert_fail, and_then}
use bailuwan.Device.Port.{Registers, set_register}

-- The control registers of the screen, its memory, and what it shows.
pub record Vga : Type 0 where
  pub vgactl : Registers
  pub vmem : Registers
  pub screen : Registers

unfoldable pub vga_update_screen : Vga → Vga
vga_update_screen v =
    if v.vgactl 1 == 0 then v else record v { screen = v.vmem; vgactl = set_register v.vgactl 1 0 }

-- `width` and `height` fit into 16 bits. The `memset` is that of CONFIG_VGA_SHOW_SCREEN.
unfoldable pub init_vga : ℕ → ℕ → Vga → Vga
init_vga width height v = record v {
  vgactl = set_register v.vgactl 0 (bit_or (width * 2 ^ 16) height);
  vmem = λ i. if ltb i (width * height) then 0 else v.vmem i;
}

pub record GpuConfig : Type 0 where
  pub width : ℕ
  pub height : ℕ

-- `inw(VGACTL_ADDR + 2)` and `inw(VGACTL_ADDR)`.
unfoldable pub am_gpu_config : Vga → GpuConfig
am_gpu_config v = record { width = v.vgactl 0 / 2 ^ 16 % 2 ^ 16; height = v.vgactl 0 % 2 ^ 16 }

pub record FbDraw : Type 0 where
  pub x : ℕ
  pub y : ℕ
  pub w : ℕ
  pub h : ℕ
  pub pixels : Registers
  pub sync : Bool

-- The frame buffer has `size` pixels. A write behind it is one to an address without a device, which
-- fails the assertion of `check_bound`.
module _ (size : ℕ) where
  -- `n` pixels of row `row` from column `col` on.
  unfoldable pub draw_row : ℕ → ℕ → FbDraw → ℕ → ℕ → Registers → Run Registers
  draw_row width zero ctl row col fb = ok fb
  draw_row width (suc n) ctl row col fb =
      let at = (ctl.y + row) * width + ctl.x + col in
      let rest =
        draw_row width n ctl row (col + 1) (set_register fb at (ctl.pixels (row * ctl.w + col))) in
      if ltb at size then rest else stop assert_fail

  unfoldable pub draw_rows : ℕ → ℕ → FbDraw → ℕ → Registers → Run Registers
  unfolding draw_row
  draw_rows width zero ctl row fb = ok fb
  draw_rows width (suc n) ctl row fb =
      and_then (draw_row width ctl.w ctl row 0 fb) λ fb'. draw_rows width n ctl (row + 1) fb'

  -- The coordinates are not negative.
  unfoldable pub am_gpu_fbdraw : FbDraw → Vga → Run Vga
  unfolding draw_rows
  am_gpu_fbdraw ctl v = and_then (draw_rows (am_gpu_config v).width ctl.h ctl 0 v.vmem) λ vmem.
      ok (record v {
        vmem = vmem;
        vgactl = if ctl.sync then set_register v.vgactl 1 1 else v.vgactl;
      })
