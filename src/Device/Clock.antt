-- ===== src/Device/Clock.antt =====
-- The time that the driver of nemu/src/device/timer.c reads.
use bailuwan.Base.Bits.{bit_or_disjoint}
use bailuwan.Base.{◌∙◌, bit_or, ℕ, ◌*◌, ◌/◌, ◌%◌, ◌^◌, ◌<◌, ◌≡◌, refl, arith}
use bailuwan.Base.Run.{ok}
use bailuwan.Device.Port.{set_register, Registers}
use bailuwan.Device.Ports.{am_timer_uptime}

-- The driver gives the time of its first access, of all 64 bits, however late the second one is.
pub am_timer_uptime-now :
    (now1 now2 : ℕ) (rtc : Registers)
    → now1 < 2 ^ 64
    → (rtc' : Registers) × (am_timer_uptime now1 now2 rtc ≡ ok (now1, rtc'))
unfolding am_timer_uptime
am_timer_uptime-now now1 now2 rtc small =
    let joined : bit_or (now1 / 2 ^ 32 * 2 ^ 32) (now1 % 2 ^ 32) ≡ now1 =
      bit_or_disjoint 32 (now1 / 2 ^ 32) (now1 % 2 ^ 32) (omega arith) ∙ omega arith in
    (set_register (set_register rtc 0 (now1 % 2 ^ 32)) 1 (now1 / 2 ^ 32), rw joined refl)
