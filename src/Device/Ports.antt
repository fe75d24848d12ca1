-- ===== src/Device/Ports.antt =====
-- The small devices of nemu/src/device: timer.c, serial.c, ysyxsoc.c, and alarm.c, and
-- the drivers for them in abstract-machine/am/src/platform/nemu/ioe.
use bailuwan.Base.{
  ℕ, ◌*◌, ◌/◌, ◌%◌, ◌^◌, Bool, true, false, not, ◌==◌, ◌&&◌, ◌||◌, bit_or, ltb, if◌then◌else◌, List,
  [], ◌∷◌, ◌++◌, length,
}
use bailuwan.Base.Run.{Run, ok, stop, assert_fail, panic, and_then}
use bailuwan.Device.Port.{Registers, set_register}

-- `now` is what `get_time()` gives, in microseconds on 64 bits.
unfoldable pub rtc_io_handler : ℕ → ℕ → ℕ → Bool → Registers → Run Registers
rtc_io_handler now offset len is_write rtc =
    if offset == 0 || offset == 4
    then if not is_write && offset == 4
      then ok (set_register (set_register rtc 0 (now % 2 ^ 32)) 1 (now / 2 ^ 32))
      else ok rtc
    else stop assert_fail

unfoldable pub inl_rtc : ℕ → ℕ → Registers → Run (ℕ × Registers)
unfolding rtc_io_handler
inl_rtc now offset rtc =
    and_then (rtc_io_handler now offset 4 false rtc) λ rtc'. ok (rtc' (offset / 4), rtc')

-- `__am_timer_uptime`: `now1` and `now2` are the times of its two accesses.
unfoldable pub am_timer_uptime : ℕ → ℕ → Registers → Run (ℕ × Registers)
unfolding inl_rtc
am_timer_uptime now1 now2 rtc = and_then (inl_rtc now1 4 rtc) λ (rtc_hi, rtc1).
    and_then (inl_rtc now2 0 rtc1) λ (rtc_lo, rtc2). ok (bit_or (rtc_hi * 2 ^ 32) rtc_lo, rtc2)

-- The byte of the port, the characters sent, and those still to be typed.
pub record Serial : Type 0 where
  pub serial_base : ℕ
  pub sent : List ℕ
  pub typed : List ℕ

-- `getchar()`, with EOF cut to a byte.
unfoldable pub serial_getc : List ℕ → ℕ × List ℕ
serial_getc [] = (255, [])
serial_getc (c ∷ cs) = (c, cs)

unfoldable pub serial_io_handler : ℕ → ℕ → Bool → Serial → Run Serial
unfolding serial_getc
serial_io_handler offset len is_write s =
    let (c, typed) = serial_getc s.typed in
    if len == 1
    then if offset == 0
      then if is_write
        then ok (record s { sent = s.sent ++ (s.serial_base ∷ []) })
        else ok (record s { serial_base = c; typed = typed })
      else stop panic
    else stop assert_fail

-- `putch` of abstract-machine/am/src/platform/nemu/trm.c.
unfoldable pub putch : ℕ → Serial → Run Serial
unfolding serial_io_handler
putch ch s = serial_io_handler 0 1 true (record s { serial_base = ch })

unfoldable pub am_uart_rx : Serial → Run (ℕ × Serial)
unfolding serial_io_handler
am_uart_rx s = and_then (serial_io_handler 0 1 false s) λ s'. ok (s'.serial_base, s')

abbrev pub uart_lsr : ℕ
uart_lsr = 5

unfoldable pub uart_io_handler : ℕ → ℕ → Bool → Registers → Run Registers
uart_io_handler offset len is_write uart_base =
    if len == 1
    then if offset == uart_lsr then ok (set_register uart_base uart_lsr (2 ^ 5)) else ok uart_base
    else stop assert_fail

abbrev pub max_handler : ℕ
max_handler = 8

-- `handler` holds the first `idx` entries of the array, as actions on the program's state.
unfoldable pub add_alarm_handle : {S : Type 0} → (S → S) → List (S → S) → Run (List (S → S))
add_alarm_handle h handler =
    if ltb (length handler) max_handler then ok (handler ++ (h ∷ [])) else stop assert_fail

unfoldable pub alarm_sig_handler : {S : Type 0} → List (S → S) → S → S
alarm_sig_handler [] s = s
alarm_sig_handler (h ∷ handler) s = alarm_sig_handler handler (h s)
