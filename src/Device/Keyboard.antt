-- ===== src/Device/Keyboard.antt =====
-- nemu/src/device/keyboard.c: the queue of keys, and the register that a guest reads them from;
-- abstract-machine/am/src/platform/nemu/ioe/input.c: the driver. `keymap` is the table from SDL's
-- scancodes, which SDL defines, to the keys of the abstract machine.
use bailuwan.Base.{
  ℕ, ◌+◌, ◌-◌, ◌%◌, ◌^◌, Bool, false, not, ◌&&◌, ◌==◌, bit_and, bit_or, if◌then◌else◌,
}
use bailuwan.Base.Run.{Run, ok, stop, assert_fail, and_then}
use bailuwan.Device.Port.{Registers, set_register}

abbrev pub keydown_mask : ℕ
keydown_mask = 2 ^ 15

abbrev pub key_queue_len : ℕ
key_queue_len = 1024

-- NEMU_KEY_NONE
abbrev pub key_none : ℕ
key_none = 0

-- `key_queue` holds `int`s that are read back as `uint32_t`. `data_port` is `i8042_data_port_base`.
pub record Keyboard : Type 0 where
  pub key_queue : ℕ → ℕ
  pub key_f : ℕ
  pub key_r : ℕ
  pub data_port : Registers

unfoldable pub key_enqueue : ℕ → Keyboard → Run Keyboard
key_enqueue am_scancode k =
    let key_r' = (k.key_r + 1) % key_queue_len in
    if key_r' == k.key_f
    then stop assert_fail
    else ok (record k { key_queue = set_register k.key_queue k.key_r am_scancode; key_r = key_r' })

unfoldable pub key_dequeue : Keyboard → ℕ × Keyboard
key_dequeue k =
    if k.key_f == k.key_r
    then (key_none, k)
    else (k.key_queue k.key_f, record k { key_f = (k.key_f + 1) % key_queue_len })

-- `running` is `nemu_state.state == NEMU_RUNNING`.
unfoldable pub send_key : (ℕ → ℕ) → Bool → ℕ → Bool → Keyboard → Run Keyboard
unfolding key_enqueue
send_key keymap running scancode is_keydown k =
    if running && not (keymap scancode == key_none)
    then key_enqueue (bit_or (keymap scancode) (if is_keydown then keydown_mask else 0)) k
    else ok k

unfoldable pub i8042_data_io_handler : ℕ → ℕ → Bool → Keyboard → Run Keyboard
unfolding key_dequeue
i8042_data_io_handler offset len is_write k =
    let (key, k') = key_dequeue k in
    if is_write
    then stop assert_fail
    else if offset == 0
    then ok (record k' { data_port = set_register k'.data_port 0 key })
    else stop assert_fail

-- The state at the start, with the queue of zeros, once `init_i8042` has made the register.
unfoldable pub init_i8042 : Registers → Keyboard
init_i8042 data_port = record {
  key_queue = λ i. 0;
  key_f = 0;
  key_r = 0;
  data_port = set_register data_port 0 key_none;
}

-- `inl(KBD_ADDR)`: `map_read` calls the handler, then reads the register.
unfoldable pub inl_kbd : Keyboard → Run (ℕ × Keyboard)
unfolding i8042_data_io_handler
inl_kbd k = and_then (i8042_data_io_handler 0 4 false k) λ k'. ok (k'.data_port 0, k')

pub record KeybrdEvent : Type 0 where
  pub keydown : Bool
  pub keycode : ℕ

-- What the driver makes of a key. `~KEYDOWN_MASK` is an `int` that is extended to 32 bits.
unfoldable pub keybrd_event : ℕ → KeybrdEvent
keybrd_event key = record {
  keydown = not (bit_and key keydown_mask == 0);
  keycode = bit_and key (2 ^ 32 - 1 - keydown_mask);
}

unfoldable pub am_input_keybrd : Keyboard → Run (KeybrdEvent × Keyboard)
am_input_keybrd k = and_then (inl_kbd k) λ (key, k'). ok (keybrd_event key, k')
