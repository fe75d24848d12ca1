-- ===== src/Device/Typing.antt =====
-- The keyboard over time: keys that arrive, and a guest that reads them through the driver.
use bailuwan.Base.Bits.{
  bit_or_disjoint, bit_or_comm, bit_or-zero, bit_and_shifted, bit_and_mask, bit_and_split,
}
use bailuwan.Device.Port.{set_register}
use bailuwan.Base.{
  ◌∙◌, ◌+◌, ◌*◌, bit_and, ◌%◌, ◌-◌, arith, ◌^◌, ◌/◌, true, false, bit_or, ◌<◌, ap, refl, inr, inl,
  Bool-cases, ◌≡◌, ℕ, Bool, ◌==◌, if◌then◌else◌, List, [], ◌∷◌, not, ◌&&◌,
}
use bailuwan.Base.Run.{and_then_assoc, Run, ok, and_then}
use bailuwan.Device.Keyboard.{
  keybrd_event, keydown_mask, am_input_keybrd, key_dequeue, i8042_data_io_handler, Keyboard,
  key_none, send_key, inl_kbd,
}
use bailuwan.Device.Fifo.{
  key_dequeue-IsKeyboard, key_enqueue-push, key_dequeue-pop, SameRun, queued, IsKeyboard, push, pop,
  scancode_of,
}

pub data KeyEvent : Type 0 where
  press : Bool → ℕ → Bool → KeyEvent
  read : KeyEvent

-- What the guest reads while the events happen.
unfoldable pub run_keyboard : (ℕ → ℕ) → List KeyEvent → Keyboard → Run (List ℕ × Keyboard)
run_keyboard keymap [] k = ok ([], k)
run_keyboard keymap (press running scancode is_keydown ∷ es) k =
    and_then (send_key keymap running scancode is_keydown k) λ k'. run_keyboard keymap es k'
run_keyboard keymap (read ∷ es) k =
    and_then (inl_kbd k)
      λ (x, k'). and_then (run_keyboard keymap es k') λ (xs, k''). ok (x ∷ xs, k'')

unfoldable pub run_queue : (ℕ → ℕ) → List KeyEvent → List ℕ → Run (List ℕ × List ℕ)
run_queue keymap [] q = ok ([], q)
run_queue keymap (press running scancode is_keydown ∷ es) q =
    and_then
      (if running && not (keymap scancode == key_none)
        then push (scancode_of keymap scancode is_keydown) q
        else ok q)
      λ q'. run_queue keymap es q'
run_queue keymap (read ∷ es) q =
    let (x, q') = pop q in and_then (run_queue keymap es q') λ (xs, q''). ok (x ∷ xs, q'')

send_key-push :
    (keymap : ℕ → ℕ) (running : Bool) (scancode : ℕ) (is_keydown : Bool) (k : Keyboard)
    → IsKeyboard k
    → SameRun (send_key keymap running scancode is_keydown k) (
        if running && not (keymap scancode == key_none)
        then push (scancode_of keymap scancode is_keydown) (queued k)
        else ok (queued k))
unfolding send_key
send_key-push keymap running scancode is_keydown k v =
    elim (Bool-cases (running && not (keymap scancode == key_none))) [
      | inl sent ↦ rw sent (key_enqueue-push (scancode_of keymap scancode is_keydown) k v)
      | inr dropped ↦ rw dropped (inr (k, v, refl, refl))
    ]

inl_kbd-pop :
    (k : Keyboard)
    → IsKeyboard k
    → (k' : Keyboard) × IsKeyboard k'
      × (inl_kbd k ≡ ok ((pop (queued k)).0, k'))
      × (queued k' ≡ (pop (queued k)).1)
unfolding inl_kbd i8042_data_io_handler
inl_kbd-pop k v =
    let same = key_dequeue-pop k v in
    let valid = key_dequeue-IsKeyboard k v in
    (
      record (key_dequeue k).1 {
        data_port = set_register (key_dequeue k).1.data_port 0 (key_dequeue k).0;
      },
      record { front_in = valid.front_in; rear_in = valid.rear_in },
      rw (← ap (λ p. p.0) same) refl,
      ap (λ p. p.1) same,
    )

-- The guest reads what a queue of up to 1023 keys gives it, in the order in which the keys arrived,
-- and a key that arrives while 1023 keys wait stops the program.
pub run_keyboard-run_queue :
    (keymap : ℕ → ℕ) (es : List KeyEvent) (k : Keyboard)
    → IsKeyboard k
    → and_then (run_keyboard keymap es k) (λ (xs, k'). ok (xs, queued k'))
      ≡ run_queue keymap es (queued k)
unfolding run_keyboard run_queue
run_keyboard-run_queue keymap [] k v = refl
run_keyboard-run_queue keymap (press running scancode is_keydown ∷ es) k v =
    elim (send_key-push keymap running scancode is_keydown k v) [
      | inl (w, code, list) ↦ rw (code, list) refl
      | inr (k', v', code, list) ↦ rw (code, list) (run_keyboard-run_queue keymap es k' v')
    ]
run_keyboard-run_queue keymap (read ∷ es) k v =
    let (k', v', code, left) = inl_kbd-pop k v in
    let rest = run_keyboard-run_queue keymap es k' v' in
    let x = (pop (queued k)).0 in
    let forget : List ℕ × Keyboard → Run (List ℕ × List ℕ) = λ (xs, k''). ok (xs, queued k'') in
    let first : List ℕ × Keyboard → Run (List ℕ × Keyboard) = λ (xs, k''). ok (x ∷ xs, k'') in
    let first_list : List ℕ × List ℕ → Run (List ℕ × List ℕ) = λ (xs, q''). ok (x ∷ xs, q'') in
    rw
      (
        code,
        ← left,
        ← rest,
        and_then_assoc (run_keyboard keymap es k') first forget,
        and_then_assoc (run_keyboard keymap es k') forget first_list,
      )
      refl

-- The fields of a key that carries the mark `d`.
key_fields :
    (d code : ℕ)
    → code < keydown_mask
    → (bit_and (d * 2 ^ 15 + code) keydown_mask ≡ bit_and d 1 * 2 ^ 15)
      × (bit_and (d * 2 ^ 15 + code) (2 ^ 32 - 1 - keydown_mask)
          ≡ bit_and d 131_070 * 2 ^ 15 + code)
key_fields d code small =
    let high : (d * 2 ^ 15 + code) / 2 ^ 15 ≡ d = omega arith in
    let low : (d * 2 ^ 15 + code) % 2 ^ 15 ≡ code = omega arith in
    (
      bit_and_shifted 15 (d * 2 ^ 15 + code) 1 ∙ ap (λ (t : ℕ). bit_and t 1 * 2 ^ 15) high,
      bit_and_split 15 (d * 2 ^ 15 + code) (2 ^ 32 - 1 - keydown_mask)
          ∙ rw (high, low) (omega (arith, bit_and_mask 15 code)),
    )

keybrd_event_lem :
    (code : ℕ) (is_keydown : Bool)
    → code < keydown_mask
    → keybrd_event (bit_or code (if is_keydown then keydown_mask else 0))
      ≡ record { keydown = is_keydown; keycode = code }
unfolding keybrd_event
keybrd_event_lem code true small =
    let joined : bit_or code keydown_mask ≡ 1 * 2 ^ 15 + code =
      bit_or_comm code keydown_mask ∙ bit_or_disjoint 15 1 code small in
    let low : 0 + code ≡ code = omega arith in
    rw (joined, (key_fields 1 code small).0, (key_fields 1 code small).1, low) refl
keybrd_event_lem code false small =
    let joined : bit_or code 0 ≡ 0 * 2 ^ 15 + code = omega (arith, bit_or-zero code) in
    let low : 0 + code ≡ code = omega arith in
    rw (joined, (key_fields 0 code small).0, (key_fields 0 code small).1, low) refl

-- The driver gives back the key and whether it went down.
pub am_input_keybrd-scancode_of :
    (keymap : ℕ → ℕ) (scancode : ℕ) (is_keydown : Bool) (k : Keyboard) (q : List ℕ)
    → IsKeyboard k
    → keymap scancode < keydown_mask
    → queued k ≡ scancode_of keymap scancode is_keydown ∷ q
    → (k' : Keyboard) × (am_input_keybrd k
        ≡ ok (record { keydown = is_keydown; keycode = keymap scancode }, k'))
      × (queued k' ≡ q)
unfolding am_input_keybrd pop
am_input_keybrd-scancode_of keymap scancode is_keydown k q v small front =
    let (k', v', code, left) = inl_kbd-pop k v in
    (
      k',
      rw (code, front, keybrd_event_lem (keymap scancode) is_keydown small) refl,
      rw (left, front) refl,
    )
