-- ===== src/Tests/Device.antt =====
-- The devices and their drivers at concrete inputs.
use bailuwan.Device.Wait.{sum}
use bailuwan.Base.{
  ◌<◌, take, ◌≤◌, ℕ, ◌+◌, ◌*◌, ◌≡◌, refl, true, false, ◌&&◌, leb, ltb, ◌==◌, if◌then◌else◌, List,
  [], ◌∷◌, ◌++◌, some, arith, get_or, length, drop,
}
use bailuwan.Base.Run.{ok, and_then}
use bailuwan.Memory.Host.{Memory}
use bailuwan.Device.Keyboard.{Keyboard}
use bailuwan.Device.Fifo.{push, pop, queued}
use bailuwan.Device.Typing.{KeyEvent, press, read, run_keyboard, run_queue, run_keyboard-run_queue}
use bailuwan.Device.Sdcard.{Sdcard, File}
use bailuwan.Device.Card.{write_blocks, read_blocks, read_blocks-write_blocks}
use bailuwan.Device.Audio.{Audio, reg_sbuf_size, reg_wptr, reg_rptr, sdl_audio_callback}
use bailuwan.Device.Player.{am_audio_play}
use bailuwan.Device.Stream.{IsAudio, pending, sdl_audio_callback-pending}
use bailuwan.Device.Play.{am_audio_play-pending}
use bailuwan.Device.Screen.{Vga, FbDraw, init_vga, am_gpu_fbdraw, vga_update_screen}
use bailuwan.Device.Drawing.{vga_update_screen-am_gpu_fbdraw}

abbrev keys : ℕ → ℕ
keys scancode = scancode + 1

abbrev keyboard : Keyboard
keyboard = record { key_queue = λ i. 0; key_f = 1023; key_r = 1023; data_port = λ i. 0 }

abbrev typing : List KeyEvent
typing = press true 4 true ∷ press true 5 false ∷ read ∷ press false 6 true ∷ read ∷ read ∷ []

run_keyboard-run_queue_example :
    and_then (run_keyboard keys typing keyboard) (λ (xs, k'). ok (xs, queued k'))
    ≡ run_queue keys typing (queued keyboard)
run_keyboard-run_queue_example =
    run_keyboard-run_queue keys typing keyboard
      (record { front_in = omega arith; rear_in = omega arith })

run_queue_run : run_queue keys typing [] ≡ ok (0x8005 ∷ 6 ∷ 0 ∷ [], [])
unfolding run_queue push pop
run_queue_run = refl

abbrev one_key : Keyboard
one_key = record { key_queue = λ i. 0x8005; key_f = 0; key_r = 1; data_port = λ i. 0 }

abbrev image : File
image = record { content = λ i. 0; size = 4096; position = 0 }

abbrev card : Sdcard
card = record {
  fp = some image;
  base = λ i. 0;
  blkcnt = 0;
  blk_addr = 0;
  addr = 0;
  write_cmd = false;
  read_ext_csd = false;
}

abbrev words : List ℕ
words = 0x1234_5678 ∷ 0xffff_ffff ∷ []

read_blocks-write_blocks_example :
    (s' : Sdcard) × (and_then (write_blocks 3 words card) (read_blocks 3 2) ≡ ok (words, s'))
read_blocks-write_blocks_example =
    read_blocks-write_blocks 3 words image card (λ i. omega arith) (omega arith, (omega arith, tt))
      refl refl (omega arith) (omega arith)

-- A buffer of 8 bytes, of which the last 2 and the first 2 wait.
abbrev audio : Audio
audio = record {
  audio_base = λ i.
      if i == reg_sbuf_size then 8 else if i == reg_wptr then 2 else if i == reg_rptr then 6 else 0;
  sbuf = λ i. i + 1;
  opened = [];
}

abbrev silence : Memory
silence i = 0

audio-IsAudio : IsAudio 8 audio
audio-IsAudio = record {
  size_pos = omega arith;
  size_small = omega arith;
  size = refl;
  wptr_in = omega arith;
  rptr_in = omega arith;
}

pending_run : pending 8 audio ≡ 7 ∷ 8 ∷ 1 ∷ 2 ∷ []
pending_run = refl

sdl_audio_callback-pending_example :
    (stream' : Memory) × (a' : Audio) × (sdl_audio_callback silence 6 audio ≡ ok (stream', a'))
    × IsAudio 8 a'
    × (pending 8 a' ≡ drop 6 (pending 8 audio))
    × ((i : ℕ) → stream' i ≡ (if ltb i 6 then get_or (pending 8 audio) i 0 else silence i))
sdl_audio_callback-pending_example = sdl_audio_callback-pending 8 silence 6 audio audio-IsAudio

abbrev music : List ℕ
music = 11 ∷ 12 ∷ 13 ∷ 14 ∷ 15 ∷ []

abbrev left_after : ℕ → List ℕ
left_after i = drop (sum (take i (2 ∷ []))) (pending 8 audio)

am_audio_play-pending_example :
    (j : ℕ) × (a' : Audio) × (am_audio_play 8 (2 ∷ []) silence music audio ≡ ok (some a'))
    × (j ≤ 1)
    × (length (left_after j) + 5 ≤ 8)
    × ((i : ℕ) → i < j → 8 < length (left_after i) + 5)
    × (pending 8 a' ≡ (if length (left_after j) + 5 == 8 then [] else left_after j ++ music))
am_audio_play-pending_example =
    am_audio_play-pending 8 (2 ∷ []) silence music audio audio-IsAudio (omega arith) (omega arith)

abbrev blank : Vga
blank = record { vgactl = λ i. 0; vmem = λ i. 0; screen = λ i. 0 }

abbrev square : FbDraw
square = record { x = 10; y = 20; w = 2; h = 2; pixels = λ i. i + 1; sync = true }

vga_update_screen-am_gpu_fbdraw_example :
    (v' : Vga) × (am_gpu_fbdraw (400 * 300) square (init_vga 400 300 blank) ≡ ok v')
    × ((vga_update_screen v').screen (21 * 400 + 11)
        ≡ (if (leb 20 21 && ltb 21 22) && (leb 10 11 && ltb 11 12) then 4 else 0))
vga_update_screen-am_gpu_fbdraw_example =
    vga_update_screen-am_gpu_fbdraw 400 300 square blank 11 21 (omega arith) (omega arith) refl
      (omega arith) (omega arith) (omega arith) (omega arith)
