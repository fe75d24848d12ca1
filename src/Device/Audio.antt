-- ===== src/Device/Audio.antt =====
-- nemu/src/device/audio.c: the stream buffer between the guest and SDL;
-- abstract-machine/am/src/platform/nemu/ioe/audio.c: the driver that fills it.
use bailuwan.Base.{
  ℕ, ◌+◌, ◌-◌, ◌*◌, ◌%◌, ◌^◌, Bool, true, false, ◌==◌, ◌&&◌, ◌||◌, leb, ltb, if◌then◌else◌, List,
  [], ◌∷◌,
}
use bailuwan.Base.Run.{Run, ok, stop, panic, assert_fail, undefined, and_then}
use bailuwan.Memory.Host.{Memory}
use bailuwan.Device.Port.{Registers, set_register}

abbrev pub reg_freq : ℕ
reg_freq = 0

abbrev pub reg_channels : ℕ
reg_channels = 1

abbrev pub reg_samples : ℕ
reg_samples = 2

abbrev pub reg_sbuf_size : ℕ
reg_sbuf_size = 3

abbrev pub reg_init : ℕ
reg_init = 4

abbrev pub reg_count : ℕ
reg_count = 5

abbrev pub reg_wptr : ℕ
reg_wptr = 6

abbrev pub reg_rptr : ℕ
reg_rptr = 7

abbrev pub nr_reg : ℕ
nr_reg = 8

-- The fields of the `SDL_AudioSpec` that the device is opened with: an `int`, a `Uint8`, a `Uint16`.
pub record AudioSpec : Type 0 where
  pub freq : ℕ
  pub channels : ℕ
  pub samples : ℕ

-- `opened` holds the calls of `SDL_OpenAudio`, the latest first.
pub record Audio : Type 0 where
  pub audio_base : Registers
  pub sbuf : Memory
  pub opened : List AudioSpec

abbrev pub u32 : ℕ → ℕ
u32 n = n % 2 ^ 32

-- `a - b` on `uint32_t`.
abbrev pub sub_u32 : ℕ → ℕ → ℕ
sub_u32 a b = (a + (2 ^ 32 - b)) % 2 ^ 32

-- The C library's `memcpy` between two objects, and its `memset`.
unfoldable pub host_memcpy : ℕ → Memory → ℕ → Memory → ℕ → Memory
host_memcpy n dst d src s i = if leb d i && ltb i (d + n) then src (s + (i - d)) else dst i

unfoldable pub host_memset : ℕ → Memory → ℕ → ℕ → Memory
host_memset n dst d v i = if leb d i && ltb i (d + n) then v else dst i

-- The bytes that the callback writes to the stream of `len` bytes.
unfoldable pub fill_stream : Memory → ℕ → ℕ → Memory → ℕ → ℕ → Memory
unfolding host_memcpy host_memset
fill_stream sbuf rptr first_chunk stream len to_copy =
    let stream' =
      if leb to_copy first_chunk
      then host_memcpy to_copy stream 0 sbuf rptr
      else host_memcpy (to_copy - first_chunk) (host_memcpy first_chunk stream 0 sbuf rptr)
          first_chunk sbuf 0 in
    if ltb to_copy len then host_memset (len - to_copy) stream' to_copy 0 else stream'

-- The stream that SDL asks to be filled is `len` bytes long.
unfoldable pub sdl_audio_callback : Memory → ℕ → Audio → Run (Memory × Audio)
sdl_audio_callback stream len a =
    let wptr = a.audio_base reg_wptr in
    let rptr = a.audio_base reg_rptr in
    let sbuf_size = a.audio_base reg_sbuf_size in
    let available = sub_u32 (u32 (wptr + sbuf_size)) rptr % sbuf_size in
    let to_copy = if leb len available then len else available in
    let first_chunk = sub_u32 sbuf_size rptr in
    let rptr' = u32 (rptr + to_copy) % sbuf_size in
    if sbuf_size == 0
    then stop undefined
    else ok (
      fill_stream a.sbuf rptr first_chunk stream len to_copy,
      record a { audio_base = set_register a.audio_base reg_rptr rptr' },
    )

module _ (sb_size : ℕ) where
  unfoldable pub audio_io_handler : ℕ → ℕ → Bool → Audio → Run Audio
  audio_io_handler offset len is_write a =
      let base = a.audio_base in
      if offset == reg_freq * 4
        || offset == reg_channels * 4
        || offset == reg_samples * 4
        || offset == reg_wptr * 4
      then ok a
      else if offset == reg_sbuf_size * 4 || offset == reg_rptr * 4
      then if is_write then stop assert_fail else ok a
      else if offset == reg_count * 4
      then if is_write
        then stop assert_fail
        else ok (record a {
          audio_base =
              set_register base reg_count
                (sub_u32 (u32 (base reg_wptr + sb_size)) (base reg_rptr) % sb_size);
        })
      else if offset == reg_init * 4
      then ok (record a {
        opened =
            record {
              freq = base reg_freq;
              channels = base reg_channels % 2 ^ 8;
              samples = base reg_samples % 2 ^ 16;
            }
            ∷ a.opened;
      })
      else stop panic

  unfoldable pub init_audio : Audio
  init_audio = record {
    audio_base = set_register (λ i. 0) reg_sbuf_size sb_size;
    sbuf = λ i. 0;
    opened = [];
  }

  -- A guest's accesses: `map_read` calls the handler first, `map_write` stores first.
  unfoldable pub inl_audio : ℕ → Audio → Run (ℕ × Audio)
  unfolding audio_io_handler
  inl_audio reg a = and_then (audio_io_handler (reg * 4) 4 false a) λ a'. ok (a'.audio_base reg, a')

  unfoldable pub outl_audio : ℕ → ℕ → Audio → Run Audio
  unfolding audio_io_handler
  outl_audio reg v a =
      audio_io_handler (reg * 4) 4 true (record a { audio_base = set_register a.audio_base reg v })

  -- `outb(AUDIO_SBUF_ADDR + p, v)`. An address past the buffer belongs to no device.
  unfoldable pub outb_sbuf : ℕ → ℕ → Audio → Run Audio
  outb_sbuf p v a =
      if ltb p sb_size then ok (record a { sbuf = set_register a.sbuf p v }) else stop assert_fail
