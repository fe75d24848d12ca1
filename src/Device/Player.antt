-- ===== src/Device/Player.antt =====
-- abstract-machine/am/src/platform/nemu/ioe/audio.c: the driver that fills the stream buffer.
use bailuwan.Base.{
  ℕ, ◌+◌, ◌%◌, ◌==◌, leb, if◌then◌else◌, Option, none, some, List, [], ◌∷◌, length, take, drop,
}
use bailuwan.Base.Run.{Run, ok, stop, undefined, and_then}
use bailuwan.Memory.Host.{Memory}
use bailuwan.Device.Audio.{
  Audio, reg_sbuf_size, reg_count, reg_wptr, reg_freq, reg_channels, reg_samples, reg_init, u32,
  sub_u32, sdl_audio_callback, inl_audio, outl_audio, outb_sbuf,
}

-- The parameter is CONFIG_SB_SIZE.
module _ (sb_size : ℕ) where
  unfoldable pub am_audio_config : Audio → Run (ℕ × Audio)
  am_audio_config a = inl_audio sb_size reg_sbuf_size a

  unfoldable pub am_audio_ctrl : ℕ → ℕ → ℕ → Audio → Run Audio
  am_audio_ctrl freq channels samples a = and_then (outl_audio sb_size reg_freq freq a) λ a1.
      and_then (outl_audio sb_size reg_channels channels a1) λ a2.
        and_then (outl_audio sb_size reg_samples samples a2) λ a3. outl_audio sb_size reg_init 1 a3

  unfoldable pub am_audio_status : Audio → Run (ℕ × Audio)
  am_audio_status a = inl_audio sb_size reg_count a

  -- The loop that waits for room. `polls` are the lengths that SDL asks for between two rounds of
  -- it; the result is `none` if the loop still waits after them.
  unfoldable pub wait_room : List ℕ → Memory → ℕ → ℕ → Audio → Run (Option Audio)
  wait_room [] stream sbuf_size len a =
      and_then (inl_audio sb_size reg_count a)
        λ (count, a'). ok (if leb len (sub_u32 sbuf_size count) then some a' else none)
  wait_room (n ∷ polls) stream sbuf_size len a =
      and_then (inl_audio sb_size reg_count a) λ (count, a').
        if leb len (sub_u32 sbuf_size count)
        then ok (some a')
        else and_then (sdl_audio_callback stream n a')
            λ (stream', a''). wait_room polls stream' sbuf_size len a''

  -- `for (i = 0; ...) outb(AUDIO_SBUF_ADDR + p + i, src[i])`
  unfoldable pub outb_loop : ℕ → List ℕ → Audio → Run Audio
  outb_loop p [] a = ok a
  outb_loop p (x ∷ src) a = and_then (outb_sbuf sb_size p x a) λ a'. outb_loop (p + 1) src a'

  -- The code behind the loop that waits.
  unfoldable pub fill_buffer : ℕ → List ℕ → Audio → Run Audio
  fill_buffer sbuf_size src a =
      let len = length src in
      and_then (inl_audio sb_size reg_wptr a) λ (wptr, a1).
        let first_chunk = sub_u32 sbuf_size wptr in
        and_then
          (if leb len first_chunk
            then outb_loop wptr src a1
            else and_then (outb_loop wptr (take first_chunk src) a1)
                λ a2. outb_loop 0 (drop first_chunk src) a2)
          λ a3.
            if sbuf_size == 0
            then stop undefined
            else outl_audio sb_size reg_wptr (u32 (wptr + len) % sbuf_size) a3

  fill_if_room : ℕ → List ℕ → Option Audio → Run (Option Audio)
  unfolding fill_buffer
  fill_if_room sbuf_size src none = ok none
  fill_if_room sbuf_size src (some a) = and_then (fill_buffer sbuf_size src a) λ a'. ok (some a')

  unfoldable pub am_audio_play : List ℕ → Memory → List ℕ → Audio → Run (Option Audio)
  unfolding wait_room fill_if_room
  am_audio_play polls stream src a = and_then (inl_audio sb_size reg_sbuf_size a) λ (sbuf_size, a1).
      and_then (wait_room polls stream sbuf_size (length src) a1) λ w. fill_if_room sbuf_size src w
