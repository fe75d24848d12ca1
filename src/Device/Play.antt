-- ===== src/Device/Play.antt =====
-- The driver of abstract-machine/am/src/platform/nemu/ioe/audio.c on the device: what it
-- adds to the bytes that wait to be played.
use bailuwan.Device.Port.{set_register}
use bailuwan.Base.{
  take-append-drop, length-take, sym, take, false, ◌++◌, ◌%◌, ltb, ◌==◌, if◌then◌else◌, ◌∙◌,
  length-drop, ap, Bool-cases, ℕ, ◌+◌, ◌-◌, ◌<◌, ◌≤◌, ◌≡◌, refl, leb, List, [], ◌∷◌, length, arith,
  drop, inl, inr, some, true,
}
use bailuwan.Base.Run.{ok}
use bailuwan.Memory.Host.{Memory}
use bailuwan.Device.Audio.{
  u32, outl_audio, outb_sbuf, Audio, reg_wptr, reg_rptr, sub_u32, inl_audio,
}
use bailuwan.Device.Player.{am_audio_play, fill_buffer, outb_loop}
use bailuwan.Device.Ring.{put-append, ring-put, mod-wrap, put, wrap}
use bailuwan.Device.Stream.{IsAudio, nr_bytes, pending}
use bailuwan.Device.Wait.{Room, sum, length-pending, wait_room-Waited}

-- A loop of `outb` that does not leave the buffer.
outb_loop-put :
    (size p : ℕ) (src : List ℕ) (a : Audio)
    → p + length src ≤ size
    → outb_loop size p src a ≡ ok (record a { sbuf = put size p src a.sbuf })
unfolding outb_loop outb_sbuf
outb_loop-put size p [] a h = refl
outb_loop-put size p (x ∷ []) a h = let inside : ltb p size ≡ true = ground arith in rw inside refl
outb_loop-put size p (x ∷ y ∷ src) a h =
    let inside : ltb p size ≡ true = ground arith in
    let next : wrap size (p + 1) ≡ p + 1 = ground arith in
    rw (inside, next)
      (outb_loop-put size (p + 1) (y ∷ src) (record a { sbuf = set_register a.sbuf p x })
        (omega arith))

-- The state after the bytes `src` have been written.
abbrev filled : ℕ → List ℕ → Audio → Audio
filled size src a = record a {
  audio_base = set_register a.audio_base reg_wptr (wrap size (a.audio_base reg_wptr + length src));
  sbuf = put size (a.audio_base reg_wptr) src a.sbuf;
}

put_split :
    (size w : ℕ) (src : List ℕ) (m : Memory)
    → w < size
    → w + length (take (size - w) src) ≡ size
    → put size w src m ≡ put size 0 (drop (size - w) src) (put size w (take (size - w) src) m)
put_split size w src m hw at_end =
    let front = take (size - w) src in
    let start : wrap size (w + length front) ≡ 0 = ground arith in
    ap (λ (xs : List ℕ). put size w xs m) (sym (take-append-drop (size - w) src))
    ∙ put-append size front (drop (size - w) src) m w hw (omega arith)
    ∙ ap (λ (p : ℕ). put size p (drop (size - w) src) (put size w front m)) start

fill_buffer_lem :
    (size : ℕ) (src : List ℕ) (a : Audio)
    → IsAudio size a
    → length src ≤ size
    → fill_buffer size size src a ≡ ok (filled size src a)
unfolding fill_buffer inl_audio outl_audio
fill_buffer_lem size src a v fits =
    let w = a.audio_base reg_wptr in
    let first : sub_u32 size w ≡ size - w = omega (arith, v.size_small, v.wptr_in) in
    let exact : u32 (w + length src) ≡ w + length src = omega (arith, v.size_small, v.wptr_in) in
    let at : u32 (w + length src) % size ≡ wrap size (w + length src) =
      ap (λ (t : ℕ). t % size) exact ∙ mod-wrap size (w + length src) (omega (arith, v.wptr_in)) in
    let some_size : (size == 0) ≡ false = ground (arith, v.size_pos) in
    elim (Bool-cases (leb (length src) (size - w))) [
      | inl one ↦
          rw (first, one, outb_loop-put size w src a (ground (arith, v.wptr_in)), at, some_size)
            refl
      | inr two ↦
          let n = size - w in
          let longer : n ≤ length src = ground arith in
          let at_end : w + length (take n src) ≡ size =
            omega (arith, longer, length-take n src, v.wptr_in) in
          let rest_fits : 0 + length (drop n src) ≤ size = omega (arith, length-drop n src) in
          let one = outb_loop-put size w (take n src) a (omega arith) in
          let b = record a { sbuf = put size w (take n src) a.sbuf } in
          let other = outb_loop-put size 0 (drop n src) b rest_fits in
          rw (first, two, one, other, at, some_size, put_split size w src a.sbuf v.wptr_in at_end)
            refl
    ]

rear_lem : (size w r : ℕ) → w < size → r < size → w ≡ wrap size (r + wrap size (w + size - r))
rear_lem size w r hw hr = ground arith

count_full :
    (size w r len : ℕ)
    → w < size
    → r < size
    → wrap size (w + size - r) + len ≡ size
    → wrap size (wrap size (w + len) + size - r) ≡ 0
count_full size w r len hw hr h = ground arith

count_more :
    (size w r len : ℕ)
    → w < size
    → r < size
    → wrap size (w + size - r) + len < size
    → wrap size (wrap size (w + len) + size - r) ≡ wrap size (w + size - r) + len
count_more size w r len hw hr h = ground arith

fill_buffer-pending :
    (size : ℕ) (src : List ℕ) (a : Audio)
    → IsAudio size a
    → nr_bytes size a + length src ≤ size
    → pending size (filled size src a)
      ≡ (if nr_bytes size a + length src == size then [] else pending size a ++ src)
fill_buffer-pending size src a v room =
    let w = a.audio_base reg_wptr in
    let r = a.audio_base reg_rptr in
    let n = nr_bytes size a in
    let rear : w ≡ wrap size (r + n) = rear_lem size w r v.wptr_in v.rptr_in in
    elim (Bool-cases (n + length src == size)) [
      | inl full ↦
          let nothing : wrap size (wrap size (w + length src) + size - r) ≡ 0 =
            count_full size w r (length src) v.wptr_in v.rptr_in (ground arith) in
          rw (full, nothing) refl
      | inr some_left ↦
          let more : wrap size (wrap size (w + length src) + size - r) ≡ n + length src =
            count_more size w r (length src) v.wptr_in v.rptr_in (ground arith) in
          rw (some_left, more) (ring-put size src a.sbuf r n w v.rptr_in room rear)
    ]

fill_buffer-held :
    (size : ℕ) (src : List ℕ) (a : Audio)
    → IsAudio size a
    → nr_bytes size a + length src ≤ size
    → (xs : List ℕ) → pending size a ≡ xs
    → pending size (filled size src a) ≡ (if length xs + length src == size then [] else xs ++ src)
fill_buffer-held size src a v room xs same =
    let held : nr_bytes size a ≡ length xs = sym (length-pending size a) ∙ ap length same in
    ground (arith, held, same, fill_buffer-pending size src a v room)

full_before : (size len n k left : ℕ) → left ≡ n - k → ¬ Room size len n k → size < left + len
full_before size len n k left e h = ground (arith, e, h)

-- The driver returns after the first polls of SDL, as soon as there is room. The bytes that wait
-- then are those that these polls have not asked for, and the new ones behind them; but if these
-- fill the buffer, it counts as empty, and all of them are lost. The conditions are a well-formed
-- state, a length that is no larger than the buffer, and polls that ask for as many bytes as are
-- missing room.
pub am_audio_play-pending :
    (size : ℕ) (polls : List ℕ) (stream : Memory) (src : List ℕ) (a : Audio)
    → IsAudio size a
    → length src ≤ size
    → length (pending size a) + length src ≤ size + sum polls
    → let left = λ (i : ℕ). drop (sum (take i polls)) (pending size a) in
      (j : ℕ) × (a' : Audio) × (am_audio_play size polls stream src a ≡ ok (some a'))
      × (j ≤ length polls)
      × (length (left j) + length src ≤ size)
      × ((i : ℕ) → i < j → size < length (left i) + length src)
      × (pending size a' ≡ (if length (left j) + length src == size then [] else left j ++ src))
unfolding am_audio_play inl_audio
am_audio_play-pending size polls stream src a v fits enough =
    let count = length-pending size a in
    let (j, b, waited, vb, le, left, room, first) =
      wait_room-Waited size polls stream (length src) a v fits (omega arith) in
    let done = fill_buffer_lem size src b vb fits in
    let held = λ (i : ℕ). length-drop (sum (take i polls)) (pending size a) in
    let fills : nr_bytes size b + length src ≤ size =
      omega (arith, length-pending size b, ap length left, held j, count, room) in
    (
      j,
      filled size src b,
      rw (v.size, waited, done) refl,
      le,
      omega (arith, held j, count, room),
      λ i h.
          full_before size (length src) (nr_bytes size a) (sum (take i polls))
            (length (drop (sum (take i polls)) (pending size a))) (omega (arith, held i, count))
            (first i h),
      fill_buffer-held size src b vb fills (drop (sum (take j polls)) (pending size a)) left,
    )
