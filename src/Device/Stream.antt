-- ===== src/Device/Stream.antt =====
-- What the audio device of nemu/src/device/audio.c promises: the bytes of the guest, in order.
use bailuwan.Base.Run.{ok}
use bailuwan.Device.Port.{set_register}
use bailuwan.Base.{
  inr, sym, inl, get_or, Bool-cases, refl, zero, false, ◌∷◌, ◌==◌, suc, [], drop, leb, length, ◌∙◌,
  ap, ℕ, ◌+◌, ◌-◌, ◌%◌, ◌^◌, ◌<◌, ◌≤◌, ◌≡◌, ltb, if◌then◌else◌, List, arith,
}
use bailuwan.Memory.Host.{Memory}
use bailuwan.Device.Audio.{
  sdl_audio_callback, Audio, reg_sbuf_size, reg_wptr, reg_rptr, sub_u32, u32, fill_stream,
}
use bailuwan.Device.Ring.{length-ring, drop-ring, get_or-ring, wrap-lt, ring, wrap, mod-wrap}

pub record IsAudio (sb_size : ℕ) (a : Audio) : Type 0 where
  pub size_pos : 0 < sb_size
  pub size_small : sb_size ≤ 2 ^ 31
  pub size : a.audio_base reg_sbuf_size ≡ sb_size
  pub wptr_in : a.audio_base reg_wptr < sb_size
  pub rptr_in : a.audio_base reg_rptr < sb_size

abbrev pub nr_bytes : ℕ → Audio → ℕ
nr_bytes sb_size a = wrap sb_size (a.audio_base reg_wptr + sb_size - a.audio_base reg_rptr)

-- The bytes in the buffer that wait to be played.
abbrev pub pending : ℕ → Audio → List ℕ
pending sb_size a = ring sb_size a.sbuf (a.audio_base reg_rptr) (nr_bytes sb_size a)

-- The count of bytes, as the device computes it on `uint32_t`.
pub count_lem :
    (size w r : ℕ)
    → size ≤ 2 ^ 31
    → w < size
    → r < size
    → sub_u32 (u32 (w + size)) r % size ≡ wrap size (w + size - r)
count_lem size w r small hw hr =
    let exact : sub_u32 (u32 (w + size)) r ≡ w + size - r = omega arith in
    ap (λ (t : ℕ). t % size) exact ∙ mod-wrap size (w + size - r) (omega arith)

fill_stream_lem :
    (size : ℕ) (sbuf stream : Memory) (rptr len to_copy i : ℕ)
    → rptr < size
    → to_copy ≤ size
    → to_copy ≤ len
    → fill_stream sbuf rptr (size - rptr) stream len to_copy i
      ≡ (if ltb i len then if ltb i to_copy then sbuf (wrap size (rptr + i)) else 0 else stream i)
unfolding fill_stream
fill_stream_lem size sbuf stream rptr len to_copy i hr hc hl = ground arith

drop_all : (xs : List ℕ) (k : ℕ) → length xs ≤ k → drop k xs ≡ []
drop_all [] zero h = refl
drop_all [] (suc k) h = refl
drop_all (x ∷ xs) zero h = absurd (omega arith)
drop_all (x ∷ xs) (suc k) h = drop_all xs k (omega arith)

count_left :
    (size w r c : ℕ)
    → w < size
    → r < size
    → c ≤ wrap size (w + size - r)
    → wrap size (w + size - wrap size (r + c)) ≡ wrap size (w + size - r) - c
count_left size w r c hw hr hc = ground arith

abbrev to_copy : ℕ → ℕ → ℕ
to_copy len available = if leb len available then len else available

-- The device after it has played `c` bytes.
abbrev played : ℕ → ℕ → Audio → Audio
played size c a = record a {
  audio_base = set_register a.audio_base reg_rptr (wrap size (a.audio_base reg_rptr + c));
}

sdl_audio_callback_lem :
    (size : ℕ) (stream : Memory) (len : ℕ) (a : Audio)
    → IsAudio size a
    → let c = to_copy len (nr_bytes size a) in
      sdl_audio_callback stream len a
      ≡ ok (
        fill_stream a.sbuf (a.audio_base reg_rptr) (size - a.audio_base reg_rptr) stream len c,
        played size c a,
      )
unfolding sdl_audio_callback
sdl_audio_callback_lem size stream len a v =
    let w = a.audio_base reg_wptr in
    let r = a.audio_base reg_rptr in
    let count = count_lem size w r v.size_small v.wptr_in v.rptr_in in
    let c = to_copy len (nr_bytes size a) in
    let c_in : c < size =
      ground (arith, wrap-lt size (w + size - r) (omega (arith, v.wptr_in, v.rptr_in))) in
    let first : sub_u32 size r ≡ size - r = omega (arith, v.size_small, v.rptr_in) in
    let exact : u32 (r + c) ≡ r + c = omega (arith, v.size_small, v.rptr_in, c_in) in
    let at : u32 (r + c) % size ≡ wrap size (r + c) =
      ap (λ (t : ℕ). t % size) exact ∙ mod-wrap size (r + c) (omega (arith, v.rptr_in, c_in)) in
    let some_size : (size == 0) ≡ false = ground (arith, v.size_pos) in
    rw (v.size, count, first, at, some_size) refl

drop-pending :
    (size len : ℕ) (a : Audio)
    → IsAudio size a
    → pending size (played size (to_copy len (nr_bytes size a)) a) ≡ drop len (pending size a)
drop-pending size len a v =
    let w = a.audio_base reg_wptr in
    let r = a.audio_base reg_rptr in
    let n = nr_bytes size a in
    let n_in : n < size = wrap-lt size (w + size - r) (omega (arith, v.wptr_in, v.rptr_in)) in
    elim (Bool-cases (leb len n)) [
      | inl some_left ↦
          let left = count_left size w r len v.wptr_in v.rptr_in (ground arith) in
          rw (some_left, left)
            (sym (drop-ring size a.sbuf r n len v.rptr_in (omega arith) (ground arith)))
      | inr all ↦
          let left = count_left size w r n v.wptr_in v.rptr_in (omega arith) in
          let nothing : n - n ≡ 0 = omega arith in
          rw (all, left, nothing)
            (sym (drop_all (pending size a) len (rw (length-ring size a.sbuf r n) (ground arith))))
    ]

-- The callback plays the bytes that wait, in order, and silence after them. They are gone from the
-- buffer then, and no byte behind the stream is written.
pub sdl_audio_callback-pending :
    (size : ℕ) (stream : Memory) (len : ℕ) (a : Audio)
    → IsAudio size a
    → (stream' : Memory) × (a' : Audio) × (sdl_audio_callback stream len a ≡ ok (stream', a'))
      × IsAudio size a'
      × (pending size a' ≡ drop len (pending size a))
      × ((i : ℕ) → stream' i ≡ (if ltb i len then get_or (pending size a) i 0 else stream i))
sdl_audio_callback-pending size stream len a v =
    let w = a.audio_base reg_wptr in
    let r = a.audio_base reg_rptr in
    let n = nr_bytes size a in
    let c = to_copy len n in
    let n_in : n < size = wrap-lt size (w + size - r) (omega (arith, v.wptr_in, v.rptr_in)) in
    let c_in : c < size = ground arith in
    (
      fill_stream a.sbuf r (size - r) stream len c,
      played size c a,
      sdl_audio_callback_lem size stream len a v,
      record {
        size_pos = v.size_pos;
        size_small = v.size_small;
        size = v.size;
        wptr_in = v.wptr_in;
        rptr_in = wrap-lt size (r + c) (omega (arith, v.rptr_in, c_in));
      },
      drop-pending size len a v,
      λ i.
          fill_stream_lem size a.sbuf stream r len c i v.rptr_in (omega arith) (ground arith)
          ∙ ground (arith, get_or-ring size a.sbuf r n i v.rptr_in (omega arith)),
    )
