-- ===== src/Device/Wait.antt =====
-- The wait of the driver abstract-machine/am/src/platform/nemu/ioe/audio.c for room in the buffer.
use bailuwan.Device.Port.{set_register}
use bailuwan.Base.{
  take, ◌∙◌, length-drop, ap, Bool-cases, ℕ, zero, suc, ◌+◌, ◌-◌, ◌^◌, ◌<◌, ◌≤◌, ◌≡◌, refl, leb,
  List, [], ◌∷◌, length, arith, drop, inl, inr, Option, some, true,
}
use bailuwan.Base.Run.{Run, ok}
use bailuwan.Memory.Host.{Memory}
use bailuwan.Device.Audio.{Audio, reg_wptr, reg_rptr, reg_count, sub_u32, inl_audio}
use bailuwan.Device.Player.{wait_room}
use bailuwan.Device.Ring.{wrap-lt, length-ring}
use bailuwan.Device.Stream.{IsAudio, nr_bytes, pending, count_lem, sdl_audio_callback-pending}

abbrev pub sum : List ℕ → ℕ
sum [] = 0
sum (x ∷ xs) = x + sum xs

drop_nil : (k : ℕ) → drop {A = ℕ} k [] ≡ []
drop_nil zero = refl
drop_nil (suc k) = refl

pub drop-drop : (m k : ℕ) (xs : List ℕ) → drop k (drop m xs) ≡ drop (m + k) xs
drop-drop m k [] = ground (arith, drop_nil m, drop_nil k, drop_nil (m + k))
drop-drop zero k (x ∷ xs) = let none_more : 0 + k ≡ k = omega arith in rw none_more refl
drop-drop (suc m) k (x ∷ xs) =
    let e : suc m + k ≡ suc (m + k) = omega arith in rw e (drop-drop m k xs)

-- The state after the guest has read the count of bytes.
abbrev counted : ℕ → Audio → Audio
counted size a = record a { audio_base = set_register a.audio_base reg_count (nr_bytes size a) }

inl_audio_count :
    (size : ℕ) (a : Audio)
    → IsAudio size a
    → inl_audio size reg_count a ≡ ok (nr_bytes size a, counted size a)
unfolding inl_audio
inl_audio_count size a v =
    rw
      (count_lem size (a.audio_base reg_wptr) (a.audio_base reg_rptr) v.size_small v.wptr_in
        v.rptr_in)
      refl

counted-IsAudio : (size : ℕ) (a : Audio) → IsAudio size a → IsAudio size (counted size a)
counted-IsAudio size a v = record {
  size_pos = v.size_pos;
  size_small = v.size_small;
  size = v.size;
  wptr_in = v.wptr_in;
  rptr_in = v.rptr_in;
}

pub length-pending : (size : ℕ) (a : Audio) → length (pending size a) ≡ nr_bytes size a
length-pending size a = length-ring size a.sbuf (a.audio_base reg_rptr) (nr_bytes size a)

nr_bytes-lt : (size : ℕ) (a : Audio) → IsAudio size a → nr_bytes size a < size
nr_bytes-lt size a v =
    wrap-lt size (a.audio_base reg_wptr + size - a.audio_base reg_rptr)
      (omega (arith, v.wptr_in, v.rptr_in))

-- There is room for `len` bytes once `k` of the `n` bytes that wait have been played.
abbrev pub Room : ℕ → ℕ → ℕ → ℕ → Type 0
Room size len n k = n - k + len ≤ size

-- The wait has ended after the first `j` polls, which is as soon as there is room.
abbrev pub Waited : ℕ → List ℕ → ℕ → Audio → Run (Option Audio) → Type 0
Waited size polls len a r =
    (j : ℕ) × (a' : Audio) × (r ≡ ok (some a'))
    × IsAudio size a'
    × (j ≤ length polls)
    × (pending size a' ≡ drop (sum (take j polls)) (pending size a))
    × Room size len (nr_bytes size a) (sum (take j polls))
    × ((i : ℕ) → i < j → ¬ Room size len (nr_bytes size a) (sum (take i polls)))

free_space : (size n : ℕ) → size ≤ 2 ^ 31 → n < size → sub_u32 size n ≡ size - n
free_space size n small h = omega arith

here-Waited :
    (size len : ℕ) (polls : List ℕ) (a : Audio)
    → IsAudio size a
    → leb len (size - nr_bytes size a) ≡ true
    → Waited size polls len a (ok (some (counted size a)))
here-Waited size len polls a v room =
    let n_in = nr_bytes-lt size a v in
    (
      0,
      counted size a,
      refl,
      counted-IsAudio size a v,
      omega arith,
      refl,
      ground (arith, n_in),
      λ i h. absurd (omega arith),
    )

not_earlier :
    (size len n m j : ℕ) (polls : List ℕ)
    → ¬ Room size len n 0
    → ((i : ℕ) → i < j → ¬ Room size len (n - m) (sum (take i polls)))
    → (i : ℕ) → i < suc j
    → ¬ Room size len n (sum (take i (m ∷ polls)))
not_earlier size len n m j polls here later zero h room = here room
not_earlier size len n m j polls here later (suc i) h room =
    later i (omega arith) (omega (arith, room))

pub wait_room-Waited :
    (size : ℕ) (polls : List ℕ) (stream : Memory) (len : ℕ) (a : Audio)
    → IsAudio size a
    → len ≤ size
    → nr_bytes size a + len ≤ size + sum polls
    → Waited size polls len a (wait_room size polls stream size len a)
unfolding wait_room sum
wait_room-Waited size [] stream len a v fits enough =
    let n_in = nr_bytes-lt size a v in
    let room : leb len (size - nr_bytes size a) ≡ true = ground arith in
    rw (inl_audio_count size a v, free_space size (nr_bytes size a) v.size_small n_in, room)
      (here-Waited size len [] a v room)
wait_room-Waited size (m ∷ polls) stream len a v fits enough =
    let n_in = nr_bytes-lt size a v in
    elim (Bool-cases (leb len (size - nr_bytes size a))) [
      | inl room ↦
          rw (inl_audio_count size a v, free_space size (nr_bytes size a) v.size_small n_in, room)
            (here-Waited size len (m ∷ polls) a v room)
      | inr full ↦
          let (stream', b, run, vb, left, bytes) =
            sdl_audio_callback-pending size stream m (counted size a) (counted-IsAudio size a v) in
          let fewer : nr_bytes size b ≡ nr_bytes size a - m = omega (
            arith,
            length-pending size b,
            ap length left,
            length-drop m (pending size a),
            length-pending size a,
          ) in
          let (j, a', done, v', le, rest, ends, first) =
            wait_room-Waited size polls stream' len b vb fits (omega arith) in
          let no_room : ¬ Room size len (nr_bytes size a) 0 = λ h. absurd (ground (arith, n_in)) in
          (
            suc j,
            a',
            rw
                (
                  inl_audio_count size a v,
                  free_space size (nr_bytes size a) v.size_small n_in,
                  full,
                  run,
                )
                done,
            v',
            omega arith,
            rest
                ∙ ap (drop (sum (take j polls))) left
                ∙ drop-drop m (sum (take j polls)) (pending size a),
            omega (arith, ends, fewer),
            not_earlier size len (nr_bytes size a) m j polls no_room
                λ i h room. first i h (omega (arith, fewer, room)),
          )
    ]
