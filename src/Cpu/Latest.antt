-- ===== src/Cpu/Latest.antt =====
-- What the ring buffer of nemu/src/cpu/cpu-exec.c shows.
use bailuwan.Device.Wait.{drop-drop}
use mathlib.Core.List.{append-nil, append_assoc}
use bailuwan.Base.{
  length-drop, length-append, ◌≢◌, Bool-cases, ℕ, zero, suc, ◌+◌, ◌-◌, ◌%◌, ◌<◌, ◌≤◌, ◌≡◌, refl,
  Bool, true, false, ◌==◌, if◌then◌else◌, List, [], ◌∷◌, ◌++◌, length, drop, map, arith, ap, sym,
  ◌∙◌, inl, inr,
}
use bailuwan.Device.Ring.{ring, wrap, ring-set, length-ring}
use bailuwan.Cpu.Iringbuf.{
  Iringbuf, iringbuf_sz, iringbuf_push, iringbuf_display, display_loop, empty_iringbuf,
}

abbrev nr_lines : Iringbuf → ℕ
nr_lines b = wrap iringbuf_sz (b.wptr + iringbuf_sz - b.rptr)

abbrev lines : Iringbuf → List ℕ
lines b = ring iringbuf_sz b.buf b.rptr (nr_lines b)

record IsIringbuf (b : Iringbuf) : Type 0 where
  rptr_in : b.rptr < iringbuf_sz
  wptr_in : b.wptr < iringbuf_sz

abbrev pub shown : List (ℕ × Bool) → List ℕ
shown xs = map (λ p. p.0) xs

display_loop-lines :
    (fuel i n : ℕ) (b : Iringbuf)
    → IsIringbuf b
    → i < iringbuf_sz
    → n ≡ wrap iringbuf_sz (b.wptr + iringbuf_sz - i)
    → n < fuel
    → shown (display_loop fuel i b) ≡ ring iringbuf_sz b.buf i n
unfolding display_loop
display_loop-lines zero i n b v hi count enough = absurd (omega arith)
display_loop-lines (suc fuel) i zero b v hi count enough =
    let here : (i == b.wptr) ≡ true = ground (arith, v.wptr_in) in rw here refl
display_loop-lines (suc fuel) i (suc n) b v hi count enough =
    let more : (i == b.wptr) ≡ false = ground (arith, v.wptr_in) in
    let next : (i + 1) % iringbuf_sz ≡ wrap iringbuf_sz (i + 1) = ground arith in
    let rest =
      display_loop-lines fuel (wrap iringbuf_sz (i + 1)) n b v (ground arith)
        (ground (arith, v.wptr_in)) (omega arith) in
    rw (more, next) (ap (λ xs. b.buf i ∷ xs) rest)

display-lines : (b : Iringbuf) → IsIringbuf b → shown (iringbuf_display b) ≡ lines b
unfolding iringbuf_display
display-lines b v =
    display_loop-lines iringbuf_sz b.rptr (nr_lines b) b v v.rptr_in refl
      (ground (arith, v.rptr_in, v.wptr_in))

push-IsIringbuf : (pc : ℕ) (b : Iringbuf) → IsIringbuf b → IsIringbuf (iringbuf_push pc b)
unfolding iringbuf_push
push-IsIringbuf pc b v = record {
  rptr_in = ground (arith, v.rptr_in);
  wptr_in = ground (arith, v.wptr_in);
}

push-lines :
    (pc : ℕ) (b : Iringbuf)
    → IsIringbuf b
    → lines (iringbuf_push pc b)
      ≡ (if nr_lines b == 15 then drop 1 (lines b ++ (pc ∷ [])) else lines b ++ (pc ∷ []))
unfolding iringbuf_push
push-lines pc b v =
    let n = nr_lines b in
    let added =
      ring-set iringbuf_sz b.buf b.rptr n b.wptr pc v.rptr_in (ground (arith, v.rptr_in, v.wptr_in))
        (ground (arith, v.rptr_in, v.wptr_in)) in
    elim (Bool-cases ((b.wptr + 1) % iringbuf_sz == b.rptr)) [
      | inl full ↦
          let at : (b.wptr + 1) % iringbuf_sz ≡ b.rptr = ground arith in
          let last : n ≡ 15 = ground (arith, v.rptr_in, v.wptr_in) in
          let front : (b.rptr + 1) % iringbuf_sz ≡ wrap iringbuf_sz (b.rptr + 1) =
            ground (arith, v.rptr_in) in
          let again : wrap iringbuf_sz
                ((b.wptr + 1) % iringbuf_sz + iringbuf_sz - wrap iringbuf_sz (b.rptr + 1))
              ≡ n =
            ground (arith, v.rptr_in, v.wptr_in) in
          let all : (n == 15) ≡ true = ground arith in
          rw (full, all, front, again) (ap (drop 1) added)
      | inr room ↦
          let apart : (b.wptr + 1) % iringbuf_sz ≢ b.rptr = ground arith in
          let short : (n == 15) ≡ false = ground (arith, v.rptr_in, v.wptr_in) in
          let longer : wrap iringbuf_sz ((b.wptr + 1) % iringbuf_sz + iringbuf_sz - b.rptr)
              ≡ suc n =
            ground (arith, v.rptr_in, v.wptr_in) in
          rw (room, short, longer) added
    ]

-- The last 15 elements.
abbrev pub latest : List ℕ → List ℕ
latest xs = drop (length xs - 15) xs

abbrev pub pushes : List ℕ → Iringbuf → Iringbuf
pushes [] b = b
pushes (pc ∷ pcs) b = pushes pcs (iringbuf_push pc b)

drop-append : (k : ℕ) (xs ys : List ℕ) → k ≤ length xs → drop k (xs ++ ys) ≡ drop k xs ++ ys
drop-append zero xs ys h = refl
drop-append (suc k) [] ys h = absurd (omega arith)
drop-append (suc k) (x ∷ xs) ys h = drop-append k xs ys (omega arith)

latest-append : (xs ys : List ℕ) → latest (latest xs ++ ys) ≡ latest (xs ++ ys)
latest-append xs ys =
    let k = length xs - 15 in
    let joined = drop-append k xs ys (omega arith) in
    let sizes : k + (length (drop k xs ++ ys) - 15) ≡ length (xs ++ ys) - 15 =
      omega (arith, length-append (drop k xs) ys, length-append xs ys, length-drop k xs) in
    ap (drop (length (drop k xs ++ ys) - 15)) (sym joined)
    ∙ drop-drop k (length (drop k xs ++ ys) - 15) (xs ++ ys)
    ∙ ap (λ (t : ℕ). drop t (xs ++ ys)) sizes

push-latest :
    (pc : ℕ) (b : Iringbuf)
    → IsIringbuf b
    → lines (iringbuf_push pc b) ≡ latest (lines b ++ (pc ∷ []))
push-latest pc b v =
    let n = nr_lines b in
    let count : length (lines b ++ (pc ∷ [])) ≡ n + 1 =
      omega (arith, length-append (lines b) (pc ∷ []), length-ring iringbuf_sz b.buf b.rptr n) in
    let n_in : n ≤ 15 = ground (arith, v.rptr_in, v.wptr_in) in
    elim (Bool-cases (n == 15)) [
      | inl all ↦
          let one : n + 1 - 15 ≡ 1 = ground arith in push-lines pc b v ∙ rw (count, all, one) refl
      | inr short ↦
          let nothing : n + 1 - 15 ≡ 0 = ground arith in
          push-lines pc b v ∙ rw (count, short, nothing) refl
    ]

pushes-latest :
    (pcs : List ℕ) (b : Iringbuf)
    → IsIringbuf b
    → (lines (pushes pcs b) ≡ latest (lines b ++ pcs)) × IsIringbuf (pushes pcs b)
pushes-latest [] b v =
    let fits : length (lines b) - 15 ≡ 0 =
      ground (arith, length-ring iringbuf_sz b.buf b.rptr (nr_lines b), v.rptr_in, v.wptr_in) in
    (rw (append-nil (lines b), fits) refl, v)
pushes-latest (pc ∷ pcs) b v =
    let (rest, v') = pushes-latest pcs (iringbuf_push pc b) (push-IsIringbuf pc b v) in
    (
      rest
          ∙ ap (λ xs. latest (xs ++ pcs)) (push-latest pc b v)
          ∙ latest-append (lines b ++ (pc ∷ [])) pcs
          ∙ ap latest (append_assoc (lines b) (pc ∷ []) pcs),
      v',
    )

-- The buffer shows the latest 15 instructions, the oldest of them first.
pub iringbuf_display-latest :
    (pcs : List ℕ) → shown (iringbuf_display (pushes pcs empty_iringbuf)) ≡ latest pcs
iringbuf_display-latest pcs =
    let (held, v) =
      pushes-latest pcs empty_iringbuf (record { rptr_in = omega arith; wptr_in = omega arith }) in
    display-lines (pushes pcs empty_iringbuf) v ∙ held
