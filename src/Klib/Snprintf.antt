-- ===== src/Klib/Snprintf.antt =====
-- `vsnprintf` of abstract-machine/klib/src/stdio.c: the buffer holds the start of the text.
use bailuwan.Base.Int.{ℤ}
use bailuwan.Riscv.Word.{signed}
use bailuwan.Base.{
  ◌^◌, ◌%◌, ◌≢◌, ◌∙◌, ap, Bool-cases, ◌⊎◌, ℕ, zero, suc, ◌+◌, ◌-◌, ◌<◌, ◌≤◌, ◌≡◌, refl, ltb,
  if◌then◌else◌, List, [], ◌∷◌, ◌++◌, length, get_or, arith, inl, inr, Option, none, some,
  length-append,
}
use bailuwan.Base.Run.{Run, ok, stop, and_then}
use bailuwan.Klib.Memory.{Bytes, set_byte}
use bailuwan.Klib.Print.{Arg, format_loop}
use bailuwan.Klib.Format.{Buffer, write_char, append, format, vsnprintf, terminate}
use bailuwan.Klib.Related.{
  SameRun, both_stop, both_ok, SameOption, both_none, both_some, format_loop-R,
}

get_or-append_front : (t u : List ℕ) (i : ℕ) → i < length t → get_or (t ++ u) i 0 ≡ get_or t i 0
get_or-append_front [] u i h = absurd (omega arith)
get_or-append_front (x ∷ t) u zero h = refl
get_or-append_front (x ∷ t) u (suc i) h = get_or-append_front t u i (omega arith)

get_or-append_last : (t : List ℕ) (c : ℕ) → get_or (t ++ (c ∷ [])) (length t) 0 ≡ c
get_or-append_last [] c = refl
get_or-append_last (x ∷ t) c = get_or-append_last t c

abbrev pub least : ℕ → ℕ → ℕ
least a b = if ltb a b then a else b

-- The buffer holds the start of the text `t`, and memory outside it is as it was.
record Holds (mem : Bytes) (out cap : ℕ) (b : Buffer) (t : List ℕ) : Type 0 where
  start : b.out ≡ out
  limit : b.cap ≡ cap
  count : b.needed ≡ length t % 2 ^ 32
  end : b.pos ≡ least (length t) cap
  stored : (i : ℕ) → i < b.pos → b.mem (out + i) ≡ get_or t i 0
  outside : (j : ℕ) → (j < out) ⊎ (out + cap ≤ j) → b.mem j ≡ mem j

write_char-stored :
    (mem : Bytes) (out cap c : ℕ) (b : Buffer) (t : List ℕ)
    → Holds mem out cap b t
    → (i : ℕ) → i < (write_char c b).pos
    → (write_char c b).mem (out + i) ≡ get_or (append c t) i 0
unfolding write_char append
write_char-stored mem out cap c b t h i hi = elim (Bool-cases (ltb i b.pos)) [
  | inl before ↦
      let old = h.stored i (ground arith) in
      let short : i < length t = ground (arith, h.end) in
      ground (arith, h.start, old, get_or-append_front t (c ∷ []) i short)
  | inr last ↦
      let here : i ≡ b.pos = ground arith in
      let whole : b.pos ≡ length t = ground (arith, h.end, h.limit) in
      let at_end : i ≡ length t = here ∙ whole in
      let byte = ap (λ (k : ℕ). get_or (t ++ (c ∷ [])) k 0) at_end ∙ get_or-append_last t c in
      ground (arith, h.start, byte)
]

write_char-Holds :
    (mem : Bytes) (out cap c : ℕ) (b : Buffer) (t : List ℕ)
    → Holds mem out cap b t
    → Holds mem out cap (write_char c b) (append c t)
unfolding write_char append
write_char-Holds mem out cap c b t h =
    let grown = length-append t (c ∷ []) in
    record {
      start = ground (arith, h.start);
      limit = ground (arith, h.limit);
      count = ground (arith, h.count, grown);
      end = ground (arith, h.end, h.limit, grown);
      stored = write_char-stored mem out cap c b t h;
      outside = λ j hj. ground (arith, h.outside j hj, h.start, h.limit, h.end);
    }

-- What a run of `vsnprintf` comes to, for the whole text.
abbrev pub Prints : Bytes → ℕ → ℕ → Run (Option (List ℕ)) → Run (Option (Bytes × ℤ)) → Type 0
Prints mem out n (stop w) r = r ≡ stop w
Prints mem out n (ok none) r = r ≡ ok none
Prints mem out n (ok (some t)) r =
    (mem' : Bytes) × (r ≡ ok (some (mem', signed (length t % 2 ^ 32))))
    × ((i : ℕ) → i < n - 1 → i < length t → mem' (out + i) ≡ get_or t i 0)
    × (0 < n → mem' (out + least (length t) (n - 1)) ≡ 0)
    × ((j : ℕ) → (j < out) ⊎ (out + n ≤ j) → mem' j ≡ mem j)

terminated :
    (n : ℕ) (b : Buffer) (j : ℕ) {x : ℕ}
    → b.mem j ≡ x
    → (n ≡ 0) ⊎ (j ≢ b.out + b.pos)
    → (if ltb 0 n then set_byte b.mem (b.out + b.pos) 0 else b.mem) j ≡ x
unfolding set_byte
terminated n b j same (inl nothing) = ground (arith, same)
terminated n b j same (inr other) = ground (arith, same, other)

terminate-Prints :
    (mem : Bytes) (out n : ℕ) (r : Run (Option Buffer)) (r' : Run (Option (List ℕ)))
    → SameRun
        (SameOption write_char append (Holds mem out (n - 1)) (write_char-Holds mem out (n - 1)))
        r
        r'
    → Prints mem out n r' (and_then r λ o. terminate n o)
unfolding terminate set_byte
terminate-Prints mem out n _ _ (both_stop w) = refl
terminate-Prints mem out n _ _ (both_ok _ _ both_none) = refl
terminate-Prints mem out n _ _ (both_ok _ _ (both_some b t h)) = (
  if ltb 0 n then set_byte b.mem (b.out + b.pos) 0 else b.mem,
  ap (λ k. ok (some (if ltb 0 n then set_byte b.mem (b.out + b.pos) 0 else b.mem, signed k)))
      h.count,
  λ i hi hl.
      terminated n b (out + i) (h.stored i (ground (arith, h.end)))
        (ground (arith, h.start, h.end)),
  λ pos. ground (arith, h.start, h.end),
  λ j hj. terminated n b j (h.outside j (ground arith)) (ground (arith, h.start, h.end)),
)

-- `vsnprintf` writes the start of the text, as much as fits before a NUL at its end, and returns
-- the length of the whole text as an `int`; memory outside the `n` bytes stays as it is.
pub vsnprintf-Prints :
    (long_bits : ℕ) (mem : Bytes) (out n : ℕ) (fmt : List ℕ) (args : List Arg)
    → Prints mem out n (format long_bits fmt args) (vsnprintf long_bits mem out n fmt args)
unfolding vsnprintf format
vsnprintf-Prints long_bits mem out n fmt args =
    let b : Buffer = record {
      mem = mem;
      out = out;
      pos = 0;
      cap = if ltb 0 n then n - 1 else 0;
      needed = 0;
    } in
    terminate-Prints mem out n (format_loop write_char long_bits (length fmt + 1) fmt args b)
      (format_loop append long_bits (length fmt + 1) fmt args [])
      (format_loop-R write_char append (Holds mem out (n - 1)) (write_char-Holds mem out (n - 1))
        long_bits (length fmt + 1) fmt args b []
        (record {
          start = refl;
          limit = ground arith;
          count = refl;
          end = ground arith;
          stored = λ i hi. absurd (omega arith);
          outside = λ j hj. refl;
        }))
