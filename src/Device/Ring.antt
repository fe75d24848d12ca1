-- ===== src/Device/Ring.antt =====
-- The contents of the stream buffer of nemu/src/device/audio.c, as a list.
use mathlib.Core.List.{append_assoc, append-nil}
use native.Mathlib.Nat.{add-mul-mod_self_left, mod-eq_of_lt}
use bailuwan.Base.{
  ◌*◌, sym, inr, ◌∙◌, inl, ◌≢◌, Bool-cases, ap, ℕ, zero, suc, ◌+◌, ◌-◌, ◌%◌, ◌<◌, ◌≤◌, ◌≡◌, refl,
  ltb, if◌then◌else◌, List, [], ◌∷◌, ◌++◌, length, arith, get_or, drop,
}
use bailuwan.Memory.Host.{Memory}
use bailuwan.Device.Port.{set_register}

-- An index below `2 * size`, brought back into the buffer.
abbrev pub wrap : ℕ → ℕ → ℕ
wrap size p = if ltb p size then p else p - size

pub mod-wrap : (size p : ℕ) → p < size + size → p % size ≡ wrap size p
mod-wrap size p h = elim (Bool-cases (ltb p size)) [
  | inl low ↦ rw low (mod-eq_of_lt (ground arith))
  | inr high ↦
      let whole : p ≡ p - size + size * 1 = ground arith in
      rw high (
        ap (λ (t : ℕ). t % size) whole
        ∙ add-mul-mod_self_left (p - size) size 1
        ∙ mod-eq_of_lt (ground arith))
]

pub wrap-lt : (size p : ℕ) → p < size + size → wrap size p < size
wrap-lt size p h = ground arith

wrap_step :
    (size f i : ℕ) → f < size → i < size → wrap size (wrap size (f + 1) + i) ≡ wrap size (f + suc i)
wrap_step size f i hf hi = ground arith

wrap_start : (size f : ℕ) → f < size → wrap size (f + 0) ≡ f
wrap_start size f h = ground arith

module _ (size : ℕ) where
  -- The `n` bytes from index `f` on.
  abbrev pub ring : Memory → ℕ → ℕ → List ℕ
  ring m f zero = []
  ring m f (suc n) = m f ∷ ring m (wrap size (f + 1)) n

  pub length-ring : (m : Memory) (f n : ℕ) → length (ring m f n) ≡ n
  length-ring m f zero = refl
  length-ring m f (suc n) = ap suc (length-ring m (wrap size (f + 1)) n)

  pub get_or-ring :
      (m : Memory) (f n i : ℕ)
      → f < size
      → n ≤ size
      → get_or (ring m f n) i 0 ≡ (if ltb i n then m (wrap size (f + i)) else 0)
  get_or-ring m f zero i hf hn = ground arith
  get_or-ring m f (suc n) zero hf hn = ground (arith, wrap_start size f hf)
  get_or-ring m f (suc n) (suc i) hf hn =
      let rest =
        get_or-ring m (wrap size (f + 1)) n i (wrap-lt size (f + 1) (omega arith)) (omega arith) in
      elim (Bool-cases (ltb i n)) [
        | inl in' ↦ ground (arith, rest, wrap_step size f i hf (ground arith))
        | inr out ↦ ground (arith, rest)
      ]

  pub drop-ring :
      (m : Memory) (f n k : ℕ)
      → f < size
      → n ≤ size
      → k ≤ n
      → drop k (ring m f n) ≡ ring m (wrap size (f + k)) (n - k)
  drop-ring m f n zero hf hn hk =
      let none_less : n - 0 ≡ n = omega arith in rw (wrap_start size f hf, none_less) refl
  drop-ring m f zero (suc k) hf hn hk = absurd (omega arith)
  drop-ring m f (suc n) (suc k) hf hn hk =
      let less : suc n - suc k ≡ n - k = omega arith in
      rw (← wrap_step size f k hf (omega arith), less)
        (drop-ring m (wrap size (f + 1)) n k (wrap-lt size (f + 1) (omega arith)) (omega arith)
          (omega arith))

  -- A write of the byte behind the `n` bytes adds it at their end.
  pub ring-set :
      (m : Memory) (f n p x : ℕ)
      → f < size
      → n < size
      → p ≡ wrap size (f + n)
      → ring (set_register m p x) f (suc n) ≡ ring m f n ++ (x ∷ [])
  ring-set m f zero p x hf hn at = ground (arith, wrap_start size f hf)
  ring-set m f (suc n) p x hf hn at =
      let apart : f ≢ p = ground arith in
      let step =
        ring-set m (wrap size (f + 1)) n p x (wrap-lt size (f + 1) (omega arith)) (omega arith)
          (at ∙ sym (wrap_step size f n hf (omega arith))) in
      ground (arith, apart, step)

  -- The bytes `xs`, written one after the other from index `p` on.
  abbrev pub put : ℕ → List ℕ → Memory → Memory
  put p [] m = m
  put p (x ∷ xs) m = put (wrap size (p + 1)) xs (set_register m p x)

  pub ring-put :
      (xs : List ℕ) (m : Memory) (f n p : ℕ)
      → f < size
      → n + length xs ≤ size
      → p ≡ wrap size (f + n)
      → ring (put p xs m) f (n + length xs) ≡ ring m f n ++ xs
  ring-put [] m f n p hf hn at =
      let none_more : n + 0 ≡ n = omega arith in rw (none_more, append-nil (ring m f n)) refl
  ring-put (x ∷ xs) m f n p hf hn at =
      let step = ring-set m f n p x hf (omega arith) at in
      let rest =
        ring-put xs (set_register m p x) f (suc n) (wrap size (p + 1)) hf (omega arith)
          (ground arith) in
      let count : n + suc (length xs) ≡ suc n + length xs = omega arith in
      rw count (rest ∙ ap (λ (t : List ℕ). t ++ xs) step ∙ append_assoc (ring m f n) (x ∷ []) xs)

  pub put-append :
      (xs ys : List ℕ) (m : Memory) (p : ℕ)
      → p < size
      → length xs ≤ size
      → put p (xs ++ ys) m ≡ put (wrap size (p + length xs)) ys (put p xs m)
  put-append [] ys m p hp h = rw (wrap_start size p hp) refl
  put-append (x ∷ xs) ys m p hp h =
      put-append xs ys (set_register m p x) (wrap size (p + 1)) (wrap-lt size (p + 1) (omega arith))
        (omega arith)
      ∙ rw (wrap_step size p (length xs) hp (omega arith)) refl
