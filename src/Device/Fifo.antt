-- ===== src/Device/Fifo.antt =====
-- What the keyboard promises: a queue that keeps the order and holds up to 1023 keys.
use bailuwan.Base.{
  refl, ◌⊎◌, false, inr, inl, Bool-cases, ◌≢◌, ℕ, zero, suc, ◌+◌, ◌-◌, ◌%◌, ◌<◌, ◌≡◌, refl, Bool,
  ◌==◌, if◌then◌else◌, List, [], ◌∷◌, ◌++◌, length, arith, bit_or,
}
use bailuwan.Base.Run.{Stop, Run, ok, stop, assert_fail}
use bailuwan.Device.Port.{set_register}
use bailuwan.Device.Keyboard.{
  Keyboard, key_queue_len, key_none, keydown_mask, key_enqueue, key_dequeue,
}

-- The `n` entries of the ring from index `f` on.
abbrev pub entries : (ℕ → ℕ) → ℕ → ℕ → List ℕ
entries q f zero = []
entries q f (suc n) = q f ∷ entries q ((f + 1) % key_queue_len) n

abbrev pub nr_keys : Keyboard → ℕ
nr_keys k = (k.key_r + key_queue_len - k.key_f) % key_queue_len

-- The keys that wait, the oldest first.
abbrev pub queued : Keyboard → List ℕ
queued k = entries k.key_queue k.key_f (nr_keys k)

pub record IsKeyboard (k : Keyboard) : Type 0 where
  pub front_in : k.key_f < key_queue_len
  pub rear_in : k.key_r < key_queue_len

length-entries : (q : ℕ → ℕ) (f n : ℕ) → length (entries q f n) ≡ n
length-entries q f zero = refl
length-entries q f (suc n) = omega (arith, length-entries q ((f + 1) % key_queue_len) n)

-- A write to the entry behind the `n` entries adds it at their end.
entries-set :
    (q : ℕ → ℕ) (f n p x : ℕ)
    → f < key_queue_len
    → n < key_queue_len
    → p ≡ (f + n) % key_queue_len
    → entries (set_register q p x) f (suc n) ≡ entries q f n ++ (x ∷ [])
entries-set q f zero p x lo hi at = ground arith
entries-set q f (suc n) p x lo hi at =
    let apart : f ≢ p = omega arith in
    let step =
      entries-set q ((f + 1) % key_queue_len) n p x (omega arith) (omega arith) (omega arith) in
    ground (arith, apart, step)

-- The queue that a keyboard keeps, as a list.
unfoldable pub pop : List ℕ → ℕ × List ℕ
pop [] = (key_none, [])
pop (x ∷ q) = (x, q)

unfoldable pub push : ℕ → List ℕ → Run (List ℕ)
push x q = if length q == key_queue_len - 1 then stop assert_fail else ok (q ++ (x ∷ []))

-- What a key adds to the queue, if the map of the keys knows it and the program runs.
abbrev pub scancode_of : (ℕ → ℕ) → ℕ → Bool → ℕ
scancode_of keymap scancode is_keydown =
    bit_or (keymap scancode) (if is_keydown then keydown_mask else 0)

-- A call of the code and one of the list do the same: both stop for the same reason, or both
-- return, and the keyboard holds the list.
abbrev pub SameRun : Run Keyboard → Run (List ℕ) → Type 0
SameRun r s =
    ((w : Stop) × (r ≡ stop w) × (s ≡ stop w))
    ⊎ ((k : Keyboard) × IsKeyboard k × (r ≡ ok k) × (s ≡ ok (queued k)))

pub key_enqueue-push :
    (x : ℕ) (k : Keyboard) → IsKeyboard k → SameRun (key_enqueue x k) (push x (queued k))
unfolding key_enqueue push
key_enqueue-push x k v =
    let full = length-entries k.key_queue k.key_f (nr_keys k) in
    elim (Bool-cases ((k.key_r + 1) % key_queue_len == k.key_f)) [
      | inl over ↦
          let at : (k.key_r + 1) % key_queue_len ≡ k.key_f = ground arith in
          let last : nr_keys k ≡ key_queue_len - 1 = omega arith in
          inl (assert_fail, rw over refl, rw (full, last) refl)
      | inr room ↦
          let apart : (k.key_r + 1) % key_queue_len ≢ k.key_f = ground arith in
          let at : k.key_r ≡ (k.key_f + nr_keys k) % key_queue_len = omega arith in
          let some_room : nr_keys k < key_queue_len - 1 = omega arith in
          let count : ((k.key_r + 1) % key_queue_len + key_queue_len - k.key_f) % key_queue_len
              ≡ suc (nr_keys k) =
            omega arith in
          let added =
            entries-set k.key_queue k.key_f (nr_keys k) k.key_r x v.front_in (omega arith) at in
          let short : (nr_keys k == key_queue_len - 1) ≡ false = ground arith in
          inr (
            record k {
              key_queue = set_register k.key_queue k.key_r x;
              key_r = (k.key_r + 1) % key_queue_len;
            },
            record { front_in = v.front_in; rear_in = omega arith },
            rw room refl,
            rw (full, short, count, added) refl,
          )
    ]

pub key_dequeue-pop :
    (k : Keyboard) → IsKeyboard k → let (x, k') = key_dequeue k in (x, queued k') ≡ pop (queued k)
unfolding key_dequeue pop
key_dequeue-pop k v = elim (Bool-cases (k.key_f == k.key_r)) [
  | inl empty ↦ let none_left : nr_keys k ≡ 0 = ground arith in rw (empty, none_left) refl
  | inr more ↦
      let apart : k.key_f ≢ k.key_r = ground arith in
      let left : nr_keys k
          ≡ suc (((k.key_r + key_queue_len) - (k.key_f + 1) % key_queue_len) % key_queue_len) =
        omega arith in
      rw (more, left) refl
]

pub key_dequeue-IsKeyboard : (k : Keyboard) → IsKeyboard k → IsKeyboard (key_dequeue k).1
unfolding key_dequeue
key_dequeue-IsKeyboard k v = ground arith
