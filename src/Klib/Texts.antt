-- ===== src/Klib/Texts.antt =====
-- What the functions of abstract-machine/klib/src/string.c do on texts.
use mathlib.Core.Path.{subst}
use bailuwan.Base.{
  Bool-cases, ◌⊎◌, ◌∙◌, ap, ℕ, zero, suc, ◌+◌, ◌<◌, ◌≤◌, ◌≡◌, ◌≢◌, refl, false, ◌==◌, if◌then◌else◌,
  List, [], ◌∷◌, ◌++◌, length, arith, inl, inr, some,
}
use bailuwan.Base.Int.{ℤ, pos, sub_ℕ}
use bailuwan.Klib.Memory.{Bytes, set_byte}
use bailuwan.Klib.Strings.{find_nul, strlen, copy_text, strcpy, strcat, strcmp}

-- The text `xs` stands at the address `p`, with a NUL behind it.
abbrev pub IsText : Bytes → ℕ → List ℕ → Type 0
IsText m p [] = m p ≡ 0
IsText m p (x ∷ xs) = (m p ≡ x) × (x ≢ 0) × IsText m (p + 1) xs

find_nul-IsText :
    (xs : List ℕ) (m : Bytes) (p fuel : ℕ)
    → IsText m p xs
    → length xs < fuel
    → find_nul fuel m p ≡ some (p + length xs)
unfolding find_nul
find_nul-IsText xs m p zero h enough = absurd (omega arith)
find_nul-IsText [] m p (suc fuel) h enough = ground arith
find_nul-IsText (x ∷ xs) m p (suc fuel) (here, some_left, h) enough =
    let rest = find_nul-IsText xs m (p + 1) fuel h (omega arith) in
    let more : (m p == 0) ≡ false = ground arith in rw (more, rest) (ap some (omega arith))

-- `strlen` gives the length.
pub strlen-IsText :
    (xs : List ℕ) (m : Bytes) (s fuel : ℕ)
    → IsText m s xs
    → length xs < fuel
    → strlen fuel m s ≡ some (length xs)
unfolding strlen
strlen-IsText xs m s fuel h enough =
    rw (find_nul-IsText xs m s fuel h enough) (ap some (omega arith))

IsText-same :
    (xs : List ℕ) (m m' : Bytes) (p : ℕ)
    → ((i : ℕ) → p ≤ i → i < p + suc (length xs) → m' i ≡ m i)
    → IsText m p xs
    → IsText m' p xs
IsText-same [] m m' p same h = same p (omega arith) (omega arith) ∙ h
IsText-same (x ∷ xs) m m' p same (here, some_left, h) = (
  same p (omega arith) (omega arith) ∙ here,
  some_left,
  IsText-same xs m m' (p + 1) (λ i lo hi. same i (omega arith) (omega arith)) h,
)

-- The `n` bytes from `dst` on do not meet the `k` bytes from `src` on.
abbrev pub Apart : ℕ → ℕ → ℕ → ℕ → Type 0
Apart dst n src k = (dst + n ≤ src) ⊎ (src + k ≤ dst)

copy_text-IsText :
    (xs : List ℕ) (m : Bytes) (dst src fuel : ℕ)
    → IsText m src xs
    → length xs < fuel
    → Apart dst (suc (length xs)) src (suc (length xs))
    → (m' : Bytes) × (copy_text fuel m dst src ≡ some m')
      × IsText m' dst xs
      × ((i : ℕ) → (i < dst) ⊎ (dst + suc (length xs) ≤ i) → m' i ≡ m i)
unfolding copy_text set_byte
copy_text-IsText xs m dst src zero h enough apart = absurd (omega arith)
copy_text-IsText [] m dst src (suc fuel) h enough apart =
    (set_byte m dst (m src), ground (arith, h), ground (arith, h), λ i out. ground arith)
copy_text-IsText (x ∷ xs) m dst src (suc fuel) (here, some_left, h) enough apart =
    let m1 = set_byte m dst (m src) in
    let more : (m src == 0) ≡ false = ground arith in
    let kept = IsText-same xs m m1 (src + 1) (λ i lo hi. ground arith) h in
    let (m', run, text, out) =
      copy_text-IsText xs m1 (dst + 1) (src + 1) fuel kept (omega arith) (ground arith) in
    (
      m',
      rw (more, run) refl,
      (out dst (inl (omega arith)) ∙ ground (arith, here), some_left, text),
      λ i h'. out i (ground arith) ∙ ground arith,
    )

-- `strcpy` copies the text, and writes to no byte outside its copy.
pub strcpy-IsText :
    (xs : List ℕ) (m : Bytes) (dst src fuel : ℕ)
    → IsText m src xs
    → length xs < fuel
    → Apart dst (suc (length xs)) src (suc (length xs))
    → (m' : Bytes) × (strcpy fuel m dst src ≡ some m')
      × IsText m' dst xs
      × ((i : ℕ) → (i < dst) ⊎ (dst + suc (length xs) ≤ i) → m' i ≡ m i)
unfolding strcpy
strcpy-IsText xs m dst src fuel h enough apart = copy_text-IsText xs m dst src fuel h enough apart

IsText-append :
    (xs ys : List ℕ) (m m' : Bytes) (p : ℕ)
    → IsText m p xs
    → ((i : ℕ) → p ≤ i → i < p + length xs → m' i ≡ m i)
    → IsText m' (p + length xs) ys
    → IsText m' p (xs ++ ys)
IsText-append [] ys m m' p hx same hy =
    let at : p + 0 ≡ p = omega arith in subst (λ q. IsText m' q ys) at hy
IsText-append (x ∷ xs) ys m m' p (here, some_left, hx) same hy =
    let at : p + suc (length xs) ≡ p + 1 + length xs = omega arith in
    (
      same p (omega arith) (omega arith) ∙ here,
      some_left,
      IsText-append xs ys m m' (p + 1) hx (λ i lo hi. same i (omega arith) (omega arith))
          (subst (λ q. IsText m' q ys) at hy),
    )

-- `strcat` joins the texts.
pub strcat-IsText :
    (xs ys : List ℕ) (m : Bytes) (dst src fuel : ℕ)
    → IsText m dst xs
    → IsText m src ys
    → length xs < fuel
    → length ys < fuel
    → Apart dst (length xs + suc (length ys)) src (suc (length ys))
    → (m' : Bytes) × (strcat fuel m dst src ≡ some m')
      × IsText m' dst (xs ++ ys)
      × ((i : ℕ) → (i < dst) ⊎ (dst + length xs + suc (length ys) ≤ i) → m' i ≡ m i)
unfolding strcat
strcat-IsText xs ys m dst src fuel hx hy fx fy apart =
    let (m', run, text, out) =
      copy_text-IsText ys m (dst + length xs) src fuel hy fy (ground arith) in
    (
      m',
      rw (find_nul-IsText xs m dst fuel hx fx, run) refl,
      IsText-append xs ys m m' dst hx (λ i lo hi. out i (inl hi)) text,
      λ i h. out i (ground arith),
    )

-- How two texts compare: by the first bytes that differ.
abbrev pub compare_text : List ℕ → List ℕ → ℤ
compare_text [] [] = pos 0
compare_text [] (y ∷ ys) = sub_ℕ 0 y
compare_text (x ∷ xs) [] = sub_ℕ x 0
compare_text (x ∷ xs) (y ∷ ys) = if x == y then compare_text xs ys else sub_ℕ x y

-- `strcmp` compares by the first bytes that differ.
pub strcmp-compare_text :
    (xs ys : List ℕ) (m : Bytes) (s1 s2 fuel : ℕ)
    → IsText m s1 xs
    → IsText m s2 ys
    → length xs < fuel
    → strcmp fuel m s1 s2 ≡ some (compare_text xs ys)
unfolding strcmp
strcmp-compare_text xs ys m s1 s2 zero hx hy enough = absurd (omega arith)
strcmp-compare_text [] [] m s1 s2 (suc fuel) hx hy enough = rw (hx, hy) refl
strcmp-compare_text [] (y ∷ ys) m s1 s2 (suc fuel) hx (hy, ny, ty) enough = rw (hx, hy) refl
strcmp-compare_text (x ∷ xs) [] m s1 s2 (suc fuel) (hx, nx, tx) hy enough =
    let differ : (x == 0) ≡ false = ground arith in rw (hx, hy, differ) refl
strcmp-compare_text (x ∷ xs) (y ∷ ys) m s1 s2 (suc fuel) (hx, nx, tx) (hy, ny, ty) enough =
    let rest = strcmp-compare_text xs ys m (s1 + 1) (s2 + 1) fuel tx ty (omega arith) in
    let more : (x == 0) ≡ false = ground arith in
    elim (Bool-cases (x == y)) [
      | inl same ↦ rw (hx, hy, more, same, rest) refl
      | inr differ ↦ rw (hx, hy, more, differ) refl
    ]
