-- ===== src/Sdb/Count.antt =====
-- How often a number is in a list, for lists of elements of an array.
use bailuwan.Base.{
  false, true, suc, Bool, length, List, [], ◌∷◌, ◌+◌, ◌==◌, if◌then◌else◌, ◌≡◌, ◌≤◌, ℕ, arith,
}

abbrev pub one_if : Bool → ℕ
one_if b = if b then 1 else 0

abbrev pub count : ℕ → List ℕ → ℕ
count i [] = 0
count i (x ∷ xs) = one_if (x == i) + count i xs

-- Without its first occurrence.
abbrev pub remove : ℕ → List ℕ → List ℕ
remove i [] = []
remove i (x ∷ xs) = if x == i then xs else x ∷ remove i xs

pub one_if-le : (b : Bool) → one_if b ≤ 1
one_if-le true = omega arith
one_if-le false = omega arith

pub one_if_self : (i : ℕ) → one_if (i == i) ≡ 1
one_if_self i = ground arith

pub count-remove :
    (w i : ℕ) (xs : List ℕ) → 1 ≤ count w xs → one_if (w == i) + count i (remove w xs) ≡ count i xs
count-remove w i [] h = absurd (omega arith)
count-remove w i (x ∷ xs) h = ground (arith, count-remove w i xs)

pub length-remove : (w : ℕ) (xs : List ℕ) → 1 ≤ count w xs → suc (length (remove w xs)) ≡ length xs
length-remove w [] h = absurd (omega arith)
length-remove w (x ∷ xs) h = ground (arith, length-remove w xs)
