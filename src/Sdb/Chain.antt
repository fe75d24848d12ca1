-- ===== src/Sdb/Chain.antt =====
-- Lists threaded through an array as lists of indices.
use mathlib.Core.Path.{subst}
use bailuwan.Base.{
  sym, ap, ◌<◌, length, inr, refl, inl, zero, [], ◌==◌, suc, Bool-cases, some, false, ◌∷◌, arith,
  none, ◌≢◌, ◌≡◌, ◌≤◌, Option, List, ℕ,
}
use bailuwan.Sdb.Pool.{set_next, points_to, find_prev}
use bailuwan.Sdb.Count.{one_if_self, count, remove}

-- Following `next` from `p` runs through the indices `xs` and ends at NULL.
abbrev pub Chain : (ℕ → Option ℕ) → Option ℕ → List ℕ → Type 0
Chain next p [] = p ≡ none
Chain next p (x ∷ xs) = (p ≡ some x) × Chain next (next x) xs

abbrev pub Distinct : List ℕ → Type 0
Distinct xs = (i : ℕ) → count i xs ≤ 1

pub set_next_self : (next : ℕ → Option ℕ) (p : ℕ) (v : Option ℕ) → set_next next p v p ≡ v
unfolding set_next
set_next_self next p v = ground arith

pub set_next_ne :
    (next : ℕ → Option ℕ) (p i : ℕ) (v : Option ℕ) → i ≢ p → set_next next p v i ≡ next i
unfolding set_next
set_next_ne next p i v h = ground arith

-- An assignment to an element that is not in the list leaves the list.
pub Chain-set_next :
    (next : ℕ → Option ℕ) (q : ℕ) (v p : Option ℕ) (xs : List ℕ)
    → count q xs ≡ 0
    → Chain next p xs
    → Chain (set_next next q v) p xs
Chain-set_next next q v p [] apart h = h
Chain-set_next next q v p (x ∷ xs) apart (e, h) =
    let other : x ≢ q = ground arith in
    (e, rw (set_next_ne next q x v other) (Chain-set_next next q v (next x) xs (ground arith) h))

-- A pointer to an element that is not in the list is not the list's first.
pub points_to-apart :
    (next : ℕ → Option ℕ) (wp : ℕ) (p : Option ℕ) (xs : List ℕ)
    → Chain next p xs
    → count wp xs ≡ 0
    → points_to p wp ≡ false
unfolding points_to
points_to-apart next wp p [] h apart = rw h
points_to-apart next wp p (x ∷ xs) (e, h) apart = rw e (ground arith)

-- The search fails where the list has no such element.
pub find_prev-none :
    (next : ℕ → Option ℕ) (wp fuel : ℕ) (p : Option ℕ) (xs : List ℕ)
    → Chain next p xs
    → count wp xs ≡ 0
    → find_prev fuel next p wp ≡ none
unfolding find_prev
find_prev-none next wp zero p xs h apart = refl
find_prev-none next wp (suc fuel) p [] h apart = rw h
find_prev-none next wp (suc fuel) p (x ∷ xs) (e, h) apart =
    let rest : count wp xs ≡ 0 = ground arith in
    rw (e, points_to-apart next wp (next x) xs h rest)
      (find_prev-none next wp fuel (next x) xs h rest)

-- The search finds the element before `wp`, and unlinking there removes `wp` from the list.
pub find_prev-remove :
    (next : ℕ → Option ℕ) (wp fuel x : ℕ) (xs : List ℕ)
    → Chain next (next x) xs
    → length xs < fuel
    → 1 ≤ count wp xs
    → Distinct (x ∷ xs)
    → (q : ℕ) × (find_prev fuel next (some x) wp ≡ some q)
      × (1 ≤ count q (x ∷ xs))
      × Chain (set_next next q (next wp)) (some x) (x ∷ remove wp xs)
unfolding find_prev points_to
find_prev-remove next wp zero x xs h room present once = absurd (omega arith)
find_prev-remove next wp (suc fuel) x [] h room present once = absurd (omega arith)
find_prev-remove next wp (suc fuel) x (y ∷ ys) (e, h) room present once =
    elim (Bool-cases (y == wp)) [
      | inl same ↦
          let at : next y ≡ next wp = ap next (ground arith) in
          let chain : Chain next (next wp) ys = rw (← at) h in
          let apart : count x ys ≡ 0 = omega (arith, once x, one_if_self x) in
          (
            x,
            rw (e, same),
            omega (arith, one_if_self x),
            (
              refl,
              rw (set_next_self next x (next wp), same)
                  (Chain-set_next next x (next wp) (next wp) ys apart chain),
            ),
          )
      | inr other ↦
          let (q, found, there, unlinked) =
            find_prev-remove next wp fuel y ys h (omega arith) (ground arith)
              (λ i. omega (arith, once i)) in
          let apart : x ≢ q = λ same.
            let twice : 1 ≤ count x (y ∷ ys) = subst (λ k. 1 ≤ count k (y ∷ ys)) (sym same) there in
            omega (arith, once x, one_if_self x, twice) in
          (
            q,
            rw (e, other) found,
            omega arith,
            (refl, rw (set_next_ne next q x (next wp) apart, e, other) unlinked),
          )
    ]
