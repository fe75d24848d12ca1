-- ===== src/Sdb/Parentheses.antt =====
-- What `check_parentheses` finds.
use mathlib.Core.Path.{subst}
use bailuwan.Base.{
  ap, Bool, not, ◌&&◌, ◌==◌, Bool-cases, inr, ◌∙◌, ◌-◌, inl, refl, false≢true, zero, arith, false,
  ◌+◌, ◌≤◌, true, ◌⊎◌, ◌<◌, suc, ◌≡◌, ℕ,
}
use bailuwan.Sdb.Scan.{Tokens, surrounded, not_surrounded, check_loop, check_parentheses}
use bailuwan.Sdb.Tokens.{TokenType, is_lpar, is_rpar, tk_lpar, tk_rpar}
use bailuwan.Sdb.Count.{one_if}

-- How many of the `n` tokens from `i` on pass a test; how many open or close a parenthesis.
abbrev pub tally : (TokenType → Bool) → Tokens → ℕ → ℕ → ℕ
tally q ts i zero = 0
tally q ts i (suc n) = one_if (q (ts i).token_type) + tally q ts (i + 1) n

abbrev pub opens : Tokens → ℕ → ℕ → ℕ
opens ts i n = tally is_lpar ts i n

abbrev pub closes : Tokens → ℕ → ℕ → ℕ
closes ts i n = tally is_rpar ts i n

tally-snoc :
    (q : TokenType → Bool) (ts : Tokens) (i n : ℕ)
    → tally q ts i (suc n) ≡ tally q ts i n + one_if (q (ts (i + n)).token_type)
tally-snoc q ts i zero =
    let here : one_if (q (ts i).token_type) ≡ one_if (q (ts (i + 0)).token_type) =
      ap (λ j. one_if (q (ts j).token_type)) (omega arith) in
    omega (arith, here)
tally-snoc q ts i (suc n) =
    let here : one_if (q (ts (i + 1 + n)).token_type) ≡ one_if (q (ts (i + suc n)).token_type) =
      ap (λ j. one_if (q (ts j).token_type)) (omega arith) in
    omega (arith, here, tally-snoc q ts (i + 1) n)

-- With `cnt` parentheses open, the last of the `n` tokens is the one that closes them all.
abbrev ClosesAtEnd : Tokens → ℕ → ℕ → ℕ → Type 0
ClosesAtEnd ts n i cnt =
    ((k : ℕ) → k < n → closes ts i k < cnt + opens ts i k) × (cnt + opens ts i n ≡ closes ts i n)

abbrev Decided : Tokens → ℕ → ℕ → ℕ → ℕ → Type 0
Decided ts e n i cnt =
    ((check_loop ts e n i cnt ≡ surrounded) × ClosesAtEnd ts n i cnt)
    ⊎ ((check_loop ts e n i cnt ≡ not_surrounded) × ¬ ClosesAtEnd ts n i cnt)

not_both : (t : TokenType) → is_lpar t ≡ true → is_rpar t ≡ false
not_both tk_lpar h = refl
not_both tk_rpar h = absurd (false≢true h)
not_both _ h = refl

-- A token in front changes how many are open to `cnt'`.
step-ClosesAtEnd :
    (ts : Tokens) (n i cnt cnt' : ℕ)
    → 1 ≤ cnt
    → cnt + one_if (is_lpar (ts i).token_type) ≡ cnt' + one_if (is_rpar (ts i).token_type)
    → ClosesAtEnd ts n (i + 1) cnt'
    → ClosesAtEnd ts (suc n) i cnt
step-ClosesAtEnd ts n i cnt cnt' pos h (above, at_end) = (still_above, omega arith)
  where
    still_above : (k : ℕ) → k < suc n → closes ts i k < cnt + opens ts i k
    still_above zero lt = omega arith
    still_above (suc k) lt = omega (arith, above k (omega arith))

unstep-ClosesAtEnd :
    (ts : Tokens) (n i cnt cnt' : ℕ)
    → cnt + one_if (is_lpar (ts i).token_type) ≡ cnt' + one_if (is_rpar (ts i).token_type)
    → ClosesAtEnd ts (suc n) i cnt
    → ClosesAtEnd ts n (i + 1) cnt'
unstep-ClosesAtEnd ts n i cnt cnt' h (above, at_end) =
    (λ k lt. omega (arith, above (suc k) (omega arith)), omega arith)

step-Decided :
    (ts : Tokens) (e n i cnt cnt' : ℕ)
    → 1 ≤ cnt
    → cnt + one_if (is_lpar (ts i).token_type) ≡ cnt' + one_if (is_rpar (ts i).token_type)
    → check_loop ts e (suc n) i cnt ≡ check_loop ts e n (i + 1) cnt'
    → Decided ts e n (i + 1) cnt'
    → Decided ts e (suc n) i cnt
step-Decided ts e n i cnt cnt' pos h run (inl (e', good)) =
    inl (run ∙ e', step-ClosesAtEnd ts n i cnt cnt' pos h good)
step-Decided ts e n i cnt cnt' pos h run (inr (e', bad)) =
    inr (run ∙ e', λ good. bad (unstep-ClosesAtEnd ts n i cnt cnt' h good))

-- Once the first parenthesis is open, the loop decides whether the last token closes it.
check_loop-Decided :
    (ts : Tokens) (e n i cnt : ℕ) → (1 ≤ cnt) ⊎ (n ≡ 0) → i + n ≡ e → Decided ts e n i cnt
unfolding check_loop
check_loop-Decided ts e zero i zero pos at = inl (refl, (λ k lt. absurd (omega arith), refl))
check_loop-Decided ts e zero i (suc cnt) pos at =
    inr (ground arith, λ good. absurd (omega (arith, good.1)))
check_loop-Decided ts e (suc n) i zero pos at = absurd (omega arith)
check_loop-Decided ts e (suc n) i (suc cnt) pos at = elim (Bool-cases (is_lpar (ts i).token_type)) [
  | inl l ↦
      let r = not_both (ts i).token_type l in
      step-Decided ts e n i (suc cnt) (suc cnt + 1) (omega arith) (rw (l, r) (omega arith)) (rw l)
        (check_loop-Decided ts e n (i + 1) (suc cnt + 1) (inl (omega arith)) (omega arith))
  | inr nl ↦ elim (Bool-cases (is_rpar (ts i).token_type)) [
    | inr nr ↦
        step-Decided ts e n i (suc cnt) (suc cnt) (omega arith) (rw (nl, nr)) (rw (nl, nr))
          (check_loop-Decided ts e n (i + 1) (suc cnt) (inl (omega arith)) (omega arith))
    | inl r ↦ elim (Bool-cases (suc cnt == 1 && not (i + 1 == e))) [
      | inl early ↦
          let last : (cnt ≡ 0) × (1 ≤ n) = ground arith in
          let closing : one_if (is_rpar (ts i).token_type) ≡ 1 = rw r in
          let opening : one_if (is_lpar (ts i).token_type) ≡ 0 = rw nl in
          inr (rw (nl, r, early), λ good. absurd (omega (arith, good.0 1 (omega arith))))
      | inr late ↦
          let positive : (suc cnt == 0) ≡ false = ground arith in
          let pred : suc cnt - 1 ≡ cnt = omega arith in
          step-Decided ts e n i (suc cnt) cnt (omega arith) (rw (nl, r) (omega arith))
            (rw (nl, r, late, positive, pred))
            (check_loop-Decided ts e n (i + 1) cnt (ground arith) (omega arith))
    ]
  ]
]

-- Of the `n` tokens from `p` on, the last closes the parenthesis that the first opens.
abbrev EnclosedTokens : Tokens → ℕ → ℕ → Type 0
EnclosedTokens ts p n =
    ((k : ℕ) → 0 < k → k < n → closes ts p k < opens ts p k) × (opens ts p n ≡ closes ts p n)

open-EnclosedTokens :
    (ts : Tokens) (p n : ℕ)
    → is_lpar (ts p).token_type ≡ true
    → ClosesAtEnd ts n (p + 1) 1
    → EnclosedTokens ts p (suc n)
open-EnclosedTokens ts p n l (above, at_end) = (still_above, omega (arith, closing, opening))
  where
    closing : one_if (is_rpar (ts p).token_type) ≡ 0
    closing = rw (not_both (ts p).token_type l)

    opening : one_if (is_lpar (ts p).token_type) ≡ 1
    opening = rw l

    still_above : (k : ℕ) → 0 < k → k < suc n → closes ts p k < opens ts p k
    still_above zero pos lt = absurd (omega arith)
    still_above (suc k) pos lt = omega (arith, above k (omega arith), closing, opening)

EnclosedTokens-open :
    (ts : Tokens) (p n : ℕ)
    → is_lpar (ts p).token_type ≡ true
    → EnclosedTokens ts p (suc n)
    → ClosesAtEnd ts n (p + 1) 1
EnclosedTokens-open ts p n l (above, at_end) =
    let closing : one_if (is_rpar (ts p).token_type) ≡ 0 = rw (not_both (ts p).token_type l) in
    let opening : one_if (is_lpar (ts p).token_type) ≡ 1 = rw l in
    (λ k lt. omega (arith, above (suc k) (omega arith) (omega arith)), omega arith)

-- A range that does not begin with an opening parenthesis, or does not end with a closing one.
not_lpar :
    (ts : Tokens) (p n : ℕ) → 1 < n → is_lpar (ts p).token_type ≡ false → ¬ EnclosedTokens ts p n
not_lpar ts p n h nl good =
    let opening : one_if (is_lpar (ts p).token_type) ≡ 0 = rw nl in
    omega (arith, good.0 1 (omega arith) h)

not_rpar :
    (ts : Tokens) (p n : ℕ)
    → 1 ≤ n
    → is_rpar (ts (p + n)).token_type ≡ false
    → ¬ EnclosedTokens ts p (suc n)
not_rpar ts p n h nr good =
    let closing : one_if (is_rpar (ts (p + n)).token_type) ≡ 0 = rw nr in
    omega (
      arith,
      good.0 n h (omega arith),
      good.1,
      tally-snoc is_lpar ts p n,
      tally-snoc is_rpar ts p n,
    )

-- The parenthesis that the first token of the range opens is closed by the last.
abbrev pub Enclosed : Tokens → ℕ → ℕ → Type 0
Enclosed ts p e = EnclosedTokens ts p (e - p)

check_parentheses-EnclosedTokens :
    (ts : Tokens) (p e n : ℕ)
    → 1 ≤ n
    → e ≡ p + suc n
    → ((check_parentheses ts p e ≡ surrounded) × EnclosedTokens ts p (suc n))
      ⊎ ((check_parentheses ts p e ≡ not_surrounded) × ¬ EnclosedTokens ts p (suc n))
unfolding check_parentheses check_loop
check_parentheses-EnclosedTokens ts p e n h at =
    let size : e - p ≡ suc n = omega arith in
    let last : e - 1 ≡ p + n = omega arith in
    elim (Bool-cases (is_lpar (ts p).token_type)) [
      | inr nl ↦ inr (rw nl, not_lpar ts p (suc n) (omega arith) nl)
      | inl l ↦ elim (Bool-cases (is_rpar (ts (p + n)).token_type)) [
        | inr nr ↦ inr (rw (last, l, nr), not_rpar ts p n h nr)
        | inl r ↦ elim (check_loop-Decided ts e n (p + 1) 1 (inl (omega arith)) (omega arith)) [
          | inl (run, good) ↦ inl (rw (last, size, l, r) run, open-EnclosedTokens ts p n l good)
          | inr (run, bad) ↦
              inr (rw (last, size, l, r) run, λ good. bad (EnclosedTokens-open ts p n l good))
        ]
      ]
    ]

-- `check_parentheses` says whether the first and the last token of a range of at least two are a
-- matched pair of parentheses; it never finds the expression invalid.
pub check_parentheses-Enclosed :
    (ts : Tokens) (p e : ℕ)
    → p + 1 < e
    → ((check_parentheses ts p e ≡ surrounded) × Enclosed ts p e)
      ⊎ ((check_parentheses ts p e ≡ not_surrounded) × ¬ Enclosed ts p e)
check_parentheses-Enclosed ts p e h =
    let size : suc (e - p - 1) ≡ e - p = omega arith in
    subst
      (λ n.
        ((check_parentheses ts p e ≡ surrounded) × EnclosedTokens ts p n)
        ⊎ ((check_parentheses ts p e ≡ not_surrounded) × ¬ EnclosedTokens ts p n))
      size (check_parentheses-EnclosedTokens ts p e (e - p - 1) (omega arith) (omega arith))
