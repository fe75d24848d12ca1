-- ===== src/Sdb/Fuel.antt =====
-- The recursion of `eval` ends: its operands are shorter ranges of tokens.
use bailuwan.Riscv.State.{Machine}
use bailuwan.Sdb.Eval.{
  eval_operator, no_operator, mismatch, single_token, empty_range, Shape, eval_shape,
  in_parentheses, operator_at, split, eval_or,
}
use bailuwan.Memory.Bus.{Env}
use mathlib.Core.Path.{subst}
use bailuwan.Base.{
  ◌∙◌, fun_ext, refl, ap, ◌-◌, zero, none, inr, suc, inl, ◌<◌, arith, ◌+◌, some, ◌⊎◌, ◌≤◌, Option,
  ◌≡◌, ℕ,
}
use bailuwan.Sdb.Scan.{Tokens, Scan, scan_token, scan_loop, find_dominant_operator}
use bailuwan.Sdb.Tokens.{TokenType}
use bailuwan.Base.Run.{stop, Cmd, and_then-ok, ok_cancel, ok, Run, and_then}

-- A token changes nothing that has been found, or is what is found.
scan_token-idx :
    (t : TokenType) (i : ℕ) (s s' : Scan)
    → scan_token t i s ≡ ok s'
    → (s'.idx ≡ s.idx) ⊎ (s'.idx ≡ some i)
unfolding scan_token
scan_token-idx t i s s' h = ground arith

-- What has been found is a token from `p` to before `i`.
abbrev Within : ℕ → ℕ → Option ℕ → Type 0
Within p i none = Unit {0}
Within p i (some j) = (p ≤ j) × (j < i)

Within-suc : (p i : ℕ) (o : Option ℕ) → Within p i o → Within p (i + 1) o
Within-suc p i none h = h
Within-suc p i (some j) h = (h.0, omega (arith, h.1))

scan_token-Within :
    (t : TokenType) (p i : ℕ) (s s' : Scan)
    → p ≤ i
    → Within p i s.idx
    → scan_token t i s ≡ ok s'
    → Within p (i + 1) s'.idx
scan_token-Within t p i s s' le range h = elim (scan_token-idx t i s s' h) [
  | inl e ↦ rw e (Within-suc p i s.idx range)
  | inr e ↦ rw e (le, omega arith)
]

scan_loop-Within :
    (ts : Tokens) (p n i : ℕ) (s s' : Scan)
    → p ≤ i
    → Within p i s.idx
    → scan_loop ts n i s ≡ ok s'
    → Within p (i + n) s'.idx
unfolding scan_loop
scan_loop-Within ts p zero i s s' le range h =
    let same : s ≡ s' = ok_cancel h in
    subst (λ (c : Scan). Within p (i + 0) c.idx) same
      (subst (λ k. Within p k s.idx) (omega arith) range)
scan_loop-Within ts p (suc n) i s s' le range h =
    let (c, step, rest) =
      and_then-ok (scan_token (ts i).token_type i s) (λ c. scan_loop ts n (i + 1) c) h in
    let next : i + suc n ≡ i + 1 + n = omega arith in
    rw next (
      scan_loop-Within ts p n (i + 1) c s' (omega arith)
        (scan_token-Within (ts i).token_type p i s c le range step) rest)

-- The dominant operator is a token of the range.
pub find_dominant_operator-range :
    (ts : Tokens) (p e op : ℕ) → find_dominant_operator ts p e ≡ ok (some op) → (p ≤ op) × (op < e)
unfolding find_dominant_operator
find_dominant_operator-range ts p e op h =
    let (c, scanned, found) = and_then-ok (scan_loop ts (e - p) p _) (λ c. ok c.idx) h in
    let range = scan_loop-Within ts p (e - p) p _ c (omega arith) tt scanned in
    let there : Within p (p + (e - p)) (some op) =
      subst (Within p (p + (e - p))) (ok_cancel found) range in
    (there.0, omega (arith, there.0, there.1))

split-dominant :
    (ts : Tokens) (p e op : ℕ)
    → split ts p e ≡ ok (operator_at op)
    → find_dominant_operator ts p e ≡ ok (some op)
unfolding split
split-dominant ts p e op h = ground arith

pub split-operator_at :
    (ts : Tokens) (p e op : ℕ) → split ts p e ≡ ok (operator_at op) → (p ≤ op) × (op < e)
split-operator_at ts p e op h = find_dominant_operator-range ts p e op (split-dominant ts p e op h)

pub split-in_parentheses : (ts : Tokens) (p e : ℕ) → split ts p e ≡ ok in_parentheses → p + 1 < e
unfolding split
split-in_parentheses ts p e h = ground arith

-- Two recursive calls that agree on the shorter ranges.
abbrev Agree : {A : Type 0} → (ℕ → ℕ → A) → (ℕ → ℕ → A) → ℕ → ℕ → Type 0
Agree f g p e = (p' e' : ℕ) → e' - p' < e - p → f p' e' ≡ g p' e'

module _ (env : Env) where
  eval_shape-Agree :
      (ts : Tokens) (f g : ℕ → ℕ → Cmd Machine (Option ℕ)) (p e : ℕ) (shape : Shape)
      → split ts p e ≡ ok shape
      → Agree f g p e
      → eval_shape env ts f p e shape ≡ eval_shape env ts g p e shape
  unfolding eval_shape
  eval_shape-Agree ts f g p e in_parentheses h agree =
      let long = split-in_parentheses ts p e h in agree (p + 1) (e - 1) (omega arith)
  eval_shape-Agree ts f g p e (operator_at op) h agree =
      let (lo, hi) = split-operator_at ts p e op h in
      let t = (ts op).token_type in
      ap (λ left. eval_operator env t left (f (op + 1) e)) (agree p op (omega arith))
      ∙ ap (λ right. eval_operator env t (g p op) right) (agree (op + 1) e (omega arith))
  eval_shape-Agree ts f g p e empty_range h agree = refl
  eval_shape-Agree ts f g p e single_token h agree = refl
  eval_shape-Agree ts f g p e mismatch h agree = refl
  eval_shape-Agree ts f g p e no_operator h agree = refl

  -- With more fuel than the range has tokens, `eval` never runs out of it: whatever it would do
  -- then, and however much more fuel there is, the result is the same.
  pub eval_enough :
      (out out' : Cmd Machine (Option ℕ)) (f g : ℕ) (ts : Tokens) (p e : ℕ)
      → e - p < f
      → e - p < g
      → eval_or env out f ts p e ≡ eval_or env out' g ts p e
  unfolding eval_or
  eval_enough out out' zero g ts p e h h' = absurd (omega arith)
  eval_enough out out' (suc f) zero ts p e h h' = absurd (omega arith)
  eval_enough out out' (suc f) (suc g) ts p e h h' = fun_ext (λ m.
      same m (split ts p e) refl
        (λ p' e' shorter. eval_enough out out' f g ts p' e' (omega arith) (omega arith)))
    where
      same :
          (m : Machine) (r : Run Shape)
          → split ts p e ≡ r
          → Agree (eval_or env out f ts) (eval_or env out' g ts) p e
          → and_then r (λ shape. eval_shape env ts (eval_or env out f ts) p e shape m)
            ≡ and_then r (λ shape. eval_shape env ts (eval_or env out' g ts) p e shape m)
      same m (stop w) e' agree = refl
      same m (ok shape) e' agree =
          ap (λ run. run m)
            (eval_shape-Agree ts (eval_or env out f ts) (eval_or env out' g ts) p e shape e' agree)
