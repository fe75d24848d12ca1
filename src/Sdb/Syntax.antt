-- ===== src/Sdb/Syntax.antt =====
-- `syntax_check` against `expr`.
use bailuwan.Base.{
  refl, length, inr, inl, zero, Option-cases, ◌-◌, Bool-cases, ap, true, none≢some, ◌+◌, some, ◌≢◌,
  List, suc, Bool, ◌≡◌, none, Option, ℕ,
}
use bailuwan.Sdb.Scan.{Tokens}
use bailuwan.Sdb.Tokens.{is_unary_token, is_binary_token}
use bailuwan.Sdb.Lexer.{make_token}
use bailuwan.Sdb.Eval.{
  on_some, Shape, split, empty_range, single_token, in_parentheses, mismatch, no_operator,
  operator_at, eval, eval_or, eval_shape, eval_operator, and_some, syntax_check_impl, syntax_shape,
  syntax_check, expr,
}
use bailuwan.Base.Run.{Run, Cmd, ok, and_then-ok, ok_cancel}
use bailuwan.Riscv.State.{Machine}
use bailuwan.Memory.Bus.{Env}

module _ (env : Env) where
  abbrev failed : Machine → Run (Option ℕ × Machine)
  failed m = ok (none, m)

  fails : {v : ℕ} {m m' : Machine} → failed m ≢ ok (some v, m')
  fails h = none≢some (ap (λ r. r.0) (ok_cancel h))

  and_some-ok :
      (first : Cmd Machine (Option ℕ)) (rest : ℕ → Cmd Machine (Option ℕ)) (v : ℕ) (m m' : Machine)
      → and_some env first rest m ≡ ok (some v, m')
      → (u : ℕ) × (m1 : Machine) × (first m ≡ ok (some u, m1)) × (rest u m1 ≡ ok (some v, m'))
  and_some-ok first rest v m m' h = continued (and_then-ok (first m) _ h)
    where
      continued :
          ((r : Option ℕ × Machine) × (first m ≡ ok r)
            × (on_some env rest r.0 r.1 ≡ ok (some v, m')))
          → (u : ℕ) × (m1 : Machine) × (first m ≡ ok (some u, m1)) × (rest u m1 ≡ ok (some v, m'))
      continued ((none, m1), e, e') = absurd (fails e')
      continued ((some u, m1), e, e') = (u, m1, e, e')

  -- The result of the recursive calls says that they accept what they evaluate.
  abbrev Accepts : (ℕ → ℕ → Cmd Machine (Option ℕ)) → (ℕ → ℕ → Run Bool) → Type 0
  Accepts rec rec' = (p e v : ℕ) (m m' : Machine) → rec p e m ≡ ok (some v, m') → rec' p e ≡ ok true

  eval_operator-Accepts :
      (ts : Tokens) (rec : ℕ → ℕ → Cmd Machine (Option ℕ)) (rec' : ℕ → ℕ → Run Bool) (p e op v : ℕ)
      (m m' : Machine)
      → Accepts rec rec'
      → eval_operator env (ts op).token_type (rec p op) (rec (op + 1) e) m ≡ ok (some v, m')
      → syntax_shape ts rec' p e (operator_at op) ≡ ok true
  unfolding eval_operator syntax_shape
  eval_operator-Accepts ts rec rec' p e op v m m' accepts h =
      elim (Bool-cases (is_unary_token (ts op).token_type)) [
        | inl unary ↦
            let (u, m1, right, done) = and_some-ok (rec (op + 1) e) _ v m m' (rw unary at h) in
            rw (unary, accepts (op + 1) e u m m1 right)
        | inr not_unary ↦ elim (Bool-cases (is_binary_token (ts op).token_type)) [
          | inl binary ↦
              let (u, m1, left, then_right) =
                and_some-ok (rec p op) _ v m m' (rw (not_unary, binary) at h) in
              let (w, m2, right, done) = and_some-ok (rec (op + 1) e) _ v m1 m' then_right in
              rw (not_unary, accepts p op u m m1 left, accepts (op + 1) e w m1 m2 right)
          | inr other ↦ cc
        ]
      ]

  eval_shape-Accepts :
      (ts : Tokens) (rec : ℕ → ℕ → Cmd Machine (Option ℕ)) (rec' : ℕ → ℕ → Run Bool) (p e v : ℕ)
      (m m' : Machine) (shape : Shape)
      → Accepts rec rec'
      → eval_shape env ts rec p e shape m ≡ ok (some v, m')
      → syntax_shape ts rec' p e shape ≡ ok true
  unfolding eval_shape syntax_shape
  eval_shape-Accepts ts rec rec' p e v m m' empty_range accepts h = absurd (fails h)
  eval_shape-Accepts ts rec rec' p e v m m' single_token accepts h = refl
  eval_shape-Accepts ts rec rec' p e v m m' in_parentheses accepts h =
      accepts (p + 1) (e - 1) v m m' h
  eval_shape-Accepts ts rec rec' p e v m m' mismatch accepts h = absurd (fails h)
  eval_shape-Accepts ts rec rec' p e v m m' no_operator accepts h = absurd (fails h)
  eval_shape-Accepts ts rec rec' p e v m m' (operator_at op) accepts h =
      eval_operator-Accepts ts rec rec' p e op v m m' accepts h

  eval-Accepts : (fuel : ℕ) (ts : Tokens) → Accepts (eval env fuel ts) (syntax_check_impl fuel ts)
  unfolding eval_or syntax_check_impl
  eval-Accepts zero ts p e v m m' h = absurd (fails h)
  eval-Accepts (suc fuel) ts p e v m m' h =
      let (shape, found, evaluated) = and_then-ok (split ts p e) _ h in
      rw found (
        eval_shape-Accepts ts (eval env fuel ts) (syntax_check_impl fuel ts) p e v m m' shape
          (eval-Accepts fuel ts) evaluated)

  -- An expression that evaluates to a value is one that `syntax_check` accepts.
  pub expr-syntax_check :
      (e : List ℕ) (v : ℕ) (m m' : Machine)
      → expr env e m ≡ ok (some v, m')
      → syntax_check e ≡ ok true
  unfolding expr syntax_check
  expr-syntax_check e v m m' h = elim (Option-cases (make_token e)) [
    | inl none_made ↦ absurd (fails (rw (expr, none_made) at h))
    | inr (tokens, made) ↦
        rw (syntax_check, made)
          (eval-Accepts (length tokens + 1) _ 0 (length tokens) v m m' (rw (expr, made) at h))
  ]
