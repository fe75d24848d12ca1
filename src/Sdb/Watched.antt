-- ===== src/Sdb/Watched.antt =====
-- Watchpoints in use have an expression, and creating and deleting one keep it so.
use bailuwan.Sdb.Eval.{syntax_check}
use bailuwan.Riscv.State.{Machine}
use bailuwan.Memory.Bus.{Env}
use mathlib.Core.Path.{subst}
use bailuwan.Base.{
  none, ◌==◌, true, ap, Bool-cases, false, some, if◌then◌else◌, Option, Bool, ◌∙◌, sym, refl, inr,
  inl, ◌∷◌, ◌⊎◌, ◌≢◌, arith, ◌≤◌, ◌≡◌, ℕ, List,
}
use bailuwan.Sdb.Pool.{Pool, free_node}
use bailuwan.Sdb.Count.{count, remove, one_if_self, count-remove}
use bailuwan.Sdb.Partition.{new_node-IsPool, IsPool}
use bailuwan.Sdb.Release.{free_node-IsPool}
use bailuwan.Sdb.Breakpoint.{nr_wp}
use bailuwan.Sdb.Watchpoint.{
  with_expr, expr_at, new_wp, first_value, wp_create, wp_update_one, next_value, Watchpoints,
  ExprPointer, null, text, dangling, put, free_wp, free_expr, wp_delete,
}
use bailuwan.Base.Run.{stop≢ok, and_then, ok_cancel, and_then-ok, ok, stop, panic, undefined}

abbrev pub HasText : ExprPointer → Type 0
HasText e = (s : List ℕ) × (e ≡ text s)

pub record IsWatched (w : Watchpoints) (used free : List ℕ) : Type 0 where
  pub watched : IsPool nr_wp w.pool used free
  pub has_text : (i : ℕ) → 1 ≤ count i used → HasText (w.expr_of i)

put_self : {A : Type 0} (f : ℕ → A) (p : ℕ) (v : A) → put f p v p ≡ v
unfolding put
put_self f p v = ground arith

put_ne : {A : Type 0} (f : ℕ → A) (p i : ℕ) (v : A) → p ≢ i → put f p v i ≡ f i
unfolding put
put_ne f p i v h = ground arith

-- `free` of the expression of a watchpoint.
free_expr-cases :
    (e : ExprPointer)
    → ((e' : ExprPointer) × (free_expr e ≡ ok e')) ⊎ (free_expr e ≡ stop undefined)
unfolding free_expr
free_expr-cases null = inl (null, refl)
free_expr-cases (text s) = inl (dangling, refl)
free_expr-cases dangling = inr refl

wp_delete-absent :
    (n : ℕ) (w : Watchpoints)
    → free_node nr_wp n w.pool ≡ stop panic
    → (wp_delete n w ≡ stop panic) ⊎ (wp_delete n w ≡ stop undefined)
unfolding wp_delete free_wp
wp_delete-absent n w h = elim (free_expr-cases (w.expr_of n)) [
  | inl (e', freed) ↦ inl (rw (wp_delete, free_wp, freed, h))
  | inr twice ↦ inr (rw (wp_delete, free_wp, twice))
]

-- The watchpoints that are left keep their expressions.
kept-HasText :
    (n i : ℕ) (w : Watchpoints) (used free : List ℕ)
    → IsWatched w used free
    → count n used ≡ 1
    → 1 ≤ count i (remove n used)
    → HasText (put w.expr_of n dangling i)
kept-HasText n i w used free h once there =
    let apart : n ≢ i = λ same.
      let again : 1 ≤ count n (remove n used) =
        subst (λ k. 1 ≤ count k (remove n used)) (sym same) there in
      omega (arith, count-remove n n used (omega arith), one_if_self n) in
    let (s, has) = h.has_text i (omega (arith, count-remove n i used (omega arith))) in
    (s, put_ne w.expr_of n i dangling apart ∙ has)

-- Where every watchpoint in use has an expression, `wp_delete` returns a watchpoint in use to the
-- pool and keeps this for the others; for another number it stops, by a panic or by freeing an
-- expression that has been freed before.
pub wp_delete-IsWatched :
    (n : ℕ) (w : Watchpoints) (used free : List ℕ)
    → IsWatched w used free
    → ((count n used ≡ 1)
        × ((w' : Watchpoints) × (wp_delete n w ≡ ok (tt, w'))
            × IsWatched w' (remove n used) (n ∷ free)))
      ⊎ ((count n used ≡ 0) × ((wp_delete n w ≡ stop panic) ⊎ (wp_delete n w ≡ stop undefined)))
unfolding wp_delete free_wp free_expr
wp_delete-IsWatched n w used free h = elim (free_node-IsPool nr_wp n w.pool used free h.watched) [
  | inl (out, fails) ↦ inr (out, wp_delete-absent n w fails)
  | inr (once, (s', freed, pool)) ↦
      let (s, has) = h.has_text n (omega arith) in
      inl (
        once,
        (
          record w { pool = s'; expr_of = put w.expr_of n dangling },
          rw (wp_delete, free_wp, has, free_expr, freed),
          record {
            watched = pool;
            has_text = λ i there. kept-HasText n i w used free h once there;
          },
        ),
      )
]

-- Evaluation changes neither the lists nor the expressions.
abbrev Kept : Watchpoints → Watchpoints → Type 0
Kept w w' = (w'.pool ≡ w.pool) × (w'.expr_of ≡ w.expr_of)

value-Kept :
    (b : Bool) (p : ℕ) (r : Option ℕ) (w : Watchpoints) (m : Machine)
    → Kept w (if b then next_value p r (w, m) else (first_value p r w, m)).0
unfolding next_value first_value
value-Kept false p r w m = (refl, refl)
value-Kept true p none w m = (refl, refl)
value-Kept true p (some v) w m = elim (Bool-cases (w.last_val p == v)) [
  | inl same ↦ rw same (refl, refl)
  | inr other ↦ rw other (refl, refl)
]

wp_update_one-Kept :
    (env : Env) (p : ℕ) (w w' : Watchpoints) (m m' : Machine)
    → wp_update_one env p (w, m) ≡ ok (tt, (w', m'))
    → Kept w w'
unfolding wp_update_one
wp_update_one-Kept env p w w' m m' h =
    let ((r, m1), evaluated, done) = and_then-ok (expr_at env (w.expr_of p) m) _ h in
    let result = ap (λ t. t.1.0) (ok_cancel done) in
    subst (Kept w) result (value-Kept (w.last_val_valid p) p r w m1)

-- The element `p` has been given the expression `e`.
with_expr-IsWatched :
    (e : List ℕ) (p : ℕ) (w w' : Watchpoints) (s : Pool) (used free rest : List ℕ)
    → IsWatched w used free
    → IsPool nr_wp s (p ∷ used) rest
    → Kept (with_expr p e (record w { pool = s })) w'
    → IsWatched w' (p ∷ used) rest × (w'.expr_of p ≡ text e)
unfolding with_expr
with_expr-IsWatched e p w w' s used free rest h pool (same, texts) = (
  record {
    watched = subst (λ (t : Pool). IsPool nr_wp t (p ∷ used) rest) (sym same) pool;
    has_text =
        λ i there. subst (λ (f : ℕ → ExprPointer). HasText (f i)) (sym texts) (new_text i there);
  },
  ap (λ f. f p) texts ∙ put_self w.expr_of p (text e),
)
  where
    new_text : (i : ℕ) → 1 ≤ count i (p ∷ used) → HasText (put w.expr_of p (text e) i)
    new_text i there = elim (Bool-cases (p == i)) [
      | inl same' ↦
          let at : p ≡ i = ground arith in
          subst (λ k. HasText (put w.expr_of p (text e) k)) at (e, put_self w.expr_of p (text e))
      | inr other ↦
          let apart : p ≢ i = ground arith in
          let (t, has) = h.has_text i (ground arith) in
          (t, put_ne w.expr_of p i (text e) apart ∙ has)
    ]

-- Where every watchpoint in use has an expression, a call of `wp_create` that returns has left
-- everything as it is if the expression has a syntax error, and otherwise has taken a free element
-- for the expression, and every watchpoint in use still has one.
pub wp_create-IsWatched :
    (env : Env) (e : List ℕ) (w w' : Watchpoints) (m m' : Machine) (used free : List ℕ)
    → IsWatched w used free
    → wp_create env e (w, m) ≡ ok (tt, (w', m'))
    → ((syntax_check e ≡ ok false) × (w ≡ w') × (m ≡ m'))
      ⊎ ((syntax_check e ≡ ok true)
          × ((p : ℕ) × (rest : List ℕ) × (free ≡ p ∷ rest)
              × IsWatched w' (p ∷ used) rest
              × (w'.expr_of p ≡ text e)))
unfolding wp_create new_wp
wp_create-IsWatched env e w w' m m' used free h run =
    let (good, checked, done) = and_then-ok (syntax_check e) _ run in created good checked done
  where
    Created : Type 0
    Created =
        (p : ℕ) × (rest : List ℕ) × (free ≡ p ∷ rest)
        × IsWatched w' (p ∷ used) rest
        × (w'.expr_of p ≡ text e)

    taken :
        and_then (new_wp w) (λ (p, w1). wp_update_one env p (with_expr p e w1, m))
          ≡ ok (tt, (w', m'))
        → Created
    taken h' = elim (new_node-IsPool nr_wp w.pool used free h.watched) [
      | inl (full, fails) ↦ absurd (stop≢ok (rw (new_wp, fails) at h'))
      | inr (room, (p, rest, s, made, front, pool)) ↦
          let kept =
            wp_update_one-Kept env p (with_expr p e (record w { pool = s })) w' m m'
              (rw (new_wp, made) at h') in
          let (watched', has) = with_expr-IsWatched e p w w' s used free rest h pool kept in
          (p, rest, front, watched', has)
    ]

    created :
        (good : Bool)
        → syntax_check e ≡ ok good
        → (if good
            then and_then (new_wp w) (λ (p, w1). wp_update_one env p (with_expr p e w1, m))
            else ok (tt, (w, m)))
          ≡ ok (tt, (w', m'))
        → ((syntax_check e ≡ ok false) × (w ≡ w') × (m ≡ m'))
          ⊎ ((syntax_check e ≡ ok true) × Created)
    created false checked h' =
        inl (checked, ap (λ t. t.1.0) (ok_cancel h'), ap (λ t. t.1.1) (ok_cancel h'))
    created true checked h' = inr (checked, taken h')
