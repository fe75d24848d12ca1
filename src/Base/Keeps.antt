-- ===== src/Base/Keeps.antt =====
-- Code that keeps a property of its state, and returns a value with a property.
use mathlib.Core.Path.{subst}
use bailuwan.Base.{◌≡◌}
use bailuwan.Base.Run.{Cmd, ok, and_then-ok, ok_cancel, pure, ◌>>=◌, ◌>>◌}

abbrev pub Keeps : {S A : Type 0} → (S → Type 0) → (A → Type 0) → Cmd S A → Type 0
Keeps {S = S} {A = A} P Q c = (s s' : S) (a : A) → P s → c s ≡ ok (a, s') → P s' × Q a

module _ {S A : Type 0} (P : S → Type 0) where
  pub Keeps-pure : (Q : A → Type 0) (a : A) → Q a → Keeps P Q (pure a)
  Keeps-pure Q a q s s' a' p h = subst (λ (r : A × S). P r.1 × Q r.0) (ok_cancel h) (p, q)

  pub Keeps-bind :
      {B : Type 0} (Q : A → Type 0) (R : B → Type 0) (c : Cmd S A) (k : A → Cmd S B)
      → Keeps P Q c
      → ((a : A) → Q a → Keeps P R (k a))
      → Keeps P R (c >>= k)
  Keeps-bind Q R c k first later s s' b p h =
      let ((a, s1), ran, rest) = and_then-ok (c s) _ h in
      let (p1, q) = first s s1 a p ran in later a q s1 s' b p1 rest

  pub Keeps-seq :
      {B : Type 0} (Q : A → Type 0) (R : B → Type 0) (c : Cmd S A) (k : Cmd S B)
      → Keeps P Q c
      → Keeps P R k
      → Keeps P R (c >> k)
  Keeps-seq Q R c k first later s s' b p h =
      let ((a, s1), ran, rest) = and_then-ok (c s) _ h in
      let (p1, q) = first s s1 a p ran in later s1 s' b p1 rest
