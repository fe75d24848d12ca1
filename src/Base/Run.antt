-- ===== src/Base/Run.antt =====
-- What a C function comes to: it returns, or the program stops in it.
use mathlib.Core.Logic.{◌≢◌}
use bailuwan.Base.{refl, ap, ◌≡◌}

-- `assert_fail` is a failed `assert` or `Assert`, `panic` a call of `panic`, and `undefined`
-- an access outside an object, which C leaves undefined.
pub data Stop : Type 0 where
  assert_fail panic undefined : Stop

pub data Run (A : Type 0) : Type 0 where
  ok : A → Run A
  stop : Stop → Run A

-- Code that changes a state of type `S` and returns an `A`.
abbrev pub Cmd : Type 0 → Type 0 → Type 0
Cmd S A = S → Run (A × S)

abbrev pub and_then : {A B : Type 0} → Run A → (A → Run B) → Run B
and_then (ok a) k = k a
and_then (stop w) k = stop w

abbrev pub pure : {S A : Type 0} → A → Cmd S A
pure a s = ok (a, s)

abbrev pub halt : {S A : Type 0} → Stop → Cmd S A
halt w s = stop w

infixl 5 ◌>>=◌ ◌>>◌
abbrev pub ◌>>=◌ : {S A B : Type 0} → Cmd S A → (A → Cmd S B) → Cmd S B
(m >>= k) s = and_then (m s) (λ (a, s'). k a s')

abbrev pub ◌>>◌ : {S A B : Type 0} → Cmd S A → Cmd S B → Cmd S B
(m >> k) s = and_then (m s) (λ (a, s'). k s')

ok_or : {A : Type 0} → A → Run A → A
ok_or d (ok a) = a
ok_or d (stop w) = d

pub ok_cancel : {A : Type 0} {a b : A} → ok a ≡ ok b → a ≡ b
unfolding ok_or
ok_cancel {a = a} h = ap (ok_or a) h

pub and_then-ok :
    {A B : Type 0} (r : Run A) (k : A → Run B) {b : B}
    → and_then r k ≡ ok b
    → (a : A) × (r ≡ ok a) × (k a ≡ ok b)
and_then-ok (ok a) k h = (a, refl, h)
and_then-ok (stop w) k h = cc

pub and_then_assoc :
    {A B C : Type 0} (r : Run A) (f : A → Run B) (g : B → Run C)
    → and_then (and_then r f) g ≡ and_then r (λ a. and_then (f a) g)
and_then_assoc (ok a) f g = refl
and_then_assoc (stop w) f g = refl

pub stop≢ok : {A : Type 0} {w : Stop} {a : A} → stop w ≢ ok a
stop≢ok h = cc
