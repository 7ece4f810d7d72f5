-- ===== src/Bencode/Ensures.antt =====
-- Postconditions on a parser action: what holds of a result and of the position after it, and
-- which position a failure leaves behind.
use mathlib.Core.Path.{subst₂}
use loco.Base.{ℕ, Bool, true, false, ◌≡◌, refl, if◌then◌else◌}
use loco.Bencode.Action.{Outcome, ok, failed, Action, continue, restore, require}

-- The action did not run out of fuel; a failure left the position `back`, a success `P`.
pub data Ensures {ℓ} {A : Type ℓ} (back : ℕ) (P : A → ℕ → Type 0) : Outcome A × ℕ → Type ℓ where
  holds : {a : A} {p : ℕ} → P a p → Ensures back P (ok a, p)
  rejected : {p : ℕ} → p ≡ back → Ensures back P (failed, p)

module _ {ℓ} {A : Type ℓ} {P : A → ℕ → Type 0} where
  pub Ensures-continue {κ} :
      {B : Type κ} {Q : B → ℕ → Type 0} {back : ℕ} {r : Outcome A × ℕ} {f : A → Action B}
      → Ensures back P r
      → ((a : A) (p : ℕ) → P a p → Ensures back Q (f a p))
      → Ensures back Q (continue r f)
  Ensures-continue (holds {a} {p} h) k = k a p h
  Ensures-continue (rejected e) k = rejected e

  pub Ensures-restore :
      {back start : ℕ} {r : Outcome A × ℕ} → Ensures back P r → Ensures start P (restore start r)
  Ensures-restore (holds h) = holds h
  Ensures-restore (rejected e) = rejected refl

  pub Ensures-mono :
      {back : ℕ} {Q : A → ℕ → Type 0} {r : Outcome A × ℕ}
      → Ensures back P r
      → ((a : A) (p : ℕ) → P a p → Q a p)
      → Ensures back Q r
  Ensures-mono (holds {a} {p} h) k = holds (k a p h)
  Ensures-mono (rejected e) k = rejected e

  pub Ensures-ok :
      {back : ℕ} {r : Outcome A × ℕ} {a : A} {p : ℕ} → Ensures back P r → r ≡ (ok a, p) → P a p
  Ensures-ok (holds h) e = subst₂ P (cc) (cc) h
  Ensures-ok (rejected x) e = cc

  pub Ensures-failed :
      {back : ℕ} {r : Outcome A × ℕ} {p : ℕ} → Ensures back P r → r ≡ (failed, p) → p ≡ back
  Ensures-failed (holds h) e = cc
  Ensures-failed (rejected x) e = cc

pub Ensures-require {ℓ} :
    {B : Type ℓ} {Q : B → ℕ → Type 0} (c : Bool) {start p : ℕ} (f : Unit {0} → Action B)
    → (c ≡ true → Ensures start Q (f tt p))
    → Ensures start Q (continue (require c start p) f)
Ensures-require true f k = k refl
Ensures-require false f k = rejected refl

pub Ensures-if {ℓ} :
    {A : Type ℓ} {P : A → ℕ → Type 0} {back : ℕ} (c : Bool) {x y : Outcome A × ℕ}
    → (c ≡ true → Ensures back P x)
    → (c ≡ false → Ensures back P y)
    → Ensures back P (if c then x else y)
Ensures-if true hx hy = hx refl
Ensures-if false hx hy = hy refl

-- A choice between two actions.
pub Ensures-choice {ℓ} :
    {A : Type ℓ} {P : A → ℕ → Type 0} {back : ℕ} (c : Bool) (m k : Action A) {p : ℕ}
    → (c ≡ true → Ensures back P (m p))
    → (c ≡ false → Ensures back P (k p))
    → Ensures back P ((if c then m else k) p)
Ensures-choice true m k hm hk = hm refl
Ensures-choice false m k hm hk = hk refl
