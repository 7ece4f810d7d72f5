-- ===== src/Bencode/Action.antt =====
-- The parser functions of src/bencode_parser.c as actions on `parser->position`. Each returns an
-- outcome with the position that it leaves behind, also where it fails.
use loco.Base.{ℕ, Bool, true, false}

-- `failed` is a returned `false`. `out_of_fuel` has no counterpart in the program: it marks a run
-- of the model with too little fuel.
pub data Outcome {ℓ} (A : Type ℓ) : Type ℓ where
  ok : A → Outcome A
  failed out_of_fuel : Outcome A

abbrev pub Action {ℓ} : Type ℓ → Type ℓ
Action A = ℕ → Outcome A × ℕ

infixl 5 ◌>>=◌ ◌>>◌
abbrev pub continue {ℓ κ} :
    {A : Type ℓ} {B : Type κ} → Outcome A × ℕ → (A → Action B) → Outcome B × ℕ
continue (ok a, p) f = f a p
continue (failed, p) f = (failed, p)
continue (out_of_fuel, p) f = (out_of_fuel, p)

abbrev pub ◌>>=◌ {ℓ κ} : {A : Type ℓ} {B : Type κ} → Action A → (A → Action B) → Action B
(m >>= f) p = continue (m p) f

abbrev pub ◌>>◌ {ℓ} : {B : Type ℓ} → Action (Unit {0}) → Action B → Action B
m >> k = m >>= λ _. k

abbrev pub return {ℓ} : {A : Type ℓ} → A → Action A
return a p = (ok a, p)

-- `parser->position = start; return false;`
abbrev pub fail_at {ℓ} : {A : Type ℓ} → ℕ → Action A
fail_at start p = (failed, start)

-- `if (!condition) { parser->position = start; return false; }`
abbrev pub require : Bool → ℕ → Action (Unit {0})
require true start p = (ok tt, p)
require false start p = (failed, start)

abbrev pub restore {ℓ} : {A : Type ℓ} → ℕ → Outcome A × ℕ → Outcome A × ℕ
restore start (ok a, p) = (ok a, p)
restore start (failed, p) = (failed, start)
restore start (out_of_fuel, p) = (out_of_fuel, p)

-- A call whose failure is answered by `parser->position = start; return false;`.
abbrev pub or_fail_at {ℓ} : {A : Type ℓ} → ℕ → Action A → Action A
or_fail_at start m p = restore start (m p)

abbrev pub get_position : Action ℕ
get_position p = (ok p, p)
