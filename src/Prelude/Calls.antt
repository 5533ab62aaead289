-- ===== src/Prelude/Calls.antt =====
-- How a C call ends, and what a postcondition on it says.
use mathlib.Core.Path.{◌≡◌, refl, subst}
use mathlib.Core.Logic.{◌≢◌}

-- `refused`: the call reports an error (NULL or -1). `fault`: a failed assertion, an access out of
-- bounds or another undefined step. `stuck`: a loop of the model used up its fuel.
pub data Outcome {ℓ} (A : Type ℓ) : Type ℓ where
  done : A → Outcome A
  refused fault stuck : Outcome A

infixl 5 ◌>>=◌
abbrev pub ◌>>=◌ {ℓ κ} : {A : Type ℓ} {B : Type κ} → Outcome A → (A → Outcome B) → Outcome B
done a >>= f = f a
refused >>= f = refused
fault >>= f = fault
stuck >>= f = stuck

-- The call returns, and `P` holds of what it returns.
pub data Returns {ℓ κ} {A : Type ℓ} (P : A → Type κ) : Outcome A → Type (ℓ ⊔ κ) where
  returns : {a : A} → P a → Returns P (done a)

-- The call returns with `P`, or it reports an error: no fault, and enough fuel.
pub data Ensures {ℓ κ} {A : Type ℓ} (P : A → Type κ) : Outcome A → Type (ℓ ⊔ κ) where
  holds : {a : A} → P a → Ensures P (done a)
  reports : Ensures P refused

module _ {ℓ κ} {A : Type ℓ} {P : A → Type κ} where
  pub Returns-done : {r : Outcome A} → Returns P r → (a : A) × (r ≡ done a) × P a
  Returns-done (returns {a} h) = (a, refl, h)

  pub Ensures-done : {r : Outcome A} {a : A} → Ensures P r → r ≡ done a → P a
  Ensures-done (holds h) e = subst P (cc) h
  Ensures-done reports e = cc

  pub Ensures-ends : {r : Outcome A} → Ensures P r → (r ≢ stuck) × (r ≢ fault)
  Ensures-ends (holds h) = (λ e. cc, λ e. cc)
  Ensures-ends reports = (λ e. cc, λ e. cc)

  pub Returns-bind {ℓ' κ'} :
      {B : Type ℓ'} {Q : B → Type κ'} {r : Outcome A} {f : A → Outcome B}
      → Returns P r
      → ((a : A) → P a → Returns Q (f a))
      → Returns Q (r >>= f)
  Returns-bind (returns {a} h) k = k a h

  pub Ensures-bind {ℓ' κ'} :
      {B : Type ℓ'} {Q : B → Type κ'} {r : Outcome A} {f : A → Outcome B}
      → Ensures P r
      → ((a : A) → P a → Ensures Q (f a))
      → Ensures Q (r >>= f)
  Ensures-bind (holds {a} h) k = k a h
  Ensures-bind reports k = reports

  pub Ensures-weaken {κ'} :
      {Q : A → Type κ'} {r : Outcome A} → ((a : A) → P a → Q a) → Ensures P r → Ensures Q r
  Ensures-weaken k (holds {a} h) = holds (k a h)
  Ensures-weaken k reports = reports

pub Returns-map {ℓ κ κ'} :
    {A : Type ℓ} {P : A → Type κ} {Q : A → Type κ'} {r : Outcome A}
    → Returns P r
    → ((a : A) → P a → Q a)
    → Returns Q r
Returns-map (returns {a} h) k = returns (k a h)

-- A chain that returns has a first step that returns.
pub >>=-eq-done {ℓ κ} :
    {A : Type ℓ} {B : Type κ} (m : Outcome A) (f : A → Outcome B) {b : B}
    → (m >>= f) ≡ done b
    → (a : A) × (m ≡ done a) × (f a ≡ done b)
>>=-eq-done (done a) f h = (a, refl, h)
>>=-eq-done refused f h = cc
>>=-eq-done fault f h = cc
>>=-eq-done stuck f h = cc
