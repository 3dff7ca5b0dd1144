-- ===== src/Prelude/Outcome.antt =====
-- Code that may fail an assertion or overrun a buffer: `fault` is that outcome.
use Prim.Native.Nat.{ℕ}
use mathlib.Core.Bool.{Bool, true, false}
use mathlib.Core.Path.{◌≡◌, refl}

pub data Run {ℓ} (A : Type ℓ) : Type ℓ where
  ok : A → Run A
  fault : Run A

infixl 5 ◌>>=◌ ◌>>◌
abbrev pub ◌>>=◌ {ℓ κ} : {A : Type ℓ} {B : Type κ} → Run A → (A → Run B) → Run B
ok a >>= f = f a
fault >>= f = fault

abbrev pub ◌>>◌ {ℓ} : {B : Type ℓ} → Run (Unit {0}) → Run B → Run B
m >> k = m >>= λ _. k

-- `assert(b)`
abbrev pub check : Bool → Run (Unit {0})
check true = ok tt
check false = fault

pub check-true {ℓ} : {B : Type ℓ} (b : Bool) (k : Run B) → b ≡ true → (check b >> k) ≡ k
check-true true k h = refl
check-true false k h = cc

pub bind-eq-ok {ℓ κ} :
    {A : Type ℓ} {B : Type κ} (m : Run A) (f : A → Run B) {b : B}
    → (m >>= f) ≡ ok b
    → (a : A) × (m ≡ ok a) × (f a ≡ ok b)
bind-eq-ok (ok a) f h = (a, refl, h)
bind-eq-ok fault f h = cc

-- The run does not fault, and its value satisfies `P`.
abbrev pub Ensures : {A : Type 0} → Run A → (A → Type 0) → Type 0
Ensures (ok a) P = P a
Ensures fault P = ⊥

-- From a fact at each index to one value with all the facts.
pub Ensures_all :
    {A : Type 0} (P : ℕ → A → Type 0) (r : Run A)
    → ((j : ℕ) → Ensures r (P j))
    → (a : A) × (r ≡ ok a) × ((j : ℕ) → P j a)
Ensures_all P (ok a) h = (a, refl, h)
Ensures_all P fault h = absurd (h 0)
