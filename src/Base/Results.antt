-- ===== src/Base/Results.antt =====
-- Calls that return or raise, and database transactions that commit, commit and raise, or roll
-- back. The error type is the component's own.
use mathlib.Core.Path.{◌≡◌, refl}
use mathlib.Core.Logic.{◌⊎◌, inl, inr}
use mathlib.Core.Bool.{Bool, true, false}

pub data Result {ℓ} (E A : Type ℓ) : Type ℓ where
  ok : A → Result E A
  err : E → Result E A

infixl 5 ◌>>=◌ ◌>>◌
abbrev pub ◌>>=◌ {ℓ} : {E A B : Type ℓ} → Result E A → (A → Result E B) → Result E B
ok a >>= f = f a
err e >>= f = err e

abbrev pub ◌>>◌ {ℓ} : {E A B : Type ℓ} → Result E A → Result E B → Result E B
m >> k = m >>= λ _. k

-- `if not test: raise error`
abbrev pub require : {E : Type 0} → Bool → E → Result E Unit
require true e = ok tt
require false e = err e

-- What the body of a transaction does: COMMIT and return, COMMIT and then raise, or raise while
-- the transaction is open, which rolls it back.
pub data Txn {ℓ} (S E A : Type ℓ) : Type ℓ where
  commit : S → A → Txn S E A
  commit_raise : S → E → Txn S E A
  rollback : E → Txn S E A

-- The state of the database after the transaction, and what the caller sees.
abbrev pub run_txn {ℓ} : {S E A : Type ℓ} → S → Txn S E A → S × Result E A
run_txn s (commit t a) = (t, ok a)
run_txn s (commit_raise t e) = (t, err e)
run_txn s (rollback e) = (s, err e)

pub Result-cases {ℓ} :
    {E A : Type ℓ} (r : Result E A) → ((a : A) × (r ≡ ok a)) ⊎ ((e : E) × (r ≡ err e))
Result-cases (ok a) = inl (a, refl)
Result-cases (err e) = inr (e, refl)

-- Two steps that return have both returned.
pub then-ok {ℓ} :
    {E A B : Type ℓ} (m : Result E A) (k : A → Result E B) (b : B)
    → (m >>= k) ≡ ok b
    → (a : A) × (m ≡ ok a) × (k a ≡ ok b)
then-ok (ok a) k b h = (a, refl, h)
then-ok (err e) k b h = cc
