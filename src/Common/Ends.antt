-- ===== src/Common/Ends.antt =====
-- How a Go function ends: it returns, it returns an error, it panics, or it ends the process by
-- `log.Fatal`.
use mathlib.Core.Path.{◌≡◌, refl}
use mathlib.Core.Bool.{Bool, true, false}
use mathlib.Core.Logic.{◌⊎◌, inl, inr}
use mynetwork.Common.Text.{Bytes}

-- An error is known by its message.
pub data Outcome {ℓ} (A : Type ℓ) : Type ℓ where
  panic : Outcome A
  fatal : Outcome A
  err : Bytes → Outcome A
  ok : A → Outcome A

-- `if err != nil { return …, err }` between two calls.
infixl 5 ◌>>=◌
abbrev pub ◌>>=◌ {ℓ κ} : {A : Type ℓ} {B : Type κ} → Outcome A → (A → Outcome B) → Outcome B
panic >>= next = panic
fatal >>= next = fatal
err message >>= next = err message
ok value >>= next = next value

-- A chain of calls succeeds only if its first call does.
pub bind_ok {ℓ κ} :
    {A : Type ℓ} {B : Type κ} (first : Outcome A) (next : A → Outcome B) {result : B}
    → (first >>= next) ≡ ok result
    → (value : A) × (first ≡ ok value) × (next value ≡ ok result)
bind_ok panic next e = cc
bind_ok fatal next e = cc
bind_ok (err message) next e = cc
bind_ok (ok value) next e = (value, refl, e)

-- Whether the call returned with no error.
abbrev pub is_ok {ℓ} : {A : Type ℓ} → Outcome A → Bool
is_ok (ok value) = true
is_ok _ = false

pub ok-injective {ℓ} : {A : Type ℓ} {a b : A} → ok a ≡ ok b → a ≡ b
ok-injective h = cc

pub Outcome-cases {ℓ} : {A : Type ℓ} (o : Outcome A) → ((a : A) × (o ≡ ok a)) ⊎ (is_ok o ≡ false)
Outcome-cases panic = inr refl
Outcome-cases fatal = inr refl
Outcome-cases (err message) = inr refl
Outcome-cases (ok value) = inl (value, refl)
