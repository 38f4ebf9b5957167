-- ===== src/Common/Result.antt =====
-- `AppResult<T>`.
use pcos.Common.Error.{AppError}
use pcos.Prelude.{Bool, true, false, ◌≡◌, refl, arith}

pub data AppResult {ℓ} (A : Type ℓ) : Type ℓ where
  ok : A → AppResult A
  err : AppError → AppResult A

infixl 5 ◌>>=◌ ◌>>◌
abbrev pub ◌>>=◌ {ℓ κ} : {A : Type ℓ} {B : Type κ} → AppResult A → (A → AppResult B) → AppResult B
ok a >>= f = f a
err e >>= f = err e

abbrev pub ◌>>◌ {ℓ} : {B : Type ℓ} → AppResult (Unit {0}) → AppResult B → AppResult B
m >> k = m >>= λ _. k

-- `if test { return Err(e) }`.
abbrev pub reject_if : Bool → AppError → AppResult (Unit {0})
reject_if true e = err e
reject_if false e = ok tt

-- What a result that is not an error says of its parts.
pub bind_ok {ℓ κ} :
    {A : Type ℓ} {B : Type κ} (m : AppResult A) (f : A → AppResult B) (b : B)
    → (m >>= f) ≡ ok b
    → (a : A) × (m ≡ ok a) × (f a ≡ ok b)
bind_ok (ok a) f b h = (a, refl, h)
bind_ok (err e) f b h = absurd (ground arith)

pub reject_if_ok :
    (test : Bool) (e : AppError) (r : Unit {0}) → reject_if test e ≡ ok r → test ≡ false
reject_if_ok true e r h = ground arith
reject_if_ok false e r h = refl

pub ok_injective {ℓ} : {A : Type ℓ} {a b : A} → ok a ≡ ok b → a ≡ b
ok_injective h = cc
