-- ===== src/Base/Results.antt =====
-- `Result` with its early return.
use mathlib.Core.Path.{◌≡◌, refl}
use mathlib.Core.Bool.{Bool, true, false}
use mathlib.Core.Option.{Option, none, some}
use native.Mathlib.Omega.{arith}

pub data Result {ℓ κ} (E : Type ℓ) (T : Type κ) : Type (ℓ ⊔ κ) where
  ok : T → Result E T
  err : E → Result E T

infixl 5 ◌>>=◌ ◌>>◌
abbrev pub ◌>>=◌ {ℓ κ μ} :
    {E : Type ℓ} {T : Type κ} {U : Type μ} → Result E T → (T → Result E U) → Result E U
ok a >>= f = f a
err e >>= f = err e

abbrev pub ◌>>◌ {ℓ κ} : {E : Type ℓ} {U : Type κ} → Result E (Unit {0}) → Result E U → Result E U
check >> next = check >>= λ _. next

-- `if bad { return Err(e); }`
abbrev pub reject {ℓ} : {E : Type ℓ} → Bool → E → Result E (Unit {0})
reject true e = err e
reject false e = ok tt

-- `o.ok_or(e)?`
abbrev pub ok_or {ℓ κ} : {E : Type ℓ} {T : Type κ} → Option T → E → Result E T
ok_or (some a) e = ok a
ok_or none e = err e

pub ok_same {ℓ κ} : {E : Type ℓ} {T : Type κ} (a b : T) → ◌≡◌ {A = Result E T} (ok a) (ok b) → a ≡ b
ok_same a b h = ground arith

module _ {ℓ κ μ} {E : Type ℓ} {T : Type κ} {U : Type μ} where
  pub >>=-eq-ok :
      (m : Result E T) (f : T → Result E U) {b : U}
      → (m >>= f) ≡ ok b
      → (a : T) × (m ≡ ok a) × (f a ≡ ok b)
  >>=-eq-ok (ok a) f h = (a, refl, h)
  >>=-eq-ok (err e) f h = cc

module _ {ℓ} {E : Type ℓ} where
  pub reject-eq-ok : (b : Bool) (e : E) {u : Unit {0}} → reject b e ≡ ok u → b ≡ false
  reject-eq-ok true e h = cc
  reject-eq-ok false e h = refl

  pub reject-then {κ} :
      {T : Type κ} (b : Bool) (e : E) (k : Result E T) {a : T}
      → (reject b e >> k) ≡ ok a
      → (b ≡ false) × (k ≡ ok a)
  reject-then true e k h = cc
  reject-then false e k h = (refl, h)

  pub ok_or-eq-ok {κ} : {T : Type κ} (o : Option T) (e : E) {a : T} → ok_or o e ≡ ok a → o ≡ some a
  ok_or-eq-ok none e h = cc
  ok_or-eq-ok (some a) e h = ground arith
