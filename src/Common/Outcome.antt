-- ===== src/Common/Outcome.antt =====
-- The result of a call that returns an error as its last value.
use mathlib.Core.Bool.{Bool, true, false}
use mathlib.Core.Path.{◌≡◌, refl, subst}
use homepi_mon.Common.Tests.{if◌then◌else◌}

pub data Result {ℓ κ} (E : Type ℓ) (A : Type κ) : Type (ℓ ⊔ κ) where
  ok : A → Result E A
  err : E → Result E A

infixl 5 ◌>>=◌ ◌>>◌
abbrev pub ◌>>=◌ {ℓ κ μ} :
    {E : Type ℓ} {A : Type κ} {B : Type μ} → Result E A → (A → Result E B) → Result E B
ok a >>= f = f a
err e >>= f = err e

abbrev pub ◌>>◌ {ℓ κ} : {E : Type ℓ} {B : Type κ} → Result E (Unit {0}) → Result E B → Result E B
m >> k = m >>= λ _. k

-- `if test { return err }`.
abbrev pub refuse {ℓ} : {E : Type ℓ} → Bool → E → Result E (Unit {0})
refuse true e = err e
refuse false e = ok tt

-- What holds of a result when it is no error.
unfoldable pub OnOk {ℓ κ μ} : {E : Type ℓ} {A : Type κ} → (A → Type μ) → Result E A → Type μ
OnOk P (ok a) = P a
OnOk P (err e) = Unit

module _ {ℓ κ μ ν} {E : Type ℓ} {A : Type κ} {B : Type μ} where
  pub OnOk-bind :
      (P : B → Type ν) (m : Result E A) (k : A → Result E B)
      → ((a : A) → m ≡ ok a → OnOk P (k a))
      → OnOk P (m >>= k)
  unfolding OnOk
  OnOk-bind P (ok a) k h = h a refl
  OnOk-bind P (err e) k h = tt

pub OnOk-ok {ℓ κ μ} :
    {E : Type ℓ} {A : Type κ} (P : A → Type μ) (r : Result E A) (a : A) → r ≡ ok a → OnOk P r → P a
unfolding OnOk
OnOk-ok P r a e h = subst (OnOk P) e h

-- A value that two checks stand before.
pub OnOk-checked {ℓ κ μ} :
    {E : Type ℓ} {A : Type κ} (P : A → Type μ) (m n : Result E (Unit {0})) (a : A)
    → (m ≡ ok tt → n ≡ ok tt → P a)
    → OnOk P (do m; n; ok a)
unfolding OnOk
OnOk-checked P (ok u) (ok v) a h = h refl refl
OnOk-checked P (ok u) (err e) a h = tt
OnOk-checked P (err e) n a h = tt

pub OnOk-refuse {ℓ κ μ} :
    {E : Type ℓ} {A : Type κ} (P : A → Type μ) (b : Bool) (e : E) (r : Result E A)
    → OnOk P r
    → OnOk P (do refuse b e; r)
unfolding OnOk
OnOk-refuse P true e r h = tt
OnOk-refuse P false e r h = h

pub OnOk-if {ℓ κ μ} :
    {E : Type ℓ} {A : Type κ} (P : A → Type μ) (b : Bool) (r s : Result E A)
    → OnOk P r
    → OnOk P s
    → OnOk P (if b then r else s)
OnOk-if P true r s h k = h
OnOk-if P false r s h k = k

pub OnOk-from {ℓ κ μ} :
    {E : Type ℓ} {A : Type κ} (P : A → Type μ) (r : Result E A)
    → ((a : A) → r ≡ ok a → P a)
    → OnOk P r
unfolding OnOk
OnOk-from P (ok a) h = h a refl
OnOk-from P (err e) h = tt
