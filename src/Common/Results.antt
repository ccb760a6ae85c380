-- ===== src/Common/Results.antt =====
-- A call that may raise: the value returned, or the exception, whose type each component chooses.
use mathlib.Core.Path.{◌≡◌, refl}
use mathlib.Core.Logic.{◌⊎◌, inl, inr}
use mathlib.Core.Bool.{Bool, cond}

pub data Result {ℓ κ} (E : Type ℓ) (A : Type κ) : Type (ℓ ⊔ κ) where
  ok : A → Result E A
  err : E → Result E A

-- `if c: raise e`
abbrev pub raise_if {ℓ} : {E : Type ℓ} → Bool → E → Result E (Unit {0})
raise_if c e = cond c (err e) (ok tt)

module _ {ℓ κ μ} {E : Type ℓ} {A : Type κ} {B : Type μ} where
  infixl 5 ◌>>=◌
  -- The rest of a call runs on the value; an exception ends it.
  abbrev pub ◌>>=◌ : Result E A → (A → Result E B) → Result E B
  call >>= rest = elim call [ err raised ↦ err raised | ok value ↦ rest value ]

  pub >>=-eq-ok :
      (call : Result E A) (rest : A → Result E B) {b : B}
      → (call >>= rest) ≡ ok b
      → (a : A) × (call ≡ ok a) × (rest a ≡ ok b)
  >>=-eq-ok (err raised) rest returned = cc
  >>=-eq-ok (ok value) rest returned = (value, refl, returned)

infixl 5 ◌>>◌
abbrev pub ◌>>◌ {ℓ κ} : {E : Type ℓ} {B : Type κ} → Result E (Unit {0}) → Result E B → Result E B
check >> rest = elim check [ err raised ↦ err raised | ok _ ↦ rest ]

module _ {ℓ κ} {E : Type ℓ} {A : Type κ} where
  pub Result-cases : (call : Result E A) → ((a : A) × (call ≡ ok a)) ⊎ ((e : E) × (call ≡ err e))
  Result-cases (ok value) = inl (value, refl)
  Result-cases (err raised) = inr (raised, refl)

  pub ok-injective : {a b : A} → ◌≡◌ {A = Result E A} (ok a) (ok b) → a ≡ b
  ok-injective e = cc

module _ {ℓ κ} {E : Type ℓ} {B : Type κ} where
  pub >>-eq-ok :
      (check : Result E (Unit {0})) (rest : Result E B) {b : B}
      → (check >> rest) ≡ ok b
      → (check ≡ ok tt) × (rest ≡ ok b)
  >>-eq-ok (err raised) rest returned = cc
  >>-eq-ok (ok tt) rest returned = (refl, returned)
