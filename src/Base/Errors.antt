-- ===== src/Base/Errors.antt =====
-- What a routine that may raise returns: a value, or what it raised.
use mathlib.Core.Path.{◌≡◌, refl}
use mathlib.Core.Logic.{◌⊎◌, inl, inr}
use mathlib.Core.Bool.{Bool, true, false}

pub data Result {ℓ κ} (Raised : Type κ) (A : Type ℓ) : Type (ℓ ⊔ κ) where
  err : Raised → Result Raised A
  ok : A → Result Raised A

-- `if not holds: raise e`
abbrev pub guard {κ} : {Raised : Type κ} (holds : Bool) → Raised → Result Raised (Unit {0})
guard false e = err e
guard true _ = ok tt

pub guard-eq-ok {κ} :
    {Raised : Type κ} (holds : Bool) (e : Raised) {u : Unit {0}}
    → guard holds e ≡ ok u
    → holds ≡ true
guard-eq-ok false e h = cc
guard-eq-ok true e h = refl

module _ {ℓ κ ι} {Raised : Type κ} {A : Type ℓ} {B : Type ι} where
  infixl 5 ◌>>=◌
  abbrev pub ◌>>=◌ : Result Raised A → (A → Result Raised B) → Result Raised B
  err e >>= next = err e
  ok a >>= next = next a

  -- A routine that returned went through each of its parts.
  pub >>=-eq-ok :
      (m : Result Raised A) (next : A → Result Raised B) {b : B}
      → (m >>= next) ≡ ok b
      → (a : A) × (m ≡ ok a) × (next a ≡ ok b)
  >>=-eq-ok (err e) next h = cc
  >>=-eq-ok (ok a) next h = (a, refl, h)

infixl 5 ◌>>◌
abbrev pub ◌>>◌ {ℓ κ} :
    {Raised : Type κ} {B : Type ℓ} → Result Raised (Unit {0}) → Result Raised B → Result Raised B
check >> next = check >>= λ _. next

pub Result-cases {ℓ κ} :
    {Raised : Type κ} {A : Type ℓ} (r : Result Raised A)
    → ((a : A) × (r ≡ ok a)) ⊎ ((e : Raised) × (r ≡ err e))
Result-cases (err e) = inr (e, refl)
Result-cases (ok a) = inl (a, refl)

-- What a routine returned is one value.
pub ok_inj {ℓ κ} :
    {Raised : Type κ} {A : Type ℓ} {a b : A} → ◌≡◌ {A = Result Raised A} (ok a) (ok b) → a ≡ b
ok_inj h = cc
