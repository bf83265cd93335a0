-- ===== src/Prelude/Results.antt =====
-- `Result`, with `?` as the bind of a `do` block.
use mathlib.Core.Path.{◌≡◌, refl}
use mathlib.Core.Logic.{◌⊎◌, inl, inr}
use mathlib.Core.Bool.{Bool, true, false}
use mathlib.Core.Option.{Option, none, some}
use native.Mathlib.Omega.{arith}

pub data Result {ℓ κ} (E : Type ℓ) (T : Type κ) : Type (ℓ ⊔ κ) where
  err : E → Result E T
  ok : T → Result E T

infixl 5 ◌>>=◌ ◌>>◌
-- `?`: what follows has the value, or is not reached.
abbrev pub ◌>>=◌ {ℓ κ μ} :
    {E : Type ℓ} {T : Type κ} {U : Type μ} → Result E T → (T → Result E U) → Result E U
first >>= rest = elim first [ err failure ↦ err failure | ok value ↦ rest value ]

abbrev pub ◌>>◌ {ℓ κ} : {E : Type ℓ} {U : Type κ} → Result E (Unit {0}) → Result E U → Result E U
check >> rest = elim check [ err failure ↦ err failure | ok _ ↦ rest ]

-- `if bad { return Err(failure) }`
abbrev pub fail_if {ℓ} : {E : Type ℓ} → Bool → E → Result E (Unit {0})
fail_if bad failure = elim bad [ true ↦ err failure | false ↦ ok tt ]

-- `ok_or`
abbrev pub ok_or {ℓ κ} : {E : Type ℓ} {T : Type κ} → Option T → E → Result E T
ok_or found failure = elim found [ none ↦ err failure | some value ↦ ok value ]

-- `map_err` to a fixed error.
abbrev pub map_err {ℓ κ μ} : {E : Type ℓ} {F : Type κ} {A : Type μ} → Result E A → F → Result F A
map_err (ok a) f = ok a
map_err (err e) f = err f

-- `is_err`
abbrev pub is_err {ℓ κ} : {E : Type ℓ} {A : Type κ} → Result E A → Bool
is_err (ok a) = false
is_err (err e) = true

-- A chain that succeeds has passed its first step.
pub >>=-eq-ok {ℓ κ μ} :
    {E : Type ℓ} {T : Type κ} {U : Type μ} (first : Result E T) (rest : T → Result E U) {last : U}
    → (first >>= rest) ≡ ok last
    → (value : T) × (first ≡ ok value) × (rest value ≡ ok last)
>>=-eq-ok (err failure) rest passed = cc
>>=-eq-ok (ok value) rest passed = (value, refl, passed)

pub Result-cases {ℓ κ} :
    {E : Type ℓ} {A : Type κ} (r : Result E A) → ((a : A) × (r ≡ ok a)) ⊎ ((e : E) × (r ≡ err e))
Result-cases (ok a) = inl (a, refl)
Result-cases (err e) = inr (e, refl)

pub ok_or-ok {ℓ κ} :
    {E : Type ℓ} {T : Type κ} (found : Option T) (failure : E) {value : T}
    → ok_or found failure ≡ ok value
    → found ≡ some value
ok_or-ok found failure h = ground arith

pub ok-injective {ℓ κ} :
    {E : Type ℓ} {T : Type κ} {x y : T} → ◌≡◌ {A = Result E T} (ok x) (ok y) → x ≡ y
ok-injective h = ground arith

pub fail_if-ok {ℓ} :
    {E : Type ℓ} (bad : Bool) (failure : E) {t : Unit {0}}
    → fail_if bad failure ≡ ok t
    → bad ≡ false
fail_if-ok bad failure h = ground arith
