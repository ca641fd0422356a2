-- ===== src/Errors.antt =====
-- pkg/errors and the error types of pkg/api: the kinds of error, and results that may be one.
use service_broker_k8s.Base.{
  String, ◌≡◌, refl, ◌⊎◌, inl, inr, Bool, true, false, Option, none, some,
}

-- The error types of pkg/errors, and `other` for every other error (`fmt.Errorf`, the errors of
-- the Kubernetes client). The text is what `Error()` returns.
pub data Error : Type 0 where
  configuration_error : String → Error
  query_error : String → Error
  parameter_error : String → Error
  validation_error : String → Error
  async_required_error : String → Error
  resource_conflict_error : String → Error
  resource_not_found_error : String → Error
  resource_gone_error : String → Error
  other : String → Error

-- The `Error` methods.
unfoldable pub message : Error → String
message (configuration_error s) = s
message (query_error s) = s
message (parameter_error s) = s
message (validation_error s) = s
message (async_required_error s) = s
message (resource_conflict_error s) = s
message (resource_not_found_error s) = s
message (resource_gone_error s) = s
message (other s) = s

-- A function that returns `(A, error)`, or panics.
pub data Result {ℓ} (A : Type ℓ) : Type ℓ where
  ok : A → Result A
  err : Error → Result A
  panic : Result A

infixl 5 ◌>>=◌ ◌>>◌
abbrev pub ◌>>=◌ {ℓ κ} : {A : Type ℓ} {B : Type κ} → Result A → (A → Result B) → Result B
ok a >>= f = f a
err e >>= f = err e
panic >>= f = panic

abbrev pub ◌>>◌ {ℓ} : {B : Type ℓ} → Result (Unit {0}) → Result B → Result B
m >> k = m >>= λ _. k

-- `if failed { return e }`
abbrev pub fail_if : Bool → Error → Result (Unit {0})
fail_if true e = err e
fail_if false e = ok tt

-- A nil pointer, where the caller makes an error of it.
abbrev pub or_fail {ℓ} : {A : Type ℓ} → Option A → Error → Result A
or_fail none e = err e
or_fail (some a) _ = ok a

-- An index that is out of range.
abbrev pub or_panic {ℓ} : {A : Type ℓ} → Option A → Result A
or_panic none = panic
or_panic (some a) = ok a

-- A block that succeeds has succeeded in its first step and in the rest.
pub >>-eq-ok {ℓ} :
    {B : Type ℓ} (m : Result (Unit {0})) (k : Result B) {b : B}
    → (m >> k) ≡ ok b
    → (m ≡ ok tt) × (k ≡ ok b)
>>-eq-ok (ok _) k h = (refl, h)
>>-eq-ok (err e) k h = cc
>>-eq-ok panic k h = cc

pub ok_eq : {A : Type 0} {a b : A} → ◌≡◌ {A = Result A} (ok a) (ok b) → a ≡ b
ok_eq h = cc

pub Result-cases {ℓ} :
    {A : Type ℓ} (r : Result A)
    → ((a : A) × (r ≡ ok a)) ⊎ (((e : Error) × (r ≡ err e)) ⊎ (r ≡ panic))
Result-cases (ok a) = inl (a, refl)
Result-cases (err e) = inr (inl (e, refl))
Result-cases panic = inr (inr refl)

pub >>=-eq-ok {ℓ κ} :
    {A : Type ℓ} {B : Type κ} (m : Result A) (k : A → Result B) (b : B)
    → (m >>= k) ≡ ok b
    → (a : A) × (m ≡ ok a) × (k a ≡ ok b)
>>=-eq-ok (ok a) k b h = (a, refl, h)
>>=-eq-ok (err e) k b h = cc
>>=-eq-ok panic k b h = cc
