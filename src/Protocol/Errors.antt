-- ===== src/Protocol/Errors.antt =====
-- core/src/protocol/errors.ts, routing/errors.ts, runtime/errors.ts and workflow/errors.ts: the
-- structured errors. The four classes differ in their name and in the codes that they use.
pub mod Codes
use oacp.Prelude.{String, List, Bool, if◌then◌else◌, ◌≡◌, refl, ◌⊎◌, inl, inr}

pub record ErrorDetail : Type 0 where
  pub path : String
  pub message : String

pub data ErrorClass : Type 0 where
  validation routing runtime workflow memory : ErrorClass

pub record OacpError : Type 0 where
  pub class : ErrorClass
  pub code : String
  pub message : String
  pub details : List ErrorDetail

abbrev pub routing_error : String → String → List ErrorDetail → OacpError
routing_error c m ds = record { class = routing; code = c; message = m; details = ds }

abbrev pub runtime_error : String → String → List ErrorDetail → OacpError
runtime_error c m ds = record { class = runtime; code = c; message = m; details = ds }

abbrev pub workflow_error : String → String → List ErrorDetail → OacpError
workflow_error c m ds = record { class = workflow; code = c; message = m; details = ds }

abbrev pub memory_error : String → String → List ErrorDetail → OacpError
memory_error c m ds = record { class = memory; code = c; message = m; details = ds }

abbrev pub validation_error : String → String → List ErrorDetail → OacpError
validation_error c m ds = record { class = validation; code = c; message = m; details = ds }

-- The outcome of code that fails with such an error.
pub data Result {ℓ} (A : Type ℓ) : Type ℓ where
  ok : A → Result A
  err : OacpError → Result A

-- One after the other; the first error is the outcome.
abbrev pub check_then {ℓ} : {A : Type ℓ} → Bool → OacpError → Result A → Result A
check_then holds e next = if holds then next else err e

abbrev pub and_then {ℓ κ} : {A : Type ℓ} {B : Type κ} → Result A → (A → Result B) → Result B
and_then r f = elim r [ err e ↦ err e | ok a ↦ f a ]

-- What follows a success; an error is passed on.
abbrev pub map_result {ℓ κ} : {A : Type ℓ} {B : Type κ} → (A → B) → Result A → Result B
map_result f (ok a) = ok (f a)
map_result f (err e) = err e

-- To split on a computed outcome and keep the equation.
pub Result-cases {ℓ} :
    {A : Type ℓ} (r : Result A) → ((a : A) × (r ≡ ok a)) ⊎ ((e : OacpError) × (r ≡ err e))
Result-cases (ok a) = inl (a, refl)
Result-cases (err e) = inr (e, refl)
