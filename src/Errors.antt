-- ===== src/Errors.antt =====
-- The errors that placement validation and compilation return, a constructor for each message of
-- `fmt.Errorf`, and the results of functions that return an error or that can panic.
use cell_router_operator.Base.{
  ℕ, Option, none, some, ◌≡◌, ◌≢◌, refl, Text, Bool, true, false, arith,
}
use cell_router_operator.Api.Placement.{SelectorOperator, SelectorSourceType}

pub data Error : Type 0 where
  -- CellPlacementSpec.Validate
  router_ref_required selector_required destination_required path_regex_differs : Error
  in_selector : ℕ → Error → Error
  duplicate_source : ℕ → Text → Error
  -- CellPlacementSelector.Validate
  value_required range_not_allowed : SelectorOperator → Error
  range_required nil_range value_not_allowed : Error
  unsupported_operator : SelectorOperator → Error
  -- CellPlacementSelectorSource.Validate
  source_name_required path_regex_not_allowed path_regex_required : Error
  capture_missing : Text → Error
  unsupported_source : SelectorSourceType → Error
  -- CellPlacementNumericRange.Validate
  start_not_decimal end_not_decimal start_too_large end_too_large start_after_end : Error
  -- replaceNamedCaptureBody and numericRangeRegex
  capture_not_closed : Text → Error
  invalid_start invalid_end : Error
  -- buildRoutePlans
  duplicate_route conflicting_placement : Text → Error

-- The entries of `invalidPlacements`: "placement overlaps with %q" and "invalid placement: ".
pub data InvalidReason : Type 0 where
  overlaps_with : Text → InvalidReason
  invalid_placement : Error → InvalidReason

-- The outcome of a Go function that returns a value beside an error. `panic` is a nil dereference,
-- or an index or a slice out of range.
pub data Result {ℓ} (A : Type ℓ) : Type ℓ where
  panic : Result A
  err : Error → Result A
  ok : A → Result A

infixl 5 ◌>>=◌ ◌>>◌
-- `if err != nil { return err }` before the rest of the function.
abbrev pub ◌>>=◌ {κ ℓ} : {B : Type κ} {A : Type ℓ} → Result A → (A → Result B) → Result B
panic >>= rest = panic
err failure >>= rest = err failure
ok value >>= rest = rest value

-- A check, which has no value.
abbrev pub ◌>>◌ {κ} : {B : Type κ} → Result (Unit {0}) → Result B → Result B
check >> rest = check >>= λ passed. rest

-- A function that has returned a value has got past its first part.
module _ {ℓ κ} {A : Type ℓ} {B : Type κ} where
  pub >>=-eq-ok :
      (first : Result A) (rest : A → Result B) {result : B}
      → (first >>= rest) ≡ ok result
      → (value : A) × (first ≡ ok value) × (rest value ≡ ok result)
  >>=-eq-ok panic rest h = ground arith
  >>=-eq-ok (err failure) rest h = ground arith
  >>=-eq-ok (ok value) rest h = (value, refl, h)

-- `if bad { return e }`.
abbrev pub reject_if : Bool → Error → Result (Unit {0})
reject_if true e = err e
reject_if false e = ok tt

-- `if err != nil { return fmt.Errorf("...: %w", err) }`.
abbrev pub wrap_error {ℓ} : {A : Type ℓ} → (Error → Error) → Result A → Result A
wrap_error f (ok a) = ok a
wrap_error f (err e) = err (f e)
wrap_error f panic = panic

-- `strconv.ParseUint` with its error replaced.
abbrev pub parse_or : Option ℕ → Error → Result ℕ
parse_or none e = err e
parse_or (some n) e = ok n

-- A value, or the panic of the call that computes it.
abbrev pub or_panic {ℓ} : {A : Type ℓ} → Option A → Result A
or_panic none = panic
or_panic (some a) = ok a

-- The computation returns a value.
abbrev pub Succeeds {ℓ} : {A : Type ℓ} → Result A → Type ℓ
Succeeds {A} m = (a : A) × (m ≡ ok a)

pub >>=-Succeeds {ℓ κ} :
    {A : Type ℓ} {B : Type κ} (m : Result A) (f : A → Result B)
    → Succeeds m
    → ((a : A) → Succeeds (f a))
    → Succeeds (m >>= f)
>>=-Succeeds (ok a) f h k = k a
>>=-Succeeds (err e) f (a, h) k = absurd (ground arith)
>>=-Succeeds panic f (a, h) k = absurd (ground arith)

pub ok-ne-panic {ℓ} : {A : Type ℓ} (m : Result A) → Succeeds m → m ≢ panic
ok-ne-panic m (a, e) h = ground arith

pub >>=-ne-panic {ℓ κ} :
    {A : Type ℓ} {B : Type κ} (m : Result A) (f : A → Result B)
    → m ≢ panic
    → ((a : A) → m ≡ ok a → f a ≢ panic)
    → (m >>= f) ≢ panic
>>=-ne-panic (ok a) f h k e = k a refl e
>>=-ne-panic (err x) f h k e = ground arith
>>=-ne-panic panic f h k e = h refl
