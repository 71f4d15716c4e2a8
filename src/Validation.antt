-- ===== src/Validation.antt =====
-- Placement validation: api/v1alpha1/cellplacement_validation.go.
pub mod Spec
pub mod Selectors
pub mod Placements
pub mod Total
use cell_router_operator.Base.{
  ℕ, ◌+◌, ◌^◌, Bool, true, false, not, ◌&&◌, ◌||◌, Option, none, some, List, [], ◌∷◌, ◌++◌, ltb,
  if◌then◌else◌, any, is_empty, Text, codes, text_eq, is_blank,
}
use cell_router_operator.Strconv.{parse_uint}
use cell_router_operator.Decimal.{is_decimal}
use cell_router_operator.Errors.{
  Error, Result, ok, err, ◌>>=◌, ◌>>◌, reject_if, parse_or, wrap_error, router_ref_required,
  selector_required, destination_required, path_regex_differs, in_selector, duplicate_source,
  value_required, range_not_allowed, range_required, nil_range, value_not_allowed,
  unsupported_operator, source_name_required, path_regex_not_allowed, path_regex_required,
  capture_missing, unsupported_source, start_not_decimal, end_not_decimal, start_too_large,
  end_too_large, start_after_end,
}
use cell_router_operator.Api.Placement.{
  SelectorSourceType, header, query_param, path_capture, other_source, SelectorOperator, exact,
  prefix, suffix, range, other_operator, source_type_text, SelectorSource, NumericRange, Selector,
  PlacementSpec, Placement,
}

abbrev pub is_nil {ℓ} : {A : Type ℓ} → Option A → Bool
is_nil none = true
is_nil (some a) = false

-- `(*CellPlacementNumericRange).Validate`.
unfoldable pub validate_range : Option NumericRange → Result (Unit {0})
validate_range none = err nil_range
validate_range (some r) = do
  reject_if (not (is_decimal r.start)) start_not_decimal
  reject_if (not (is_decimal r.end)) end_not_decimal
  start_value ← parse_or (parse_uint r.start) start_too_large
  end_value ← parse_or (parse_uint r.end) end_too_large
  reject_if (ltb end_value start_value) start_after_end

-- `(*CellPlacementSelectorSource).key`.
unfoldable pub source_key : SelectorSource → Text
source_key s = elim (s.kind) [
  | path_capture ↦ source_type_text s.kind ++ (codes ":" ++ (s.name ++ (codes ":" ++ s.path_regex)))
  | _ ↦ source_type_text s.kind ++ (codes ":" ++ s.name)
]

-- The `switch` on the operator.
pub validate_operator : SelectorOperator → Selector → Result (Unit {0})
validate_operator range s = do
  reject_if (is_nil s.bounds) range_required
  validate_range s.bounds
  reject_if (not (is_empty s.value)) value_not_allowed
validate_operator (other_operator o) s = err (unsupported_operator (other_operator o))
validate_operator o s = do
  reject_if (is_empty s.value) (value_required o)
  reject_if (not (is_nil s.bounds)) (range_not_allowed o)

-- What the selectors leave behind: the agreed `pathRegex`, from that of this selector and that of
-- the ones before.
pub shared_regex : SelectorSourceType → Text → Text → Result Text
shared_regex path_capture own regex =
    if is_empty regex
    then ok own
    else if text_eq regex own
    then ok regex
    else err path_regex_differs
shared_regex _ own regex = ok regex

-- `subexp_names` is Go's `regexp.Compile` followed by `SubexpNames`: the names of the groups of a
-- regular expression, or `none` where it does not compile.
module _ (subexp_names : Text → Option (List Text)) where
  unfoldable pub path_regex_has_named_capture : Text → Text → Bool
  path_regex_has_named_capture path_regex capture_name = elim (subexp_names path_regex) [
    | none ↦ false
    | some group_names ↦ any (λ n. text_eq n capture_name) group_names
  ]

  pub validate_kind : SelectorSourceType → SelectorSource → Result (Unit {0})
  validate_kind path_capture s = do
    reject_if (is_blank s.path_regex) path_regex_required
    reject_if (not (path_regex_has_named_capture s.path_regex s.name)) (capture_missing s.name)
  validate_kind (other_source k) s = err (unsupported_source (other_source k))
  validate_kind _ s = reject_if (not (is_empty s.path_regex)) path_regex_not_allowed

  -- `(*CellPlacementSelectorSource).Validate`.
  unfoldable pub validate_source : SelectorSource → Result (Unit {0})
  unfolding validate_kind
  validate_source s = do reject_if (is_blank s.name) source_name_required; validate_kind s.kind s

  -- `(*CellPlacementSelector).Validate`.
  unfoldable pub validate_selector : Selector → Result (Unit {0})
  unfolding validate_operator
  validate_selector s = do validate_source s.source; validate_operator s.operator s

  -- The loop over the selectors: the index, `seenSources` and `pathRegex`.
  pub validate_selectors : ℕ → List Text → Text → List Selector → Result (Unit {0})
  validate_selectors idx seen regex [] = ok tt
  validate_selectors idx seen regex (s ∷ rest) = do
    wrap_error (in_selector idx) (validate_selector s)
    let key = source_key s.source
    reject_if (any (λ k. text_eq k key) seen) (duplicate_source idx key)
    regex' ← shared_regex s.source.kind s.source.path_regex regex
    validate_selectors (idx + 1) (key ∷ seen) regex' rest

  -- `(*CellPlacementSpec).Validate`.
  unfoldable pub validate_spec : PlacementSpec → Result (Unit {0})
  unfolding validate_selectors shared_regex
  validate_spec s = do
    reject_if (is_blank s.router_ref) router_ref_required
    reject_if (is_empty s.selectors) selector_required
    reject_if (is_empty s.destinations) destination_required
    validate_selectors 0 [] [] s.selectors

  -- `(*CellPlacement).Validate`.
  unfoldable pub validate : Placement → Result (Unit {0})
  unfolding validate_spec
  validate p = validate_spec p.spec
