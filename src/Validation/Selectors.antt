-- ===== src/Validation/Selectors.antt =====
-- `Validate` of a range, a source and a selector accepts exactly the valid ones.
use cell_router_operator.Base.{
  ◌≡◌, ◌≢◌, ◌↔◌, refl, true, false, Option, none, some, List, [], ◌∷◌, arith, Text, is_empty, not,
  Option-cases, inl, inr,
}
use mathlib.Core.Bool.{false≢true}
use cell_router_operator.Strconv.{parse_uint}
use cell_router_operator.Decimal.{is_decimal}
use cell_router_operator.Decimal.Order.{is_decimal-digits}
use cell_router_operator.Errors.{ok, reject_if, ◌>>◌, value_required, range_not_allowed}
use cell_router_operator.Api.Placement.{
  SelectorSourceType, path_capture, other_source, SelectorOperator, exact, prefix, suffix, range,
  other_operator, SelectorSource, NumericRange, Selector,
}
use cell_router_operator.Validation.{
  validate_range, validate_operator, validate_kind, validate_source, validate_selector, is_nil,
}
use cell_router_operator.Validation.Spec.{
  IsValidRange, IsValidOperator, IsValidKind, IsValidSelector,
}

is_decimal-ne-nil : (s : Text) → is_decimal s ≡ true → is_empty s ≡ false
unfolding is_decimal
is_decimal-ne-nil [] h = cc
is_decimal-ne-nil (c ∷ s) h = refl

pub validate_range_iff : (r : NumericRange) → (validate_range (some r) ≡ ok tt) ↔ IsValidRange r
unfolding validate_range parse_uint
validate_range_iff r = (
  λ h. record {
    start_decimal = ground arith;
    end_decimal = ground arith;
    in_order = ground arith;
    fits = ground arith;
  },
  λ v. ground (
    arith,
    is_decimal-ne-nil r.start v.start_decimal,
    is_decimal-ne-nil r.end v.end_decimal,
    is_decimal-digits r.start v.start_decimal,
    is_decimal-digits r.end v.end_decimal,
  ),
)

is_empty_iff : (s : Text) → (is_empty s ≡ true) ↔ (s ≡ [])
is_empty_iff [] = (λ h. refl, λ h. refl)
is_empty_iff (c ∷ s) = (λ h. absurd (false≢true h), λ h. ground arith)

-- `Exact`, `Prefix` and `Suffix`: a value and no range.
plain_iff :
    (o : SelectorOperator) (s : Selector)
    → ((reject_if (is_empty s.value) (value_required o)
          >> reject_if (not (is_nil s.bounds)) (range_not_allowed o))
        ≡ ok tt)
      ↔ ((s.value ≢ []) × (s.bounds ≡ none))
plain_iff o s = (
  λ h. (λ e. ground (arith, is_empty_iff s.value), ground arith),
  λ v. ground (arith, is_empty_iff s.value),
)

range_iff : (s : Selector) → (validate_operator range s ≡ ok tt) ↔ IsValidOperator range s
unfolding validate_operator
range_iff s = elim (Option-cases s.bounds) [
  | inl missing ↦ (λ h. ground arith, λ v. ground arith)
  | inr (r, found) ↦ (
    λ h. (r, found, (validate_range_iff r).0 (ground arith), ground (arith, is_empty_iff s.value)),
    λ v. ground (arith, validate_range_iff v.0, is_empty_iff s.value),
  )
]

pub validate_operator_iff :
    (o : SelectorOperator) (s : Selector) → (validate_operator o s ≡ ok tt) ↔ IsValidOperator o s
unfolding validate_operator
validate_operator_iff range s = range_iff s
validate_operator_iff (other_operator o) s = (λ h. ground arith, λ v. absurd v)
validate_operator_iff exact s = plain_iff exact s
validate_operator_iff prefix s = plain_iff prefix s
validate_operator_iff suffix s = plain_iff suffix s

module _ (subexp_names : Text → Option (List Text)) where
  validate_kind_iff :
      (k : SelectorSourceType) (s : SelectorSource)
      → (validate_kind subexp_names k s ≡ ok tt) ↔ IsValidKind subexp_names k s
  unfolding validate_kind
  validate_kind_iff path_capture s = (λ h. ground arith, λ v. ground arith)
  validate_kind_iff (other_source k) s = (λ h. ground arith, λ v. absurd v)
  validate_kind_iff _ s = (
    λ h. ground (arith, is_empty_iff s.path_regex),
    λ v. ground (arith, is_empty_iff s.path_regex),
  )

  pub validate_selector_iff :
      (s : Selector) → (validate_selector subexp_names s ≡ ok tt) ↔ IsValidSelector subexp_names s
  unfolding validate_selector validate_source
  validate_selector_iff s = (
    λ h. record {
      named = ground arith;
      source = (validate_kind_iff s.source.kind s.source).0 (ground arith);
      operator = (validate_operator_iff s.operator s).0 (ground arith);
    },
    λ v. ground (
      arith,
      v.named,
      (validate_kind_iff s.source.kind s.source).1 v.source,
      (validate_operator_iff s.operator s).1 v.operator,
    ),
  )
