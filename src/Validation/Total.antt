-- ===== src/Validation/Total.antt =====
-- Validation never panics, whatever the placement.
use cell_router_operator.Base.{
  ℕ, ◌+◌, ◌≢◌, Option, none, some, List, [], ◌∷◌, arith, Text, text_eq, any,
}
use cell_router_operator.Errors.{
  panic, >>=-ne-panic, wrap_error, in_selector, reject_if, duplicate_source,
}
use cell_router_operator.Api.Placement.{
  Selector, Placement, SelectorOperator, SelectorSourceType, exact, prefix, suffix, range,
  other_operator, header, query_param, path_capture, other_source, NumericRange, SelectorSource,
}
use cell_router_operator.Validation.{
  validate, validate_spec, validate_selector, validate_selectors, validate_source, validate_kind,
  validate_operator, validate_range, shared_regex, source_key,
}

validate_range-ne-panic : (r : Option NumericRange) → validate_range r ≢ panic
unfolding validate_range
validate_range-ne-panic none h = ground arith
validate_range-ne-panic (some r) h = ground (arith)

validate_operator-ne-panic : (o : SelectorOperator) (s : Selector) → validate_operator o s ≢ panic
unfolding validate_operator
validate_operator-ne-panic range s h = ground (arith, validate_range-ne-panic s.bounds)
validate_operator-ne-panic (other_operator o) s h = ground arith
validate_operator-ne-panic exact s h = ground arith
validate_operator-ne-panic prefix s h = ground arith
validate_operator-ne-panic suffix s h = ground arith

shared_regex-ne-panic :
    (k : SelectorSourceType) (own regex : Text) → shared_regex k own regex ≢ panic
unfolding shared_regex
shared_regex-ne-panic header own regex h = ground arith
shared_regex-ne-panic query_param own regex h = ground arith
shared_regex-ne-panic path_capture own regex h = ground arith
shared_regex-ne-panic (other_source o) own regex h = ground arith

module _ (subexp_names : Text → Option (List Text)) where
  validate_kind-ne-panic :
      (k : SelectorSourceType) (s : SelectorSource) → validate_kind subexp_names k s ≢ panic
  unfolding validate_kind
  validate_kind-ne-panic header s h = ground arith
  validate_kind-ne-panic query_param s h = ground arith
  validate_kind-ne-panic path_capture s h = ground arith
  validate_kind-ne-panic (other_source o) s h = ground arith

  validate_selector-ne-panic : (s : Selector) → validate_selector subexp_names s ≢ panic
  unfolding validate_selector validate_source
  validate_selector-ne-panic s h = ground (
    arith,
    validate_kind-ne-panic s.source.kind s.source,
    validate_operator-ne-panic s.operator s,
  )

  validate_selectors-ne-panic :
      (idx : ℕ) (seen : List Text) (regex : Text) (l : List Selector)
      → validate_selectors subexp_names idx seen regex l ≢ panic
  unfolding validate_selectors
  validate_selectors-ne-panic idx seen regex [] h = ground arith
  validate_selectors-ne-panic idx seen regex (s ∷ rest) h =
      >>=-ne-panic (wrap_error (in_selector idx) (validate_selector subexp_names s)) _
        (λ h. ground (arith, validate_selector-ne-panic s))
        (λ _ _.
          >>=-ne-panic
            (reject_if (any (λ k. text_eq k (source_key s.source)) seen)
              (duplicate_source idx (source_key s.source)))
            _ (λ h. ground arith)
            (λ _ _.
              >>=-ne-panic (shared_regex s.source.kind s.source.path_regex regex) _
                (shared_regex-ne-panic s.source.kind s.source.path_regex regex)
                (λ regex' _.
                  validate_selectors-ne-panic (idx + 1) (source_key s.source ∷ seen) regex' rest)))
        h

  pub validate-ne-panic : (p : Placement) → validate subexp_names p ≢ panic
  unfolding validate validate_spec
  validate-ne-panic p h = ground (arith, validate_selectors-ne-panic 0 [] [] p.spec.selectors)
