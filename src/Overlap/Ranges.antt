-- ===== src/Overlap/Ranges.antt =====
-- When two numeric ranges intersect, and what `rangeSelectorsBySource` holds.
use cell_router_operator.Base.{
  ℕ, ◌+◌, ◌-◌, ◌*◌, ◌^◌, ◌≤◌, ◌<◌, ◌≡◌, ◌↔◌, refl, ◌∙◌, true, ◌&&◌, none, some, List, [], ◌∷◌,
  arith, Bool-cases, inl, inr, leb, all, Text, IsDict, insert-IsDict, Dict, insert,
}
use cell_router_operator.Strconv.{is_digit, value, value_from}
use cell_router_operator.Decimal.{is_decimal}
use cell_router_operator.Decimal.Order.{is_decimal-digits}
use cell_router_operator.Api.Placement.{
  SelectorOperator, exact, prefix, suffix, range, other_operator, NumericRange, Selector,
}
use cell_router_operator.Validation.Spec.{IsValidRange}
use cell_router_operator.Validation.{source_key}
use cell_router_operator.RangeRegex.{numeric_range_regex}
use cell_router_operator.RangeRegex.Matcher.{full_match}
use cell_router_operator.RangeRegex.Correct.{numeric_range_regex-exact}
use cell_router_operator.Errors.{ok}
use cell_router_operator.Overlap.{
  scan_uint, parse_uint_value, numeric_ranges_intersect, add_range, add_ranges,
  range_selectors_by_source,
}

-- A digit never lowers the number that the later digits lead to.
value_from-ge : (acc : ℕ) (s : Text) → acc ≤ value_from acc s
unfolding value_from
value_from-ge acc [] = omega arith
value_from-ge acc (c ∷ s) = omega (arith, value_from-ge (acc * 10 + (c - b'0')) s)

scan_uint-digits :
    (acc : ℕ) (s : Text)
    → all is_digit s ≡ true
    → value_from acc s < 2 ^ 64
    → scan_uint acc s ≡ value_from acc s
unfolding scan_uint value_from
scan_uint-digits acc [] h fits = refl
scan_uint-digits acc (c ∷ s) h fits =
    ground
      (arith, value_from-ge (acc * 10 + (c - b'0')) s, scan_uint-digits (acc * 10 + (c - b'0')) s)

parse_uint_value-decimal :
    (s : Text) → is_decimal s ≡ true → value s < 2 ^ 64 → parse_uint_value s ≡ value s
unfolding parse_uint_value value
parse_uint_value-decimal s h fits = scan_uint-digits 0 s (is_decimal-digits s h) fits

-- The regular expression of a range accepts a text.
pub Allows : NumericRange → Text → Type 0
Allows r t =
    (regex : Text) × (numeric_range_regex r.start r.end ≡ ok regex) × (full_match regex t ≡ true)

Allows-iff :
    (r : NumericRange) (t : Text)
    → IsValidRange r
    → Allows r t
      ↔ ((is_decimal t && leb (value r.start) (value t) && leb (value t) (value r.end)) ≡ true)
unfolding Allows
Allows-iff r t v =
    let (regex, made, matched) =
      numeric_range_regex-exact r.start r.end t v.start_decimal v.end_decimal v.in_order v.fits in
    (λ (regex', made', matched'). ground arith, λ h. (regex, made, matched ∙ h))

-- Two valid ranges are found to intersect exactly if some text matches the regular expressions
-- that are compiled for both.
pub numeric_ranges_intersect_iff :
    (left right : NumericRange)
    → IsValidRange left
    → IsValidRange right
    → (numeric_ranges_intersect left right ≡ true) ↔ ((t : Text) × Allows left t × Allows right t)
unfolding numeric_ranges_intersect
numeric_ranges_intersect_iff left right v w =
    rw
      (
        parse_uint_value-decimal left.start v.start_decimal (ground (arith, v.in_order, v.fits)),
        parse_uint_value-decimal left.end v.end_decimal v.fits,
        parse_uint_value-decimal right.start w.start_decimal (ground (arith, w.in_order, w.fits)),
        parse_uint_value-decimal right.end w.end_decimal w.fits,
      )
      (
        λ h. elim (Bool-cases (leb (value left.start) (value right.start))) [
          | inl first ↦ (
            right.start,
            (Allows-iff left right.start v).1 (ground (arith, w.start_decimal)),
            (Allows-iff right right.start w).1 (ground (arith, w.start_decimal, w.in_order)),
          )
          | inr second ↦ (
            left.start,
            (Allows-iff left left.start v).1 (ground (arith, v.start_decimal, v.in_order)),
            (Allows-iff right left.start w).1 (ground (arith, v.start_decimal)),
          )
        ],
        λ (t, a, b).
            let x = (Allows-iff left t v).0 a in let y = (Allows-iff right t w).0 b in ground arith,
      )

add_range-IsDict :
    (o : SelectorOperator) (s : Selector) (m : Dict NumericRange)
    → IsDict m
    → IsDict (add_range o s m)
unfolding add_range
add_range-IsDict range s m d =
    elim (s.bounds)
      as (λ b. IsDict (elim b [ none ↦ m | some r ↦ insert (source_key s.source) r m ])) [
        | none ↦ d
        | some r ↦ insert-IsDict (source_key s.source) r m d
      ]
add_range-IsDict exact s m d = d
add_range-IsDict prefix s m d = d
add_range-IsDict suffix s m d = d
add_range-IsDict (other_operator o) s m d = d

add_ranges-IsDict :
    (selectors : List Selector) (m : Dict NumericRange) → IsDict m → IsDict (add_ranges selectors m)
unfolding add_ranges
add_ranges-IsDict [] m d = d
add_ranges-IsDict (s ∷ rest) m d =
    add_ranges-IsDict rest (add_range s.operator s m) (add_range-IsDict s.operator s m d)

pub range_selectors_by_source-IsDict :
    (selectors : List Selector) → IsDict (range_selectors_by_source selectors)
unfolding range_selectors_by_source
range_selectors_by_source-IsDict selectors = add_ranges-IsDict selectors [] tt
