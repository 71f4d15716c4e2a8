-- ===== src/Examples/Placements.antt =====
-- The theorems on validation, regular expressions and compilation, applied.
use cell_router_operator.Base.{
  ◌≡◌, ◌≢◌, ◌↔◌, refl, some, true, ◌&&◌, [], ◌++◌, arith, leb, Text, codes,
}
use cell_router_operator.Strconv.{value}
use cell_router_operator.Decimal.{is_decimal}
use cell_router_operator.Errors.{ok, panic}
use cell_router_operator.Api.Placement.{NumericRange}
use cell_router_operator.RangeRegex.{numeric_range_regex}
use cell_router_operator.Api.Router.{match_regular_expression}
use cell_router_operator.RangeRegex.Matcher.{full_match}
use cell_router_operator.RangeRegex.Correct.{numeric_range_regex-exact}
use cell_router_operator.Validation.{validate_spec}
use cell_router_operator.Validation.Spec.{IsValid, IsValidRange}
use cell_router_operator.Validation.Placements.{validate_spec_iff}
use cell_router_operator.Capture.{replace_named_capture_body}
use cell_router_operator.Capture.Balanced.{IsBalanced, nothing, class, class_end, class_byte}
use cell_router_operator.Capture.Replace.{replace-replace_named_capture_body}
use cell_router_operator.Compiler.{
  compile_selector_regex, compile_header_selector, compile_query_selector, compile_matches,
  route_spec_from_placement, Matches,
}
use cell_router_operator.Compiler.Total.{
  compile_selector_regex-range, route_spec_from_placement-ne-panic,
}
use cell_router_operator.Compiler.Matches.{
  is_header, is_query_param, header_names, query_names, source_names, compile_matches-names,
}
use cell_router_operator.Overlap.{numeric_ranges_intersect}
use cell_router_operator.Overlap.Ranges.{Allows, numeric_ranges_intersect_iff}
use cell_router_operator.Examples.Data.{users_regex, group_names, id_selector, users, users_route}

numeric_range_regex-exact_example :
    (r : Text) × (numeric_range_regex (codes "12") (codes "345") ≡ ok r)
    × (full_match r (codes "99") ≡ (
        is_decimal (codes "99")
        && leb (value (codes "12")) (value (codes "99"))
        && leb (value (codes "99")) (value (codes "345"))))
numeric_range_regex-exact_example =
    numeric_range_regex-exact (codes "12") (codes "345") (codes "99") (unfold is_decimal in refl)
      (unfold is_decimal in refl) (unfold value in omega arith) (unfold value in omega arith)

validate_spec_iff_example :
    (validate_spec group_names users.spec ≡ ok tt) ↔ IsValid group_names users.spec
validate_spec_iff_example = validate_spec_iff group_names users.spec

abbrev three_to_seven : NumericRange
three_to_seven = record { start = codes "3"; end = codes "7" }

abbrev five_to_nine : NumericRange
five_to_nine = record { start = codes "5"; end = codes "9" }

three_to_seven-IsValidRange : IsValidRange three_to_seven
three_to_seven-IsValidRange = record {
  start_decimal = unfold is_decimal in refl;
  end_decimal = unfold is_decimal in refl;
  in_order = unfold value in omega arith;
  fits = unfold value in omega arith;
}

five_to_nine-IsValidRange : IsValidRange five_to_nine
five_to_nine-IsValidRange = record {
  start_decimal = unfold is_decimal in refl;
  end_decimal = unfold is_decimal in refl;
  in_order = unfold value in omega arith;
  fits = unfold value in omega arith;
}

numeric_ranges_intersect_iff_example :
    (numeric_ranges_intersect three_to_seven five_to_nine ≡ true)
    ↔ ((t : Text) × Allows three_to_seven t × Allows five_to_nine t)
numeric_ranges_intersect_iff_example =
    numeric_ranges_intersect_iff three_to_seven five_to_nine three_to_seven-IsValidRange
      five_to_nine-IsValidRange

compile_selector_regex-range_example :
    (body : Text) × (compile_selector_regex id_selector ≡ ok (codes "^(?:" ++ (body ++ codes ")$")))
    × (compile_header_selector id_selector
        ≡ ok (record {
          name = codes "id";
          value = codes "^(?:" ++ (body ++ codes ")$");
          kind = some match_regular_expression;
        }))
    × (compile_query_selector id_selector
        ≡ ok (record {
          name = codes "id";
          value = codes "^(?:" ++ (body ++ codes ")$");
          kind = some match_regular_expression;
        }))
    × (full_match body (codes "4") ≡ (
        is_decimal (codes "4")
        && leb (value (codes "3")) (value (codes "4"))
        && leb (value (codes "4")) (value (codes "7"))))
compile_selector_regex-range_example =
    compile_selector_regex-range id_selector three_to_seven (codes "4") refl refl
      three_to_seven-IsValidRange

class_3_to_7-IsBalanced : IsBalanced (codes "[3-7]")
class_3_to_7-IsBalanced =
    class (codes "3-7") []
      (class_byte b'3' (λ e. ground arith) (λ e. ground arith)
        (class_byte b'-' (λ e. ground arith) (λ e. ground arith)
          (class_byte b'7' (λ e. ground arith) (λ e. ground arith) class_end)))
      nothing

replace-replace_named_capture_body_example :
    replace_named_capture_body (codes "^/users/(?P<id>[3-7])$") (codes "id") (codes "x")
    ≡ replace_named_capture_body users_regex (codes "id") (codes "x")
replace-replace_named_capture_body_example =
    replace-replace_named_capture_body users_regex (codes "id") (codes "[3-7]") (codes "x")
      (codes "^/users/(?P<id>[3-7])$") class_3_to_7-IsBalanced
      (unfold replace_named_capture_body in refl)

route_spec_from_placement-ne-panic_example : route_spec_from_placement group_names users ≢ panic
route_spec_from_placement-ne-panic_example = route_spec_from_placement-ne-panic group_names users

abbrev users_matches : Matches
users_matches = (users_route.header_matches, [])

compile_matches-names_example :
    (header_names users_matches.0 ≡ source_names is_header users.spec.selectors)
    × (query_names users_matches.1 ≡ source_names is_query_param users.spec.selectors)
compile_matches-names_example =
    compile_matches-names users.spec.selectors users_matches (unfold compile_matches in refl)
