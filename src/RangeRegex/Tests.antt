-- ===== src/RangeRegex/Tests.antt =====
-- The cases of TestNumericRangeRegex, and the error of an empty interval.
use cell_router_operator.Base.{◌≡◌, refl, codes}
use cell_router_operator.Errors.{ok, err, start_after_end}
use cell_router_operator.RangeRegex.{numeric_range_regex}

numeric_range_regex_tests :
    (numeric_range_regex (codes "3") (codes "8") ≡ ok (codes "[3-8]"))
    × (numeric_range_regex (codes "10") (codes "15") ≡ ok (codes "1[0-5]"))
    × (numeric_range_regex (codes "15") (codes "23") ≡ ok (codes "1[5-9]|2[0-3]"))
    × (numeric_range_regex (codes "95") (codes "102") ≡ ok (codes "10[0-2]|9[5-9]"))
    × (numeric_range_regex (codes "9") (codes "3") ≡ err start_after_end)
unfolding numeric_range_regex
numeric_range_regex_tests = (refl, refl, refl, refl, refl)
