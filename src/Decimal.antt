-- ===== src/Decimal.antt =====
-- `decimalValuePattern` of api/v1alpha1/cellplacement_validation.go: a decimal number with no sign
-- and no leading zero.
pub mod Order
use cell_router_operator.Base.{Bool, true, false, ◌&&◌, List, [], ◌∷◌, leb, all, Text}
use cell_router_operator.Strconv.{is_digit}

-- The text matches `^(0|[1-9][0-9]*)$`.
unfoldable pub is_decimal : Text → Bool
unfolding is_digit
is_decimal [] = false
is_decimal (c ∷ []) = is_digit c
is_decimal (c ∷ d ∷ s) = (leb b'1' c && leb c b'9') && all is_digit (d ∷ s)
