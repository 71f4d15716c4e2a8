-- ===== src/Strconv.antt =====
-- What the sources use of Go's standard library on numbers and regular expressions:
-- `strconv.ParseUint(s, 10, 64)`, `fmt`'s `%d`, `string(b)` of a byte, and `regexp.QuoteMeta`.
pub mod Values
use cell_router_operator.Base.{
  ℕ, zero, suc, ◌+◌, ◌-◌, ◌*◌, ◌/◌, ◌%◌, ◌^◌, Bool, true, false, not, ◌&&◌, ◌||◌, Option, none,
  some, List, [], ◌∷◌, ◌++◌, ltb, leb, ◌==◌, if◌then◌else◌, any, all, is_empty, Text, codes,
}

unfoldable pub is_digit : ℕ → Bool
is_digit c = leb b'0' c && leb c b'9'

-- The number that a run of decimal digits after the number `acc` stands for.
unfoldable pub value_from : ℕ → Text → ℕ
value_from acc [] = acc
value_from acc (c ∷ s) = value_from (acc * 10 + (c - b'0')) s

unfoldable pub value : Text → ℕ
unfolding value_from
value s = value_from 0 s

-- `strconv.ParseUint(s, 10, 64)`: `none` is its error (a syntax or a range error).
unfoldable pub parse_uint : Text → Option ℕ
unfolding value is_digit
parse_uint s =
    if not (is_empty s) && all is_digit s && ltb (value s) (2 ^ 64) then some (value s) else none

print_from : ℕ → ℕ → Text
print_from zero n = []
print_from (suc f) n =
    let more = print_from f (n / 10) ++ (b'0' + n % 10) ∷ [] in
    if ltb n 10 then (b'0' + n) ∷ [] else more

-- `%d` of a number that is not negative.
unfoldable pub print_nat : ℕ → Text
unfolding print_from
print_nat n = print_from (n + 1) n

-- `string(b)`: the UTF-8 text of the code point `b`, which is below 256.
unfoldable pub string_of_byte : ℕ → Text
string_of_byte b = if ltb b 128 then b ∷ [] else (192 + b / 64) ∷ (128 + b % 64) ∷ []

is_special : ℕ → Bool
is_special c = any (λ x. c == x) (codes "\\.+*?()|[]{}^$")

-- `regexp.QuoteMeta`.
unfoldable pub quote_meta : Text → Text
unfolding is_special
quote_meta [] = []
quote_meta (c ∷ s) = (if is_special c then b'\\' ∷ c ∷ [] else c ∷ []) ++ quote_meta s
