-- ===== src/RangeRegex.antt =====
-- The regular expression of a numeric interval: `numericRangeRegex` of
-- internal/controller/cellplacement_compiler.go and the functions below it.
use mathlib.Core.Option
pub mod Matcher
pub mod Pieces
pub mod Band
pub mod Bars
pub mod Covers
pub mod SameLength
pub mod Interval
pub mod Lengths
pub mod Correct
mod Tests
use cell_router_operator.Base.{
  ℕ, zero, suc, ◌+◌, ◌-◌, ◌%◌, Bool, true, false, ◌&&◌, Option, none, some, List, [], ◌∷◌, ◌++◌,
  map, leb, ltb, ◌==◌, if◌then◌else◌, length, replicate, is_empty, Text, codes, text_eq, join,
  sort_texts, drop_repeats,
}
use cell_router_operator.Strconv.{parse_uint, print_nat, string_of_byte, quote_meta}
use cell_router_operator.Errors.{
  Error, Result, ok, err, panic, ◌>>=◌, ◌>>◌, reject_if, parse_or, or_panic,
}
use cell_router_operator.Errors.{invalid_start, invalid_end, start_after_end}

-- The loop of `uniqueStrings` over a sorted slice.
first_of_repeats : List Text → List Text
first_of_repeats [] = []
first_of_repeats (x ∷ xs) = x ∷ drop_repeats x xs

unfoldable pub unique_strings : List Text → List Text
unfolding first_of_repeats sort_texts drop_repeats
unique_strings values = first_of_repeats (sort_texts values)

unfoldable pub prepend_pattern : Text → List Text → List Text
prepend_pattern prefix patterns = map (λ pattern. prefix ++ pattern) patterns

unfoldable pub digit_range_pattern : ℕ → ℕ → Text
digit_range_pattern start end =
    if start == end
    then quote_meta (string_of_byte start)
    else if start == b'0' && end == b'9'
    then codes "\\d"
    else codes "[" ++ string_of_byte start ++ codes "-" ++ string_of_byte end ++ codes "]"

unfoldable pub digit_wildcard : ℕ → Text
digit_wildcard zero = []
digit_wildcard (suc zero) = codes "\\d"
digit_wildcard (suc (suc n)) = codes "\\d{" ++ print_nat (suc (suc n)) ++ codes "}"

-- The callers pass a length of at least 2.
unfoldable pub any_number_pattern : ℕ → Text
any_number_pattern length =
    if length == 1 then codes "\\d" else codes "[1-9]" ++ digit_wildcard (length - 1)

unfoldable pub min_value_for_length : ℕ → Text
min_value_for_length length =
    if leb length 1 then codes "0" else codes "1" ++ replicate (length - 1) b'0'

-- The patterns between the first digits: `start[0]+1` and `end[0]-1` are bytes, and wrap around.
pub middle_patterns : ℕ → ℕ → ℕ → List Text
middle_patterns a b n =
    let above = (a + 1) % 256 in
    let below = (b + 255) % 256 in
    if leb above below then (digit_range_pattern above below ++ digit_wildcard n) ∷ [] else []

infixl 5 ◌>>=?◌
abbrev ◌>>=?◌ {ℓ κ} : {A : Type ℓ} {B : Type κ} → Option A → (A → Option B) → Option B
none >>=? f = none
some a >>=? f = f a

-- `sameLengthRangePatterns`, on as much fuel as `start` is long: every call shortens it by one.
-- `none` is an index out of range, which happens only where `end` is the shorter text.
pub same_length_loop : ℕ → Text → Text → Option (List Text)
same_length_loop f [] end = some ([] ∷ [])
same_length_loop zero (a ∷ s) end = none
same_length_loop (suc f) (a ∷ s) [] = none
same_length_loop (suc f) (a ∷ s) (b ∷ e) =
    let same_head =
      Option.map (prepend_pattern (quote_meta (string_of_byte a))) (same_length_loop f s e) in
    let low = same_length_loop f s (replicate (length s) b'9') in
    let high = same_length_loop f (replicate (length e) b'0') e in
    if text_eq (a ∷ s) (b ∷ e)
    then some (quote_meta (a ∷ s) ∷ [])
    else if is_empty s
    then some (digit_range_pattern a b ∷ [])
    else if a == b
    then same_head
    else low >>=? λ lows. high >>=? λ highs. some (
        unique_strings (
          prepend_pattern (quote_meta (string_of_byte a)) lows
          ++ middle_patterns a b (length s)
          ++ prepend_pattern (quote_meta (string_of_byte b)) highs))

unfoldable pub same_length_range_patterns : Text → Text → Option (List Text)
unfolding same_length_loop middle_patterns prepend_pattern digit_range_pattern digit_wildcard
    unique_strings text_eq
same_length_range_patterns start end = same_length_loop (length start) start end

-- `for length := lo; length < lo + n; length++`.
pub middle_lengths : ℕ → ℕ → List Text
middle_lengths zero lo = []
middle_lengths (suc n) lo = any_number_pattern lo ∷ middle_lengths n (lo + 1)

pub range_patterns : Text → Text → Option (List Text)
range_patterns start end =
    if length start == length end
    then same_length_range_patterns start end
    else same_length_range_patterns start (replicate (length start) b'9') >>=? λ lows.
        same_length_range_patterns (min_value_for_length (length end)) end >>=? λ highs.
        some (lows ++ middle_lengths (length end - (length start + 1)) (length start + 1) ++ highs)

unfoldable pub numeric_range_regex : Text → Text → Result Text
unfolding parse_uint range_patterns same_length_range_patterns middle_lengths min_value_for_length
    any_number_pattern join string_of_byte quote_meta print_nat
numeric_range_regex start end =
    let general : Result Text = (do
      start_value ← parse_or (parse_uint start) invalid_start
      end_value ← parse_or (parse_uint end) invalid_end
      reject_if (ltb end_value start_value) start_after_end
      patterns ← or_panic (range_patterns start end)
      ok (join (codes "|") (unique_strings patterns))) in
    if text_eq start end then ok (quote_meta start) else general
