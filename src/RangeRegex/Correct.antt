-- ===== src/RangeRegex/Correct.antt =====
-- `numericRangeRegex` accepts exactly the decimals of its interval.
use cell_router_operator.Base.{
  ℕ, ◌+◌, ◌-◌, ◌^◌, ◌≤◌, ◌<◌, ◌≡◌, refl, sym, ap, ◌∙◌, subst, true, false, ◌&&◌, ◌||◌, some, List,
  [], ◌∷◌, ◌++◌, arith, leb, ltb, ◌==◌, Bool-cases, inl, inr, any, any-append, all, length,
  length-replicate, replicate, Text, codes, join, text_eq, text_le, text_eq_iff, ==_iff,
}
use cell_router_operator.Strconv.{is_digit, value, parse_uint, quote_meta}
use cell_router_operator.Strconv.Values.{quote_meta-digits, parse_uint-digits}
use cell_router_operator.Decimal.{is_decimal}
use cell_router_operator.Decimal.Order.{
  is_decimal-digits, is_decimal-length, text_le-value, value-lt_of_length,
}
use cell_router_operator.Errors.{ok}
use cell_router_operator.RangeRegex.{
  unique_strings, min_value_for_length, same_length_range_patterns, middle_lengths, range_patterns,
  numeric_range_regex,
}
use cell_router_operator.RangeRegex.Matcher.{full_match}
use cell_router_operator.RangeRegex.Matcher.Laws.{
  has_bar, matches-digits, alternatives-join, alternatives_one,
}
use cell_router_operator.RangeRegex.Pieces.{hit, hit-append, hit-unique_strings, any-unique_strings}
use cell_router_operator.RangeRegex.Band.{band_self}
use cell_router_operator.RangeRegex.Bars.{has_bar-digits}
use cell_router_operator.RangeRegex.SameLength.{same_length_loop-Covers}
use cell_router_operator.RangeRegex.Interval.{in_range, band-in_range}
use cell_router_operator.RangeRegex.Lengths.{
  hit-middle_lengths, any-middle_lengths, length-min_value, is_decimal-min_value, is_decimal-nines,
  value-le-nines, min_value-le-value,
}

-- The list accepts exactly the decimals from `s` to `e`, and holds no bar.
record Accepts (s e : Text) (ps : List Text) : Type 0 where
  exact : (t : Text) → hit ps t ≡ in_range s e t
  no_bar : any has_bar ps ≡ false

-- Between decimals of one length.
same_length-Accepts :
    (s e : Text)
    → length s ≡ length e
    → is_decimal s ≡ true
    → is_decimal e ≡ true
    → leb (value s) (value e) ≡ true
    → (ps : List Text) × (same_length_range_patterns s e ≡ some ps) × Accepts s e ps
unfolding same_length_range_patterns
same_length-Accepts s e l hs he h =
    let ds = is_decimal-digits s hs in
    let de = is_decimal-digits e he in
    let le : text_le s e ≡ true = text_le-value s e l ds de ∙ h in
    let (ps, found, c) = same_length_loop-Covers (length s) s e refl (sym l) ds de le in
    (
      ps,
      found,
      record {
        exact = λ t. c.exact t ∙ band-in_range (length s) s e t refl (sym l) hs he;
        no_bar = c.no_bar;
      },
    )

leb_refl : (n : ℕ) → leb n n ≡ true
leb_refl n = ground arith

ne_of_lt_test : (n k : ℕ) → n < k → (n == k) ≡ false
ne_of_lt_test n k l = ground arith

upper_length : (n k : ℕ) → n < k → n + 1 + (k - (n + 1)) ≡ k
upper_length n k l = omega arith

-- How the length of a decimal places it among the three groups.
module _ (s e t : Text) (hs : is_decimal s ≡ true) (he : is_decimal e ≡ true) where
  three_groups :
      length s < length e
      → (in_range s (replicate (length s) b'9') t
          || (is_decimal t && leb (length s + 1) (length t) && ltb (length t) (length e))
          || in_range (min_value_for_length (length e)) e t)
        ≡ in_range s e t
  unfolding in_range
  three_groups l = elim (Bool-cases (is_decimal t)) [
    | inr other ↦ rw other
    | inl ht ↦ rw ht (
        ground (
          arith,
          value-le-nines (length s) t (is_decimal-length s hs) ht,
          min_value-le-value (length e) t (ground (arith, is_decimal-length s hs)) ht,
          value-lt_of_length s t (is_decimal-digits s hs) ht (is_decimal-length s hs),
          value-lt_of_length t e (is_decimal-digits t ht) he (is_decimal-length t ht),
        ))
  ]

-- The patterns below, between and above the lengths, one group after another.
different_length-Accepts :
    (s e : Text)
    → is_decimal s ≡ true
    → is_decimal e ≡ true
    → length s < length e
    → (ps : List Text) × (range_patterns s e ≡ some ps) × Accepts s e ps
unfolding range_patterns
different_length-Accepts s e hs he l =
    let n = length s in
    let k = length e in
    let p : 0 < n = is_decimal-length s hs in
    let two : 2 ≤ k = omega arith in
    let (lows, low, al) =
      same_length-Accepts s (replicate n b'9') (sym (length-replicate n b'9')) hs
        (is_decimal-nines n p) (value-le-nines n s p hs ∙ leb_refl n) in
    let (highs, high, ah) =
      same_length-Accepts (min_value_for_length k) e (length-min_value k two)
        (is_decimal-min_value k two) he (min_value-le-value k e two he ∙ leb_refl k) in
    let between = middle_lengths (k - (n + 1)) (n + 1) in
    (
      lows ++ between ++ highs,
      rw (ne_of_lt_test n k l, low, high),
      record {
        exact = λ t.
            hit-append (lows ++ between) highs t
            ∙ (rw (hit-append lows between t) (
                rw
                  (al.exact t, ah.exact t, hit-middle_lengths (k - (n + 1)) (n + 1) t (omega arith))
                  (rw (upper_length n k l) (three_groups s e t hs he l))));
        no_bar =
            any-append has_bar (lows ++ between) highs
            ∙ (rw (any-append has_bar lows between)
                (rw (al.no_bar, ah.no_bar, any-middle_lengths (k - (n + 1)) (n + 1)) refl));
      },
    )

-- The patterns of an interval of decimals are found, and accept exactly it.
range_patterns-Accepts :
    (s e : Text)
    → is_decimal s ≡ true
    → is_decimal e ≡ true
    → leb (value s) (value e) ≡ true
    → (ps : List Text) × (range_patterns s e ≡ some ps) × Accepts s e ps
range_patterns-Accepts s e hs he h = elim (Bool-cases (length s == length e)) [
  | inl same ↦
      let (ps, found, a) = same_length-Accepts s e ((==_iff _ _).0 same) hs he h in
      (ps, unfold range_patterns in rw (same) found, a)
  | inr differ ↦
      different_length-Accepts s e hs he (
        ground (arith, value-lt_of_length e s (is_decimal-digits e he) hs (is_decimal-length e he)))
]

-- A list of alternatives that accepts something, joined.
full_match-join :
    (u : List Text) (s t : Text)
    → any has_bar u ≡ false
    → hit u s ≡ true
    → full_match (join (codes "|") u) t ≡ hit u t
unfolding full_match hit
full_match-join [] s t h a = cc
full_match-join (p ∷ u) s t h a = rw (alternatives-join p u h)

in_range_start :
    (s e : Text) → is_decimal s ≡ true → leb (value s) (value e) ≡ true → in_range s e s ≡ true
unfolding in_range
in_range_start s e hs h = ground arith

full_match_unique :
    (s e t : Text) (ps : List Text)
    → is_decimal s ≡ true
    → leb (value s) (value e) ≡ true
    → Accepts s e ps
    → full_match (join (codes "|") (unique_strings ps)) t ≡ in_range s e t
full_match_unique s e t ps hs h a =
    full_match-join (unique_strings ps) s t (any-unique_strings has_bar ps ∙ a.no_bar)
      (hit-unique_strings ps s ∙ a.exact s ∙ in_range_start s e hs h)
    ∙ hit-unique_strings ps t
    ∙ a.exact t

-- The interval from a decimal to itself holds that text alone.
in_range_self : (s t : Text) → is_decimal s ≡ true → text_eq s t ≡ in_range s s t
in_range_self s t hs =
    sym (band_self (length s) s t refl (is_decimal-digits s hs))
    ∙ band-in_range (length s) s s t refl refl hs hs

full_match-digits : (s t : Text) → all is_digit s ≡ true → full_match s t ≡ text_eq s t
unfolding full_match
full_match-digits s t hs =
    rw (alternatives_one s (has_bar-digits s hs), matches-digits s t hs) (ground arith)

regex_equal : (s e : Text) → text_eq s e ≡ true → numeric_range_regex s e ≡ ok (quote_meta s)
unfolding numeric_range_regex
regex_equal s e eq = rw eq

regex_general :
    (s e : Text) (ps : List Text)
    → text_eq s e ≡ false
    → parse_uint s ≡ some (value s)
    → parse_uint e ≡ some (value e)
    → ltb (value e) (value s) ≡ false
    → range_patterns s e ≡ some ps
    → numeric_range_regex s e ≡ ok (join (codes "|") (unique_strings ps))
unfolding numeric_range_regex
regex_general s e ps ne start end order found = rw (ne, start, end, order, found)

parse_uint-decimal :
    (s : Text) → is_decimal s ≡ true → value s < 2 ^ 64 → parse_uint s ≡ some (value s)
unfolding is_decimal
parse_uint-decimal [] h fits = cc
parse_uint-decimal (c ∷ s) h fits =
    parse_uint-digits (c ∷ s) refl (is_decimal-digits (c ∷ s) h) fits

equal_bounds :
    (s e t : Text)
    → is_decimal s ≡ true
    → text_eq s e ≡ true
    → full_match (quote_meta s) t ≡ in_range s e t
equal_bounds s e t hs eq =
    subst (λ x. full_match (quote_meta s) t ≡ in_range s x t) ((text_eq_iff s e).0 eq)
      (ap (λ x. full_match x t) (quote_meta-digits s (is_decimal-digits s hs))
        ∙ full_match-digits s t (is_decimal-digits s hs)
        ∙ in_range_self s t hs)

-- For bounds that are decimals without leading zeros, in order and below 2^64, numericRangeRegex
-- returns a regular expression, and that accepts a text exactly if the text is a decimal whose
-- value lies in the interval.
pub numeric_range_regex-exact :
    (start end t : Text)
    → is_decimal start ≡ true
    → is_decimal end ≡ true
    → value start ≤ value end
    → value end < 2 ^ 64
    → (r : Text) × (numeric_range_regex start end ≡ ok r)
      × (full_match r t
          ≡ (is_decimal t && leb (value start) (value t) && leb (value t) (value end)))
unfolding in_range
numeric_range_regex-exact start end t hs he le fits = elim (Bool-cases (text_eq start end)) [
  | inl eq ↦ (quote_meta start, regex_equal start end eq, equal_bounds start end t hs eq)
  | inr ne ↦
      let order : leb (value start) (value end) ≡ true = ground arith in
      let (ps, found, a) = range_patterns-Accepts start end hs he order in
      (
        join (codes "|") (unique_strings ps),
        regex_general start end ps ne (parse_uint-decimal start hs (omega arith))
            (parse_uint-decimal end he fits) (ground arith) found,
        full_match_unique start end t ps hs order a,
      )
]
