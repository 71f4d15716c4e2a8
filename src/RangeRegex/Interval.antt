-- ===== src/RangeRegex/Interval.antt =====
-- The decimals of an interval, and the digit texts of one length between two decimals.
use cell_router_operator.Base.{
  ℕ, zero, suc, ◌≡◌, refl, ap, Bool, true, ◌&&◌, [], ◌∷◌, arith, leb, Bool-eq, all, length, Text,
  text_le,
}
use cell_router_operator.Strconv.{is_digit, value}
use cell_router_operator.Decimal.{is_decimal}
use cell_router_operator.Decimal.Order.{
  is_decimal-digits, is_decimal-length, text_le-value, value-lt_of_length,
}
use cell_router_operator.RangeRegex.Matcher.Laws.{digits_of}
use cell_router_operator.RangeRegex.Band.{band, digits_of-all}

-- The decimals from `start` to `end`.
unfoldable pub in_range : Text → Text → Text → Bool
in_range start end t = is_decimal t && leb (value start) (value t) && leb (value t) (value end)

digits_of-length : (n : ℕ) (t : Text) → digits_of n t ≡ true → length t ≡ n
unfolding digits_of
digits_of-length zero [] h = refl
digits_of-length zero (c ∷ t) h = cc
digits_of-length (suc n) [] h = cc
digits_of-length (suc n) (c ∷ t) h = ap suc (digits_of-length n t (ground arith))

digits_of-digits : (n : ℕ) (t : Text) → digits_of n t ≡ true → all is_digit t ≡ true
unfolding digits_of
digits_of-digits zero [] h = refl
digits_of-digits zero (c ∷ t) h = cc
digits_of-digits (suc n) [] h = cc
digits_of-digits (suc n) (c ∷ t) h = ground (arith, digits_of-digits n t)

-- A text of digits above a decimal of its length is a decimal.
is_decimal_of_le :
    (s t : Text)
    → is_decimal s ≡ true
    → length s ≡ length t
    → all is_digit t ≡ true
    → text_le s t ≡ true
    → is_decimal t ≡ true
unfolding is_decimal is_digit text_le
is_decimal_of_le [] t hs l ht h = cc
is_decimal_of_le (a ∷ s) [] hs l ht h = absurd (omega arith)
is_decimal_of_le (a ∷ []) (c ∷ []) hs l ht h = ground arith
is_decimal_of_le (a ∷ []) (c ∷ d ∷ t) hs l ht h = absurd (omega arith)
is_decimal_of_le (a ∷ b ∷ s) (c ∷ []) hs l ht h = absurd (omega arith)
is_decimal_of_le (a ∷ b ∷ s) (c ∷ d ∷ t) hs l ht h = ground arith

-- Decimals no smaller and no larger than `s` and `e` of length `n` have that length.
length_between :
    (n : ℕ) (s e t : Text)
    → length s ≡ n
    → length e ≡ n
    → is_decimal s ≡ true
    → is_decimal e ≡ true
    → in_range s e t ≡ true
    → length t ≡ n
unfolding in_range
length_between n s e t ls le hs he h =
    let ht : is_decimal t ≡ true = ground arith in
    ground (
      arith,
      value-lt_of_length t s (is_decimal-digits t ht) hs (is_decimal-length t ht),
      value-lt_of_length e t (is_decimal-digits e he) ht (is_decimal-length e he),
    )

-- Between decimals of one length, the order of the bytes is that of the values.
pub band-in_range :
    (n : ℕ) (s e t : Text)
    → length s ≡ n
    → length e ≡ n
    → is_decimal s ≡ true
    → is_decimal e ≡ true
    → band n s e t ≡ in_range s e t
unfolding band in_range
band-in_range n s e t ls le hs he = Bool-eq _ _ forth back
  where
    forth : band n s e t ≡ true → in_range s e t ≡ true
    forth h = ground (
      arith,
      digits_of-length n t,
      digits_of-digits n t,
      is_decimal_of_le s t hs,
      is_decimal-digits s hs,
      is_decimal-digits e he,
      text_le-value s t,
      text_le-value t e,
    )

    back : in_range s e t ≡ true → band n s e t ≡ true
    back h = ground (
      arith,
      length_between n s e t ls le hs he h,
      digits_of-all n t,
      is_decimal-digits s hs,
      is_decimal-digits e he,
      is_decimal-digits t,
      text_le-value s t,
      text_le-value t e,
    )
