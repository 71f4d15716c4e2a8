-- ===== src/RangeRegex/Lengths.antt =====
-- The patterns for the lengths strictly between those of the bounds.
use cell_router_operator.Base.{
  ℕ, zero, suc, ◌+◌, ◌-◌, ◌≤◌, ◌<◌, ◌≡◌, refl, true, false, ◌&&◌, [], ◌∷◌, ◌++◌, arith, leb, ltb,
  ◌==◌, any, all, length, replicate, length-replicate, Text, text_le, codes,
}
use cell_router_operator.Strconv.{is_digit, value}
use cell_router_operator.Decimal.Order.{
  is_decimal-digits, is_decimal-length, text_le-value, value-lt_of_length,
}
use cell_router_operator.Decimal.{is_decimal}
use cell_router_operator.RangeRegex.{
  any_number_pattern, digit_wildcard, min_value_for_length, middle_lengths,
}
use cell_router_operator.RangeRegex.Matcher.{matches}
use cell_router_operator.RangeRegex.Matcher.Laws.{
  digits_of, has_bar, matches-class, matches-class_end,
}
use cell_router_operator.RangeRegex.Pieces.{hit, matches-digit_wildcard}
use cell_router_operator.RangeRegex.Band.{all-replicate, digits_of-all, zeros_le, le_nines}
use cell_router_operator.RangeRegex.Bars.{has_bar-any_number}

digits_of-eq : (n : ℕ) (t : Text) → digits_of n t ≡ (all is_digit t && length t == n)
unfolding digits_of
digits_of-eq zero [] = refl
digits_of-eq zero (c ∷ t) = ground arith
digits_of-eq (suc n) [] = ground arith
digits_of-eq (suc n) (c ∷ t) = ground (arith, digits_of-eq n t)

is_decimal_long :
    (k c : ℕ) (t : Text)
    → 2 ≤ k
    → (leb b'1' c && leb c b'9' && digits_of (k - 1) t)
      ≡ (is_decimal (c ∷ t) && length (c ∷ t) == k)
unfolding is_decimal
is_decimal_long k c [] h = ground (arith, digits_of-eq (k - 1) [])
is_decimal_long k c (d ∷ t) h = ground (arith, digits_of-eq (k - 1) (d ∷ t))

any_number-eq : (k : ℕ) → 2 ≤ k → any_number_pattern k ≡ codes "[1-9]" ++ digit_wildcard (k - 1)
unfolding any_number_pattern
any_number-eq k h = ground arith

is_decimal-nil : is_decimal [] ≡ false
unfolding is_decimal
is_decimal-nil = refl

-- The pattern of a length of at least 2 matches the decimals of that length.
matches-any_number :
    (k : ℕ) (t : Text) → 2 ≤ k → matches (any_number_pattern k) t ≡ (is_decimal t && length t == k)
matches-any_number k [] h =
    rw (any_number-eq k h, is_decimal-nil) (matches-class_end b'1' b'9' (digit_wildcard (k - 1)))
matches-any_number k (c ∷ t) h =
    rw
      (
        any_number-eq k h,
        matches-class b'1' b'9' (digit_wildcard (k - 1)) c t,
        matches-digit_wildcard (k - 1) t,
      )
      (is_decimal_long k c t h)

pub hit-middle_lengths :
    (m lo : ℕ) (t : Text)
    → 2 ≤ lo
    → hit (middle_lengths m lo) t ≡ (is_decimal t && leb lo (length t) && ltb (length t) (lo + m))
unfolding hit middle_lengths
hit-middle_lengths zero lo t h = ground arith
hit-middle_lengths (suc m) lo t h =
    ground (arith, matches-any_number lo t h, hit-middle_lengths m (lo + 1) t)

pub any-middle_lengths : (m lo : ℕ) → any has_bar (middle_lengths m lo) ≡ false
unfolding middle_lengths
any-middle_lengths zero lo = refl
any-middle_lengths (suc m) lo = ground (arith, has_bar-any_number lo, any-middle_lengths m (lo + 1))

-- The smallest decimal of a length of at least 2.
pub length-min_value : (k : ℕ) → 2 ≤ k → length (min_value_for_length k) ≡ k
unfolding min_value_for_length
length-min_value k h = ground (arith, length-replicate {A = ℕ} (k - 1) b'0')

is_decimal-one_zeros : (m : ℕ) → is_decimal (b'1' ∷ replicate m b'0') ≡ true
unfolding is_decimal
is_decimal-one_zeros zero = unfold is_digit in refl
is_decimal-one_zeros (suc m) = all-replicate (suc m) b'0' (unfold is_digit in refl)

pub is_decimal-min_value : (k : ℕ) → 2 ≤ k → is_decimal (min_value_for_length k) ≡ true
unfolding min_value_for_length
is_decimal-min_value k h = ground (arith, is_decimal-one_zeros (k - 1))

pub is_decimal-nines : (k : ℕ) → 0 < k → is_decimal (replicate k b'9') ≡ true
unfolding is_decimal
is_decimal-nines zero h = elim h [ ]
is_decimal-nines (suc zero) h = unfold is_digit in refl
is_decimal-nines (suc (suc m)) h = all-replicate (suc m) b'9' (unfold is_digit in refl)

-- Among decimals, to be at most 9…9 is to be no longer.
pub value-le-nines :
    (n : ℕ) (t : Text)
    → 0 < n
    → is_decimal t ≡ true
    → leb (value t) (value (replicate n b'9')) ≡ leb (length t) n
value-le-nines n t p h =
    let nines = is_decimal-nines n p in
    ground (
      arith,
      length-replicate {A = ℕ} n b'9',
      nines,
      is_decimal-digits t h,
      is_decimal-digits (replicate n b'9') nines,
      is_decimal-length t h,
      value-lt_of_length t (replicate n b'9'),
      value-lt_of_length (replicate n b'9') t,
      text_le-value t (replicate n b'9'),
      le_nines n t,
      digits_of-all n t,
    )

one_zeros_le :
    (m : ℕ) (t : Text)
    → is_decimal t ≡ true
    → 0 < m
    → length t ≡ suc m
    → text_le (b'1' ∷ replicate m b'0') t ≡ true
unfolding text_le is_decimal
one_zeros_le m [] h p l = cc
one_zeros_le m (c ∷ []) h p l = absurd (omega arith)
one_zeros_le m (c ∷ d ∷ t) h p l =
    let same : length (d ∷ t) ≡ m = omega arith in
    ground (arith, zeros_le m (d ∷ t), digits_of-all m (d ∷ t) same)

min_value_le :
    (k : ℕ) (t : Text)
    → 2 ≤ k
    → is_decimal t ≡ true
    → length t ≡ k
    → text_le (min_value_for_length k) t ≡ true
unfolding min_value_for_length
min_value_le k t h ht l = ground (arith, one_zeros_le (k - 1) t ht)

-- Among decimals, to be at least 10…0 is to be no shorter.
pub min_value-le-value :
    (k : ℕ) (t : Text)
    → 2 ≤ k
    → is_decimal t ≡ true
    → leb (value (min_value_for_length k)) (value t) ≡ leb k (length t)
min_value-le-value k t h ht =
    let least = is_decimal-min_value k h in
    ground (
      arith,
      length-min_value k h,
      least,
      is_decimal-digits t ht,
      is_decimal-digits (min_value_for_length k) least,
      is_decimal-length t ht,
      value-lt_of_length t (min_value_for_length k),
      value-lt_of_length (min_value_for_length k) t,
      text_le-value (min_value_for_length k) t,
      min_value_le k t h ht,
    )
