-- ===== src/Decimal/Order.antt =====
-- Decimal numbers compare by their length, and by their bytes where the lengths agree.
use native.Mathlib.Nat.{le_trans, le-add_right, lt_of_lt_of_le, pow-le-pow_right}
use cell_router_operator.Base.{
  ℕ, ◌+◌, ◌-◌, ◌*◌, ◌^◌, ◌≤◌, ◌<◌, ◌≡◌, refl, true, ◌&&◌, ◌||◌, ap, [], ◌∷◌, arith, leb, ltb, ◌==◌,
  all, length, Text, text_le,
}
use cell_router_operator.Strconv.{is_digit, value}
use cell_router_operator.Strconv.Values.{value-cons, value-lt}
use cell_router_operator.Decimal.{is_decimal}

pub is_decimal-digits : (t : Text) → is_decimal t ≡ true → all is_digit t ≡ true
unfolding is_decimal is_digit
is_decimal-digits [] h = cc
is_decimal-digits (c ∷ []) h = ground arith
is_decimal-digits (c ∷ d ∷ s) h = ground arith

pub is_decimal-length : (t : Text) → is_decimal t ≡ true → 0 < length t
unfolding is_decimal
is_decimal-length [] h = cc
is_decimal-length (c ∷ s) h = omega arith

digit_test_lt :
    (a b : ℕ) → is_digit a ≡ true → is_digit b ≡ true → ltb a b ≡ ltb (a - b'0') (b - b'0')
unfolding is_digit
digit_test_lt a b ha hb = ground arith

digit_test_eq :
    (a b : ℕ) → is_digit a ≡ true → is_digit b ≡ true → (a == b) ≡ (a - b'0' == b - b'0')
unfolding is_digit
digit_test_eq a b ha hb = ground arith

lead_lt : (x y p v w : ℕ) → v < p → x < y → x * p + v < y * p + w
lead_lt x y p v w h k = grind arith

-- The order of two numbers with a leading digit above `p`.
horner_order :
    (x y p v w : ℕ) → v < p → w < p → (ltb x y || (x == y && leb v w)) ≡ leb (x * p + v) (y * p + w)
horner_order x y p v w hv hw =
    ground (arith, lead_lt x y p v w hv, lead_lt y x p w v hw, ap (λ (k : ℕ). k * p))

-- Texts of digits of one length are in the order of their values.
pub text_le-value :
    (s t : Text)
    → length s ≡ length t
    → all is_digit s ≡ true
    → all is_digit t ≡ true
    → text_le s t ≡ leb (value s) (value t)
unfolding text_le
text_le-value [] [] l hs ht = unfold value in refl
text_le-value [] (b ∷ t) l hs ht = absurd (omega arith)
text_le-value (a ∷ s) [] l hs ht = absurd (omega arith)
text_le-value (a ∷ s) (b ∷ t) l hs ht =
    let ds : all is_digit s ≡ true = ground arith in
    let dt : all is_digit t ≡ true = ground arith in
    let same : length s ≡ length t = omega arith in
    let below : value t < 10 ^ length s = rw same (value-lt t dt) in
    rw
      (
        value-cons a s,
        value-cons b t,
        ← same,
        text_le-value s t same ds dt,
        digit_test_lt a b (ground arith) (ground arith),
        digit_test_eq a b (ground arith) (ground arith),
      )
      (horner_order (a - b'0') (b - b'0') (10 ^ length s) (value s) (value t) (value-lt s ds) below)

one_mul_le : (x p : ℕ) → 0 < x → p ≤ x * p
one_mul_le x p h = grind arith

-- A decimal of two or more digits does not begin with zero.
pub is_decimal-value :
    (c d : ℕ) (s : Text) → is_decimal (c ∷ d ∷ s) ≡ true → 10 ^ length (d ∷ s) ≤ value (c ∷ d ∷ s)
unfolding is_decimal
is_decimal-value c d s h = rw (value-cons c (d ∷ s)) (
    le_trans (one_mul_le (c - b'0') (10 ^ length (d ∷ s)) (ground arith))
      (le-add_right _ (value (d ∷ s))))

-- A shorter number is smaller than a longer decimal.
pub value-lt_of_length :
    (s t : Text)
    → all is_digit s ≡ true
    → is_decimal t ≡ true
    → 0 < length s
    → length s < length t
    → value s < value t
value-lt_of_length s [] hs ht p l = absurd (omega arith)
value-lt_of_length s (c ∷ []) hs ht p l = absurd (omega arith)
value-lt_of_length s (c ∷ d ∷ t) hs ht p l =
    lt_of_lt_of_le (value-lt s hs)
      (le_trans (pow-le-pow_right (omega arith) (omega arith)) (is_decimal-value c d t ht))
