-- ===== src/RangeRegex/Bars.antt =====
-- No pattern of a digit range holds the byte `|`.
use cell_router_operator.Base.{
  ℕ, zero, suc, ◌+◌, ◌-◌, ◌<◌, ◌≡◌, refl, ◌∙◌, true, false, ◌||◌, List, [], ◌∷◌, ◌++◌, arith, ◌==◌,
  any, any-append, all, Text, codes,
}
use cell_router_operator.Strconv.{is_digit, string_of_byte, quote_meta, print_nat}
use cell_router_operator.Strconv.Values.{string_of_byte-digit, print_nat-digits}
use cell_router_operator.RangeRegex.{
  prepend_pattern, digit_range_pattern, digit_wildcard, middle_patterns, any_number_pattern,
}
use cell_router_operator.RangeRegex.Matcher.Laws.{has_bar}
use cell_router_operator.RangeRegex.Band.{above_eq, below_eq}
use cell_router_operator.RangeRegex.Pieces.{quote_digit}

pub has_bar-append : (p q : Text) → has_bar (p ++ q) ≡ (has_bar p || has_bar q)
unfolding has_bar
has_bar-append p q = any-append (λ c. c == b'|') p q

pub has_bar-digits : (s : Text) → all is_digit s ≡ true → has_bar s ≡ false
unfolding has_bar is_digit
has_bar-digits [] h = refl
has_bar-digits (c ∷ s) h = ground (arith, has_bar-digits s)

pub has_bar-digit_wildcard : (n : ℕ) → has_bar (digit_wildcard n) ≡ false
unfolding digit_wildcard
has_bar-digit_wildcard zero = unfold has_bar in refl
has_bar-digit_wildcard (suc zero) = unfold has_bar in refl
has_bar-digit_wildcard (suc (suc n)) =
    has_bar-append (codes "\\d{" ++ print_nat (suc (suc n))) (codes "}")
    ∙ rw (has_bar-append (codes "\\d{") (print_nat (suc (suc n)))) (
        rw (has_bar-digits (print_nat (suc (suc n))) (print_nat-digits (suc (suc n))))
          (unfold has_bar in refl))

pub has_bar-digit_range :
    (a b : ℕ) → is_digit a ≡ true → is_digit b ≡ true → has_bar (digit_range_pattern a b) ≡ false
unfolding digit_range_pattern has_bar is_digit
has_bar-digit_range a b ha hb =
    ground (arith, quote_digit a ha, string_of_byte-digit a ha, string_of_byte-digit b hb)

has_bar_d : has_bar (codes "\\d") ≡ false
unfolding has_bar
has_bar_d = refl

has_bar_class : (p : Text) → has_bar (codes "[1-9]" ++ p) ≡ has_bar p
unfolding has_bar
has_bar_class p = refl

pub has_bar-any_number : (n : ℕ) → has_bar (any_number_pattern n) ≡ false
unfolding any_number_pattern
has_bar-any_number n =
    ground
      (arith, has_bar_d, has_bar_class (digit_wildcard (n - 1)), has_bar-digit_wildcard (n - 1))

has_bar-cons : (a : ℕ) (p : Text) → is_digit a ≡ true → has_bar (a ∷ p) ≡ has_bar p
unfolding has_bar is_digit
has_bar-cons a p h = ground arith

any-has_bar-digit :
    (a : ℕ) (ps : List Text)
    → is_digit a ≡ true
    → any has_bar ps ≡ false
    → any has_bar (prepend_pattern (a ∷ []) ps) ≡ false
unfolding prepend_pattern
any-has_bar-digit a [] ha h = refl
any-has_bar-digit a (p ∷ ps) ha h = ground (arith, has_bar-cons a p ha, any-has_bar-digit a ps ha)

pub any-has_bar-prepend :
    (a : ℕ) (ps : List Text)
    → is_digit a ≡ true
    → any has_bar ps ≡ false
    → any has_bar (prepend_pattern (quote_meta (string_of_byte a)) ps) ≡ false
any-has_bar-prepend a ps ha h = rw (quote_digit a ha) (any-has_bar-digit a ps ha h)

pub any-has_bar-middle :
    (a b n : ℕ)
    → is_digit a ≡ true
    → is_digit b ≡ true
    → a < b
    → any has_bar (middle_patterns a b n) ≡ false
unfolding middle_patterns is_digit
any-has_bar-middle a b n ha hb h =
    rw (above_eq a ha, below_eq b hb)
      (ground (
        arith,
        has_bar-append (digit_range_pattern (a + 1) (b - 1)) (digit_wildcard n),
        has_bar-digit_range (a + 1) (b - 1),
        has_bar-digit_wildcard n,
      ))
