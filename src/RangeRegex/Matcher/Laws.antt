-- ===== src/RangeRegex/Matcher/Laws.antt =====
-- What the matcher does on each construct, with the constructs as the compiler writes them.
use cell_router_operator.Base.{
  ℕ, zero, suc, ◌+◌, ◌-◌, ◌*◌, ◌≡◌, refl, ap, ◌∙◌, Bool, true, false, ◌&&◌, none, some, List, [],
  ◌∷◌, ◌++◌, arith, leb, ◌==◌, any, all, is_empty, Text, codes, text_eq, join,
}
use cell_router_operator.Strconv.{is_digit, value_from, value, print_nat}
use cell_router_operator.Strconv.Values.{value-print_nat, print_nat-digits}
use cell_router_operator.RangeRegex.Matcher.{
  count, eat_digits, step, finish, run, matches, alternatives,
}

-- The text has exactly `n` bytes, all digits.
unfoldable pub digits_of : ℕ → Text → Bool
digits_of zero t = is_empty t
digits_of (suc n) [] = false
digits_of (suc n) (c ∷ t) = is_digit c && digits_of n t

pub matches-digit :
    (a : ℕ) (p : Text) (c : ℕ) (t : Text)
    → is_digit a ≡ true
    → matches (a ∷ p) (c ∷ t) ≡ (c == a && matches p t)
unfolding matches is_digit
matches-digit a p c t h = ground arith

pub matches-digit_end : (a : ℕ) (p : Text) → is_digit a ≡ true → matches (a ∷ p) [] ≡ false
unfolding matches is_digit
matches-digit_end a p h = ground arith

-- A run of digits matches itself.
pub matches-digits : (s t : Text) → all is_digit s ≡ true → matches s t ≡ text_eq s t
unfolding text_eq
matches-digits [] [] h = unfold matches in refl
matches-digits [] (c ∷ t) h = unfold matches in refl
matches-digits (a ∷ s) [] h = matches-digit_end a s (ground arith)
matches-digits (a ∷ s) (c ∷ t) h =
    rw (matches-digit a s c t (ground arith)) (ground (arith, matches-digits s t))

-- A class between two digits.
pub matches-class :
    (a b : ℕ) (p : Text) (c : ℕ) (t : Text)
    → matches (b'[' ∷ a ∷ b'-' ∷ b ∷ b']' ∷ p) (c ∷ t) ≡ (leb a c && leb c b && matches p t)
unfolding matches
matches-class a b p c t = ground arith

pub matches-class_end : (a b : ℕ) (p : Text) → matches (b'[' ∷ a ∷ b'-' ∷ b ∷ b']' ∷ p) [] ≡ false
unfolding matches
matches-class_end a b p = refl

pub matches-any : (t : Text) → matches (codes "\\d") t ≡ digits_of 1 t
unfolding matches digits_of
matches-any [] = refl
matches-any (c ∷ t) = ground arith

eat_digits-eq :
    (n : ℕ) (t : Text)
    → digits_of n t ≡ elim (eat_digits n t) [ none ↦ false | some t' ↦ is_empty t' ]
unfolding digits_of eat_digits
eat_digits-eq zero t = refl
eat_digits-eq (suc n) [] = refl
eat_digits-eq (suc n) (c ∷ t) = ground (arith, eat_digits-eq n t)

run-count :
    (n : ℕ) (s t : Text)
    → all is_digit s ≡ true
    → run (count n) (s ++ b'}' ∷ []) t ≡ digits_of (value_from n s) t
unfolding run step finish value_from is_digit
run-count n [] t h = ground (arith, eat_digits-eq n t)
run-count n (c ∷ s) t h = ground (arith, run-count (n * 10 + (c - b'0')) s t)

pub matches-times :
    (n : ℕ) (t : Text) → matches (codes "\\d{" ++ print_nat n ++ codes "}") t ≡ digits_of n t
unfolding matches value
matches-times n t =
    run-count 0 (print_nat n) t (print_nat-digits n) ∙ ap (λ k. digits_of k t) (value-print_nat n)

-- The pattern is one alternative.
unfoldable pub has_bar : Text → Bool
has_bar p = any (λ c. c == b'|') p

alternatives-append :
    (p r : Text) → has_bar p ≡ false → alternatives (p ++ b'|' ∷ r) ≡ p ∷ alternatives r
unfolding alternatives has_bar
alternatives-append [] r h = refl
alternatives-append (c ∷ p) r h = ground (arith, alternatives-append p r)

pub alternatives_one : (p : Text) → has_bar p ≡ false → alternatives p ≡ p ∷ []
unfolding alternatives has_bar
alternatives_one [] h = refl
alternatives_one (c ∷ p) h = ground (arith, alternatives_one p)

-- Joining alternatives by `|` and reading them back.
pub alternatives-join :
    (p : Text) (ps : List Text)
    → any has_bar (p ∷ ps) ≡ false
    → alternatives (join (codes "|") (p ∷ ps)) ≡ p ∷ ps
unfolding join
alternatives-join p [] h = alternatives_one p (ground arith)
alternatives-join p (q ∷ ps) h =
    rw (alternatives-append p (join (codes "|") (q ∷ ps)) (ground arith))
      (ap (λ (l : List Text). p ∷ l) (alternatives-join q ps (ground arith)))
