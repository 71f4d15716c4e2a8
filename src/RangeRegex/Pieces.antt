-- ===== src/RangeRegex/Pieces.antt =====
-- The small patterns of the compiler under the matcher, and lists of alternatives.
use cell_router_operator.Base.{
  ℕ, zero, suc, ◌≡◌, refl, ◌∙◌, Bool, true, false, ◌&&◌, ◌||◌, List, [], ◌∷◌, ◌++◌, arith, leb,
  ◌==◌, any, any-append, any-sort_texts, any-drop_repeats, sort_texts, is_empty, Text,
}
use cell_router_operator.Strconv.{is_digit, string_of_byte, quote_meta}
use cell_router_operator.Strconv.Values.{quote_meta-digits, string_of_byte-digit}
use cell_router_operator.RangeRegex.{
  unique_strings, first_of_repeats, prepend_pattern, digit_range_pattern, digit_wildcard,
}
use cell_router_operator.RangeRegex.Matcher.{matches}
use cell_router_operator.RangeRegex.Matcher.Laws.{
  digits_of, matches-digit, matches-digit_end, matches-class, matches-class_end, matches-any,
  matches-times,
}

-- Some pattern of the list matches the whole text.
unfoldable pub hit : List Text → Text → Bool
hit ps t = any (λ p. matches p t) ps

-- Sorting and dropping repeats changes no test of the list.
pub any-unique_strings : (p : Text → Bool) (ps : List Text) → any p (unique_strings ps) ≡ any p ps
unfolding unique_strings
any-unique_strings p ps = go (sort_texts ps) ∙ any-sort_texts p ps
  where
    go : (xs : List Text) → any p (first_of_repeats xs) ≡ any p xs
    go [] = refl
    go (x ∷ xs) = any-drop_repeats p x xs

pub hit-append : (ps qs : List Text) (t : Text) → hit (ps ++ qs) t ≡ (hit ps t || hit qs t)
unfolding hit
hit-append ps qs t = any-append (λ p. matches p t) ps qs

pub hit-unique_strings : (ps : List Text) (t : Text) → hit (unique_strings ps) t ≡ hit ps t
unfolding hit
hit-unique_strings ps t = any-unique_strings (λ p. matches p t) ps

pub quote_digit : (a : ℕ) → is_digit a ≡ true → quote_meta (string_of_byte a) ≡ a ∷ []
quote_digit a h = rw (string_of_byte-digit a h) (quote_meta-digits (a ∷ []) (rw h))

hit-prepend_digit :
    (a : ℕ) (ps : List Text) (c : ℕ) (t : Text)
    → is_digit a ≡ true
    → hit (prepend_pattern (a ∷ []) ps) (c ∷ t) ≡ (c == a && hit ps t)
unfolding hit prepend_pattern
hit-prepend_digit a [] c t h = ground arith
hit-prepend_digit a (p ∷ ps) c t h =
    ground (arith, matches-digit a p c t h, hit-prepend_digit a ps c t h)

hit-prepend_digit_end :
    (a : ℕ) (ps : List Text) → is_digit a ≡ true → hit (prepend_pattern (a ∷ []) ps) [] ≡ false
unfolding hit prepend_pattern
hit-prepend_digit_end a [] h = refl
hit-prepend_digit_end a (p ∷ ps) h =
    ground (arith, matches-digit_end a p h, hit-prepend_digit_end a ps h)

pub hit-prepend :
    (a : ℕ) (ps : List Text) (c : ℕ) (t : Text)
    → is_digit a ≡ true
    → hit (prepend_pattern (quote_meta (string_of_byte a)) ps) (c ∷ t) ≡ (c == a && hit ps t)
hit-prepend a ps c t h = rw (quote_digit a h) (hit-prepend_digit a ps c t h)

pub hit-prepend_end :
    (a : ℕ) (ps : List Text)
    → is_digit a ≡ true
    → hit (prepend_pattern (quote_meta (string_of_byte a)) ps) [] ≡ false
hit-prepend_end a ps h = rw (quote_digit a h) (hit-prepend_digit_end a ps h)

pub matches-nil : (t : Text) → matches [] t ≡ is_empty t
unfolding matches
matches-nil t = refl

pub matches-digit_wildcard : (n : ℕ) (t : Text) → matches (digit_wildcard n) t ≡ digits_of n t
unfolding digit_wildcard digits_of
matches-digit_wildcard zero t = matches-nil t
matches-digit_wildcard (suc zero) t = matches-any t
matches-digit_wildcard (suc (suc n)) t = matches-times (suc (suc n)) t

-- One digit between `a` and `b`, then what follows; `\d` is the case that is left out.
pub matches-digit_range :
    (a b : ℕ) (p : Text) (c : ℕ) (t : Text)
    → is_digit a ≡ true
    → is_digit b ≡ true
    → (a == b'0' && b == b'9') ≡ false
    → matches (digit_range_pattern a b ++ p) (c ∷ t) ≡ (leb a c && leb c b && matches p t)
unfolding digit_range_pattern
matches-digit_range a b p c t ha hb h = ground (
  arith,
  quote_digit a ha,
  string_of_byte-digit a ha,
  string_of_byte-digit b hb,
  matches-digit a p c t ha,
  matches-class a b p c t,
)

pub matches-digit_range_end :
    (a b : ℕ) (p : Text)
    → is_digit a ≡ true
    → is_digit b ≡ true
    → (a == b'0' && b == b'9') ≡ false
    → matches (digit_range_pattern a b ++ p) [] ≡ false
unfolding digit_range_pattern
matches-digit_range_end a b p ha hb h = ground (
  arith,
  quote_digit a ha,
  string_of_byte-digit a ha,
  string_of_byte-digit b hb,
  matches-digit_end a p ha,
  matches-class_end a b p,
)
