-- ===== src/RangeRegex/Band.antt =====
-- Digit texts of one length between two bounds, and the patterns that each step of
-- `sameLengthRangePatterns` writes for them.
use mathlib.Core.List.{append-nil}
use cell_router_operator.Base.{
  ℕ, zero, suc, ◌+◌, ◌-◌, ◌%◌, ◌<◌, ◌≡◌, refl, Bool, true, false, ◌&&◌, [], ◌∷◌, arith, ltb, ◌==◌,
  Bool-cases, inl, inr, all, length, replicate, Text, codes, text_eq, text_le,
}
use cell_router_operator.Strconv.{is_digit, quote_meta}
use cell_router_operator.Strconv.Values.{quote_meta-digits}
use cell_router_operator.RangeRegex.{digit_range_pattern, digit_wildcard, middle_patterns}
use cell_router_operator.RangeRegex.Matcher.{matches}
use cell_router_operator.RangeRegex.Matcher.Laws.{digits_of, matches-digits, matches-any}
use cell_router_operator.RangeRegex.Pieces.{
  hit, matches-nil, matches-digit_wildcard, matches-digit_range, matches-digit_range_end,
}

-- The digit texts of length `n` from `s` to `e`.
unfoldable pub band : ℕ → Text → Text → Text → Bool
band n s e t = digits_of n t && text_le s t && text_le t e

pub zeros_le : (n : ℕ) (t : Text) → digits_of n t ≡ true → text_le (replicate n b'0') t ≡ true
unfolding digits_of text_le is_digit
zeros_le zero t h = refl
zeros_le (suc n) [] h = cc
zeros_le (suc n) (c ∷ t) h = ground (arith, zeros_le n t)

pub le_nines : (n : ℕ) (t : Text) → digits_of n t ≡ true → text_le t (replicate n b'9') ≡ true
unfolding digits_of text_le is_digit
le_nines zero [] h = refl
le_nines zero (c ∷ t) h = cc
le_nines (suc n) [] h = cc
le_nines (suc n) (c ∷ t) h = ground (arith, le_nines n t)

pub digits_of-all : (n : ℕ) (t : Text) → length t ≡ n → all is_digit t ≡ true → digits_of n t ≡ true
unfolding digits_of
digits_of-all zero [] l h = refl
digits_of-all zero (c ∷ t) l h = absurd (omega arith)
digits_of-all (suc n) [] l h = absurd (omega arith)
digits_of-all (suc n) (c ∷ t) l h = ground (arith, digits_of-all n t (omega arith))

pub all-replicate : (n c : ℕ) → is_digit c ≡ true → all is_digit (replicate n c) ≡ true
all-replicate zero c h = refl
all-replicate (suc n) c h = ground (arith, all-replicate n c)

pub band_self :
    (n : ℕ) (s t : Text) → length s ≡ n → all is_digit s ≡ true → band n s s t ≡ text_eq s t
unfolding band digits_of text_le text_eq is_digit
band_self zero [] [] l h = refl
band_self zero [] (c ∷ t) l h = refl
band_self zero (a ∷ s) t l h = absurd (omega arith)
band_self (suc n) [] t l h = absurd (omega arith)
band_self (suc n) (a ∷ s) [] l h = refl
band_self (suc n) (a ∷ s) (c ∷ t) l h = ground (arith, band_self n s t)

pub hit_equal :
    (n : ℕ) (s t : Text)
    → length s ≡ n
    → all is_digit s ≡ true
    → hit (quote_meta s ∷ []) t ≡ band n s s t
unfolding hit
hit_equal n s t l h =
    rw (quote_meta-digits s h, matches-digits s t h, band_self n s t l h) (ground arith)

digit_range-full :
    (a b : ℕ) → (a == b'0' && b == b'9') ≡ true → digit_range_pattern a b ≡ codes "\\d"
unfolding digit_range_pattern
digit_range-full a b h = ground arith

matches-digit_range_one :
    (a b : ℕ) (t : Text)
    → is_digit a ≡ true
    → is_digit b ≡ true
    → (a == b'0' && b == b'9') ≡ false
    → matches (digit_range_pattern a b) t ≡ band 1 (a ∷ []) (b ∷ []) t
unfolding band digits_of text_le is_digit
matches-digit_range_one a b [] ha hb h =
    rw (← append-nil (digit_range_pattern a b)) (matches-digit_range_end a b [] ha hb h)
matches-digit_range_one a b (c ∷ t) ha hb h =
    rw (← append-nil (digit_range_pattern a b))
      (rw (matches-digit_range a b [] c t ha hb h, matches-nil t) (ground arith))

band_full :
    (a b : ℕ) (t : Text)
    → (a == b'0' && b == b'9') ≡ true
    → digits_of 1 t ≡ band 1 (a ∷ []) (b ∷ []) t
unfolding band digits_of text_le is_digit
band_full a b [] h = refl
band_full a b (c ∷ []) h = ground arith
band_full a b (c ∷ d ∷ t) h = ground arith

pub hit_single :
    (a b : ℕ) (t : Text)
    → is_digit a ≡ true
    → is_digit b ≡ true
    → hit (digit_range_pattern a b ∷ []) t ≡ band 1 (a ∷ []) (b ∷ []) t
unfolding hit
hit_single a b t ha hb = elim (Bool-cases (a == b'0' && b == b'9')) [
  | inl full ↦ rw (digit_range-full a b full, matches-any) (ground (arith, band_full a b t full))
  | inr part ↦ ground (arith, matches-digit_range_one a b t ha hb part)
]

pub above_eq : (a : ℕ) → is_digit a ≡ true → (a + 1) % 256 ≡ a + 1
unfolding is_digit
above_eq a h = ground arith

pub below_eq : (b : ℕ) → is_digit b ≡ true → (b + 255) % 256 ≡ b - 1
unfolding is_digit
below_eq b h = ground arith

pub hit_middle :
    (a b n c : ℕ) (t : Text)
    → is_digit a ≡ true
    → is_digit b ≡ true
    → a < b
    → hit (middle_patterns a b n) (c ∷ t) ≡ (ltb a c && ltb c b && digits_of n t)
unfolding hit middle_patterns is_digit
hit_middle a b n c t ha hb h =
    rw (above_eq a ha, below_eq b hb)
      (ground (
        arith,
        matches-digit_range (a + 1) (b - 1) (digit_wildcard n) c t,
        matches-digit_wildcard n t,
      ))

pub hit_middle_end :
    (a b n : ℕ)
    → is_digit a ≡ true
    → is_digit b ≡ true
    → a < b
    → hit (middle_patterns a b n) [] ≡ false
unfolding hit middle_patterns is_digit
hit_middle_end a b n ha hb h =
    rw (above_eq a ha, below_eq b hb)
      (ground (arith, matches-digit_range_end (a + 1) (b - 1) (digit_wildcard n)))
