-- ===== src/RangeRegex/Covers.antt =====
-- Patterns that cover an interval of digit texts of one length, and how one round makes them.
use cell_router_operator.Base.{
  ℕ, suc, ◌<◌, ◌≡◌, refl, true, false, ◌&&◌, ◌||◌, some, List, [], ◌∷◌, ◌++◌, arith, ltb, ◌==◌, any,
  any-append, all, length, replicate, is_empty, Text, text_eq, text_le,
}
use cell_router_operator.Strconv.{is_digit, string_of_byte, quote_meta}
use cell_router_operator.Strconv.Values.{quote_meta-digits}
use cell_router_operator.RangeRegex.{
  unique_strings, prepend_pattern, digit_range_pattern, middle_patterns, same_length_loop,
}
use cell_router_operator.RangeRegex.Matcher.Laws.{digits_of, has_bar}
use cell_router_operator.RangeRegex.Band.{
  band, zeros_le, le_nines, hit_equal, hit_single, hit_middle, hit_middle_end,
}
use cell_router_operator.RangeRegex.Bars.{
  any-has_bar-prepend, any-has_bar-middle, has_bar-digits, has_bar-digit_range,
}
use cell_router_operator.RangeRegex.Pieces.{
  any-unique_strings, matches-nil, hit, hit-append, hit-unique_strings, hit-prepend,
  hit-prepend_end, matches-nil,
}

-- `ps` covers exactly the digit texts of length `n` from `s` to `e`.
pub record Covers (n : ℕ) (s e : Text) (ps : List Text) : Type 0 where
  pub exact : (t : Text) → hit ps t ≡ band n s e t
  pub no_bar : any has_bar ps ≡ false

-- The three groups of patterns where the first digits differ.
pub spread_patterns : ℕ → ℕ → ℕ → List Text → List Text → List Text
spread_patterns a b n lows highs = unique_strings (
    prepend_pattern (quote_meta (string_of_byte a)) lows
    ++ middle_patterns a b n
    ++ prepend_pattern (quote_meta (string_of_byte b)) highs)

hit-spread_patterns_end :
    (a b n : ℕ) (lows highs : List Text)
    → is_digit a ≡ true
    → is_digit b ≡ true
    → a < b
    → hit (spread_patterns a b n lows highs) [] ≡ false
unfolding spread_patterns
hit-spread_patterns_end a b n lows highs ha hb h = rw hit-unique_strings (
    rw hit-append (
      rw hit-append (
        rw (hit-prepend_end a lows ha, hit_middle_end a b n ha hb h, hit-prepend_end b highs hb)
          refl)))

hit-spread_patterns :
    (a b n : ℕ) (lows highs : List Text) (c : ℕ) (t : Text)
    → is_digit a ≡ true
    → is_digit b ≡ true
    → a < b
    → hit (spread_patterns a b n lows highs) (c ∷ t) ≡ (
        ((c == a && hit lows t) || (ltb a c && ltb c b && digits_of n t))
        || (c == b && hit highs t))
unfolding spread_patterns
hit-spread_patterns a b n lows highs c t ha hb h = rw hit-unique_strings (
    rw hit-append (
      rw hit-append (
        rw (hit-prepend a lows c t ha, hit_middle a b n c t ha hb h, hit-prepend b highs c t hb)
          refl)))

hit_spread :
    (a b n : ℕ) (s e : Text) (lows highs : List Text) (t : Text)
    → is_digit a ≡ true
    → is_digit b ≡ true
    → a < b
    → ((t : Text) → hit lows t ≡ band n s (replicate n b'9') t)
    → ((t : Text) → hit highs t ≡ band n (replicate n b'0') e t)
    → hit (spread_patterns a b n lows highs) t ≡ band (suc n) (a ∷ s) (b ∷ e) t
unfolding band digits_of text_le is_digit
hit_spread a b n s e lows highs [] ha hb h low high =
    hit-spread_patterns_end a b n lows highs ha hb h
hit_spread a b n s e lows highs (c ∷ t) ha hb h low high =
    rw (hit-spread_patterns a b n lows highs c t ha hb h)
      (ground (arith, low t, high t, zeros_le n t, le_nines n t))

hit_same_head :
    (a n : ℕ) (s e : Text) (ps : List Text) (t : Text)
    → is_digit a ≡ true
    → ((t : Text) → hit ps t ≡ band n s e t)
    → hit (prepend_pattern (quote_meta (string_of_byte a)) ps) t ≡ band (suc n) (a ∷ s) (a ∷ e) t
unfolding band digits_of text_le is_digit
hit_same_head a n s e ps [] ha h = hit-prepend_end a ps ha
hit_same_head a n s e ps (c ∷ t) ha h = rw (hit-prepend a ps c t ha) (ground (arith, h t))

any-spread_patterns :
    (a b n : ℕ) (lows highs : List Text)
    → is_digit a ≡ true
    → is_digit b ≡ true
    → a < b
    → any has_bar lows ≡ false
    → any has_bar highs ≡ false
    → any has_bar (spread_patterns a b n lows highs) ≡ false
unfolding spread_patterns
any-spread_patterns a b n lows highs ha hb h low high = rw (any-unique_strings has_bar) (
    rw (any-append has_bar) (
      rw (any-append has_bar) (
        rw
          (
            any-has_bar-prepend a lows ha low,
            any-has_bar-middle a b n ha hb h,
            any-has_bar-prepend b highs hb high,
          )
          refl)))

-- What one round computes, case by case.
module _ (n a b : ℕ) (s e : Text) where
  pub loop_equal :
      text_eq (a ∷ s) (b ∷ e) ≡ true
      → same_length_loop (suc n) (a ∷ s) (b ∷ e) ≡ some (quote_meta (a ∷ s) ∷ [])
  unfolding same_length_loop
  loop_equal eq = rw eq

  pub loop_single :
      text_eq (a ∷ s) (b ∷ e) ≡ false
      → is_empty s ≡ true
      → same_length_loop (suc n) (a ∷ s) (b ∷ e) ≡ some (digit_range_pattern a b ∷ [])
  unfolding same_length_loop
  loop_single ne one = rw (ne, one)

  pub loop_same_head :
      {ps : List Text}
      → text_eq (a ∷ s) (b ∷ e) ≡ false
      → is_empty s ≡ false
      → (a == b) ≡ true
      → same_length_loop n s e ≡ some ps
      → same_length_loop (suc n) (a ∷ s) (b ∷ e)
        ≡ some (prepend_pattern (quote_meta (string_of_byte a)) ps)
  unfolding same_length_loop
  loop_same_head ne more same rest = rw (ne, more, same, rest)

  pub loop_spread :
      {lows highs : List Text}
      → text_eq (a ∷ s) (b ∷ e) ≡ false
      → is_empty s ≡ false
      → (a == b) ≡ false
      → same_length_loop n s (replicate (length s) b'9') ≡ some lows
      → same_length_loop n (replicate (length e) b'0') e ≡ some highs
      → same_length_loop (suc n) (a ∷ s) (b ∷ e) ≡ some (spread_patterns a b (length s) lows highs)
  unfolding same_length_loop spread_patterns
  loop_spread ne more differ low high = rw (ne, more, differ, low, high)

pub Covers-nil : Covers 0 [] [] ([] ∷ [])
unfolding hit band text_le has_bar digits_of
Covers-nil = record { exact = λ t. ground (arith, matches-nil t); no_bar = refl }

pub Covers-equal :
    (n : ℕ) (s : Text) → length s ≡ n → all is_digit s ≡ true → Covers n s s (quote_meta s ∷ [])
Covers-equal n s l h = record {
  exact = λ t. hit_equal n s t l h;
  no_bar = rw (quote_meta-digits s h, has_bar-digits s h) refl;
}

pub Covers-single :
    (a b : ℕ)
    → is_digit a ≡ true
    → is_digit b ≡ true
    → Covers 1 (a ∷ []) (b ∷ []) (digit_range_pattern a b ∷ [])
Covers-single a b ha hb = record {
  exact = λ t. hit_single a b t ha hb;
  no_bar = rw (has_bar-digit_range a b ha hb) refl;
}

pub Covers-same_head :
    (a n : ℕ) (s e : Text) (ps : List Text)
    → is_digit a ≡ true
    → Covers n s e ps
    → Covers (suc n) (a ∷ s) (a ∷ e) (prepend_pattern (quote_meta (string_of_byte a)) ps)
Covers-same_head a n s e ps ha c = record {
  exact = λ t. hit_same_head a n s e ps t ha c.exact;
  no_bar = any-has_bar-prepend a ps ha c.no_bar;
}

pub Covers-spread :
    (a b n : ℕ) (s e : Text) (lows highs : List Text)
    → is_digit a ≡ true
    → is_digit b ≡ true
    → a < b
    → Covers n s (replicate n b'9') lows
    → Covers n (replicate n b'0') e highs
    → Covers (suc n) (a ∷ s) (b ∷ e) (spread_patterns a b n lows highs)
Covers-spread a b n s e lows highs ha hb h low high = record {
  exact = λ t. hit_spread a b n s e lows highs t ha hb h low.exact high.exact;
  no_bar = any-spread_patterns a b n lows highs ha hb h low.no_bar high.no_bar;
}
