-- ===== src/RangeRegex/SameLength.antt =====
-- `sameLengthRangePatterns` covers exactly the digit texts of its length between its bounds.
use cell_router_operator.Base.{
  ℕ, zero, suc, ◌<◌, ◌≡◌, refl, ap, ◌∙◌, true, false, some, List, [], ◌∷◌, arith, ◌==◌, Bool-cases,
  inl, inr, all, length, replicate, length-replicate, is_empty, Text, text_eq, text_le, text_eq_iff,
  ==_iff, subst,
}
use cell_router_operator.Strconv.{is_digit, string_of_byte, quote_meta}
use cell_router_operator.RangeRegex.{prepend_pattern, digit_range_pattern, same_length_loop}
use cell_router_operator.RangeRegex.Band.{digits_of-all, zeros_le, le_nines, all-replicate}
use cell_router_operator.RangeRegex.Covers.{
  Covers, spread_patterns, loop_equal, loop_single, loop_same_head, loop_spread, Covers-nil,
  Covers-equal, Covers-single, Covers-same_head, Covers-spread,
}

-- The patterns that the loop finds cover the interval.
abbrev Found : ℕ → Text → Text → Type 0
Found n s e = (ps : List Text) × (same_length_loop n s e ≡ some ps) × Covers n s e ps

module _ (n a b : ℕ) (s e : Text) where
  Found-equal :
      length (a ∷ s) ≡ suc n
      → all is_digit (a ∷ s) ≡ true
      → text_eq (a ∷ s) (b ∷ e) ≡ true
      → Found (suc n) (a ∷ s) (b ∷ e)
  Found-equal l h eq = (
    quote_meta (a ∷ s) ∷ [],
    loop_equal n a b s e eq,
    subst (λ x. Covers (suc n) (a ∷ s) x (quote_meta (a ∷ s) ∷ []))
        ((text_eq_iff (a ∷ s) (b ∷ e)).0 eq) (Covers-equal (suc n) (a ∷ s) l h),
  )

  Found-same_head :
      is_digit a ≡ true
      → text_eq (a ∷ s) (b ∷ e) ≡ false
      → is_empty s ≡ false
      → (a == b) ≡ true
      → Found n s e
      → Found (suc n) (a ∷ s) (b ∷ e)
  Found-same_head ha ne more same (ps, rest, c) = (
    prepend_pattern (quote_meta (string_of_byte a)) ps,
    loop_same_head n a b s e ne more same rest,
    subst (λ x. Covers (suc n) (a ∷ s) (x ∷ e) (prepend_pattern (quote_meta (string_of_byte a)) ps))
        ((==_iff a b).0 same) (Covers-same_head a n s e ps ha c),
  )

  Found-spread :
      length s ≡ n
      → length e ≡ n
      → is_digit a ≡ true
      → is_digit b ≡ true
      → a < b
      → text_eq (a ∷ s) (b ∷ e) ≡ false
      → is_empty s ≡ false
      → (a == b) ≡ false
      → Found n s (replicate n b'9')
      → Found n (replicate n b'0') e
      → Found (suc n) (a ∷ s) (b ∷ e)
  Found-spread ls le ha hb h ne more differ (lows, low, cl) (highs, high, ch) = (
    spread_patterns a b n lows highs,
    loop_spread n a b s e ne more differ (rw ls low) (rw le high)
        ∙ ap (λ k. some (spread_patterns a b k lows highs)) ls,
    Covers-spread a b n s e lows highs ha hb h cl ch,
  )

Found-single :
    (n a b : ℕ) (s e : Text)
    → length s ≡ n
    → length e ≡ n
    → is_digit a ≡ true
    → is_digit b ≡ true
    → text_eq (a ∷ s) (b ∷ e) ≡ false
    → is_empty s ≡ true
    → Found (suc n) (a ∷ s) (b ∷ e)
Found-single zero a b [] [] ls le ha hb ne one =
    (digit_range_pattern a b ∷ [], loop_single 0 a b [] [] ne refl, Covers-single a b ha hb)
Found-single zero a b [] (d ∷ e) ls le ha hb ne one = absurd (omega arith)
Found-single zero a b (c ∷ s) e ls le ha hb ne one = absurd (omega arith)
Found-single (suc n) a b [] e ls le ha hb ne one = absurd (omega arith)
Found-single (suc n) a b (c ∷ s) e ls le ha hb ne one = cc

-- The first digits are in order; where they agree, so are the rests.
text_le-cons :
    (a b : ℕ) (s e : Text)
    → text_le (a ∷ s) (b ∷ e) ≡ true
    → ((a == b) ≡ true → text_le s e ≡ true) × ((a == b) ≡ false → a < b)
unfolding text_le
text_le-cons a b s e h = (λ k. ground arith, λ k. ground arith)

text_le-nines :
    (n : ℕ) (s : Text) → length s ≡ n → all is_digit s ≡ true → text_le s (replicate n b'9') ≡ true
text_le-nines n s l h = le_nines n s (digits_of-all n s l h)

text_le-zeros :
    (n : ℕ) (s : Text) → length s ≡ n → all is_digit s ≡ true → text_le (replicate n b'0') s ≡ true
text_le-zeros n s l h = zeros_le n s (digits_of-all n s l h)

-- Bounds of one length in order: the patterns are found, and cover the interval.
pub same_length_loop-Covers :
    (n : ℕ) (s e : Text)
    → length s ≡ n
    → length e ≡ n
    → all is_digit s ≡ true
    → all is_digit e ≡ true
    → text_le s e ≡ true
    → Found n s e
same_length_loop-Covers zero [] [] ls le hs he h =
    ([] ∷ [], unfold same_length_loop in refl, Covers-nil)
same_length_loop-Covers zero [] (b ∷ e) ls le hs he h = absurd (omega arith)
same_length_loop-Covers zero (a ∷ s) e ls le hs he h = absurd (omega arith)
same_length_loop-Covers (suc n) [] e ls le hs he h = absurd (omega arith)
same_length_loop-Covers (suc n) (a ∷ s) [] ls le hs he h = absurd (omega arith)
same_length_loop-Covers (suc n) (a ∷ s) (b ∷ e) ls le hs he h =
    let ls' : length s ≡ n = omega arith in
    let le' : length e ≡ n = omega arith in
    let da : is_digit a ≡ true = ground arith in
    let db : is_digit b ≡ true = ground arith in
    let ds : all is_digit s ≡ true = ground arith in
    let de : all is_digit e ≡ true = ground arith in
    let nines = all-replicate n b'9' (unfold is_digit in refl) in
    let zeros = all-replicate n b'0' (unfold is_digit in refl) in
    let low =
      same_length_loop-Covers n s (replicate n b'9') ls' (length-replicate n b'9') ds nines
        (text_le-nines n s ls' ds) in
    let high =
      same_length_loop-Covers n (replicate n b'0') e (length-replicate n b'0') le' zeros de
        (text_le-zeros n e le' de) in
    let (rest_le, head_lt) = text_le-cons a b s e h in
    let deeper = same_length_loop-Covers n s e ls' le' ds de in
    elim (Bool-cases (text_eq (a ∷ s) (b ∷ e))) [
      | inl eq ↦ Found-equal n a b s e ls hs eq
      | inr ne ↦ elim (Bool-cases (is_empty s)) [
        | inl one ↦ Found-single n a b s e ls' le' da db ne one
        | inr more ↦ elim (Bool-cases (a == b)) [
          | inl same ↦ Found-same_head n a b s e da ne more same (deeper (rest_le same))
          | inr differ ↦
              Found-spread n a b s e ls' le' da db (head_lt differ) ne more differ low high
        ]
      ]
    ]
