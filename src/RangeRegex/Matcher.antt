-- ===== src/RangeRegex/Matcher.antt =====
-- What a pattern of the fragment that the compiler writes means in RE2 syntax, between `^(?:` and
-- `)$`: alternatives separated by `|`, each a sequence of digits, `\d`, `\d{n}` and `[a-b]`, which
-- matches the whole text. It is an executable description of its own: it reads the pattern byte
-- by byte, and shares nothing with the code that writes patterns.
pub mod Laws
use mathlib.Core.Option
use cell_router_operator.Base.{
  ℕ, zero, suc, ◌+◌, ◌-◌, ◌*◌, Bool, true, false, ◌&&◌, Option, none, some, List, [], ◌∷◌, ◌≡◌,
  refl, leb, ◌==◌, if◌then◌else◌, any, is_empty, Text, codes,
}
use cell_router_operator.Strconv.{is_digit}

-- How far the matcher is inside a construct of the pattern.
pub data Mode : Type 0 where
  normal escaped after_d class_start : Mode
  count : ℕ → Mode
  class_dash class_high : ℕ → Mode
  class_close : ℕ → ℕ → Mode

-- Take one byte that passes the test off the text.
eat_if : (ℕ → Bool) → Text → Option Text
eat_if p [] = none
eat_if p (c ∷ t) = if p c then some t else none

eat_digits : ℕ → Text → Option Text
eat_digits zero t = some t
eat_digits (suc n) [] = none
eat_digits (suc n) (c ∷ t) = if is_digit c then eat_digits n t else none

abbrev continue : Option Text → Option (Mode × Text)
continue none = none
continue (some t) = some (normal, t)

step_normal : ℕ → Text → Option (Mode × Text)
step_normal c t =
    if c == b'\\'
    then some (escaped, t)
    else if c == b'['
    then some (class_start, t)
    else if is_digit c
    then continue (eat_if (λ x. x == c) t)
    else none

-- One byte of the pattern.
step : Mode → ℕ → Text → Option (Mode × Text)
unfolding step_normal eat_if eat_digits
step normal c t = step_normal c t
step escaped c t = if c == b'd' then some (after_d, t) else none
step after_d c t =
    if c == b'{'
    then some (count 0, t)
    else elim (eat_if is_digit t) [ none ↦ none | some t' ↦ step_normal c t' ]
step (count n) c t =
    if c == b'}'
    then continue (eat_digits n t)
    else if is_digit c
    then some (count (n * 10 + (c - b'0')), t)
    else none
step class_start c t = some (class_dash c, t)
step (class_dash lo) c t = if c == b'-' then some (class_high lo, t) else none
step (class_high lo) c t = some (class_close lo c, t)
step (class_close lo hi) c t =
    if c == b']' then continue (eat_if (λ x. leb lo x && leb x hi) t) else none

finish : Mode → Text → Bool
finish normal t = is_empty t
finish after_d t = elim (eat_if is_digit t) [ none ↦ false | some t' ↦ is_empty t' ]
finish _ t = false

run : Mode → Text → Text → Bool
run m [] t = finish m t
run m (c ∷ p) t = elim (step m c t) [ none ↦ false | some (m', t') ↦ run m' p t' ]

-- One alternative matches the whole text.
unfoldable pub matches : Text → Text → Bool
unfolding run step finish is_digit
matches p t = run normal p t

abbrev push : ℕ → List Text → List Text
push c [] = (c ∷ []) ∷ []
push c (p ∷ ps) = (c ∷ p) ∷ ps

unfoldable pub alternatives : Text → List Text
alternatives [] = [] ∷ []
alternatives (c ∷ r) = let rest = alternatives r in if c == b'|' then [] ∷ rest else push c rest

-- Some alternative matches the whole text.
unfoldable pub full_match : Text → Text → Bool
unfolding alternatives matches
full_match r t = any (λ p. matches p t) (alternatives r)

full_match_tests :
    (full_match (codes "1[2-9]|2\\d|30") (codes "25") ≡ true)
    × (full_match (codes "1[2-9]|2\\d|30") (codes "31") ≡ false)
    × (full_match (codes "[1-9]\\d{12}") (codes "1234567890123") ≡ true)
    × (full_match (codes "[1-9]\\d{12}") (codes "123456789012") ≡ false)
unfolding full_match
full_match_tests = (refl, refl, refl, refl)
