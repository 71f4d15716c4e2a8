-- ===== src/Capture/Search.antt =====
-- The search for a capture's prefix, and the scan for the bracket that closes it.
use mathlib.Core.List.{append_assoc}
use mathlib.Core.Option.{none-ne-some}
use cell_router_operator.Base.{
  ℕ, ◌≤◌, ◌≡◌, refl, sym, ap, ◌∙◌, none, some, ◌⊎◌, [], ◌∷◌, ◌++◌, arith, Option-cases, inl, inr,
  length, length-append, Text, after_prefix,
}
use cell_router_operator.Capture.{split_first, Scan, scan_byte, closing_bracket}

after_prefix-append : (p s : Text) → after_prefix p (p ++ s) ≡ some s
unfolding after_prefix
after_prefix-append [] s = refl
after_prefix-append (a ∷ p) s = ground (arith, after_prefix-append p s)

after_prefix_sound : (p s rest : Text) → after_prefix p s ≡ some rest → s ≡ p ++ rest
unfolding after_prefix
after_prefix_sound [] s rest h = ground arith
after_prefix_sound (a ∷ p) [] rest h = cc
after_prefix_sound (a ∷ p) (b ∷ s) rest h = ground (arith, after_prefix_sound p s rest)

-- The first occurrence stands here, or further on.
split_first-here :
    (p s rest : Text) → after_prefix p s ≡ some rest → split_first p s ≡ some ([], rest)
unfolding split_first
split_first-here p [] rest h = rw (h, split_first)
split_first-here p (c ∷ s) rest h = rw (h, split_first)

split_first-later :
    (c : ℕ) (p s before rest : Text)
    → after_prefix p (c ∷ s) ≡ none
    → split_first p s ≡ some (before, rest)
    → split_first p (c ∷ s) ≡ some (c ∷ before, rest)
unfolding split_first
split_first-later c p s before rest n h = rw (n, h, split_first)

abbrev Cut : Text → Text → Text → Text → Type 0
Cut p [] before rest = (before ≡ []) × (after_prefix p [] ≡ some rest)
Cut p (c ∷ s) before rest =
    ((before ≡ []) × (after_prefix p (c ∷ s) ≡ some rest))
    ⊎ ((b : Text) × (before ≡ c ∷ b)
        × (after_prefix p (c ∷ s) ≡ none)
        × (split_first p s ≡ some (b, rest)))

cut : (p s before rest : Text) → split_first p s ≡ some (before, rest) → Cut p s before rest
unfolding split_first
cut p [] before rest h = elim (Option-cases (after_prefix p [])) [
  | inl n ↦ absurd (ground arith)
  | inr (r, e) ↦ (ground arith, ground arith)
]
cut p (c ∷ s) before rest h = elim (Option-cases (after_prefix p (c ∷ s))) [
  | inr (r, e) ↦ inl (ground arith, ground arith)
  | inl n ↦ elim (Option-cases (split_first p s)) [
    | inl n' ↦ absurd (ground arith)
    | inr ((b, r), e) ↦ inr (b, ground arith, n, ground arith)
  ]
]

-- A text that is cut at the first occurrence is put together again.
pub split_first_sound :
    (p s before rest : Text) → split_first p s ≡ some (before, rest) → s ≡ before ++ (p ++ rest)
split_first_sound p [] before rest h =
    let (e, a) = cut p [] before rest h in rw e (after_prefix_sound p [] rest a)
split_first_sound p (c ∷ s) before rest h = elim (cut p (c ∷ s) before rest h) [
  | inl (e, a) ↦ rw e (after_prefix_sound p (c ∷ s) rest a)
  | inr (b, e, n, later) ↦ rw e (ap (λ (x : Text). c ∷ x) (split_first_sound p s b rest later))
]

-- No occurrence stands before the one that is found.
pub split_first-first :
    (p s before rest b w : Text)
    → split_first p s ≡ some (before, rest)
    → s ≡ b ++ (p ++ w)
    → length before ≤ length b
split_first-first p [] before rest b w h e =
    let (nil, a) = cut p [] before rest h in rw nil (omega arith)
split_first-first p (c ∷ s) before rest b w h e = elim (cut p (c ∷ s) before rest h) [
  | inl (nil, a) ↦ rw nil (omega arith)
  | inr (t, same, n, later) ↦
      further b t same n e (λ b' tails. split_first-first p s t rest b' w later tails)
]
  where
    further :
        (b t : Text)
        → before ≡ c ∷ t
        → after_prefix p (c ∷ s) ≡ none
        → c ∷ s ≡ b ++ (p ++ w)
        → ((b' : Text) → s ≡ b' ++ (p ++ w) → length t ≤ length b')
        → length before ≤ length b
    further [] t same n e shorter =
        absurd (none-ne-some _ (sym n ∙ ap (after_prefix p) e ∙ after_prefix-append p w))
    further (d ∷ b) t same n e shorter =
        let tails : s ≡ b ++ (p ++ w) = ground arith in
        let ahead = shorter b tails in rw same (omega arith)

-- What follows a text as long as the prefix does not decide whether the prefix is there.
after_prefix-none :
    (p u s t : Text)
    → length p ≤ length u
    → after_prefix p (u ++ s) ≡ none
    → after_prefix p (u ++ t) ≡ none
unfolding after_prefix
after_prefix-none [] u s t l h = cc
after_prefix-none (a ∷ p) [] s t l h = absurd (omega arith)
after_prefix-none (a ∷ p) (b ∷ u) s t l h = ground (arith, after_prefix-none p u s t)

-- Another text behind the first occurrence leaves it the first.
pub split_first-stable :
    (p s before rest t : Text)
    → split_first p s ≡ some (before, rest)
    → split_first p (before ++ (p ++ t)) ≡ some (before, t)
split_first-stable p [] before rest t h =
    let (e, a) = cut p [] before rest h in
    rw e (split_first-here p (p ++ t) t (after_prefix-append p t))
split_first-stable p (c ∷ s) before rest t h = elim (cut p (c ∷ s) before rest h) [
  | inl (e, a) ↦ rw e (split_first-here p (p ++ t) t (after_prefix-append p t))
  | inr (b, e, n, later) ↦ rw e (
      split_first-later c p (b ++ (p ++ t)) b t
        (moved b (rw (split_first_sound p s b rest later) at n))
        (split_first-stable p s b rest t later))
]
  where
    moved :
        (b : Text)
        → after_prefix p (c ∷ b ++ (p ++ rest)) ≡ none
        → after_prefix p (c ∷ b ++ (p ++ t)) ≡ none
    moved b n = rw (← append_assoc (c ∷ b) p t) (
        after_prefix-none p (c ∷ b ++ p) rest t (omega (arith, length-append {0} (c ∷ b) p))
          (rw append_assoc n))

scan_byte-none : (st : Scan) (c : ℕ) → scan_byte st c ≡ none → c ≡ b')'
unfolding scan_byte
scan_byte-none st c h = ground arith

pub closing_bracket-closed :
    (st : Scan) (c : ℕ) (s : Text)
    → scan_byte st c ≡ none
    → closing_bracket st (c ∷ s) ≡ some (c ∷ s)
unfolding closing_bracket
closing_bracket-closed st c s h = rw (h, closing_bracket)

pub closing_bracket-step :
    (st st' : Scan) (c : ℕ) (s : Text)
    → scan_byte st c ≡ some st'
    → closing_bracket st (c ∷ s) ≡ closing_bracket st' s
unfolding closing_bracket
closing_bracket-step st st' c s h = rw (h, closing_bracket)

-- What the scan passes over, and the bracket that it stops at.
pub closing_bracket_sound :
    (st : Scan) (s rest : Text)
    → closing_bracket st s ≡ some rest
    → (body tail : Text) × (s ≡ body ++ rest) × (rest ≡ b')' ∷ tail)
unfolding closing_bracket
closing_bracket_sound st [] rest h = cc
closing_bracket_sound st (c ∷ s) rest h = elim (Option-cases (scan_byte st c)) [
  | inl closed ↦
      let all : c ∷ s ≡ rest = cc (h, closing_bracket-closed st c s closed) in
      ([], s, all, sym all ∙ ap (λ x. x ∷ s) (scan_byte-none st c closed))
  | inr (st', e) ↦
      let onward = sym (closing_bracket-step st st' c s e) ∙ h in
      let (body, tail, whole, end) = closing_bracket_sound st' s rest onward in
      (c ∷ body, tail, ap (λ (x : Text). c ∷ x) whole, end)
]
