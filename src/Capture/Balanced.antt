-- ===== src/Capture/Balanced.antt =====
-- What stands between a capture's opening and the bracket that closes it.
use mathlib.Core.List.{append_assoc}
use cell_router_operator.Base.{
  ℕ, suc, ◌≡◌, ◌≢◌, refl, ap, ◌∙◌, true, false, some, [], ◌∷◌, ◌++◌, arith, Text,
}
use cell_router_operator.Capture.{Scan, scan_byte, closing_bracket}
use cell_router_operator.Capture.Search.{closing_bracket-step}

-- The inside of a character class: no `]` that is not escaped.
pub data IsClass : Text → Type 0 where
  class_end : IsClass []
  class_escape : (c : ℕ) {s : Text} → IsClass s → IsClass (b'\\' ∷ c ∷ s)
  class_byte : (c : ℕ) {s : Text} → c ≢ b'\\' → c ≢ b']' → IsClass s → IsClass (c ∷ s)

-- A text of escapes, classes, groups and other bytes, which closes each group that it opens and no
-- other.
pub data IsBalanced : Text → Type 0 where
  nothing : IsBalanced []
  escape : (c : ℕ) {s : Text} → IsBalanced s → IsBalanced (b'\\' ∷ c ∷ s)
  class : (t s : Text) → IsClass t → IsBalanced s → IsBalanced (b'[' ∷ (t ++ (b']' ∷ s)))
  group : (t s : Text) → IsBalanced t → IsBalanced s → IsBalanced (b'(' ∷ (t ++ (b')' ∷ s)))
  byte :
      (c : ℕ) {s : Text}
      → c ≢ b'\\'
      → c ≢ b'['
      → c ≢ b'('
      → c ≢ b')'
      → IsBalanced s
      → IsBalanced (c ∷ s)

-- The scan with `n` groups open inside the capture, outside of a class and in one.
abbrev pub outside : ℕ → Scan
outside n = record { in_class = false; escaped = false; depth = suc n }

abbrev pub inside : ℕ → Scan
inside n = record { in_class = true; escaped = false; depth = suc n }

abbrev pub after_escape : Scan → Scan
after_escape st = record st { escaped = true }

pub scan_byte-open : (n : ℕ) → scan_byte (outside n) b'(' ≡ some (outside (suc n))
unfolding scan_byte
scan_byte-open n = ground arith

pub scan_byte-close : (n : ℕ) → scan_byte (outside (suc n)) b')' ≡ some (outside n)
unfolding scan_byte
scan_byte-close n = ground arith

pub scan_byte-plain :
    (n c : ℕ)
    → c ≢ b'\\'
    → c ≢ b'['
    → c ≢ b'('
    → c ≢ b')'
    → scan_byte (outside n) c ≡ some (outside n)
unfolding scan_byte
scan_byte-plain n c h1 h2 h3 h4 = ground arith

pub scan_byte-class : (n c : ℕ) → c ≢ b'\\' → c ≢ b']' → scan_byte (inside n) c ≡ some (inside n)
unfolding scan_byte
scan_byte-class n c h1 h2 = ground arith

module _ (n : ℕ) where
  class-over :
      {t : Text} (s : Text)
      → IsClass t
      → closing_bracket (inside n) (t ++ (b']' ∷ s)) ≡ closing_bracket (outside n) s
  class-over s class_end =
      closing_bracket-step (inside n) (outside n) b']' s (unfold scan_byte in refl)
  class-over s (class_escape c h) =
      closing_bracket-step (inside n) (after_escape (inside n)) b'\\' _ (unfold scan_byte in refl)
      ∙ closing_bracket-step (after_escape (inside n)) (inside n) c _ (unfold scan_byte in refl)
      ∙ class-over s h
  class-over s (class_byte c h1 h2 h) =
      closing_bracket-step (inside n) (inside n) c _ (scan_byte-class n c h1 h2) ∙ class-over s h

-- The scan passes over a balanced text.
pub closing_bracket-over :
    {t : Text} (n : ℕ) (s : Text)
    → IsBalanced t
    → closing_bracket (outside n) (t ++ s) ≡ closing_bracket (outside n) s
closing_bracket-over n s nothing = refl
closing_bracket-over n s (escape c h) =
    closing_bracket-step (outside n) (after_escape (outside n)) b'\\' _ (unfold scan_byte in refl)
    ∙ closing_bracket-step (after_escape (outside n)) (outside n) c _ (unfold scan_byte in refl)
    ∙ closing_bracket-over n s h
closing_bracket-over n s (class t u k h) =
    closing_bracket-step (outside n) (inside n) b'[' _ (unfold scan_byte in refl)
    ∙ ap (closing_bracket (inside n)) (append_assoc t (b']' ∷ u) s)
    ∙ class-over n (u ++ s) k
    ∙ closing_bracket-over n s h
closing_bracket-over n s (group t u g h) =
    closing_bracket-step (outside n) (outside (suc n)) b'(' _ (scan_byte-open n)
    ∙ ap (closing_bracket (outside (suc n))) (append_assoc t (b')' ∷ u) s)
    ∙ closing_bracket-over (suc n) (b')' ∷ (u ++ s)) g
    ∙ closing_bracket-step (outside (suc n)) (outside n) b')' (u ++ s) (scan_byte-close n)
    ∙ closing_bracket-over n s h
closing_bracket-over n s (byte c h1 h2 h3 h4 h) =
    closing_bracket-step (outside n) (outside n) c _ (scan_byte-plain n c h1 h2 h3 h4)
    ∙ closing_bracket-over n s h
