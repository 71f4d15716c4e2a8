-- ===== src/Capture/Scanned.antt =====
-- What the scan for a capture's closing bracket has passed over.
use mathlib.Core.List.{append_assoc}
use mathlib.Core.Option.{none-ne-some}
use cell_router_operator.Base.{
  ℕ, zero, suc, ◌≡◌, ◌≢◌, refl, sym, ap, subst, ◌∙◌, some, [], ◌∷◌, ◌++◌, ◌==◌, arith, Bool-cases,
  inl, inr, Text,
}
use cell_router_operator.Capture.{Scan, scan_byte, closing_bracket, scan_start}
use cell_router_operator.Capture.Search.{closing_bracket-closed, closing_bracket-step}
use cell_router_operator.Capture.Balanced.{
  IsClass, class_end, class_escape, class_byte, IsBalanced, nothing, escape, class, group, byte,
  outside, inside, after_escape, scan_byte-open, scan_byte-close, scan_byte-plain, scan_byte-class,
}

-- A text in which `n` groups are closed that it does not open, each after a balanced text.
abbrev Parts : ℕ → Text → Text → Type 0
Parts zero s rest = (t : Text) × IsBalanced t × (s ≡ t ++ rest)
Parts (suc n) s rest =
    (t : Text) × (u : Text) × IsBalanced t × (s ≡ t ++ (b')' ∷ u)) × Parts n u rest

-- What the rest of a class and what follows it are.
abbrev ClassParts : ℕ → Text → Text → Type 0
ClassParts n s rest = (t : Text) × (u : Text) × IsClass t × (s ≡ t ++ (b']' ∷ u)) × Parts n u rest

-- Something balanced stands before the first part.
prepend :
    (n : ℕ) (s rest : Text) (h : Text → Text)
    → ((t : Text) → IsBalanced t → IsBalanced (h t))
    → ((t w : Text) → h (t ++ w) ≡ h t ++ w)
    → Parts n s rest
    → Parts n (h s) rest
prepend zero s rest h wrap shift (t, b, e) = (h t, wrap t b, ap h e ∙ shift t rest)
prepend (suc n) s rest h wrap shift (t, u, b, e, later) =
    (h t, u, wrap t b, ap h e ∙ shift t (b')' ∷ u), later)

prepend-group : (n : ℕ) (s rest : Text) → Parts (suc n) s rest → Parts n (b'(' ∷ s) rest
prepend-group n s rest (t, u, b, e, later) =
    subst (λ (x : Text). Parts n (b'(' ∷ x) rest) (sym e)
      (prepend n u rest (λ x. b'(' ∷ (t ++ (b')' ∷ x))) (λ x h. group t x b h)
        (λ x w. ap (λ (y : Text). b'(' ∷ y) (sym (append_assoc t (b')' ∷ x) w))) later)

prepend-class : (n : ℕ) (s rest : Text) → ClassParts n s rest → Parts n (b'[' ∷ s) rest
prepend-class n s rest (t, u, k, e, later) =
    subst (λ (x : Text). Parts n (b'[' ∷ x) rest) (sym e)
      (prepend n u rest (λ x. b'[' ∷ (t ++ (b']' ∷ x))) (λ x h. class t x k h)
        (λ x w. ap (λ (y : Text). b'[' ∷ y) (sym (append_assoc t (b']' ∷ x) w))) later)

-- Where the scan stands.
data Mode : Type 0 where
  in_body in_class in_body_escape in_class_escape : Mode

abbrev state : Mode → ℕ → Scan
state in_body n = outside n
state in_class n = inside n
state in_body_escape n = after_escape (outside n)
state in_class_escape n = after_escape (inside n)

abbrev Scanned : Mode → ℕ → Text → Text → Type 0
Scanned in_body n s rest = Parts n s rest
Scanned in_class n s rest = ClassParts n s rest
Scanned in_body_escape n s rest = (c : ℕ) × (u : Text) × (s ≡ c ∷ u) × Parts n u rest
Scanned in_class_escape n s rest = (c : ℕ) × (u : Text) × (s ≡ c ∷ u) × ClassParts n u rest

scanned_nothing : (m : Mode) (n : ℕ) (rest : Text) → closing_bracket (state m n) [] ≢ some rest
unfolding closing_bracket
scanned_nothing m n rest h = none-ne-some _ h

-- One more byte, if the scan goes on after it.
onward :
    (st st' : Scan) (c : ℕ) (s rest : Text)
    → scan_byte st c ≡ some st'
    → closing_bracket st (c ∷ s) ≡ some rest
    → closing_bracket st' s ≡ some rest
onward st st' c s rest e h = sym (closing_bracket-step st st' c s e) ∙ h

-- The byte that the scan reads in a body, and the byte that it reads in a class.
data BodyByte (c : ℕ) : Type 0 where
  body_escape : c ≡ b'\\' → BodyByte c
  body_class : c ≡ b'[' → BodyByte c
  body_open : c ≡ b'(' → BodyByte c
  body_close : c ≡ b')' → BodyByte c
  body_other : c ≢ b'\\' → c ≢ b'[' → c ≢ b'(' → c ≢ b')' → BodyByte c

BodyByte-cases : (c : ℕ) → BodyByte c
BodyByte-cases c = elim (Bool-cases (c == b'\\')) [
  | inl e ↦ body_escape (ground arith)
  | inr h1 ↦ elim (Bool-cases (c == b'[')) [
    | inl e ↦ body_class (ground arith)
    | inr h2 ↦ elim (Bool-cases (c == b'(')) [
      | inl e ↦ body_open (ground arith)
      | inr h3 ↦ elim (Bool-cases (c == b')')) [
        | inl e ↦ body_close (ground arith)
        | inr h4 ↦
            body_other (λ e. ground arith) (λ e. ground arith) (λ e. ground arith)
              (λ e. ground arith)
      ]
    ]
  ]
]

data ClassByte (c : ℕ) : Type 0 where
  class_escaped : c ≡ b'\\' → ClassByte c
  class_close : c ≡ b']' → ClassByte c
  class_other : c ≢ b'\\' → c ≢ b']' → ClassByte c

ClassByte-cases : (c : ℕ) → ClassByte c
ClassByte-cases c = elim (Bool-cases (c == b'\\')) [
  | inl e ↦ class_escaped (ground arith)
  | inr h1 ↦ elim (Bool-cases (c == b']')) [
    | inl e ↦ class_close (ground arith)
    | inr h2 ↦ class_other (λ e. ground arith) (λ e. ground arith)
  ]
]

-- What the scan has passed over where it stops.
scanned :
    (m : Mode) (n : ℕ) (s rest : Text)
    → closing_bracket (state m n) s ≡ some rest
    → Scanned m n s rest
scanned m n [] rest h = absurd (scanned_nothing m n rest h)
scanned in_body_escape n (c ∷ s) rest h = (
  c,
  s,
  refl,
  scanned in_body n s rest
      (onward (after_escape (outside n)) (outside n) c s rest (unfold scan_byte in refl) h),
)
scanned in_class_escape n (c ∷ s) rest h = (
  c,
  s,
  refl,
  scanned in_class n s rest
      (onward (after_escape (inside n)) (inside n) c s rest (unfold scan_byte in refl) h),
)
scanned in_class n (c ∷ s) rest h = elim (ClassByte-cases c) [
  | class_escaped e ↦
      let (d, u, e1, (t, w, k, e2, later)) = scanned in_class_escape n s rest (
        onward (inside n) (after_escape (inside n)) c s rest (rw e (unfold scan_byte in refl)) h) in
      (b'\\' ∷ d ∷ t, w, class_escape d k, rw (e, e1, e2) refl, later)
  | class_close e ↦ (
    [],
    s,
    class_end,
    rw e refl,
    scanned in_body n s rest
        (onward (inside n) (outside n) c s rest (rw e (unfold scan_byte in refl)) h),
  )
  | class_other h1 h2 ↦
      let (t, w, k, e2, later) =
        scanned in_class n s rest
          (onward (inside n) (inside n) c s rest (scan_byte-class n c h1 h2) h) in
      (c ∷ t, w, class_byte c h1 h2 k, rw e2 refl, later)
]
scanned in_body n (c ∷ s) rest h = elim (BodyByte-cases c) [
  | body_escape e ↦
      let (d, u, e1, later) = scanned in_body_escape n s rest (
        onward (outside n) (after_escape (outside n)) c s rest (rw e (unfold scan_byte in refl))
          h) in
      rw (e, e1) (prepend n u rest (λ x. b'\\' ∷ d ∷ x) (λ x b. escape d b) (λ x w. refl) later)
  | body_class e ↦ rw e (
      prepend-class n s rest (
        scanned in_class n s rest
          (onward (outside n) (inside n) c s rest (rw e (unfold scan_byte in refl)) h)))
  | body_open e ↦ rw e (
      prepend-group n s rest (
        scanned in_body (suc n) s rest
          (onward (outside n) (outside (suc n)) c s rest (rw e (scan_byte-open n)) h)))
  | body_close e ↦ rw e (closed n s rest (rw e at h) (λ k later. scanned in_body k s rest later))
  | body_other h1 h2 h3 h4 ↦
      prepend n s rest (λ x. c ∷ x) (λ x b. byte c h1 h2 h3 h4 b) (λ x w. refl)
        (scanned in_body n s rest
          (onward (outside n) (outside n) c s rest (scan_byte-plain n c h1 h2 h3 h4) h))
]
  where
    closed :
        (n : ℕ) (s rest : Text)
        → closing_bracket (outside n) (b')' ∷ s) ≡ some rest
        → ((k : ℕ) → closing_bracket (outside k) s ≡ some rest → Parts k s rest)
        → Parts n (b')' ∷ s) rest
    closed zero s rest h later =
        let stop = closing_bracket-closed (outside 0) b')' s (unfold scan_byte in refl) in
        ([], nothing, cc)
    closed (suc n) s rest h later = (
      [],
      s,
      nothing,
      refl,
      later n (onward (outside (suc n)) (outside n) b')' s rest (scan_byte-close n) h),
    )

-- What the scan of a capture has passed over is balanced.
pub closing_bracket-IsBalanced :
    (s rest : Text)
    → closing_bracket scan_start s ≡ some rest
    → (body : Text) × IsBalanced body × (s ≡ body ++ rest)
closing_bracket-IsBalanced s rest h = scanned in_body 0 s rest h
