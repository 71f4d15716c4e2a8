-- ===== src/Capture/Replace.antt =====
-- Which part of the pattern `replaceNamedCaptureBody` replaces.
use cell_router_operator.Base.{
  ◌≡◌, refl, sym, ◌∙◌, some, ◌∷◌, ◌++◌, arith, Option-cases, inl, inr, Text, length, ◌≤◌,
}
use cell_router_operator.Errors.{ok}
use cell_router_operator.Capture.{
  split_first, scan_byte, closing_bracket, scan_start, capture_prefix, replace_named_capture_body,
}
use cell_router_operator.Capture.Balanced.{IsBalanced, closing_bracket-over}
use cell_router_operator.Capture.Scanned.{closing_bracket-IsBalanced}
use cell_router_operator.Capture.Search.{
  split_first_sound, split_first-stable, closing_bracket_sound, split_first-first,
  closing_bracket-closed,
}

-- A replacement that is made: where the capture and its closing bracket stand.
record Site (pattern name : Text) : Type 0 where
  before : Text
  inside : Text
  rest : Text
  found : split_first (capture_prefix name) pattern ≡ some (before, inside)
  closed : closing_bracket scan_start inside ≡ some rest

module _ (pattern name : Text) where
  replace-Site :
      (s : Site pattern name) (replacement : Text)
      → replace_named_capture_body pattern name replacement
        ≡ ok (s.before ++ (capture_prefix name ++ (replacement ++ s.rest)))
  unfolding replace_named_capture_body
  replace-Site s replacement = rw (s.found, s.closed, replace_named_capture_body)

  Site-of_ok :
      (replacement r : Text)
      → replace_named_capture_body pattern name replacement ≡ ok r
      → Site pattern name
  unfolding replace_named_capture_body
  Site-of_ok replacement r h = elim (Option-cases (split_first (capture_prefix name) pattern)) [
    | inl missing ↦ absurd (ground arith)
    | inr ((before, inside), found) ↦ elim (Option-cases (closing_bracket scan_start inside)) [
      | inl open_end ↦ absurd (ground arith)
      | inr (rest, closed) ↦ record {
        before = before;
        inside = inside;
        rest = rest;
        found = found;
        closed = closed;
      }
    ]
  ]

pub replace_named_capture_body-parts :
    (pattern name replacement r : Text)
    → replace_named_capture_body pattern name replacement ≡ ok r
    → (before body tail : Text) × (pattern
        ≡ before ++ (capture_prefix name ++ (body ++ b')' ∷ tail)))
      × (r ≡ before ++ (capture_prefix name ++ (replacement ++ b')' ∷ tail)))
      × IsBalanced body
      × ((b w : Text) → pattern ≡ b ++ (capture_prefix name ++ w) → length before ≤ length b)
replace_named_capture_body-parts pattern name replacement r h =
    let s = Site-of_ok pattern name replacement r h in
    let (passed, tail, split, end) = closing_bracket_sound scan_start s.inside s.rest s.closed in
    let (body, balanced, whole) = closing_bracket-IsBalanced s.inside s.rest s.closed in
    let made : r ≡ s.before ++ (capture_prefix name ++ (replacement ++ s.rest)) =
      cc (h, replace-Site pattern name s replacement) in
    (
      s.before,
      body,
      tail,
      rw (split_first_sound (capture_prefix name) pattern s.before s.inside s.found, whole, end)
          refl,
      rw (made, end) refl,
      balanced,
      λ b w e. split_first-first (capture_prefix name) pattern s.before s.inside b w s.found e,
    )

stops : (tail rest : Text) → rest ≡ b')' ∷ tail → closing_bracket scan_start rest ≡ some rest
stops tail rest end =
    rw end (closing_bracket-closed scan_start b')' tail (unfold scan_byte in refl))

-- If a first replacement is balanced, that is made of escapes, closed classes, closed groups and
-- other bytes, and succeeds, replacing the body of the same capture again gives what replacing it
-- in the original pattern gives.
pub replace-replace_named_capture_body :
    (pattern name first second r : Text)
    → IsBalanced first
    → replace_named_capture_body pattern name first ≡ ok r
    → replace_named_capture_body r name second ≡ replace_named_capture_body pattern name second
replace-replace_named_capture_body pattern name first second r closed h =
    let s = Site-of_ok pattern name first r h in
    let (body, tail, whole, end) = closing_bracket_sound scan_start s.inside s.rest s.closed in
    let made : r ≡ s.before ++ (capture_prefix name ++ (first ++ s.rest)) =
      cc (h, replace-Site pattern name s first) in
    rw made (
      replace-Site _ name
        (record {
          before = s.before;
          inside = first ++ s.rest;
          rest = s.rest;
          found =
              split_first-stable (capture_prefix name) pattern s.before s.inside (first ++ s.rest)
                s.found;
          closed = closing_bracket-over 0 s.rest closed ∙ stops tail s.rest end;
        })
        second
      ∙ sym (replace-Site pattern name s second))
