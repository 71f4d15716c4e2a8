-- ===== src/Overlap/Total.antt =====
-- When the search for overlaps returns.
use cell_router_operator.Validation.{source_key}
use cell_router_operator.Base.{
  ◌≡◌, ◌≢◌, refl, sym, Bool, true, false, not, ◌||◌, none, some, List, [], ◌∷◌, Option-cases, inl,
  inr, Text, text_eq, sort_texts, All, codes, ◌++◌, subst, if◌then◌else◌,
}
use cell_router_operator.Errors.{Result, ok, panic, Succeeds, >>=-Succeeds}
use cell_router_operator.Api.Placement.{
  SelectorOperator, exact, prefix, suffix, range, other_operator, operator_text, NumericRange,
  Selector, Placement,
}
use cell_router_operator.Overlap.{
  texts_eq, signature_part, signature_parts, selector_signature, range_selectors_by_source,
  any_meets, add_conflict, overlaps_of, overlaps_from, validate_placement_overlaps, Conflicts,
  ranges_overlap, selectors_overlap, placements_obviously_overlap,
}

-- The range selectors carry their ranges.
abbrev pub CarryRanges : List Selector → Type 0
CarryRanges selectors = All (λ (s : Selector). s.operator ≡ range → s.bounds ≢ none) selectors

carried :
    (s : Selector) (r : NumericRange) → s.bounds ≡ some r → Succeeds (signature_part range s true)
unfolding signature_part
carried s r found =
    subst (λ b. Succeeds (elim b [ none ↦ panic | some r ↦ ok (some (part s r)) ])) (sym found)
      (_, refl)
  where
    part : Selector → NumericRange → Text
    part s r =
        source_key s.source
        ++ (codes "|" ++ (operator_text range ++ (codes "|" ++ (r.start ++ (codes "|" ++ r.end)))))

signature_part-Succeeds :
    (o : SelectorOperator) (s : Selector) (b : Bool)
    → (o ≡ range → s.bounds ≢ none)
    → Succeeds (signature_part o s b)
unfolding signature_part
signature_part-Succeeds range s false h = (_, refl)
signature_part-Succeeds range s true h = elim (Option-cases s.bounds) [
  | inl missing ↦ absurd (h refl missing)
  | inr (r, found) ↦ carried s r found
]
signature_part-Succeeds exact s b h = (_, refl)
signature_part-Succeeds prefix s b h = (_, refl)
signature_part-Succeeds suffix s b h = (_, refl)
signature_part-Succeeds (other_operator o) s b h = (_, refl)

signature_parts-Succeeds :
    (selectors : List Selector) (b : Bool)
    → CarryRanges selectors
    → Succeeds (signature_parts selectors b)
unfolding signature_parts
signature_parts-Succeeds [] b h = (_, refl)
signature_parts-Succeeds (s ∷ rest) b (h, hs) =
    >>=-Succeeds (signature_part s.operator s b) _ (signature_part-Succeeds s.operator s b h)
      (λ part.
        >>=-Succeeds (signature_parts rest b) _ (signature_parts-Succeeds rest b hs)
          (λ parts. (_, refl)))

selector_signature-Succeeds :
    (selectors : List Selector) (b : Bool)
    → CarryRanges selectors
    → Succeeds (selector_signature selectors b)
unfolding selector_signature
selector_signature-Succeeds selectors b h =
    >>=-Succeeds (signature_parts selectors b) _ (signature_parts-Succeeds selectors b h)
      (λ parts. (_, refl))

unless-Succeeds {ℓ} :
    {A : Type ℓ} (b : Bool) (a : A) (m : Result A) → Succeeds m → Succeeds (if b then ok a else m)
unless-Succeeds true a m h = (a, refl)
unless-Succeeds false a m h = h

ranges_overlap-Succeeds :
    (left right : List Selector)
    → CarryRanges left
    → CarryRanges right
    → Succeeds (ranges_overlap left right)
unfolding ranges_overlap
ranges_overlap-Succeeds left right h k =
    >>=-Succeeds (selector_signature left true) _ (selector_signature-Succeeds left true h) (λ a.
      >>=-Succeeds (selector_signature right true) _ (selector_signature-Succeeds right true k)
        (λ b. (
          text_eq a b
              || any_meets (range_selectors_by_source left) (range_selectors_by_source right),
          refl,
        )))

selectors_overlap-Succeeds :
    (left right : List Selector)
    → CarryRanges left
    → CarryRanges right
    → Succeeds (selectors_overlap left right)
unfolding selectors_overlap
selectors_overlap-Succeeds left right h k =
    >>=-Succeeds (selector_signature left false) _ (selector_signature-Succeeds left false h) (λ a.
      >>=-Succeeds (selector_signature right false) _ (selector_signature-Succeeds right false k)
        (λ b.
          unless-Succeeds (not (text_eq a b)) false (ranges_overlap left right)
            (ranges_overlap-Succeeds left right h k)))

-- The check of two placements does not panic, if their range selectors carry their ranges.
pub placements_obviously_overlap-Succeeds :
    (left right : Placement)
    → CarryRanges left.spec.selectors
    → CarryRanges right.spec.selectors
    → Succeeds (placements_obviously_overlap left right)
unfolding placements_obviously_overlap
placements_obviously_overlap-Succeeds left right h k =
    unless-Succeeds
      (not (texts_eq (sort_texts left.spec.listener_names) (sort_texts right.spec.listener_names)))
      false _
      (unless-Succeeds
        (not (texts_eq (sort_texts left.spec.hostnames) (sort_texts right.spec.hostnames))) false _
        (selectors_overlap-Succeeds left.spec.selectors right.spec.selectors h k))

overlaps_of-Succeeds :
    (left : Placement) (rest : List Placement) (m : Conflicts)
    → CarryRanges left.spec.selectors
    → All (λ (p : Placement). CarryRanges p.spec.selectors) rest
    → Succeeds (overlaps_of left rest m)
unfolding overlaps_of
overlaps_of-Succeeds left [] m h hs = (m, refl)
overlaps_of-Succeeds left (right ∷ rest) m h (k, ks) =
    >>=-Succeeds (placements_obviously_overlap left right) _
      (placements_obviously_overlap-Succeeds left right h k)
      (λ hit. overlaps_of-Succeeds left rest (add_conflict hit left right m) h ks)

overlaps_from-Succeeds :
    (placements : List Placement) (m : Conflicts)
    → All (λ (p : Placement). CarryRanges p.spec.selectors) placements
    → Succeeds (overlaps_from placements m)
unfolding overlaps_from
overlaps_from-Succeeds [] m hs = (m, refl)
overlaps_from-Succeeds (left ∷ rest) m (h, hs) =
    >>=-Succeeds (overlaps_of left rest m) _ (overlaps_of-Succeeds left rest m h hs)
      (λ m'. overlaps_from-Succeeds rest m' hs)

-- If every range selector of the placements carries its range, the search for overlaps returns its
-- conflicts, without a panic.
pub validate_placement_overlaps-Succeeds :
    (placements : List Placement)
    → All (λ (p : Placement). CarryRanges p.spec.selectors) placements
    → Succeeds (validate_placement_overlaps placements)
unfolding validate_placement_overlaps
validate_placement_overlaps-Succeeds placements h = overlaps_from-Succeeds placements [] h
