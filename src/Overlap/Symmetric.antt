-- ===== src/Overlap/Symmetric.antt =====
-- The overlap of two placements in either order.
use cell_router_operator.Base.{
  ◌≡◌, ◌≢◌, refl, ◌∙◌, Bool, true, false, some, List, [], ◌∷◌, arith, Bool-eq, Option-cases, inl,
  inr, Text, text_eq_comm, Dict, lookup, IsDict, any-entry_sound, any-entry_complete, sort_texts,
}
use cell_router_operator.Errors.{Error, Result, ok, err, panic, ◌>>=◌}
use cell_router_operator.Api.Placement.{
  SelectorOperator, exact, prefix, suffix, range, other_operator, NumericRange, Selector, Placement,
}
use cell_router_operator.Overlap.{
  texts_eq, numeric_ranges_intersect, signature_part, signature_parts, selector_signature,
  range_selectors_by_source, meets, any_meets, ranges_overlap, selectors_overlap,
  placements_obviously_overlap,
}
use cell_router_operator.Overlap.Ranges.{range_selectors_by_source-IsDict}

texts_eq_comm : (xs ys : List Text) → texts_eq xs ys ≡ texts_eq ys xs
unfolding texts_eq
texts_eq_comm [] [] = refl
texts_eq_comm [] (y ∷ ys) = refl
texts_eq_comm (x ∷ xs) [] = refl
texts_eq_comm (x ∷ xs) (y ∷ ys) = rw (text_eq_comm x y, texts_eq_comm xs ys) refl

intersect_comm : (l r : NumericRange) → numeric_ranges_intersect l r ≡ numeric_ranges_intersect r l
unfolding numeric_ranges_intersect
intersect_comm l r = ground arith

meets_found :
    (m : Dict NumericRange) (k : Text) (l : NumericRange)
    → meets m k l ≡ true
    → (r : NumericRange) × (lookup k m ≡ some r) × (numeric_ranges_intersect l r ≡ true)
unfolding meets
meets_found m k l h = elim (Option-cases (lookup k m)) [
  | inl missing ↦ absurd (ground arith)
  | inr (r, e) ↦ (r, e, ground arith)
]

meets_of :
    (m : Dict NumericRange) (k : Text) (l r : NumericRange)
    → lookup k m ≡ some r
    → numeric_ranges_intersect l r ≡ true
    → meets m k l ≡ true
unfolding meets
meets_of m k l r e h = rw (e, meets) h

any_meets_sym : (m n : Dict NumericRange) → IsDict m → any_meets m n ≡ true → any_meets n m ≡ true
unfolding any_meets
any_meets_sym m n d h =
    let (k, l, found, met) = any-entry_sound (meets n) m d h in
    let (r, other, common) = meets_found n k l met in
    any-entry_complete (meets m) n k r other (meets_of m k r l found (intersect_comm r l ∙ common))

any_meets_comm : (m n : Dict NumericRange) → IsDict m → IsDict n → any_meets m n ≡ any_meets n m
any_meets_comm m n d e =
    Bool-eq (any_meets m n) (any_meets n m) (any_meets_sym m n d) (any_meets_sym n m e)

-- Two results in either order, where neither is an error.
both_comm {ℓ} :
    {A : Type ℓ} (l r : Result Text) (f g : Text → Text → Result A)
    → ((e : Error) → l ≢ err e)
    → ((e : Error) → r ≢ err e)
    → ((a b : Text) → f a b ≡ g b a)
    → (l >>= λ a. r >>= λ b. f a b) ≡ (r >>= λ b. l >>= λ a. g b a)
both_comm (ok a) (ok b) f g hl hr h = h a b
both_comm (ok a) panic f g hl hr h = refl
both_comm panic (ok b) f g hl hr h = refl
both_comm panic panic f g hl hr h = refl
both_comm (err e) r f g hl hr h = absurd (hl e refl)
both_comm l (err e) f g hl hr h = absurd (hr e refl)

signature_part-ne-err :
    (o : SelectorOperator) (s : Selector) (b : Bool) (e : Error) → signature_part o s b ≢ err e
unfolding signature_part
signature_part-ne-err range s true e h = ground arith
signature_part-ne-err range s false e h = ground arith
signature_part-ne-err exact s b e h = ground arith
signature_part-ne-err prefix s b e h = ground arith
signature_part-ne-err suffix s b e h = ground arith
signature_part-ne-err (other_operator o) s b e h = ground arith

signature_parts-ne-err :
    (selectors : List Selector) (b : Bool) (e : Error) → signature_parts selectors b ≢ err e
unfolding signature_parts
signature_parts-ne-err [] b e h = ground arith
signature_parts-ne-err (s ∷ rest) b e h =
    ground (arith, signature_part-ne-err s.operator s b e, signature_parts-ne-err rest b e)

selector_signature-ne-err :
    (selectors : List Selector) (b : Bool) (e : Error) → selector_signature selectors b ≢ err e
unfolding selector_signature
selector_signature-ne-err selectors b e h = ground (arith, signature_parts-ne-err selectors b e)

ranges_overlap_comm :
    (left right : List Selector) → ranges_overlap left right ≡ ranges_overlap right left
unfolding ranges_overlap
ranges_overlap_comm left right =
    both_comm (selector_signature left true) (selector_signature right true) _ _
      (selector_signature-ne-err left true) (selector_signature-ne-err right true)
      (λ a b.
        rw
          (
            text_eq_comm a b,
            any_meets_comm (range_selectors_by_source left) (range_selectors_by_source right)
                (range_selectors_by_source-IsDict left) (range_selectors_by_source-IsDict right),
          )
          refl)

selectors_overlap_comm :
    (left right : List Selector) → selectors_overlap left right ≡ selectors_overlap right left
unfolding selectors_overlap
selectors_overlap_comm left right =
    both_comm (selector_signature left false) (selector_signature right false) _ _
      (selector_signature-ne-err left false) (selector_signature-ne-err right false)
      (λ a b. rw (text_eq_comm a b, ranges_overlap_comm left right) refl)

-- Whether two placements are found to overlap, and whether the check panics, does not depend on
-- their order.
pub placements_obviously_overlap_comm :
    (left right : Placement)
    → placements_obviously_overlap left right ≡ placements_obviously_overlap right left
unfolding placements_obviously_overlap
placements_obviously_overlap_comm left right =
    rw
      (
        texts_eq_comm (sort_texts left.spec.listener_names) (sort_texts right.spec.listener_names),
        texts_eq_comm (sort_texts left.spec.hostnames) (sort_texts right.spec.hostnames),
        selectors_overlap_comm left.spec.selectors right.spec.selectors,
      )
      refl
