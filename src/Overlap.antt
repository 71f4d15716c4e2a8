-- ===== src/Overlap.antt =====
-- Placements that overlap: `validatePlacementOverlaps` and the functions below it, of
-- internal/controller/cellplacement_compiler.go.
pub mod Ranges
pub mod Symmetric
pub mod Total
pub mod Conflicts
use cell_router_operator.Base.{
  ℕ, zero, suc, ◌+◌, ◌-◌, ◌*◌, ◌^◌, Bool, true, false, not, ◌&&◌, ◌||◌, Option, none, some, List,
  [], ◌∷◌, ◌++◌, ltb, leb, if◌then◌else◌, any, is_empty, Text, codes, text_eq, join, sort_texts,
  Dict, lookup, insert,
}
use cell_router_operator.Strconv.{is_digit}
use cell_router_operator.Errors.{Error, Result, ok, err, panic, ◌>>=◌, InvalidReason, overlaps_with}
use cell_router_operator.Api.Placement.{
  SelectorOperator, exact, prefix, suffix, range, other_operator, operator_text, NumericRange,
  Selector, Placement,
}
use cell_router_operator.Validation.{source_key}

-- `slices.Equal` on strings.
unfoldable pub texts_eq : List Text → List Text → Bool
unfolding text_eq
texts_eq [] [] = true
texts_eq (x ∷ xs) (y ∷ ys) = text_eq x y && texts_eq xs ys
texts_eq _ _ = false

-- The number that `strconv.ParseUint(s, 10, 64)` returns beside its error: 0 at the first byte
-- that is no digit, the largest `uint64` at the first digit that leaves 64 bits.
scan_uint : ℕ → Text → ℕ
unfolding is_digit
scan_uint acc [] = acc
scan_uint acc (c ∷ s) =
    let acc' = acc * 10 + (c - b'0') in
    let onward = scan_uint acc' s in
    if not (is_digit c) then 0 else if ltb acc' (2 ^ 64) then onward else 2 ^ 64 - 1

unfoldable pub parse_uint_value : Text → ℕ
unfolding scan_uint
parse_uint_value s = scan_uint 0 s

unfoldable pub numeric_ranges_intersect : NumericRange → NumericRange → Bool
unfolding parse_uint_value
numeric_ranges_intersect left right =
    leb (parse_uint_value left.start) (parse_uint_value right.end)
    && leb (parse_uint_value right.start) (parse_uint_value left.end)

-- One selector's part of a signature; `none` where ranges are left out.
pub signature_part : SelectorOperator → Selector → Bool → Result (Option Text)
unfolding source_key
signature_part range s false = ok none
signature_part range s true = elim (s.bounds) [
  | none ↦ panic
  | some r ↦ ok (
      some (
        source_key s.source
        ++ (codes "|"
            ++ (operator_text range ++ (codes "|" ++ (r.start ++ (codes "|" ++ r.end)))))))
]
signature_part o s include_ranges =
    ok (some (source_key s.source ++ (codes "|" ++ (operator_text o ++ (codes "|" ++ s.value)))))

abbrev pub keep {ℓ} : {A : Type ℓ} → Option A → List A → List A
keep none l = l
keep (some a) l = a ∷ l

pub signature_parts : List Selector → Bool → Result (List Text)
signature_parts [] include_ranges = ok []
signature_parts (s ∷ rest) include_ranges = do
  part ← signature_part s.operator s include_ranges
  parts ← signature_parts rest include_ranges
  ok (keep part parts)

unfoldable pub selector_signature : List Selector → Bool → Result Text
unfolding signature_parts signature_part sort_texts join
selector_signature selectors include_ranges = do
  parts ← signature_parts selectors include_ranges
  ok (join (codes ";") (sort_texts parts))

-- The loop of `rangeSelectorsBySource` over what the map already holds.
pub add_range : SelectorOperator → Selector → Dict NumericRange → Dict NumericRange
unfolding source_key insert
add_range range s ranges = elim (s.bounds) [
  | none ↦ ranges
  | some r ↦ insert (source_key s.source) r ranges
]
add_range _ s ranges = ranges

pub add_ranges : List Selector → Dict NumericRange → Dict NumericRange
add_ranges [] ranges = ranges
add_ranges (s ∷ rest) ranges = add_ranges rest (add_range s.operator s ranges)

unfoldable pub range_selectors_by_source : List Selector → Dict NumericRange
unfolding add_ranges add_range
range_selectors_by_source selectors = add_ranges selectors []

-- A range of the left placement meets the one that the right placement has for the same source.
pub meets : Dict NumericRange → Text → NumericRange → Bool
unfolding lookup numeric_ranges_intersect
meets right_ranges key left_range = elim (lookup key right_ranges) [
  | none ↦ false
  | some right_range ↦ numeric_ranges_intersect left_range right_range
]

-- The Go map is ranged over in any order, and the first hit returns.
pub any_meets : Dict NumericRange → Dict NumericRange → Bool
any_meets left_ranges right_ranges = any (λ e. meets right_ranges e.0 e.1) left_ranges

-- What is left once the signatures without ranges are equal.
pub ranges_overlap : List Selector → List Selector → Result Bool
unfolding selector_signature range_selectors_by_source any_meets meets
ranges_overlap left right = do
  left_all ← selector_signature left true
  right_all ← selector_signature right true
  ok (
      text_eq left_all right_all
      || any_meets (range_selectors_by_source left) (range_selectors_by_source right))

pub selectors_overlap : List Selector → List Selector → Result Bool
unfolding ranges_overlap selector_signature
selectors_overlap left right = do
  left_exact ← selector_signature left false
  right_exact ← selector_signature right false
  if not (text_eq left_exact right_exact) then ok false else ranges_overlap left right

unfoldable pub placements_obviously_overlap : Placement → Placement → Result Bool
unfolding texts_eq sort_texts selectors_overlap
placements_obviously_overlap left right =
    if not (texts_eq (sort_texts left.spec.listener_names) (sort_texts right.spec.listener_names))
    then ok false
    else if not (texts_eq (sort_texts left.spec.hostnames) (sort_texts right.spec.hostnames))
    then ok false
    else selectors_overlap left.spec.selectors right.spec.selectors

abbrev pub Conflicts : Type 0
Conflicts = Dict InvalidReason

abbrev pub add_conflict : Bool → Placement → Placement → Conflicts → Conflicts
add_conflict false left right conflicts = conflicts
add_conflict true left right conflicts =
    insert right.name (overlaps_with left.name)
      (insert left.name (overlaps_with right.name) conflicts)

-- The inner loop, over the placements after `left`.
pub overlaps_of : Placement → List Placement → Conflicts → Result Conflicts
unfolding placements_obviously_overlap
overlaps_of left [] conflicts = ok conflicts
overlaps_of left (right ∷ rest) conflicts = do
  hit ← placements_obviously_overlap left right
  overlaps_of left rest (add_conflict hit left right conflicts)

pub overlaps_from : List Placement → Conflicts → Result Conflicts
overlaps_from [] conflicts = ok conflicts
overlaps_from (left ∷ rest) conflicts = do
  conflicts' ← overlaps_of left rest conflicts
  overlaps_from rest conflicts'

unfoldable pub validate_placement_overlaps : List Placement → Result Conflicts
unfolding overlaps_from overlaps_of
validate_placement_overlaps placements = overlaps_from placements []
