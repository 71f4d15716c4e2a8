-- ===== src/Overlap/Conflicts.antt =====
-- Which placements the search for overlaps names.
use cell_router_operator.Base.{
  ◌≡◌, ◌∙◌, Bool, true, false, ◌&&◌, ◌||◌, Option, none, some, List, [], ◌∷◌, arith, any, Text,
  text_eq, lookup, insert, lookup-insert,
}
use cell_router_operator.Errors.{Result, ok, >>=-eq-ok, overlaps_with}
use cell_router_operator.Api.Placement.{Placement}
use cell_router_operator.Overlap.{
  placements_obviously_overlap, Conflicts, add_conflict, overlaps_of, overlaps_from,
  validate_placement_overlaps,
}

abbrev is_some {ℓ} : {A : Type ℓ} → Option A → Bool
is_some none = false
is_some (some a) = true

-- The conflicts have an entry for the name.
unfoldable pub is_named : Text → Conflicts → Bool
is_named name conflicts = is_some (lookup name conflicts)

abbrev is_hit : Result Bool → Bool
is_hit (ok b) = b
is_hit _ = false

-- Two placements overlap, and one of them has the name.
pub hits : Text → Placement → Placement → Bool
hits name left right =
    is_hit (placements_obviously_overlap left right)
    && (text_eq left.name name || text_eq right.name name)

-- Some placement of the list with the name overlaps with another.
unfoldable pub overlaps_another : Text → List Placement → Bool
unfolding hits
overlaps_another name [] = false
overlaps_another name (left ∷ rest) = any (hits name left) rest || overlaps_another name rest

add_conflict-named :
    (hit : Bool) (left right : Placement) (m : Conflicts) (name : Text)
    → is_named name (add_conflict hit left right m)
      ≡ (is_named name m || (hit && (text_eq left.name name || text_eq right.name name)))
unfolding is_named
add_conflict-named false left right m name = ground arith
add_conflict-named true left right m name =
    rw
      (
        lookup-insert right.name name (overlaps_with left.name)
            (insert left.name (overlaps_with right.name) m),
        lookup-insert left.name name (overlaps_with right.name) m,
      )
      (ground arith)

overlaps_of-named :
    (left : Placement) (rest : List Placement) (m m' : Conflicts) (name : Text)
    → overlaps_of left rest m ≡ ok m'
    → is_named name m' ≡ (is_named name m || any (hits name left) rest)
unfolding overlaps_of hits
overlaps_of-named left [] m m' name h = ground arith
overlaps_of-named left (right ∷ rest) m m' name h =
    let (hit, found, onward) = >>=-eq-ok (placements_obviously_overlap left right) _ h in
    overlaps_of-named left rest (add_conflict hit left right m) m' name onward
    ∙ rw (add_conflict-named hit left right m name, found) (ground arith)

overlaps_from-named :
    (placements : List Placement) (m m' : Conflicts) (name : Text)
    → overlaps_from placements m ≡ ok m'
    → is_named name m' ≡ (is_named name m || overlaps_another name placements)
unfolding overlaps_from overlaps_another
overlaps_from-named [] m m' name h = ground arith
overlaps_from-named (left ∷ rest) m m' name h =
    let (m1, found, onward) = >>=-eq-ok (overlaps_of left rest m) _ h in
    overlaps_from-named rest m1 m' name onward
    ∙ rw (overlaps_of-named left rest m m1 name found) (ground arith)

-- When the search for overlaps returns its conflicts, they have an entry for a name exactly if
-- some placement of that name overlaps with another placement of the list.
pub validate_placement_overlaps-exact :
    (placements : List Placement) (conflicts : Conflicts) (name : Text)
    → validate_placement_overlaps placements ≡ ok conflicts
    → is_named name conflicts ≡ overlaps_another name placements
unfolding validate_placement_overlaps is_named
validate_placement_overlaps-exact placements conflicts name h =
    overlaps_from-named placements [] conflicts name h
