-- ===== src/Metadata.antt =====
-- `Merge` of internal/utils/metadata/merge.go.
pub mod Lookup
use cell_router_operator.Base.{
  Bool, true, false, Option, none, some, List, [], ◌∷◌, if◌then◌else◌, any, is_empty, Text, text_eq,
  Dict, insert,
}

-- A map that may be nil, which Go reads as an empty one.
abbrev pub or_empty : Option (Dict Text) → Dict Text
or_empty none = []
or_empty (some m) = m

unfoldable pub is_protected : List Text → Text → Bool
unfolding text_eq
is_protected protected_keys k = any (λ j. text_eq j k) protected_keys

-- The loop over `src`.
unfoldable pub overlay : List Text → Dict Text → Dict Text → Dict Text
unfolding is_protected insert
overlay protected_keys [] dst = dst
overlay protected_keys ((k, v) ∷ src) dst =
    let kept = overlay protected_keys src dst in
    let written = overlay protected_keys src (insert k v dst) in
    if is_protected protected_keys k then kept else written

unfoldable pub merge : Option (Dict Text) → Dict Text → List Text → Dict Text
unfolding overlay
merge dst src protected_keys =
    if is_empty src then or_empty dst else overlay protected_keys src (or_empty dst)
