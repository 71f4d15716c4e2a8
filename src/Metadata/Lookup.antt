-- ===== src/Metadata/Lookup.antt =====
-- What a merged map holds under each key.
use cell_router_operator.Base.{
  ◌≡◌, Bool, true, false, Option, none, some, List, [], ◌∷◌, arith, Bool-cases, inl, inr, Text,
  text_eq_iff, Dict, lookup, insert, lookup-insert, IsDict, insert-IsDict,
}
use cell_router_operator.Metadata.{or_empty, is_protected, overlay, merge}

-- What `Merge` promises: a protected key, and a key that `src` does not have, keep what `dst` has;
-- any other key has what `src` gives it.
abbrev pub merged : Bool → Option Text → Option Text → Option Text
merged true old new = old
merged false old none = old
merged false old (some v) = some v

overlay-lookup :
    (protected_keys : List Text) (src dst : Dict Text) (k : Text)
    → IsDict src
    → lookup k (overlay protected_keys src dst)
      ≡ merged (is_protected protected_keys k) (lookup k dst) (lookup k src)
unfolding overlay lookup
overlay-lookup protected_keys [] dst k d = ground arith
overlay-lookup protected_keys ((j, v) ∷ src) dst k (fresh, d) = ground (
  arith,
  text_eq_iff j k,
  lookup-insert j k v dst,
  overlay-lookup protected_keys src dst k d,
  overlay-lookup protected_keys src (insert j v dst) k d,
)

-- For a source map without repeated keys, the merged map has under a protected key, and under a
-- key that the source lacks, what the destination has, and under any other key what the source
-- has.
pub merge-lookup :
    (dst : Option (Dict Text)) (src : Dict Text) (protected_keys : List Text) (k : Text)
    → IsDict src
    → lookup k (merge dst src protected_keys)
      ≡ merged (is_protected protected_keys k) (lookup k (or_empty dst)) (lookup k src)
unfolding merge
merge-lookup dst [] protected_keys k d = unfold lookup in ground arith
merge-lookup dst (e ∷ src) protected_keys k d =
    overlay-lookup protected_keys (e ∷ src) (or_empty dst) k d

overlay-IsDict :
    (protected_keys : List Text) (src dst : Dict Text)
    → IsDict dst
    → IsDict (overlay protected_keys src dst)
unfolding overlay
overlay-IsDict protected_keys [] dst d = d
overlay-IsDict protected_keys ((j, v) ∷ src) dst d =
    elim (Bool-cases (is_protected protected_keys j)) [
      | inl kept ↦ rw kept (overlay-IsDict protected_keys src dst d)
      | inr written ↦
          rw written (overlay-IsDict protected_keys src (insert j v dst) (insert-IsDict j v dst d))
    ]
