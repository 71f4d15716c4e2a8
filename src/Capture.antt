-- ===== src/Capture.antt =====
-- `replaceNamedCaptureBody` of internal/controller/cellplacement_compiler.go.
pub mod Search
pub mod Balanced
pub mod Scanned
pub mod Replace
use mathlib.Core.Option
use cell_router_operator.Base.{
  ℕ, zero, suc, ◌+◌, ◌-◌, Bool, true, false, not, ◌&&◌, Option, none, some, List, [], ◌∷◌, ◌++◌,
  ◌==◌, if◌then◌else◌, Text, codes, after_prefix,
}
use cell_router_operator.Errors.{Result, ok, err, capture_missing, capture_not_closed}

-- `strings.Index`: what stands before the first occurrence, and what follows it.
pub split_first : Text → Text → Option (Text × Text)
split_first p [] = elim (after_prefix p []) [ none ↦ none | some rest ↦ some ([], rest) ]
split_first p (c ∷ s) = elim (after_prefix p (c ∷ s)) [
  | some rest ↦ some ([], rest)
  | none ↦ Option.map (λ r. (c ∷ r.0, r.1)) (split_first p s)
]

-- `inClass`, `escaped` and `depth`.
pub record Scan : Type 0 where
  pub in_class : Bool
  pub escaped : Bool
  pub depth : ℕ

-- One round of the loop; `none` is the bracket that closes the capture.
pub scan_byte : Scan → ℕ → Option Scan
scan_byte st ch =
    if st.escaped
    then some (record st { escaped = false })
    else if ch == b'\\'
    then some (record st { escaped = true })
    else if ch == b'['
    then some (record st { in_class = true })
    else if ch == b']'
    then some (record st { in_class = false })
    else if ch == b'('
    then some (if st.in_class then st else record st { depth = st.depth + 1 })
    else if ch == b')' && not st.in_class
    then (if st.depth - 1 == 0 then none else some (record st { depth = st.depth - 1 }))
    else some st

-- The loop: the text from the closing bracket on.
pub closing_bracket : Scan → Text → Option Text
closing_bracket st [] = none
closing_bracket st (ch ∷ s) = elim (scan_byte st ch) [
  | none ↦ some (ch ∷ s)
  | some st' ↦ closing_bracket st' s
]

abbrev pub scan_start : Scan
scan_start = record { in_class = false; escaped = false; depth = 1 }

abbrev pub capture_prefix : Text → Text
capture_prefix capture_name = codes "(?P<" ++ (capture_name ++ codes ">")

unfoldable pub replace_named_capture_body : Text → Text → Text → Result Text
unfolding split_first scan_byte closing_bracket after_prefix
replace_named_capture_body pattern capture_name replacement =
    elim (split_first (capture_prefix capture_name) pattern) [
      | none ↦ err (capture_missing capture_name)
      | some (before, body) ↦ elim (closing_bracket scan_start body) [
        | none ↦ err (capture_not_closed capture_name)
        | some rest ↦ ok (before ++ (capture_prefix capture_name ++ (replacement ++ rest)))
      ]
    ]
