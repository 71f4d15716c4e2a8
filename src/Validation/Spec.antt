-- ===== src/Validation/Spec.antt =====
-- What a valid placement is, stated without the code's order of checks.
use cell_router_operator.Base.{
  ◌^◌, ◌≤◌, ◌<◌, ◌≡◌, ◌≢◌, true, false, Option, none, some, List, [], ◌∷◌, Text, is_blank, All,
}
use cell_router_operator.Strconv.{value}
use cell_router_operator.Decimal.{is_decimal}
use cell_router_operator.Api.Placement.{
  SelectorSourceType, path_capture, other_source, SelectorOperator, range, other_operator,
  SelectorSource, NumericRange, Selector, PlacementSpec,
}
use cell_router_operator.Validation.{path_regex_has_named_capture, source_key}

-- An interval of decimals that fit 64 bits.
pub record IsValidRange (r : NumericRange) : Type 0 where
  pub start_decimal : is_decimal r.start ≡ true
  pub end_decimal : is_decimal r.end ≡ true
  pub in_order : value r.start ≤ value r.end
  pub fits : value r.end < 2 ^ 64

-- A value and no range, or a valid range and no value.
abbrev pub IsValidOperator : SelectorOperator → Selector → Type 0
IsValidOperator range s = (r : NumericRange) × (s.bounds ≡ some r) × IsValidRange r × (s.value ≡ [])
IsValidOperator (other_operator o) s = ⊥
IsValidOperator _ s = (s.value ≢ []) × (s.bounds ≡ none)

-- A key that no text of the list equals.
abbrev pub IsFresh : Text → List Text → Type 0
IsFresh k ks = All (λ j. j ≢ k) ks

abbrev pub HasDistinctKeys : List Selector → Type 0
HasDistinctKeys [] = Unit
HasDistinctKeys (s ∷ rest) =
    All (λ t. source_key s.source ≢ source_key t.source) rest × HasDistinctKeys rest

-- A source that reads from the path has the given regular expression.
abbrev pub SharesKind : SelectorSourceType → Text → Text → Type 0
SharesKind path_capture own regex = own ≡ regex
SharesKind _ own regex = Unit

abbrev pub SharesRegex : Text → Selector → Type 0
SharesRegex regex s = SharesKind s.source.kind s.source.path_regex regex

module _ (subexp_names : Text → Option (List Text)) where
  abbrev pub IsValidKind : SelectorSourceType → SelectorSource → Type 0
  IsValidKind path_capture s =
      (is_blank s.path_regex ≡ false)
      × (path_regex_has_named_capture subexp_names s.path_regex s.name ≡ true)
  IsValidKind (other_source k) s = ⊥
  IsValidKind _ s = s.path_regex ≡ []

  pub record IsValidSelector (s : Selector) : Type 0 where
    pub named : is_blank s.source.name ≡ false
    pub source : IsValidKind s.source.kind s.source
    pub operator : IsValidOperator s.operator s

  pub record IsValid (spec : PlacementSpec) : Type 0 where
    pub routed : is_blank spec.router_ref ≡ false
    pub selecting : spec.selectors ≢ []
    pub going : spec.destinations ≢ []
    pub each : All (IsValidSelector) spec.selectors
    pub distinct : HasDistinctKeys spec.selectors
    pub shared : (regex : Text) × All (SharesRegex regex) spec.selectors
