-- ===== src/Api/Placement.antt =====
-- The CellPlacement resource (api/v1alpha1/cellplacement_types.go), and the part of a route
-- backend that it shares with CellRouter (cellrouter_types.go).
use cell_router_operator.Base.{ℕ, Option, List, Text, codes}
use cell_router_operator.Api.Meta.{Condition}

-- A Go string type whose declared values are the first constructors; the last holds any other text.
pub data SelectorSourceType : Type 0 where
  header query_param path_capture : SelectorSourceType
  other_source : Text → SelectorSourceType

pub data SelectorOperator : Type 0 where
  exact prefix suffix range : SelectorOperator
  other_operator : Text → SelectorOperator

-- The string that stands for a value.
abbrev pub source_type_text : SelectorSourceType → Text
source_type_text header = codes "Header"
source_type_text query_param = codes "QueryParam"
source_type_text path_capture = codes "PathCapture"
source_type_text (other_source s) = s

abbrev pub operator_text : SelectorOperator → Text
operator_text exact = codes "Exact"
operator_text prefix = codes "Prefix"
operator_text suffix = codes "Suffix"
operator_text range = codes "Range"
operator_text (other_operator s) = s

pub record SelectorSource : Type 0 where
  pub kind : SelectorSourceType
  pub name : Text
  pub path_regex : Text

pub record NumericRange : Type 0 where
  pub start : Text
  pub end : Text

pub record Selector : Type 0 where
  pub source : SelectorSource
  pub operator : SelectorOperator
  pub value : Text
  pub bounds : Option NumericRange

pub record BackendRef : Type 0 where
  pub cell_ref : Text
  pub weight : Option ℕ

pub record PlacementSpec : Type 0 where
  pub router_ref : Text
  pub listener_names : List Text
  pub hostnames : List Text
  pub selectors : List Selector
  pub destinations : List BackendRef

pub record PlacementStatus : Type 0 where
  pub observed_generation : ℕ
  pub resolved_backends : List Text
  pub conditions : List Condition

-- The metadata that the operator reads, the spec and the status of a CellPlacement.
pub record Placement : Type 0 where
  pub name : Text
  pub generation : ℕ
  pub spec : PlacementSpec
  pub status : PlacementStatus

abbrev pub placement_ready_condition : Text
placement_ready_condition = codes "Ready"
