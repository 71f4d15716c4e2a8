-- ===== src/Api/Router.antt =====
-- The routes of a CellRouter (api/v1alpha1/cellrouter_types.go).
use cell_router_operator.Base.{Bool, codes, ℕ, Option, List, Text, Dict}
use cell_router_operator.Api.Meta.{Condition}
use cell_router_operator.Api.Placement.{BackendRef}

-- The match types of the Gateway API that the operator writes; a user's own text is the third.
pub data MatchType : Type 0 where
  match_exact match_regular_expression : MatchType
  match_other : Text → MatchType

pub record HttpPathMatch : Type 0 where
  pub kind : Option MatchType
  pub value : Text

pub record HttpHeaderMatch : Type 0 where
  pub name : Text
  pub value : Text
  pub kind : Option MatchType

pub record HttpQueryParamMatch : Type 0 where
  pub name : Text
  pub value : Text
  pub kind : Option MatchType

-- A nil slice and an empty one are both the empty list: the code tells them apart nowhere.
pub record RouteSpec : Type 0 where
  pub name : Text
  pub cell_ref : Text
  pub listener_names : List Text
  pub hostnames : List Text
  pub path_match : Option HttpPathMatch
  pub header_matches : List HttpHeaderMatch
  pub query_param_matches : List HttpQueryParamMatch
  pub weight : Option ℕ
  pub additional_backends : List BackendRef
  pub fallback_backend : Option BackendRef

-- `TLS` is only copied, and is its text.
pub record CellGatewayListener : Type 0 where
  pub name : Text
  pub port : ℕ
  pub protocol : Text
  pub hostname : Option Text
  pub tls : Option Text

pub record CellGatewaySpec : Type 0 where
  pub name : Text
  pub namespace : Text
  pub gateway_class_name : Text
  pub labels : Dict Text
  pub annotations : Dict Text
  pub listeners : List CellGatewayListener

pub record CellRouterSpec : Type 0 where
  pub gateway : CellGatewaySpec
  pub routes : List RouteSpec

pub record ManagedRouteStatus : Type 0 where
  pub name : Text
  pub listener_names : List Text
  pub cell_ref : Text
  pub backend_refs : List Text
  pub placement_ref : Text
  pub reason : Text
  pub last_transition_time : Option ℕ

pub record CellRouterStatus : Type 0 where
  pub observed_generation : ℕ
  pub managed_gateway_ref : Text
  pub managed_routes : List ManagedRouteStatus
  pub conditions : List Condition

-- The metadata that the operator reads, the spec and the status of a CellRouter; `is_deleted`
-- stands for a deletion timestamp.
pub record CellRouter : Type 0 where
  pub name : Text
  pub uid : Text
  pub generation : ℕ
  pub finalizers : List Text
  pub is_deleted : Bool
  pub spec : CellRouterSpec
  pub status : CellRouterStatus

-- The types of the conditions.
abbrev pub router_ready_condition : Text
router_ready_condition = codes "Ready"

abbrev pub router_gateway_ready_condition : Text
router_gateway_ready_condition = codes "GatewayReady"

abbrev pub router_routes_ready_condition : Text
router_routes_ready_condition = codes "RoutesReady"
