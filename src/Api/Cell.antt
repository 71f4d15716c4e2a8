-- ===== src/Api/Cell.antt =====
-- The Cell resource (api/v1alpha1/cell_types.go). The quantity of a resource list is only copied,
-- and is its text; so are a protocol and a service type.
use cell_router_operator.Base.{ℕ, Bool, Option, List, Text, Dict, codes}
use cell_router_operator.Api.Meta.{Condition}

pub data CellState : Type 0 where
  active draining disabled : CellState
  other_state : Text → CellState

pub record CellEntrypointSpec : Type 0 where
  pub service_name : Text
  pub port : ℕ
  pub target_port : Option ℕ
  pub protocol : Text
  pub kind : Text

abbrev pub ResourceList : Type 0
ResourceList = Dict Text

pub record CellResourceQuotaSpec : Type 0 where
  pub hard : ResourceList

pub record CellLimitRangeSpec : Type 0 where
  pub default_limits : ResourceList
  pub default_request : ResourceList
  pub max : ResourceList
  pub min : ResourceList

pub record CellNetworkPolicySpec : Type 0 where
  pub enabled : Bool
  pub allowed_namespace_labels : Dict Text

pub record CellPoliciesSpec : Type 0 where
  pub resource_quota : Option CellResourceQuotaSpec
  pub limit_range : Option CellLimitRangeSpec
  pub network_policy : Option CellNetworkPolicySpec

pub record CellSpec : Type 0 where
  pub namespace : Text
  pub entrypoint : CellEntrypointSpec
  pub workload_selector : Dict Text
  pub state : CellState
  pub namespace_labels : Dict Text
  pub namespace_annotations : Dict Text
  pub service_labels : Dict Text
  pub service_annotations : Dict Text
  pub tear_down_on_delete : Bool
  pub policies : Option CellPoliciesSpec

pub record CellStatus : Type 0 where
  pub observed_generation : ℕ
  pub namespace : Text
  pub entrypoint_service : Text
  pub operational_state : CellState
  pub available_endpoints : ℕ
  pub conditions : List Condition

-- The metadata that the operator reads, the spec and the status of a Cell; `is_deleted` stands for a
-- deletion timestamp.
pub record Cell : Type 0 where
  pub name : Text
  pub uid : Text
  pub generation : ℕ
  pub finalizers : List Text
  pub is_deleted : Bool
  pub spec : CellSpec
  pub status : CellStatus

-- The types of the conditions, and their reasons.
abbrev pub cell_ready_condition : Text
cell_ready_condition = codes "Ready"

abbrev pub cell_namespace_ready_condition : Text
cell_namespace_ready_condition = codes "NamespaceReady"

abbrev pub cell_service_ready_condition : Text
cell_service_ready_condition = codes "ServiceReady"

abbrev pub cell_backend_ready_condition : Text
cell_backend_ready_condition = codes "BackendReady"

abbrev pub cell_policies_ready_condition : Text
cell_policies_ready_condition = codes "PoliciesReady"

abbrev pub reason_progressing : Text
reason_progressing = codes "Progressing"

abbrev pub reason_reconciled : Text
reason_reconciled = codes "Reconciled"

abbrev pub reason_error : Text
reason_error = codes "Error"

abbrev pub reason_waiting_for_backend : Text
reason_waiting_for_backend = codes "WaitingForBackend"

abbrev pub reason_lifecycle_blocked : Text
reason_lifecycle_blocked = codes "LifecycleBlocked"
