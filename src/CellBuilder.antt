-- ===== src/CellBuilder.antt =====
-- The resources of a cell: internal/resource/cell/builder.go. Each function takes the object as it
-- is and returns it as the Go code leaves it; a field that the code does not touch has no place here.
pub mod Labels
pub mod Selector
use cell_router_operator.Base.{
  ℕ, ◌+◌, ◌-◌, ◌^◌, Bool, true, false, Option, none, some, List, [], ◌∷◌, ◌++◌, ltb, if◌then◌else◌,
  is_empty, Text, codes, Dict, insert,
}
use cell_router_operator.Strconv.{print_nat}
use cell_router_operator.Constants.{
  operator_name, managed_by_label, cell_name_label, entrypoint_service_label,
}
use cell_router_operator.Metadata.{merge}
use cell_router_operator.Api.Cell.{
  CellPoliciesSpec, CellLimitRangeSpec, CellResourceQuotaSpec, CellNetworkPolicySpec, ResourceList,
  Cell,
}

-- The labels and the annotations of an object; a nil map is `none`.
pub record Metadata : Type 0 where
  pub labels : Option (Dict Text)
  pub annotations : Option (Dict Text)

-- `MutateNamespace`.
unfoldable pub mutate_namespace : Metadata → Cell → Metadata
unfolding merge
mutate_namespace ns cell =
    let labels =
      merge ns.labels ((managed_by_label, operator_name) ∷ (cell_name_label, cell.name) ∷ []) [] in
    record {
      labels = some (
          merge (some labels) cell.spec.namespace_labels (managed_by_label ∷ cell_name_label ∷ []));
      annotations = some (merge ns.annotations cell.spec.namespace_annotations []);
    }

-- The loop that copies a map into another.
unfoldable pub copy_entries : Dict Text → Dict Text → Dict Text
unfolding insert
copy_entries [] m = m
copy_entries ((k, v) ∷ rest) m = copy_entries rest (insert k v m)

unfoldable pub workload_selector : Cell → Dict Text
unfolding copy_entries
workload_selector cell =
    if is_empty cell.spec.workload_selector
    then (cell_name_label, cell.name) ∷ []
    else copy_entries cell.spec.workload_selector []

-- `%d` of an `int32`, given by its bit pattern.
unfoldable pub print_int32 : ℕ → Text
unfolding print_nat
print_int32 n = if ltb n (2 ^ 31) then print_nat n else codes "-" ++ print_nat (2 ^ 32 - n)

pub record ServicePort : Type 0 where
  pub name : Text
  pub port : ℕ
  pub target_port : ℕ
  pub protocol : Text

pub record Service : Type 0 where
  pub metadata : Metadata
  pub selector : Option (Dict Text)
  pub kind : Text
  pub ports : List ServicePort

-- `if s == "" { s = d }`.
abbrev pub or_default : Text → Text → Text
or_default [] d = d
or_default (c ∷ s) d = c ∷ s

abbrev pub port_or : Option ℕ → ℕ → ℕ
port_or none port = port
port_or (some target) port = target

-- `MutateService`: the loop over the old selector deletes each of its keys.
unfoldable pub mutate_service : Service → Cell → Service
unfolding merge workload_selector copy_entries print_int32
mutate_service svc cell =
    let labels =
      merge svc.metadata.labels
        ((managed_by_label, operator_name)
          ∷ (cell_name_label, cell.name)
          ∷ (entrypoint_service_label, cell.spec.entrypoint.service_name)
          ∷ [])
        [] in
    record {
      metadata = record {
        labels = some (
            merge (some labels) cell.spec.service_labels
              (managed_by_label ∷ cell_name_label ∷ entrypoint_service_label ∷ []));
        annotations = some (merge svc.metadata.annotations cell.spec.service_annotations []);
      };
      selector = some (copy_entries (workload_selector cell) []);
      kind = or_default cell.spec.entrypoint.kind (codes "ClusterIP");
      ports =
          record {
            name = codes "port-" ++ print_int32 cell.spec.entrypoint.port;
            port = cell.spec.entrypoint.port;
            target_port = port_or cell.spec.entrypoint.target_port cell.spec.entrypoint.port;
            protocol = or_default cell.spec.entrypoint.protocol (codes "TCP");
          }
          ∷ [];
    }

-- The labels of the policy resources.
unfoldable pub cell_labels : Option (Dict Text) → Cell → Option (Dict Text)
unfolding merge
cell_labels labels cell =
    some (merge labels ((managed_by_label, operator_name) ∷ (cell_name_label, cell.name) ∷ []) [])

pub record ResourceQuota : Type 0 where
  pub labels : Option (Dict Text)
  pub hard : Option ResourceList

abbrev pub quota_hard : Option CellPoliciesSpec → Option ResourceList
quota_hard none = none
quota_hard (some policies) = elim (policies.resource_quota) [
  | none ↦ none
  | some quota ↦ some quota.hard
]

-- `MutateResourceQuota`.
unfoldable pub mutate_resource_quota : ResourceQuota → Cell → ResourceQuota
unfolding cell_labels
mutate_resource_quota quota cell = record {
  labels = cell_labels quota.labels cell;
  hard = quota_hard cell.spec.policies;
}

pub record LimitRangeItem : Type 0 where
  pub kind : Text
  pub default_limits : ResourceList
  pub default_request : ResourceList
  pub max : ResourceList
  pub min : ResourceList

pub record LimitRange : Type 0 where
  pub labels : Option (Dict Text)
  pub limits : List LimitRangeItem

abbrev pub limit_item : Option CellLimitRangeSpec → LimitRangeItem
limit_item none = record {
  kind = codes "Container";
  default_limits = [];
  default_request = [];
  max = [];
  min = [];
}
limit_item (some spec) = record {
  kind = codes "Container";
  default_limits = spec.default_limits;
  default_request = spec.default_request;
  max = spec.max;
  min = spec.min;
}

abbrev pub limit_range_of : Option CellPoliciesSpec → Option CellLimitRangeSpec
limit_range_of none = none
limit_range_of (some policies) = policies.limit_range

-- `MutateLimitRange`.
unfoldable pub mutate_limit_range : LimitRange → Cell → LimitRange
unfolding cell_labels
mutate_limit_range limit_range cell = record {
  labels = cell_labels limit_range.labels cell;
  limits = limit_item (limit_range_of cell.spec.policies) ∷ [];
}

-- A peer that may reach the workloads: the pods of the same namespace that a selector picks, or
-- the namespaces with given labels.
pub data NetworkPolicyPeer : Type 0 where
  pod_selector namespace_selector : Dict Text → NetworkPolicyPeer

pub record NetworkPolicy : Type 0 where
  pub labels : Option (Dict Text)
  pub pod_selector_labels : Dict Text
  pub policy_types : List Text
  pub ingress : List (List NetworkPolicyPeer)

abbrev pub namespace_peers : Option CellNetworkPolicySpec → List NetworkPolicyPeer
namespace_peers none = []
namespace_peers (some spec) =
    if is_empty spec.allowed_namespace_labels
    then []
    else namespace_selector spec.allowed_namespace_labels ∷ []

abbrev pub network_policy_of : Option CellPoliciesSpec → Option CellNetworkPolicySpec
network_policy_of none = none
network_policy_of (some policies) = policies.network_policy

-- `MutateNetworkPolicy`.
unfoldable pub mutate_network_policy : NetworkPolicy → Cell → NetworkPolicy
unfolding cell_labels workload_selector
mutate_network_policy policy cell = record {
  labels = cell_labels policy.labels cell;
  pod_selector_labels = workload_selector cell;
  policy_types = codes "Ingress" ∷ [];
  ingress = (pod_selector [] ∷ namespace_peers (network_policy_of cell.spec.policies)) ∷ [];
}
