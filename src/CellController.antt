-- ===== src/CellController.antt =====
-- The reconciler of cells: internal/controller/cell_controller.go. Events and logs are not in the
-- model; the client's calls are its requests. Here: the count of the endpoints, the conditions, and
-- the deletions.
pub mod Normal
pub mod Reconcile
pub mod Deletes
pub mod Counts
use cell_router_operator.Base.{
  ℕ, zero, suc, ◌+◌, ◌%◌, ◌^◌, Bool, true, false, not, ◌&&◌, ◌||◌, Option, none, some, List, [],
  ◌∷◌, ◌++◌, length, ltb, ◌==◌, if◌then◌else◌, is_empty, Text, codes, text_eq, Dict, lookup,
}
use cell_router_operator.Constants.{
  operator_name, managed_by_label, cell_name_label, finalizer_cell, cell_resource_quota_name,
  cell_limit_range_name, cell_network_policy_name,
}
use cell_router_operator.Api.Meta.{ConditionStatus, status_true, status_false, Condition}
use cell_router_operator.Api.Cell.{
  CellState, draining, disabled, CellPoliciesSpec, CellNetworkPolicySpec, Cell,
  cell_ready_condition, cell_namespace_ready_condition, cell_service_ready_condition,
  cell_backend_ready_condition, cell_policies_ready_condition, reason_reconciled, reason_error,
  reason_waiting_for_backend, reason_lifecycle_blocked,
}
use cell_router_operator.Backends.{effective_namespace, effective_cell_state}
use cell_router_operator.CellBuilder.{
  mutate_namespace, mutate_service, mutate_resource_quota, mutate_limit_range,
  mutate_network_policy, quota_hard, limit_range_of, network_policy_of,
}
use cell_router_operator.Client.{
  Kind, namespace_kind, service_kind, resource_quota_kind, limit_range_kind, network_policy_kind,
  Header, Change, change_namespace, change_service, change_quota, change_limit_range,
  change_network_policy, Write, Endpoint, EndpointSlice, Reply, reply, failed, Request, get_cell,
  get_object, list_cells, list_endpoint_slices, write_object, patch_cell, patch_cell_status,
  Failure, client_error, Program, ask, done, fail, attempt, ◌>>=◌, ◌>>◌, void_reply, delete_found,
}
use cell_router_operator.Machinery.{Machinery}
use cell_router_operator.Messages.{failure_text}

abbrev pub is_ready_endpoint : Endpoint → Bool
is_ready_endpoint endpoint = elim (endpoint.ready) [ none ↦ true | some ready ↦ ready ]

-- The inner loop of `countReadyEndpoints`; a count is an `int32`, as its bit pattern.
unfoldable pub count_endpoints : ℕ → List Endpoint → ℕ
count_endpoints count [] = count
count_endpoints count (e ∷ rest) =
    let skipped = count_endpoints count rest in
    let counted = count_endpoints ((count + length e.addresses % 2 ^ 32) % 2 ^ 32) rest in
    if is_ready_endpoint e then counted else skipped

unfoldable pub count_slices : ℕ → List EndpointSlice → ℕ
unfolding count_endpoints
count_slices count [] = count
count_slices count (s ∷ rest) = count_slices (count_endpoints count s.endpoints) rest

-- `n > 0` of an `int32`.
abbrev pub is_positive_int32 : ℕ → Bool
is_positive_int32 n = ltb 0 n && ltb n (2 ^ 31)

-- `countReadyEndpoints`.
pub count_ready_endpoints : Text → Text → Program ℕ
unfolding count_slices
count_ready_endpoints namespace service_name =
    ask (list_endpoint_slices namespace service_name) (elim [
      | reply slices ↦ done (count_slices 0 slices)
      | failed text ↦ fail (client_error text)
    ])

-- `labels[k]`, where a missing label is empty.
unfoldable pub label_of : Dict Text → Text → Text
unfolding lookup
label_of labels k = elim (lookup k labels) [ none ↦ [] | some v ↦ v ]

-- `deleteNamespaceIfManaged`.
pub delete_namespace_if_managed : Cell → Text → Program (Unit {0})
unfolding lookup text_eq
delete_namespace_if_managed cell namespace =
    if is_empty namespace
    then done tt
    else ask (get_object namespace_kind [] namespace) (elim [
      | reply none ↦ done tt
      | failed text ↦ fail (client_error text)
      | reply (some ns) ↦
          if not (text_eq (label_of ns.labels managed_by_label) operator_name)
            || not (text_eq (label_of ns.labels cell_name_label) cell.name)
          then done tt
          else delete_found namespace_kind ns
    ])

module _ (api : Machinery) where
  -- `setCellCondition`.
  unfoldable pub set_cell_condition : Cell → Text → ConditionStatus → Text → Text → Cell
  set_cell_condition cell kind status reason message =
      let conditions = api.set_condition cell.status.conditions (record {
        kind = kind;
        status = status;
        reason = reason;
        message = message;
        observed_generation = cell.generation;
        last_transition_time = 0;
      }) in
      record cell { status = record cell.status { conditions = conditions } }

  -- An object that is found is deleted if the cell controls it.
  pub delete_controlled : Cell → Kind → Text → Text → Program (Unit {0})
  delete_controlled cell kind namespace name = ask (get_object kind namespace name) (elim [
    | reply none ↦ done tt
    | failed text ↦ fail (client_error text)
    | reply (some object) ↦
        if not (api.is_controlled_by object cell.uid) then done tt else delete_found kind object
  ])

  -- `deleteEntrypointService`.
  pub delete_entrypoint_service : Cell → Text → Program (Unit {0})
  unfolding delete_controlled
  delete_entrypoint_service cell namespace =
      if is_empty namespace
      then done tt
      else delete_controlled cell service_kind namespace cell.spec.entrypoint.service_name

  -- `deleteManagedResourceQuota`.
  pub delete_managed_resource_quota : Cell → Text → Program (Unit {0})
  unfolding delete_controlled
  delete_managed_resource_quota cell namespace =
      delete_controlled cell resource_quota_kind namespace cell_resource_quota_name

  -- `deleteManagedLimitRange`.
  pub delete_managed_limit_range : Cell → Text → Program (Unit {0})
  unfolding delete_controlled
  delete_managed_limit_range cell namespace =
      delete_controlled cell limit_range_kind namespace cell_limit_range_name

  -- `deleteManagedNetworkPolicy`.
  pub delete_managed_network_policy : Cell → Text → Program (Unit {0})
  unfolding delete_controlled
  delete_managed_network_policy cell namespace =
      delete_controlled cell network_policy_kind namespace cell_network_policy_name
