-- ===== src/CellController/Normal.antt =====
-- `reconcileNormal` of internal/controller/cell_controller.go, and what it calls.
pub mod Readiness
pub mod Requests
pub mod Statuses
use cell_router_operator.Base.{
  ℕ, zero, suc, ◌+◌, ◌%◌, ◌^◌, Bool, true, false, not, ◌&&◌, ◌||◌, Option, none, some, List, [],
  ◌∷◌, ◌++◌, length, ltb, ◌==◌, if◌then◌else◌, is_empty, Text, codes, text_eq, Dict, lookup,
}
use cell_router_operator.Constants.{
  operator_name, managed_by_label, cell_name_label, finalizer_cell, cell_resource_quota_name,
  cell_limit_range_name, cell_network_policy_name,
}
use cell_router_operator.Api.Meta.{ConditionStatus, status_true, status_false, Condition}
use cell_router_operator.Api.Cell.{
  CellState, draining, disabled, CellPoliciesSpec, CellNetworkPolicySpec, Cell,
  cell_ready_condition, cell_namespace_ready_condition, cell_service_ready_condition,
  cell_backend_ready_condition, cell_policies_ready_condition, reason_reconciled, reason_error,
  reason_waiting_for_backend, reason_lifecycle_blocked,
}
use cell_router_operator.Backends.{effective_namespace, effective_cell_state}
use cell_router_operator.CellBuilder.{
  mutate_namespace, mutate_service, mutate_resource_quota, mutate_limit_range,
  mutate_network_policy, quota_hard, limit_range_of, network_policy_of,
}
use cell_router_operator.Client.{
  Kind, namespace_kind, service_kind, resource_quota_kind, limit_range_kind, network_policy_kind,
  Header, Change, change_namespace, change_service, change_quota, change_limit_range,
  change_network_policy, Write, Endpoint, EndpointSlice, Reply, reply, failed, Request, get_cell,
  get_object, list_cells, list_endpoint_slices, write_object, patch_cell, patch_cell_status,
  Failure, client_error, Program, ask, done, fail, attempt, ◌>>=◌, ◌>>◌, void_reply, delete_found,
}
use cell_router_operator.Machinery.{Machinery}
use cell_router_operator.Messages.{failure_text}
use cell_router_operator.CellController.{
  count_ready_endpoints, is_positive_int32, set_cell_condition, delete_managed_resource_quota,
  delete_managed_limit_range, delete_managed_network_policy,
}

-- `ctrl.Result`, by the delay after which the object is reconciled again, in seconds.
abbrev pub Requeue : Type 0
Requeue = Option ℕ

-- `cellBackendRequeueDelay`.
abbrev pub cell_backend_requeue_delay : ℕ
cell_backend_requeue_delay = 5

-- A call of `CreateOrUpdate` for an object in the cell's namespace that the cell controls.
abbrev pub controlled_write : Cell → Text → Kind → Text → Change → Request
controlled_write cell namespace kind name change = write_object (record {
  kind = kind;
  namespace = namespace;
  name = name;
  change = change;
  controller = some cell.uid;
})

-- `reconcileNamespace`.
pub reconcile_namespace : Cell → Text → Program (Unit {0})
reconcile_namespace cell name =
    ask
      (write_object (record {
        kind = namespace_kind;
        namespace = [];
        name = name;
        change = change_namespace (λ ns. mutate_namespace ns cell);
        controller = none;
      }))
      void_reply

-- `reconcileService`.
pub reconcile_service : Cell → Text → Program Text
reconcile_service cell namespace = do
  ask
      (controlled_write cell namespace service_kind cell.spec.entrypoint.service_name
        (change_service (λ svc. mutate_service svc cell)))
      void_reply
  done (namespace ++ (codes "/" ++ cell.spec.entrypoint.service_name))

module _ (api : Machinery) where
  -- `reconcileResourceQuota`.
  pub reconcile_resource_quota : Cell → Text → Program (Unit {0})
  unfolding delete_managed_resource_quota
  reconcile_resource_quota cell namespace = elim (quota_hard cell.spec.policies) [
    | none ↦ delete_managed_resource_quota api cell namespace
    | some hard ↦
        ask
          (controlled_write cell namespace resource_quota_kind cell_resource_quota_name
            (change_quota (λ quota. mutate_resource_quota quota cell)))
          void_reply
  ]

  -- `reconcileLimitRange`.
  pub reconcile_limit_range : Cell → Text → Program (Unit {0})
  unfolding delete_managed_limit_range
  reconcile_limit_range cell namespace = elim (limit_range_of cell.spec.policies) [
    | none ↦ delete_managed_limit_range api cell namespace
    | some spec ↦
        ask
          (controlled_write cell namespace limit_range_kind cell_limit_range_name
            (change_limit_range (λ limits. mutate_limit_range limits cell)))
          void_reply
  ]

  -- `reconcileNetworkPolicy`: a policy that is there and not enabled counts as none.
  pub reconcile_network_policy : Cell → Text → Program (Unit {0})
  unfolding delete_managed_network_policy
  reconcile_network_policy cell namespace = elim (network_policy_of cell.spec.policies) [
    | none ↦ delete_managed_network_policy api cell namespace
    | some spec ↦
        if not spec.enabled
        then delete_managed_network_policy api cell namespace
        else ask
            (controlled_write cell namespace network_policy_kind cell_network_policy_name
              (change_network_policy (λ policy. mutate_network_policy policy cell)))
            void_reply
  ]

  -- `reconcilePolicies`.
  pub reconcile_policies : Cell → Text → Program (Unit {0})
  unfolding reconcile_resource_quota reconcile_limit_range reconcile_network_policy
  reconcile_policies cell namespace = do
    reconcile_resource_quota cell namespace
    reconcile_limit_range cell namespace
    reconcile_network_policy cell namespace

  -- The body of `if err := ...; err != nil` in `reconcileNormal`: the condition of the part that
  -- failed and the Ready condition are false, and the error of the patch is dropped.
  pub report_failure : Cell → Cell → Text → Text → Failure → Program Requeue
  unfolding set_cell_condition failure_text
  report_failure base cell kind message failure =
      let marked =
        set_cell_condition api cell kind status_false reason_error (failure_text api failure) in
      let unready =
        set_cell_condition api marked cell_ready_condition status_false reason_error message in
      ask (patch_cell_status base unready) (λ answer. fail failure)

  abbrev pub set_pair : Cell → ConditionStatus → Text → Text → ConditionStatus → Text → Text → Cell
  unfolding set_cell_condition
  set_pair cell status reason message ready ready_reason ready_message =
      set_cell_condition api
        (set_cell_condition api cell cell_backend_ready_condition status reason message)
        cell_ready_condition ready ready_reason ready_message

  -- The `switch` of `reconcileNormal`, with `needsBackendRequeue`.
  unfoldable pub report_state : CellState → ℕ → Cell → Cell × Bool
  report_state disabled endpoints cell = (
    set_pair cell status_false reason_lifecycle_blocked (codes "cell is disabled") status_false
        reason_lifecycle_blocked (codes "cell is disabled"),
    false,
  )
  report_state draining endpoints cell =
      let reason = codes "cell is draining and withheld from new traffic" in
      if is_positive_int32 endpoints
      then (
        set_pair cell status_true reason_reconciled
            (codes "backend remains available while draining") status_false reason_lifecycle_blocked
            reason,
        false,
      )
      else (
        set_pair cell status_false reason_waiting_for_backend
            (codes "waiting for ready backend endpoints") status_false reason_lifecycle_blocked
            reason,
        true,
      )
  report_state _ endpoints cell =
      if endpoints == 0
      then (
        set_pair cell status_false reason_waiting_for_backend
            (codes "waiting for ready backend endpoints") status_false reason_waiting_for_backend
            (codes "cell is waiting for ready backend endpoints"),
        true,
      )
      else (
        set_pair cell status_true reason_reconciled (codes "backend endpoints are ready")
            status_true reason_reconciled (codes "cell is ready"),
        false,
      )

  -- `reconcileNormal` once the endpoints are counted.
  pub report_counted : Cell → Cell → Text → Text → ℕ → Program Requeue
  unfolding report_state effective_cell_state
  report_counted base cell namespace service endpoints =
      let status = record cell.status {
        namespace = namespace;
        entrypoint_service = service;
        observed_generation = cell.generation;
        operational_state = effective_cell_state cell;
        available_endpoints = endpoints;
      } in
      let result =
        report_state (effective_cell_state cell) endpoints (record cell { status = status }) in
      do
        ask (patch_cell_status base result.0) void_reply
        done (if result.1 then some cell_backend_requeue_delay else none)

  -- From the count of the endpoints on.
  pub reconcile_backend : Cell → Cell → Text → Text → Program Requeue
  unfolding report_failure count_ready_endpoints report_counted
  reconcile_backend base cell namespace service =
      attempt (count_ready_endpoints namespace cell.spec.entrypoint.service_name)
        (report_failure base cell cell_backend_ready_condition (codes "backend discovery failed"))
        (report_counted base cell namespace service)

  -- From the policies on.
  pub reconcile_rest : Cell → Cell → Text → Text → Program Requeue
  unfolding set_cell_condition report_failure reconcile_policies reconcile_backend
  reconcile_rest base cell namespace service =
      attempt (reconcile_policies cell namespace)
        (report_failure base cell cell_policies_ready_condition
          (codes "policy reconciliation failed"))
        (λ _.
          reconcile_backend base
            (set_cell_condition api cell cell_policies_ready_condition status_true reason_reconciled
              (codes "policies reconciled"))
            namespace service)

  -- From the service on.
  pub reconcile_entrypoint : Cell → Cell → Text → Program Requeue
  unfolding set_cell_condition report_failure reconcile_service reconcile_rest
  reconcile_entrypoint base cell namespace =
      attempt (reconcile_service cell namespace)
        (report_failure base cell cell_service_ready_condition
          (codes "service reconciliation failed"))
        (λ service.
          reconcile_rest base
            (set_cell_condition api cell cell_service_ready_condition status_true reason_reconciled
              (codes "service reconciled"))
            namespace service)

  -- `reconcileNormal`.
  unfoldable pub reconcile_normal : Cell → Program Requeue
  unfolding effective_namespace set_cell_condition report_failure reconcile_namespace
      reconcile_entrypoint
  reconcile_normal cell =
      let namespace = effective_namespace cell in
      attempt (reconcile_namespace cell namespace)
        (report_failure cell cell cell_namespace_ready_condition
          (codes "namespace reconciliation failed"))
        (λ _.
          reconcile_entrypoint cell
            (set_cell_condition api cell cell_namespace_ready_condition status_true
              reason_reconciled (codes "namespace reconciled"))
            namespace)
