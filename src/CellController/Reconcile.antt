-- ===== src/CellController/Reconcile.antt =====
-- `Reconcile` of internal/controller/cell_controller.go, and the deletion of a cell.
pub mod Deletion
pub mod Finalizer
pub mod Errors
use cell_router_operator.Base.{
  ℕ, zero, suc, ◌+◌, ◌%◌, ◌^◌, Bool, true, false, not, ◌&&◌, ◌||◌, Option, none, some, List, [],
  ◌∷◌, ◌++◌, length, ltb, ◌==◌, if◌then◌else◌, is_empty, Text, codes, text_eq, Dict, lookup,
}
use cell_router_operator.Constants.{
  operator_name, managed_by_label, cell_name_label, finalizer_cell, cell_resource_quota_name,
  cell_limit_range_name, cell_network_policy_name,
}
use cell_router_operator.Api.Meta.{ConditionStatus, status_true, status_false, Condition}
use cell_router_operator.Api.Cell.{
  CellState, draining, disabled, CellPoliciesSpec, CellNetworkPolicySpec, Cell,
  cell_ready_condition, cell_namespace_ready_condition, cell_service_ready_condition,
  cell_backend_ready_condition, cell_policies_ready_condition, reason_reconciled, reason_error,
  reason_waiting_for_backend, reason_lifecycle_blocked,
}
use cell_router_operator.Backends.{effective_namespace, effective_cell_state}
use cell_router_operator.CellBuilder.{
  mutate_namespace, mutate_service, mutate_resource_quota, mutate_limit_range,
  mutate_network_policy, quota_hard, limit_range_of, network_policy_of,
}
use cell_router_operator.Client.{
  Kind, namespace_kind, service_kind, resource_quota_kind, limit_range_kind, network_policy_kind,
  Header, Change, change_namespace, change_service, change_quota, change_limit_range,
  change_network_policy, Write, Endpoint, EndpointSlice, Reply, reply, failed, Request, get_cell,
  get_object, list_cells, list_endpoint_slices, write_object, patch_cell, patch_cell_status,
  Failure, client_error, Program, ask, done, fail, attempt, ◌>>=◌, ◌>>◌, from_reply, delete_found,
}
use cell_router_operator.Machinery.{Machinery}
use cell_router_operator.Messages.{failure_text}
use cell_router_operator.CellController.{
  label_of, delete_entrypoint_service, delete_namespace_if_managed,
}
use cell_router_operator.CellController.Normal.{Requeue, reconcile_normal}

module _ (api : Machinery) where
  -- `ensureFinalizer`: the patch decodes the server's answer into the cell.
  pub ensure_finalizer : Cell → Program Cell
  ensure_finalizer cell =
      let added = record cell { finalizers = api.add_finalizer cell.finalizers finalizer_cell } in
      if api.contains_finalizer cell.finalizers finalizer_cell
      then done cell
      else ask (patch_cell cell added) from_reply

  -- The end of `reconcileDeletion`.
  pub drop_finalizer : Cell → Program Requeue
  drop_finalizer cell =
      let dropped = record cell {
        finalizers = api.remove_finalizer cell.finalizers finalizer_cell;
      } in
      if api.contains_finalizer cell.finalizers finalizer_cell
      then ask (patch_cell cell dropped)
          (elim [ reply patched ↦ done none | failed text ↦ fail (client_error text) ])
      else done none

  -- `reconcileDeletion`.
  pub reconcile_deletion : Cell → Program Requeue
  unfolding effective_namespace delete_entrypoint_service delete_namespace_if_managed drop_finalizer
  reconcile_deletion cell = do
    delete_entrypoint_service api cell (effective_namespace cell)
    if cell.spec.tear_down_on_delete
        then delete_namespace_if_managed cell (effective_namespace cell)
        else done tt
    drop_finalizer cell

  -- `Reconcile` of a cell that was read.
  pub reconcile_found : Cell → Program Requeue
  unfolding reconcile_deletion ensure_finalizer reconcile_normal
  reconcile_found cell =
      if cell.is_deleted
      then reconcile_deletion cell
      else ensure_finalizer cell >>= reconcile_normal api

  -- `Reconcile`.
  unfoldable pub reconcile_cell : Text → Program Requeue
  unfolding reconcile_found
  reconcile_cell name = ask (get_cell name) (elim [
    | reply none ↦ done none
    | failed text ↦ fail (client_error text)
    | reply (some cell) ↦ reconcile_found cell
  ])
