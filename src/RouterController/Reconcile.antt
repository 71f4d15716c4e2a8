-- ===== src/RouterController/Reconcile.antt =====
-- `Reconcile` of internal/controller/cellrouter_controller.go.
pub mod Deletion
pub mod Finalizer
pub mod Ends
pub mod Statuses
pub mod Errors
use cell_router_operator.Base.{
  ℕ, Bool, true, false, Option, none, some, List, [], ◌∷◌, ◌++◌, map, if◌then◌else◌, is_empty, Text,
  codes,
}
use cell_router_operator.Constants.{finalizer_cell_router}
use cell_router_operator.Api.Meta.{ConditionStatus, status_true, status_false}
use cell_router_operator.Api.Cell.{reason_progressing, reason_reconciled, reason_error}
use cell_router_operator.Api.Placement.{Placement}
use cell_router_operator.Api.Router.{
  CellRouter, router_ready_condition, router_gateway_ready_condition, router_routes_ready_condition,
}
use cell_router_operator.RouteBuilder.{mutate_gateway_namespace, mutate_gateway}
use cell_router_operator.Overlap.{Conflicts}
use cell_router_operator.Client.{
  namespace_kind, gateway_kind, change_gateway_namespace, change_gateway, Reply, reply, failed,
  get_router, list_routers, write_object, patch_router, patch_router_status, Failure, client_error,
  gateway_namespace_required, Program, ask, done, fail, attempt, ◌>>=◌, ◌>>◌, from_reply,
  void_reply,
}
use cell_router_operator.Machinery.{Machinery}
use cell_router_operator.Messages.{failure_text}
use cell_router_operator.RouterController.{
  list_router_placements, set_router_condition, delete_managed_http_routes,
  delete_managed_reference_grants, delete_managed_gateway,
}
use cell_router_operator.RouterController.Routes.{RoutesResult, reconcile_routes}
use cell_router_operator.CellController.Normal.{Requeue}

-- `requeueDelay`.
abbrev pub requeue_delay : ℕ
requeue_delay = 10

-- `reconcileGatewayNamespace`.
unfoldable pub reconcile_gateway_namespace : CellRouter → Text → Program (Unit {0})
reconcile_gateway_namespace router namespace =
    if is_empty namespace
    then fail gateway_namespace_required
    else ask
        (write_object (record {
          kind = namespace_kind;
          namespace = [];
          name = namespace;
          change = change_gateway_namespace (λ labels. mutate_gateway_namespace labels router);
          controller = none;
        }))
        void_reply

-- `reconcileGateway`.
unfoldable pub reconcile_gateway : CellRouter → Program Text
reconcile_gateway router = do
  ask
      (write_object (record {
        kind = gateway_kind;
        namespace = router.spec.gateway.namespace;
        name = router.spec.gateway.name;
        change = change_gateway (λ gateway. mutate_gateway gateway router);
        controller = some router.uid;
      }))
      void_reply
  done (router.spec.gateway.namespace ++ (codes "/" ++ router.spec.gateway.name))

module _ (api : Machinery) where
  -- The body of `if err != nil` in `reconcileNormal`: the error of the patch is dropped.
  unfoldable pub report_failure : CellRouter → CellRouter → Text → Text → Failure → Program Requeue
  unfolding set_router_condition failure_text
  report_failure base router kind message failure =
      let marked =
        set_router_condition api router kind status_false reason_error (failure_text api failure) in
      let unready =
        set_router_condition api marked router_ready_condition status_false reason_error message in
      ask (patch_router_status base unready) (λ answer. fail failure)

  -- The two conditions at the end of `reconcileNormal`.
  unfoldable pub report_routes : Bool → CellRouter → CellRouter
  unfolding set_router_condition
  report_routes true router =
      set_router_condition api
        (set_router_condition api router router_routes_ready_condition status_true reason_reconciled
          (codes "routes reconciled"))
        router_ready_condition status_true reason_reconciled (codes "router is ready")
  report_routes false router =
      set_router_condition api
        (set_router_condition api router router_routes_ready_condition status_false
          reason_progressing (codes "waiting for all routes to become traffic-ready"))
        router_ready_condition status_false reason_progressing
        (codes "router is waiting for all routes to become traffic-ready")

  -- `reconcileNormal` once the routes are reconciled.
  unfoldable pub finish_routes : CellRouter → CellRouter → Text → RoutesResult → Program Requeue
  unfolding report_routes
  finish_routes base router gateway_ref result =
      let status = record router.status {
        managed_gateway_ref = gateway_ref;
        managed_routes = result.statuses;
        observed_generation = router.generation;
      } in
      do
        ask
            (patch_router_status base
              (report_routes result.all_ready (record router { status = status })))
            void_reply
        done (if result.needs_requeue then some requeue_delay else none)

  -- `ensureFinalizer`: the patch decodes the server's answer into the router.
  unfoldable pub ensure_finalizer : CellRouter → Program CellRouter
  ensure_finalizer router =
      let added = record router {
        finalizers = api.add_finalizer router.finalizers finalizer_cell_router;
      } in
      if api.contains_finalizer router.finalizers finalizer_cell_router
      then done router
      else ask (patch_router router added) from_reply

  -- The end of `reconcileDeletion`.
  unfoldable pub drop_finalizer : CellRouter → Program Requeue
  drop_finalizer router =
      let dropped = record router {
        finalizers = api.remove_finalizer router.finalizers finalizer_cell_router;
      } in
      if api.contains_finalizer router.finalizers finalizer_cell_router
      then ask (patch_router router dropped)
          (elim [ reply patched ↦ done none | failed text ↦ fail (client_error text) ])
      else done none

  -- `reconcileDeletion`.
  unfoldable pub reconcile_deletion : CellRouter → Program Requeue
  unfolding delete_managed_http_routes delete_managed_reference_grants delete_managed_gateway
      drop_finalizer
  reconcile_deletion router = do
    delete_managed_http_routes api router router.spec.gateway.namespace
    delete_managed_reference_grants api router
    delete_managed_gateway api router
    drop_finalizer router

module _ (api : Machinery) (sum32 : Text → ℕ) (subexp_names : Text → Option (List Text))
    (iterate : Conflicts → Conflicts) where
  -- `reconcileNormal` from the routes on.
  unfoldable pub reconcile_placements :
      CellRouter → CellRouter → Text → List Placement → Program Requeue
  unfolding reconcile_routes report_failure finish_routes
  reconcile_placements base router gateway_ref placements =
      attempt
        (reconcile_routes api sum32 subexp_names iterate router router.spec.gateway.namespace
          placements)
        (report_failure api base router router_routes_ready_condition
          (codes "route reconciliation failed"))
        (finish_routes api base router gateway_ref)

  -- From the list of the placements on.
  unfoldable pub reconcile_listed : CellRouter → CellRouter → Text → Program Requeue
  unfolding list_router_placements set_router_condition report_failure reconcile_placements
  reconcile_listed base router gateway_ref =
      let ready =
        set_router_condition api router router_gateway_ready_condition status_true reason_reconciled
          (codes "gateway reconciled") in
      attempt (list_router_placements router.name)
        (report_failure api base ready router_routes_ready_condition
          (codes "placement discovery failed"))
        (reconcile_placements base ready gateway_ref)

  -- `reconcileNormal`.
  unfoldable pub reconcile_normal : CellRouter → Program Requeue
  unfolding reconcile_gateway_namespace reconcile_gateway report_failure reconcile_listed
  reconcile_normal router =
      attempt (reconcile_gateway_namespace router router.spec.gateway.namespace)
        (report_failure api router router router_gateway_ready_condition
          (codes "gateway namespace reconciliation failed"))
        (λ _.
          attempt (reconcile_gateway router)
            (report_failure api router router router_gateway_ready_condition
              (codes "gateway reconciliation failed"))
            (reconcile_listed router router))

  -- `Reconcile` of a router that was read.
  unfoldable pub reconcile_found : CellRouter → Program Requeue
  unfolding reconcile_deletion ensure_finalizer reconcile_normal
  reconcile_found router =
      if router.is_deleted
      then reconcile_deletion api router
      else ensure_finalizer api router >>= reconcile_normal

  -- `Reconcile`.
  unfoldable pub reconcile_router : Text → Program Requeue
  unfolding reconcile_found
  reconcile_router name = ask (get_router name) (elim [
    | reply none ↦ done none
    | failed text ↦ fail (client_error text)
    | reply (some router) ↦ reconcile_found router
  ])
