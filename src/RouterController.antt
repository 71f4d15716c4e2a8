-- ===== src/RouterController.antt =====
-- The reconciler of routers: internal/controller/cellrouter_controller.go. Events and logs are not
-- in the model; the client's calls are its requests. Here: the conditions, the placements, the
-- grants, and what is deleted.
pub mod Resolve
pub mod Routes
pub mod Reconcile
use cell_router_operator.Base.{
  ℕ, Bool, true, false, not, Option, none, some, List, [], ◌∷◌, ◌++◌, any, if◌then◌else◌, is_empty,
  Text, codes, text_eq, Dict,
}
use cell_router_operator.Constants.{operator_name, managed_by_label, router_name_label}
use cell_router_operator.Api.Meta.{ConditionStatus, status_true, status_false, Condition}
use cell_router_operator.Api.Cell.{Cell, reason_progressing, reason_reconciled}
use cell_router_operator.Api.Placement.{BackendRef, Placement, placement_ready_condition}
use cell_router_operator.Api.Router.{RouteSpec, CellRouter}
use cell_router_operator.RouteBuilder.{BackendTarget, reference_grant_name, mutate_reference_grant}
use cell_router_operator.Backends.{
  Fetched, fetched, not_found, fetch_error, Candidate, usable, unusable, broken, candidate,
  Resolution, RouteBackends, Issue, candidates_of, reason_with, degraded, issues_only,
  traffic_ready, using_fallback_backend, waiting_for_backends, RouteReason,
}
use cell_router_operator.Client.{
  Kind, gateway_kind, http_route_kind, reference_grant_kind, Header, change_grant, Reply, reply,
  failed, get_cell, get_object, list_placements, list_routers, list_objects, write_object,
  patch_placement_status, client_error, Program, ask, done, fail, ◌>>=◌, ◌>>◌, void_reply,
  delete_found,
}
use cell_router_operator.Machinery.{Machinery}

-- `findPlacementByName`.
unfoldable pub find_placement_by_name : List Placement → Text → Option Placement
unfolding text_eq
find_placement_by_name [] name = none
find_placement_by_name (p ∷ rest) name =
    let later = find_placement_by_name rest name in if text_eq p.name name then some p else later

unfoldable pub placements_of : Text → List Placement → List Placement
unfolding text_eq
placements_of router_name [] = []
placements_of router_name (p ∷ rest) =
    let later = placements_of router_name rest in
    if text_eq p.spec.router_ref router_name then p ∷ later else later

-- `listPlacements`.
unfoldable pub list_router_placements : Text → Program (List Placement)
unfolding placements_of
list_router_placements router_name = ask list_placements (elim [
  | failed text ↦ fail (client_error text)
  | reply placements ↦ done (placements_of router_name placements)
])

-- The labels by which the objects of a router are listed.
abbrev pub router_labels : CellRouter → Dict Text
router_labels router = (managed_by_label, operator_name) ∷ (router_name_label, router.name) ∷ []

-- `_, ok := expected[name]`.
unfoldable pub is_expected : Text → List Text → Bool
unfolding text_eq
is_expected name expected = any (λ e. text_eq e name) expected

unfoldable pub delete_stale : Kind → List Text → List Header → Program (Unit {0})
unfolding is_expected
delete_stale kind expected [] = done tt
delete_stale kind expected (object ∷ rest) =
    let later = delete_stale kind expected rest in
    if is_expected object.name expected then later else do delete_found kind object; later

-- `cleanupStaleRoutes`.
unfoldable pub cleanup_stale_routes : CellRouter → Text → List Text → Program (Unit {0})
unfolding delete_stale
cleanup_stale_routes router gateway_namespace expected =
    ask (list_objects http_route_kind (some gateway_namespace) (router_labels router)) (elim [
      | failed text ↦ fail (client_error text)
      | reply existing ↦ delete_stale http_route_kind expected existing
    ])

-- `cleanupStaleReferenceGrants`.
unfoldable pub cleanup_stale_reference_grants : CellRouter → List Text → Program (Unit {0})
unfolding delete_stale
cleanup_stale_reference_grants router expected =
    ask (list_objects reference_grant_kind none (router_labels router)) (elim [
      | failed text ↦ fail (client_error text)
      | reply existing ↦ delete_stale reference_grant_kind expected existing
    ])

-- `sum32` is `hash/fnv`'s hash of the name of a ReferenceGrant.
module _ (sum32 : Text → ℕ) where
  -- `reconcileReferenceGrant`.
  unfoldable pub reconcile_reference_grant :
      CellRouter → Text → Text → BackendTarget → Program (Unit {0})
  unfolding reference_grant_name mutate_reference_grant
  reconcile_reference_grant router route_name gateway_namespace backend =
      ask
        (write_object (record {
          kind = reference_grant_kind;
          namespace = backend.namespace;
          name = reference_grant_name sum32 route_name backend;
          change = change_grant (λ grant.
              mutate_reference_grant grant router route_name backend.cell_ref gateway_namespace
                backend);
          controller = some router.uid;
        }))
        void_reply

module _ (api : Machinery) where
  -- `setRouterCondition`.
  unfoldable pub set_router_condition :
      CellRouter → Text → ConditionStatus → Text → Text → CellRouter
  set_router_condition router kind status reason message =
      let conditions = api.set_condition router.status.conditions (record {
        kind = kind;
        status = status;
        reason = reason;
        message = message;
        observed_generation = router.generation;
        last_transition_time = 0;
      }) in
      record router { status = record router.status { conditions = conditions } }

  -- `patchPlacementReadiness`, and the placement that it sends.
  unfoldable pub set_placement_readiness : Placement → List Text → Text → Bool → Placement
  set_placement_readiness placement resolved_backends reason ready =
      let conditions = api.set_condition placement.status.conditions (record {
        kind = placement_ready_condition;
        status = if ready then status_true else status_false;
        reason = if ready then reason_reconciled else reason_progressing;
        message = reason;
        observed_generation = placement.generation;
        last_transition_time = 0;
      }) in
      record placement {
        status = record {
          observed_generation = placement.generation;
          resolved_backends = resolved_backends;
          conditions = conditions;
        };
      }

  unfoldable pub patch_placement_readiness :
      Placement → List Text → Text → Bool → Program (Unit {0})
  unfolding set_placement_readiness
  patch_placement_readiness placement resolved_backends reason ready =
      ask
        (patch_placement_status placement
          (set_placement_readiness placement resolved_backends reason ready))
        void_reply

  -- The call of it for a placement that may be missing.
  unfoldable pub patch_if_there : Option Placement → List Text → Text → Bool → Program (Unit {0})
  unfolding patch_placement_readiness
  patch_if_there none resolved_backends reason ready = done tt
  patch_if_there (some placement) resolved_backends reason ready =
      patch_placement_readiness placement resolved_backends reason ready

  unfoldable pub delete_controlled : Kind → CellRouter → List Header → Program (Unit {0})
  delete_controlled kind router [] = done tt
  delete_controlled kind router (object ∷ rest) =
      let later = delete_controlled kind router rest in
      if not (api.is_controlled_by object router.uid)
      then later
      else do delete_found kind object; later

  -- `deleteManagedHTTPRoutes`.
  unfoldable pub delete_managed_http_routes : CellRouter → Text → Program (Unit {0})
  unfolding delete_controlled
  delete_managed_http_routes router namespace =
      ask (list_objects http_route_kind (some namespace) (router_labels router)) (elim [
        | failed text ↦ fail (client_error text)
        | reply routes ↦ delete_controlled http_route_kind router routes
      ])

  -- `deleteManagedReferenceGrants`.
  unfoldable pub delete_managed_reference_grants : CellRouter → Program (Unit {0})
  unfolding delete_controlled
  delete_managed_reference_grants router =
      ask (list_objects reference_grant_kind none (router_labels router)) (elim [
        | failed text ↦ fail (client_error text)
        | reply grants ↦ delete_controlled reference_grant_kind router grants
      ])

  -- `deleteManagedGateway`.
  unfoldable pub delete_managed_gateway : CellRouter → Program (Unit {0})
  delete_managed_gateway router =
      ask (get_object gateway_kind router.spec.gateway.namespace router.spec.gateway.name) (elim [
        | reply none ↦ done tt
        | failed text ↦ fail (client_error text)
        | reply (some object) ↦
            if not (api.is_controlled_by object router.uid)
            then done tt
            else delete_found gateway_kind object
      ])
