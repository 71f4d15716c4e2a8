-- ===== src/RouterController/Routes.antt =====
-- `reconcileRoutes` of internal/controller/cellrouter_controller.go.
pub mod Requests
pub mod Cleanup
pub mod Safe
use cell_router_operator.Base.{
  ℕ, Bool, true, false, not, ◌&&◌, ◌||◌, Option, none, some, List, [], ◌∷◌, ◌++◌, if◌then◌else◌,
  is_empty, Text,
}
use cell_router_operator.Errors.{Result, ok, err, panic, InvalidReason}
use cell_router_operator.Api.Placement.{Placement}
use cell_router_operator.Api.Router.{ManagedRouteStatus, CellRouter}
use cell_router_operator.RouteBuilder.{BackendTarget, reference_grant_name, mutate_http_route}
use cell_router_operator.Overlap.{Conflicts}
use cell_router_operator.RoutePlans.{RoutePlan, build_route_plans}
use cell_router_operator.Backends.{RouteBackends}
use cell_router_operator.RouteStatus.{RouteParentStatus, is_route_ready}
use cell_router_operator.Client.{
  http_route_kind, change_route, Request, write_object, plan_error, Program, end, crashed, ask,
  done, fail, ◌>>=◌, ◌>>◌, from_reply,
}
use cell_router_operator.Machinery.{Machinery}
use cell_router_operator.Messages.{route_reason_text, invalid_reason_text}
use cell_router_operator.RouterController.{
  find_placement_by_name, cleanup_stale_routes, cleanup_stale_reference_grants, patch_if_there,
  reconcile_reference_grant,
}
use cell_router_operator.RouterController.Resolve.{ask_route_backends}

-- The variables of the loop over the plans: `allReady`, `needsRequeue`, `statuses`, and the keys of
-- `expectedRoutes` and `expectedGrants`.
pub record RoutesRound : Type 0 where
  pub all_ready : Bool
  pub needs_requeue : Bool
  pub statuses : List ManagedRouteStatus
  pub routes : List Text
  pub grants : List Text

-- The first results of `reconcileRoutes`.
pub record RoutesResult : Type 0 where
  pub all_ready : Bool
  pub needs_requeue : Bool
  pub statuses : List ManagedRouteStatus

abbrev pub from_result {ℓ} : {A : Type ℓ} → Result A → Program A
from_result (ok a) = done a
from_result (err e) = fail (plan_error e)
from_result panic = end crashed

abbrev pub write_route : CellRouter → Text → RoutePlan → List BackendTarget → Request
write_route router gateway_namespace plan backends = write_object (record {
  kind = http_route_kind;
  namespace = gateway_namespace;
  name = plan.name;
  change = change_route (λ route.
      mutate_http_route route router plan.spec gateway_namespace backends plan.placement_ref);
  controller = some router.uid;
})

-- What `isRouteReady` makes of the variables.
unfoldable pub note_readiness : RoutesRound → ManagedRouteStatus → Bool × Option ℕ → RoutesRound
note_readiness round status (ready, time) = record round {
  all_ready = ready && round.all_ready;
  needs_requeue = not ready || round.needs_requeue;
  statuses = round.statuses ++ record status { last_transition_time = time } ∷ [];
}

module _ (api : Machinery) where
  -- The loop over `invalidPlacements`, with `statuses` after it.
  unfoldable pub report_invalid :
      List Placement → Conflicts → List ManagedRouteStatus → Program (List ManagedRouteStatus)
  unfolding find_placement_by_name patch_if_there invalid_reason_text
  report_invalid placements [] statuses = done statuses
  report_invalid placements ((name, why) ∷ rest) statuses = do
    let reason = invalid_reason_text api why
    patch_if_there api (find_placement_by_name placements name) [] reason false
    report_invalid placements rest (
        statuses
        ++ record {
          name = name;
          listener_names = [];
          cell_ref = [];
          backend_refs = [];
          placement_ref = name;
          reason = reason;
          last_transition_time = none;
        }
          ∷ [])

  unfoldable pub status_of : RoutePlan → RouteBackends → ManagedRouteStatus
  unfolding route_reason_text
  status_of plan found = record {
    name = plan.name;
    listener_names = plan.spec.listener_names;
    cell_ref = plan.spec.cell_ref;
    backend_refs = found.backend_refs;
    placement_ref = plan.placement_ref;
    reason = route_reason_text api found.reason;
    last_transition_time = none;
  }

-- `sum32` is `hash/fnv`'s hash.
module _ (sum32 : Text → ℕ) where
  -- The loop over the backends of a route, with `expectedGrants` after it.
  unfoldable pub reconcile_grants :
      CellRouter → Text → Text → List BackendTarget → List Text → Program (List Text)
  unfolding reference_grant_name reconcile_reference_grant
  reconcile_grants router route_name gateway_namespace [] grants = done grants
  reconcile_grants router route_name gateway_namespace (backend ∷ rest) grants = do
    reconcile_reference_grant sum32 router route_name gateway_namespace backend
    reconcile_grants router route_name gateway_namespace rest
        (reference_grant_name sum32 route_name backend ∷ grants)

  -- The rest of the body of the loop, for a route with backends.
  unfoldable pub publish_route :
      CellRouter
      → Text
      → RoutesRound
      → RoutePlan
      → List BackendTarget
      → ManagedRouteStatus
      → Program RoutesRound
  unfolding reconcile_grants is_route_ready note_readiness
  publish_route router gateway_namespace round plan backends status = do
    grants ← reconcile_grants router plan.name gateway_namespace backends round.grants
    parents ← ask (write_route router gateway_namespace plan backends) from_reply
    done (
        note_readiness (record round { routes = plan.name ∷ round.routes; grants = grants }) status
          (is_route_ready parents router.spec.gateway.name gateway_namespace))

module _ (api : Machinery) (sum32 : Text → ℕ) where
  -- The body of the loop over the plans.
  unfoldable pub reconcile_plan : CellRouter → Text → RoutesRound → RoutePlan → Program RoutesRound
  unfolding ask_route_backends status_of route_reason_text patch_if_there publish_route
  reconcile_plan router gateway_namespace round plan = do
    found ← ask_route_backends api plan.spec
    patch_if_there api plan.placement found.backend_refs (route_reason_text api found.reason)
        (not (is_empty found.backends))
    if is_empty found.backends
        then done (record round {
          all_ready = false;
          needs_requeue = round.needs_requeue || found.needs_requeue;
          statuses = round.statuses ++ status_of api plan found ∷ [];
        })
        else publish_route sum32 router gateway_namespace round plan found.backends
            (status_of api plan found)

  unfoldable pub reconcile_plans :
      CellRouter → Text → RoutesRound → List RoutePlan → Program RoutesRound
  unfolding reconcile_plan
  reconcile_plans router gateway_namespace round [] = done round
  reconcile_plans router gateway_namespace round (plan ∷ rest) = do
    next ← reconcile_plan router gateway_namespace round plan
    reconcile_plans router gateway_namespace next rest

-- `subexp_names` gives the names of a regular expression's groups, and `iterate` the order in which
-- Go ranges over `invalidPlacements`.
module _ (api : Machinery) (sum32 : Text → ℕ) (subexp_names : Text → Option (List Text))
    (iterate : Conflicts → Conflicts) where
  -- `reconcileRoutes`: a round of the loop over `invalidPlacements` makes `allReady` false.
  unfoldable pub reconcile_routes : CellRouter → Text → List Placement → Program RoutesResult
  unfolding build_route_plans report_invalid reconcile_plans cleanup_stale_routes
      cleanup_stale_reference_grants
  reconcile_routes router gateway_namespace placements = do
    (plans, invalid) ← from_result (build_route_plans subexp_names router placements)
    statuses ← report_invalid api placements (iterate invalid) []
    round ←
        reconcile_plans api sum32 router gateway_namespace
          (record {
            all_ready = is_empty (iterate invalid);
            needs_requeue = false;
            statuses = statuses;
            routes = [];
            grants = [];
          })
          plans
    cleanup_stale_routes router gateway_namespace round.routes
    cleanup_stale_reference_grants router round.grants
    done (record {
      all_ready = round.all_ready;
      needs_requeue = round.needs_requeue;
      statuses = round.statuses;
    })
