-- ===== src/RouterController/Reconcile/Ends.antt =====
-- What the reconciliation of a router that is not deleted may send, and how it may end.
use cell_router_operator.Base.{◌≡◌, ◌⊎◌, true, false, List, [], ◌∷◌, Text, Option, none, All}
use cell_router_operator.Errors.{Error, ok, err, panic}
use cell_router_operator.Api.Placement.{Placement}
use cell_router_operator.Api.Router.{CellRouter, router_ready_condition}
use cell_router_operator.RoutePlans.{RoutePlan, build_route_plans}
use cell_router_operator.Backends.Resolved.{IsTrue}
use cell_router_operator.Client.{
  reply, Request, list_placements, patch_router_status, plan_error, gateway_namespace_required,
  Outcome, finished, failing, crashed,
}
use cell_router_operator.Client.Runs.{Log, has_failed, Extends, Extends-trans}
use cell_router_operator.Client.Written.{route_answers}
use cell_router_operator.Machinery.{Machinery}
use cell_router_operator.CellController.Normal.{Requeue}
use cell_router_operator.RouterController.{placements_of}
use cell_router_operator.RouterController.Routes.Requests.{IsServed, IsRouterRequest}

-- The placements of the router in a list that the server has given since `start`.
abbrev pub Listed : CellRouter → Log → Log → List Placement → Type 0
Listed router start log placements =
    (cluster : List Placement) × (before : Log) × Extends start before
    × Extends ((list_placements, reply cluster) ∷ before) log
    × (placements ≡ placements_of router.name cluster)

pub Listed-Extends :
    (router : CellRouter) (start log log' : Log) (placements : List Placement)
    → Extends log log'
    → Listed router start log placements
    → Listed router start log' placements
Listed-Extends router start log log' placements later (cluster, before, first, then, same) =
    (cluster, before, first, Extends-trans then later, same)

-- The Ready condition of a router is there and is true.
abbrev pub IsReady : Machinery → CellRouter → Type 0
IsReady api r = IsTrue (api.find_condition r.status.conditions router_ready_condition)

module _ (api : Machinery) (subexp_names : Text → Option (List Text)) (router : CellRouter)
    (start : Log) where
  -- The placements that were listed have plans, and none of them is invalid.
  abbrev pub NoneInvalid : Log → Type 0
  NoneInvalid log =
      (placements : List Placement) × (plans : List RoutePlan) × Listed router start log placements
      × (build_route_plans subexp_names router placements ≡ ok (plans, []))

  -- A status of the router, by which it is ready only if no request has failed, the gateway serves
  -- every route that was written, and no placement is invalid.
  abbrev pub IsStatusRequest : Log → Request → Type 0
  IsStatusRequest log (patch_router_status before after) =
      (before ≡ router)
      × (after.spec ≡ router.spec)
      × (IsReady api after
          → (has_failed log ≡ false) × All (IsServed router) (route_answers log) × NoneInvalid log)
  IsStatusRequest log q = ⊥

  abbrev pub IsNormalRequest : Log → Request → Type 0
  IsNormalRequest log q = IsRouterRequest api router log q ⊎ IsStatusRequest log q

  -- A reconciliation ends after the status was written, and is not repeated by itself if the router
  -- is ready; or with the error of a request, of the gateway's namespace or of the plans.
  abbrev pub IsNormalEnd : Log → Outcome Requeue → Type 0
  IsNormalEnd log (finished again) =
      (has_failed log ≡ false)
      × (after : CellRouter) × (before : Log) × (log
          ≡ (patch_router_status router after, reply tt) ∷ before)
      × (IsReady api after → again ≡ none)
  IsNormalEnd log (failing f) =
      (has_failed log ≡ true)
      ⊎ ((f ≡ gateway_namespace_required) × (router.spec.gateway.namespace ≡ []))
      ⊎ ((placements : List Placement) × (e : Error) × (f ≡ plan_error e)
          × Listed router start log placements
          × (build_route_plans subexp_names router placements ≡ err e))
  IsNormalEnd log crashed =
      (placements : List Placement) × Listed router start log placements
      × (build_route_plans subexp_names router placements ≡ panic)
