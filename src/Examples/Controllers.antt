-- ===== src/Examples/Controllers.antt =====
-- The theorems on the reconcilers and the events, applied.
use cell_router_operator.Base.{
  ℕ, ◌≡◌, ◌≢◌, ◌↔◌, ◌⊎◌, refl, true, List, [], ◌∷◌, Text, codes, inl, inr, arith,
}
use cell_router_operator.Api.Cell.{draining, other_state}
use cell_router_operator.Overlap.{Conflicts}
use cell_router_operator.Client.{finished, failing, client_error, failed, get_cell, outcome_of}
use cell_router_operator.Client.Runs.{Runs, IsHonest}
use cell_router_operator.CellController.{label_of, count_slices, is_positive_int32}
use cell_router_operator.CellController.Counts.{total_addresses, count_slices-total_addresses}
use cell_router_operator.CellController.Normal.{reconcile_normal}
use cell_router_operator.CellController.Normal.Requests.{IsNormalRequest, IsNormalEnd}
use cell_router_operator.CellController.Normal.Statuses.{reconcile_normal-Runs}
use cell_router_operator.CellController.Reconcile.Finalizer.{IsGuarded, reconcile_found-IsGuarded}
use cell_router_operator.RouterController.Reconcile.Finalizer.{
  IsFinalized, reconcile_found-IsFinalized,
}
use cell_router_operator.CellController.Reconcile.{
  reconcile_found, reconcile_deletion, reconcile_cell,
}
use cell_router_operator.CellController.Reconcile.Deletion.{
  IsDeletionRequest, reconcile_deletion-IsHonest,
}
use cell_router_operator.CellController.Reconcile.Errors.{reconcile_cell-IsHonest}
use cell_router_operator.RouterController.{placements_of}
use cell_router_operator.RouterController.Resolve.{ask_route_backends}
use cell_router_operator.RouterController.Resolve.Refinement.{served}
use cell_router_operator.RouterController.Resolve.Outcomes.{ask_route_backends-RouteOutcome}
use cell_router_operator.Backends.Routes.{RouteOutcome}
use cell_router_operator.Backends.Failures.{IsReferred}
use cell_router_operator.Backends.{effective_namespace, RouteBackends}
use cell_router_operator.RouterController.Routes.{reconcile_routes}
use cell_router_operator.RouterController.Routes.Requests.{IsRouterRequest}
use cell_router_operator.RouterController.Routes.Safe.{RoutesEnd, reconcile_routes-Runs}
use cell_router_operator.RouterController.Reconcile.{reconcile_router}
use cell_router_operator.RouterController.Reconcile.Ends
use cell_router_operator.RouterController.Reconcile.Errors.{
  IsExplained, reconcile_router-IsExplained,
}
use cell_router_operator.RouterController.Reconcile.Deletion.{reconcile_deletion-Runs}
use cell_router_operator.RouterController.Reconcile.Statuses.{reconcile_normal-IsNormalEnd}
use cell_router_operator.Events.{requests_for_endpoint_slice, requests_for_placement}
use cell_router_operator.Events.Complete.{
  IsText, requests_for_endpoint_slice_complete, requests_for_placement-placements_of,
}
use cell_router_operator.Examples.Data.{
  group_names, users, accounts, static_route, main_router, cell_in,
}
use cell_router_operator.Examples.Machines.{machines, machines-laws, slice_of_a, server}

abbrev hash : Text → ℕ
hash t = 7

abbrev in_order : Conflicts → Conflicts
in_order m = m

reconcile_normal-Runs_example :
    Runs
      (IsNormalRequest machines (cell_in (codes "a") (other_state [])))
      (IsNormalEnd machines)
      []
      (reconcile_normal machines (cell_in (codes "a") (other_state [])))
reconcile_normal-Runs_example =
    reconcile_normal-Runs machines machines-laws (cell_in (codes "a") (other_state [])) [] refl

reconcile_deletion-IsHonest_example :
    Runs
      (IsDeletionRequest machines (cell_in (codes "b") draining))
      IsHonest
      []
      (reconcile_deletion machines (cell_in (codes "b") draining))
reconcile_deletion-IsHonest_example =
    reconcile_deletion-IsHonest machines (cell_in (codes "b") draining) [] refl

reconcile_cell-IsHonest_example :
    Runs (λ log q. Unit) IsHonest [] (reconcile_cell machines (codes "a"))
reconcile_cell-IsHonest_example = reconcile_cell-IsHonest machines machines-laws (codes "a")

count_slices-total_addresses_example :
    (count_slices 0 (slice_of_a ∷ []) ≡ total_addresses (slice_of_a ∷ []))
    × ((is_positive_int32 (count_slices 0 (slice_of_a ∷ [])) ≡ true)
        ↔ (total_addresses (slice_of_a ∷ []) ≢ 0))
unfolding total_addresses
count_slices-total_addresses_example = count_slices-total_addresses (slice_of_a ∷ []) (omega arith)

reconcile_routes-Runs_example :
    Runs
      (IsRouterRequest machines main_router)
      (RoutesEnd machines machines-laws hash group_names in_order
        (λ m h. h)
        main_router
        (users ∷ []))
      []
      (reconcile_routes machines hash group_names in_order main_router
        (codes "gateways")
        (users ∷ []))
reconcile_routes-Runs_example =
    reconcile_routes-Runs machines machines-laws hash group_names in_order (λ m h. h) main_router
      (users ∷ []) [] refl (refl, refl, refl)

reconcile_normal-IsNormalEnd_example :
    Runs
      (cell_router_operator.RouterController.Reconcile.Ends.IsNormalRequest machines group_names
        main_router [])
      (cell_router_operator.RouterController.Reconcile.Ends.IsNormalEnd machines group_names
        main_router [])
      []
      (cell_router_operator.RouterController.Reconcile.reconcile_normal machines hash group_names
        in_order main_router)
reconcile_normal-IsNormalEnd_example =
    reconcile_normal-IsNormalEnd machines machines-laws hash group_names in_order (λ m h. h)
      main_router [] refl (refl, refl, refl)

reconcile_router-IsExplained_example :
    Runs
      (λ log q. Unit)
      (IsExplained machines group_names (codes "main"))
      []
      (reconcile_router machines hash group_names in_order (codes "main"))
reconcile_router-IsExplained_example =
    reconcile_router-IsExplained machines machines-laws hash group_names in_order (λ m h. h)
      (codes "main")

reconcile_deletion-Runs_example :
    Runs
      (cell_router_operator.RouterController.Reconcile.Deletion.IsDeletionRequest machines
        main_router)
      IsHonest
      []
      (cell_router_operator.RouterController.Reconcile.reconcile_deletion machines main_router)
reconcile_deletion-Runs_example = reconcile_deletion-Runs machines main_router [] refl

ask_route_backends-RouteOutcome_example :
    ((r : RouteBackends) × (outcome_of server (ask_route_backends machines static_route)
        ≡ finished r)
      × RouteOutcome machines.find_condition (served machines server) static_route r)
    ⊎ ((name e : Text) × IsReferred name static_route
        × (server (get_cell name) ≡ failed e)
        × (outcome_of server (ask_route_backends machines static_route) ≡ failing (client_error e)))
ask_route_backends-RouteOutcome_example =
    ask_route_backends-RouteOutcome machines server static_route

requests_for_endpoint_slice_complete_example :
    (names : List Text) × (outcome_of server
        (requests_for_endpoint_slice (codes "kubernetes.io/service-name") slice_of_a)
      ≡ finished names)
    × IsText (codes "a") names
unfolding server label_of effective_namespace
requests_for_endpoint_slice_complete_example =
    requests_for_endpoint_slice_complete (codes "kubernetes.io/service-name") slice_of_a server
      (cell_in (codes "b") draining ∷ cell_in (codes "a") (other_state []) ∷ [])
      (cell_in (codes "a") (other_state [])) refl (inr (inl refl)) (refl, refl) refl

requests_for_placement-placements_of_example : requests_for_placement users ≡ codes "main" ∷ []
unfolding placements_of
requests_for_placement-placements_of_example =
    requests_for_placement-placements_of (codes "main") (accounts ∷ users ∷ []) users
      (inr (inl refl)) refl

reconcile_found-IsGuarded_example :
    Runs
      (IsGuarded machines (cell_in (codes "a") draining))
      (λ log o. Unit)
      []
      (reconcile_found machines (cell_in (codes "a") draining))
reconcile_found-IsGuarded_example =
    reconcile_found-IsGuarded machines (cell_in (codes "a") draining) [] refl

reconcile_found-IsFinalized_example :
    Runs
      (IsFinalized machines main_router)
      (λ log o. Unit)
      []
      (cell_router_operator.RouterController.Reconcile.reconcile_found machines hash group_names
        in_order main_router)
reconcile_found-IsFinalized_example =
    reconcile_found-IsFinalized machines hash group_names in_order main_router [] refl
