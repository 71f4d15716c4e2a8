-- ===== src/RoutePlans.antt =====
-- `buildRoutePlans` of internal/controller/cellrouter_controller.go: the routes that a router asks
-- for, and those of its placements.
pub mod Names
pub mod Total
pub mod Distinct
use cell_router_operator.Base.{
  Bool, true, false, Option, none, some, List, [], ◌∷◌, ◌++◌, any, Text, text_eq, Dict, lookup,
  insert, if◌then◌else◌,
}
use cell_router_operator.Errors.{
  Error, Result, ok, err, panic, ◌>>=◌, ◌>>◌, reject_if, duplicate_route, conflicting_placement,
  InvalidReason, invalid_placement,
}
use cell_router_operator.Api.Placement.{Placement}
use cell_router_operator.Api.Router.{RouteSpec, CellRouter}
use cell_router_operator.Compiler.{route_spec_from_placement}
use cell_router_operator.Overlap.{Conflicts, validate_placement_overlaps}

pub record RoutePlan : Type 0 where
  pub name : Text
  pub spec : RouteSpec
  pub placement : Option Placement
  pub placement_ref : Text

-- `_, exists := seenNames[name]`.
unfoldable pub is_seen : Text → List Text → Bool
unfolding text_eq
is_seen name seen = any (λ n. text_eq n name) seen

-- The first loop: the plans of the router's own routes, and `seenNames` after it.
pub static_plans : List Text → List RouteSpec → Result (List RoutePlan × List Text)
unfolding is_seen
static_plans seen [] = ok ([], seen)
static_plans seen (r ∷ rest) = do
  reject_if (is_seen r.name seen) (duplicate_route r.name)
  (plans, seen') ← static_plans (r.name ∷ seen) rest
  ok (record { name = r.name; spec = r; placement = none; placement_ref = [] } ∷ plans, seen')

abbrev pub placement_plan : Placement → RouteSpec → RoutePlan
placement_plan p spec = record {
  name = p.name;
  spec = spec;
  placement = some p;
  placement_ref = p.name;
}

-- The plan of a placement that does not overlap, or the reason why it has none.
pub data Planned : Type 0 where
  planned : RouteSpec → Planned
  refused : InvalidReason → Planned

module _ (subexp_names : Text → Option (List Text)) where
  -- `invalidPlacements[placement.Name]`, and the compilation where there is no entry.
  pub plan_of : Option InvalidReason → Placement → Result Planned
  unfolding route_spec_from_placement
  plan_of (some reason) p = ok (refused reason)
  plan_of none p = elim (route_spec_from_placement subexp_names p) [
    | ok spec ↦ ok (planned spec)
    | err e ↦ ok (refused (invalid_placement e))
    | panic ↦ panic
  ]

  -- The second loop: the plans of the placements, and `invalidPlacements` after it.
  pub placement_plans : List Text → Conflicts → List Placement → Result (List RoutePlan × Conflicts)
  unfolding is_seen plan_of lookup insert
  placement_plans seen invalid [] = ok ([], invalid)
  placement_plans seen invalid (p ∷ rest) = do
    reject_if (is_seen p.name seen) (conflicting_placement p.name)
    plan ← plan_of (lookup p.name invalid) p
    elim plan [
      | planned spec ↦ do
        (plans, invalid') ← placement_plans (p.name ∷ seen) invalid rest
        ok (placement_plan p spec ∷ plans, invalid')
      | refused reason ↦ placement_plans (p.name ∷ seen) (insert p.name reason invalid) rest
    ]

  unfoldable pub build_route_plans :
      CellRouter → List Placement → Result (List RoutePlan × Conflicts)
  unfolding validate_placement_overlaps static_plans placement_plans
  build_route_plans router placements = do
    overlaps ← validate_placement_overlaps placements
    (static, seen) ← static_plans [] router.spec.routes
    (plans, invalid) ← placement_plans seen overlaps placements
    ok (static ++ plans, invalid)
