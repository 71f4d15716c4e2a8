-- ===== src/RoutePlans/Distinct.antt =====
-- The names of the routes and of the placements that `buildRoutePlans` plans.
use cell_router_operator.Base.{
  ◌≡◌, refl, ap, ◌∙◌, true, false, Option, List, [], ◌∷◌, ◌++◌, arith, inl, inr, Text,
}
use cell_router_operator.Errors.{ok, reject_if, >>=-eq-ok, duplicate_route}
use cell_router_operator.Api.Placement.{Placement}
use cell_router_operator.Api.Router.{RouteSpec, CellRouter}
use cell_router_operator.Overlap.{Conflicts, validate_placement_overlaps}
use cell_router_operator.RoutePlans.{
  RoutePlan, is_seen, static_plans, placement_plans, build_route_plans,
}
use cell_router_operator.RoutePlans.Names.{route_names, Round-of_ok}
use cell_router_operator.RoutePlans.Total.{
  is_distinct, are_new, are_new-eq, none_seen-nil, placement_names,
}

static_plans-are_new :
    (seen : List Text) (routes : List RouteSpec) (ns : List Text) (plans : List RoutePlan)
    (seen' : List Text)
    → static_plans seen routes ≡ ok (plans, seen')
    → are_new seen' ns ≡ true
    → are_new seen (route_names routes ++ ns) ≡ true
unfolding static_plans are_new
static_plans-are_new seen [] ns plans seen' h new =
    let same : seen ≡ seen' = ground arith in ap (λ s. are_new s ns) same ∙ new
static_plans-are_new seen (r ∷ rest) ns plans seen' h new =
    let (u, fresh, h1) = >>=-eq-ok (reject_if (is_seen r.name seen) (duplicate_route r.name)) _ h in
    let ((plans1, seen1), made, h2) = >>=-eq-ok (static_plans (r.name ∷ seen) rest) _ h1 in
    let same : seen1 ≡ seen' = ground arith in
    let later = static_plans-are_new (r.name ∷ seen) rest ns plans1 seen1 made (rw same new) in
    let first : is_seen r.name seen ≡ false = ground arith in rw (first, later) refl

module _ (subexp_names : Text → Option (List Text)) where
  placement_plans-are_new :
      (seen : List Text) (invalid : Conflicts) (l : List Placement) (plans : List RoutePlan)
      (invalid' : Conflicts)
      → placement_plans subexp_names seen invalid l ≡ ok (plans, invalid')
      → are_new seen (placement_names l) ≡ true
  unfolding are_new
  placement_plans-are_new seen invalid [] plans invalid' h = refl
  placement_plans-are_new seen invalid (p ∷ rest) plans invalid' h =
      let r = Round-of_ok subexp_names seen invalid p rest plans invalid' h in
      elim r.outcome [
        | inl (spec, plans1, valid, first, later) ↦
            rw (r.fresh, placement_plans-are_new (p.name ∷ seen) _ rest plans1 invalid' later) refl
        | inr (reason, later) ↦
            rw (r.fresh, placement_plans-are_new (p.name ∷ seen) _ rest plans invalid' later) refl
      ]

  -- When buildRoutePlans returns plans, the names of the router's routes and of the placements are
  -- all different.
  pub build_route_plans-is_distinct :
      (router : CellRouter) (placements : List Placement) (plans : List RoutePlan)
      (invalid : Conflicts)
      → build_route_plans subexp_names router placements ≡ ok (plans, invalid)
      → is_distinct (route_names router.spec.routes ++ placement_names placements) ≡ true
  unfolding build_route_plans
  build_route_plans-is_distinct router placements plans invalid h =
      let (overlaps, found, h1) = >>=-eq-ok (validate_placement_overlaps placements) _ h in
      let ((static, seen), made, h2) = >>=-eq-ok (static_plans [] router.spec.routes) _ h1 in
      let ((later, invalid1), all_made, h3) =
        >>=-eq-ok (placement_plans subexp_names seen overlaps placements) _ h2 in
      let names = route_names router.spec.routes ++ placement_names placements in
      let new : are_new [] names ≡ true =
        static_plans-are_new [] router.spec.routes (placement_names placements) static seen made
          (placement_plans-are_new seen overlaps placements later invalid1 all_made) in
      let apart = none_seen-nil names in let split = are_new-eq [] names in ground arith
