-- ===== src/Examples/Routing.antt =====
-- The theorems on plans, overlaps, backends and routes, applied.
use cell_router_operator.Base.{
  true, ◌≡◌, ◌≢◌, ◌↔◌, refl, ◌&&◌, none, List, [], ◌∷◌, ◌++◌, arith, any, All, Text, codes,
}
use cell_router_operator.Errors.{ok, Succeeds, overlaps_with}
use cell_router_operator.Base.{is_blank}
use cell_router_operator.Validation.{
  validate_selector, validate_source, path_regex_has_named_capture, validate_range, source_key,
}
use cell_router_operator.Decimal.{is_decimal}
use cell_router_operator.Strconv.{parse_uint}
use cell_router_operator.RangeRegex.{numeric_range_regex}
use cell_router_operator.Capture.{replace_named_capture_body}
use cell_router_operator.Api.Placement.{Placement}
use cell_router_operator.Api.Cell.{draining}
use cell_router_operator.Compiler.{route_spec_from_placement}
use cell_router_operator.Overlap.{
  Conflicts, placements_obviously_overlap, validate_placement_overlaps,
}
use cell_router_operator.Overlap.Symmetric.{placements_obviously_overlap_comm}
use cell_router_operator.Overlap.Total.{CarryRanges, validate_placement_overlaps-Succeeds}
use cell_router_operator.Overlap.Conflicts.{
  is_named, overlaps_another, validate_placement_overlaps-exact,
}
use cell_router_operator.RoutePlans.{RoutePlan, placement_plan, build_route_plans}
use cell_router_operator.RoutePlans.Names.{
  plan_names, route_names, valid_names, build_route_plans-names,
}
use cell_router_operator.RoutePlans.Total.{is_distinct, placement_names, build_route_plans-Succeeds}
use cell_router_operator.RoutePlans.Distinct.{build_route_plans-is_distinct}
use cell_router_operator.RouteBuilder.{HttpRoute, HttpRouteRule, mutate_http_route}
use cell_router_operator.RouteBuilder.Routes.{mutate_http_route-matches}
use cell_router_operator.Backends.{
  fetch_error, RouteBackends, cell_not_traffic_ready, resolve_route_backends, route_resolved,
}
use cell_router_operator.Backends.Resolved.{IsTrafficReady, cell_not_traffic_ready_iff}
use cell_router_operator.Backends.Routes.{RouteOutcome, resolve_route_backends-resolved}
use cell_router_operator.RouteStatus.{RouteParentStatus, is_parent, is_route_ready}
use cell_router_operator.RouteStatus.Ready.{parent_ready, is_route_ready-any}
use cell_router_operator.Examples.Data.{
  group_names, users, accounts, users_route, static_route, main_router, holds, cell_in, get_cell,
  find_condition,
}

abbrev no_route : HttpRoute
no_route = record { labels = none; parent_refs = []; hostnames = []; rules = [] }

users-compiles : route_spec_from_placement group_names users ≡ ok users_route
unfolding route_spec_from_placement is_blank validate_selector validate_source
    path_regex_has_named_capture group_names validate_range is_decimal parse_uint source_key
    numeric_range_regex replace_named_capture_body
users-compiles = refl

mutate_http_route-matches_example :
    (rule : HttpRouteRule) × ((mutate_http_route no_route main_router users_route
        (codes "gateways")
        []
        users.name).rules
      ≡ rule ∷ [])
    × (rule.matches ≢ [])
mutate_http_route-matches_example =
    mutate_http_route-matches group_names users users_route no_route main_router (codes "gateways")
      [] users-compiles

get_cell-answers : (name e : Text) → get_cell name ≢ fetch_error e
unfolding get_cell
get_cell-answers name e h = ground arith

resolve_route_backends-resolved_example :
    (r : RouteBackends) × (resolve_route_backends find_condition get_cell static_route
      ≡ route_resolved r)
    × RouteOutcome find_condition get_cell static_route r
resolve_route_backends-resolved_example =
    resolve_route_backends-resolved find_condition get_cell static_route get_cell-answers

cell_not_traffic_ready_iff_example :
    (cell_not_traffic_ready find_condition (cell_in (codes "b") draining) ≡ none)
    ↔ IsTrafficReady find_condition (cell_in (codes "b") draining)
cell_not_traffic_ready_iff_example =
    cell_not_traffic_ready_iff find_condition (cell_in (codes "b") draining)

abbrev both_placements : List Placement
both_placements = users ∷ accounts ∷ []

abbrev both_conflicts : Conflicts
both_conflicts =
    (codes "users", overlaps_with (codes "accounts"))
    ∷ (codes "accounts", overlaps_with (codes "users"))
    ∷ []

both-carry : All (λ (p : Placement). CarryRanges p.spec.selectors) both_placements
both-carry = (
  ((λ e h. ground arith), ((λ e h. ground arith), tt)),
  (((λ e h. ground arith), ((λ e h. ground arith), tt)), tt),
)

placements_obviously_overlap_comm_example :
    placements_obviously_overlap users accounts ≡ placements_obviously_overlap accounts users
placements_obviously_overlap_comm_example = placements_obviously_overlap_comm users accounts

validate_placement_overlaps-Succeeds_example :
    Succeeds (validate_placement_overlaps both_placements)
validate_placement_overlaps-Succeeds_example =
    validate_placement_overlaps-Succeeds both_placements both-carry

validate_placement_overlaps-exact_example :
    is_named (codes "users") both_conflicts ≡ overlaps_another (codes "users") both_placements
validate_placement_overlaps-exact_example =
    validate_placement_overlaps-exact both_placements both_conflicts (codes "users")
      (unfold validate_placement_overlaps in refl)

build_route_plans-Succeeds_example :
    Succeeds (build_route_plans group_names main_router both_placements)
build_route_plans-Succeeds_example =
    build_route_plans-Succeeds group_names main_router both_placements (unfold is_distinct in refl)
      both-carry

abbrev users_plans : List RoutePlan
users_plans =
    record { name = codes "static"; spec = static_route; placement = none; placement_ref = [] }
    ∷ placement_plan users users_route
    ∷ []

users-planned : build_route_plans group_names main_router (users ∷ []) ≡ ok (users_plans, [])
unfolding build_route_plans is_blank validate_selector validate_source path_regex_has_named_capture
    group_names validate_range is_decimal parse_uint source_key numeric_range_regex
    replace_named_capture_body
users-planned = refl

build_route_plans-names_example :
    plan_names users_plans ≡ route_names main_router.spec.routes ++ valid_names [] (users ∷ [])
build_route_plans-names_example =
    build_route_plans-names group_names main_router (users ∷ []) users_plans [] users-planned

build_route_plans-is_distinct_example :
    is_distinct (route_names main_router.spec.routes ++ placement_names (users ∷ [])) ≡ true
build_route_plans-is_distinct_example =
    build_route_plans-is_distinct group_names main_router (users ∷ []) users_plans [] users-planned

abbrev edge_status : RouteParentStatus
edge_status = record {
  name = codes "edge";
  namespace = none;
  conditions = holds (codes "Accepted") ∷ holds (codes "ResolvedRefs") ∷ [];
}

is_route_ready-any_example :
    (is_route_ready (edge_status ∷ []) (codes "edge") (codes "gateways")).0
    ≡ any
        (λ p. is_parent (codes "edge") (codes "gateways") p && parent_ready p.conditions)
        (edge_status ∷ [])
is_route_ready-any_example = is_route_ready-any (edge_status ∷ []) (codes "edge") (codes "gateways")
