-- ===== src/RouteStatus.antt =====
-- When a gateway serves a route: `isRouteReady` of internal/controller/cellrouter_controller.go.
pub mod Ready
use cell_router_operator.Base.{
  ℕ, Bool, true, false, not, ◌&&◌, ◌||◌, Option, none, some, List, [], ◌∷◌, ltb, if◌then◌else◌,
  Text, codes, text_eq,
}
use cell_router_operator.Api.Meta.{Condition}
use cell_router_operator.Backends.{is_true}

-- The status of an HTTPRoute's parent.
pub record RouteParentStatus : Type 0 where
  pub name : Text
  pub namespace : Option Text
  pub conditions : List Condition

-- `accepted`, `resolved`, `resolvedSeen` and `readyTime`.
pub record ParentScan : Type 0 where
  pub accepted : Bool
  pub resolved_refs : Bool
  pub resolved_seen : Bool
  pub ready_time : Option ℕ

-- `readyTime == nil || cond.LastTransitionTime.After(readyTime.Time)`.
abbrev pub later_time : Option ℕ → ℕ → Option ℕ
later_time none t = some t
later_time (some r) t = if ltb r t then some t else some r

-- One round of the loop over a parent's conditions.
pub scan_condition : ParentScan → Condition → ParentScan
unfolding text_eq
scan_condition s c =
    if text_eq c.kind (codes "Accepted")
    then (if is_true c.status
        then record s { accepted = true; ready_time = some c.last_transition_time }
        else s)
    else if text_eq c.kind (codes "ResolvedRefs")
    then (if is_true c.status
        then record s {
          resolved_refs = true;
          resolved_seen = true;
          ready_time = later_time s.ready_time c.last_transition_time;
        }
        else record s { resolved_seen = true })
    else s

pub scan_conditions : ParentScan → List Condition → ParentScan
scan_conditions s [] = s
scan_conditions s (c ∷ rest) = scan_conditions (scan_condition s c) rest

abbrev pub scan_fresh : ParentScan
scan_fresh = record {
  accepted = false;
  resolved_refs = false;
  resolved_seen = false;
  ready_time = none;
}

abbrev pub in_namespace : Option Text → Text → Bool
in_namespace none gateway_namespace = true
in_namespace (some n) gateway_namespace = text_eq n gateway_namespace

pub is_parent : Text → Text → RouteParentStatus → Bool
unfolding text_eq
is_parent gateway_name gateway_namespace p =
    text_eq p.name gateway_name && in_namespace p.namespace gateway_namespace

-- `isRouteReady`.
unfoldable pub is_route_ready : List RouteParentStatus → Text → Text → Bool × Option ℕ
unfolding is_parent scan_conditions scan_condition
is_route_ready [] gateway_name gateway_namespace = (false, none)
is_route_ready (p ∷ parents) gateway_name gateway_namespace =
    let later = is_route_ready parents gateway_name gateway_namespace in
    let s = scan_conditions scan_fresh p.conditions in
    if is_parent gateway_name gateway_namespace p
    then (if s.accepted && (not s.resolved_seen || s.resolved_refs)
        then (true, s.ready_time)
        else later)
    else later
