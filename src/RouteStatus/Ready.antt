-- ===== src/RouteStatus/Ready.antt =====
-- When a route is ready, without the loop's variables.
use cell_router_operator.Base.{
  ◌≡◌, refl, ◌∙◌, Bool, true, false, not, ◌&&◌, ◌||◌, List, [], ◌∷◌, arith, any, Text, codes,
  text_eq, text_eq_iff,
}
use cell_router_operator.Api.Meta.{Condition}
use cell_router_operator.Backends.{is_true}
use cell_router_operator.RouteStatus.{
  RouteParentStatus, ParentScan, scan_condition, scan_conditions, scan_fresh, is_parent,
  is_route_ready,
}

-- Some condition has the type.
pub has_condition : Text → List Condition → Bool
unfolding text_eq
has_condition kind conditions = any (λ c. text_eq c.kind kind) conditions

-- Some condition of the type is true.
pub has_true : Text → List Condition → Bool
unfolding text_eq
has_true kind conditions = any (λ c. text_eq c.kind kind && is_true c.status) conditions

-- A gateway has accepted the route, and has resolved its references if it says anything of them.
unfoldable pub parent_ready : List Condition → Bool
unfolding has_true has_condition
parent_ready conditions =
    has_true (codes "Accepted") conditions
    && (not (has_condition (codes "ResolvedRefs") conditions)
        || has_true (codes "ResolvedRefs") conditions)

record Scanned (s : ParentScan) (conditions : List Condition) : Type 0 where
  accepted :
      (scan_conditions s conditions).accepted
      ≡ (s.accepted || has_true (codes "Accepted") conditions)
  resolved_refs :
      (scan_conditions s conditions).resolved_refs
      ≡ (s.resolved_refs || has_true (codes "ResolvedRefs") conditions)
  resolved_seen :
      (scan_conditions s conditions).resolved_seen
      ≡ (s.resolved_seen || has_condition (codes "ResolvedRefs") conditions)

distinct_kinds :
    (k : Text) → text_eq k (codes "Accepted") ≡ true → text_eq k (codes "ResolvedRefs") ≡ false
distinct_kinds k h = rw ((text_eq_iff k (codes "Accepted")).0 h) (unfold text_eq in refl)

scan_conditions-Scanned : (s : ParentScan) (conditions : List Condition) → Scanned s conditions
unfolding scan_conditions scan_condition has_true has_condition
scan_conditions-Scanned s [] = record {
  accepted = ground arith;
  resolved_refs = ground arith;
  resolved_seen = ground arith;
}
scan_conditions-Scanned s (c ∷ rest) =
    let later = scan_conditions-Scanned (scan_condition s c) rest in
    record {
      accepted = later.accepted ∙ ground (arith, distinct_kinds c.kind);
      resolved_refs = later.resolved_refs ∙ ground (arith, distinct_kinds c.kind);
      resolved_seen = later.resolved_seen ∙ ground (arith, distinct_kinds c.kind);
    }

-- A route is ready exactly if some parent status of the gateway, by name and, where it has one, by
-- namespace, has a true Accepted condition and either no ResolvedRefs condition or a true one.
pub is_route_ready-any :
    (parents : List RouteParentStatus) (gateway_name gateway_namespace : Text)
    → (is_route_ready parents gateway_name gateway_namespace).0
      ≡ any (λ p. is_parent gateway_name gateway_namespace p && parent_ready p.conditions) parents
unfolding is_route_ready parent_ready
is_route_ready-any [] gateway_name gateway_namespace = refl
is_route_ready-any (p ∷ parents) gateway_name gateway_namespace =
    let s = scan_conditions-Scanned scan_fresh p.conditions in
    ground (
      arith,
      s.accepted,
      s.resolved_refs,
      s.resolved_seen,
      is_route_ready-any parents gateway_name gateway_namespace,
    )
