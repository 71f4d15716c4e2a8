-- ===== src/Backends.antt =====
-- How a route finds its backends: `resolveRouteBackends`, `resolveBackendCandidates`,
-- `isCellTrafficReady` and `resolveBackend` of internal/controller/cellrouter_controller.go, and
-- `effectiveNamespace` and `effectiveCellState` of internal/controller/cell_controller.go.
pub mod Resolved
pub mod Routes
pub mod Failures
use cell_router_operator.Base.{
  ℕ, Bool, true, false, not, ◌&&◌, ◌||◌, Option, none, some, List, [], ◌∷◌, ◌++◌, ltb, ◌==◌,
  if◌then◌else◌, is_empty, Text, codes, text_eq,
}
use cell_router_operator.Api.Cell.{CellState, active, draining, disabled, other_state, Cell}
use cell_router_operator.Api.Meta.{
  ConditionStatus, status_true, status_false, status_other, Condition,
}
use cell_router_operator.Api.Placement.{BackendRef}
use cell_router_operator.Api.Router.{RouteSpec}
use cell_router_operator.RouteBuilder.{BackendTarget}
use cell_router_operator.RoutePlans.{RoutePlan}

-- `effectiveNamespace`.
unfoldable pub effective_namespace : Cell → Text
effective_namespace cell = if is_empty cell.spec.namespace then cell.name else cell.spec.namespace

-- `effectiveCellState`: the empty state is the active one.
abbrev pub state_or_active : CellState → CellState
state_or_active (other_state []) = active
state_or_active s = s

unfoldable pub effective_cell_state : Cell → CellState
effective_cell_state cell = state_or_active cell.spec.state

-- Why a cell takes no traffic; a condition's own message where it has one.
pub data NotReady : Type 0 where
  cell_disabled cell_draining backend_not_ready cell_not_ready : NotReady
  condition_message : Text → NotReady

abbrev pub is_true : ConditionStatus → Bool
is_true status_true = true
is_true _ = false

-- A condition that is missing or not true, and the reason then.
unfoldable pub check_condition : Option Condition → NotReady → Option NotReady
check_condition none reason = some reason
check_condition (some c) reason =
    if is_true c.status
    then none
    else if is_empty c.message
    then some reason
    else some (condition_message c.message)

abbrev pub or_else {ℓ} : {A : Type ℓ} → Option A → Option A → Option A
or_else none o = o
or_else (some a) o = some a

-- The `switch` on the lifecycle state.
abbrev pub check_state : CellState → Option NotReady
check_state disabled = some cell_disabled
check_state draining = some cell_draining
check_state _ = none

-- `find_condition` is apimeta's `FindStatusCondition`, on the conditions and a type.
module _ (find_condition : List Condition → Text → Option Condition) where
  -- `isCellTrafficReady`: `none` stands for `true`, and otherwise the reason.
  unfoldable pub cell_not_traffic_ready : Cell → Option NotReady
  unfolding effective_cell_state check_condition
  cell_not_traffic_ready cell = or_else (check_state (effective_cell_state cell)) (
      or_else
        (check_condition (find_condition cell.status.conditions (codes "BackendReady"))
          backend_not_ready)
        (check_condition (find_condition cell.status.conditions (codes "Ready")) cell_not_ready))

-- The errors of `resolveBackend`.
pub data BackendError : Type 0 where
  namespace_not_available service_name_empty port_not_set : BackendError

pub data ResolvedBackend : Type 0 where
  backend_found : BackendTarget → ResolvedBackend
  backend_error : BackendError → ResolvedBackend

-- `resolveBackend`.
unfoldable pub resolve_backend : Cell → ResolvedBackend
unfolding effective_namespace
resolve_backend cell =
    let namespace =
      if is_empty cell.status.namespace then effective_namespace cell else cell.status.namespace in
    if is_empty namespace
    then backend_error namespace_not_available
    else if is_empty cell.spec.entrypoint.service_name
    then backend_error service_name_empty
    else if cell.spec.entrypoint.port == 0
    then backend_error port_not_set
    else backend_found (record {
      namespace = namespace;
      name = cell.spec.entrypoint.service_name;
      port = cell.spec.entrypoint.port;
      weight = none;
      cell_ref = [];
    })

-- What `r.Get` of a cell by name gives: the cell, NotFound, or another error.
pub data Fetched : Type 0 where
  fetched : Cell → Fetched
  not_found : Fetched
  fetch_error : Text → Fetched

-- The messages of `issues`, one constructor for each.
pub data Issue : Type 0 where
  cell_not_found : Text → Issue
  not_traffic_ready : Text → NotReady → Issue
  not_resolved : Text → BackendError → Issue

-- What one candidate comes to.
pub data Candidate : Type 0 where
  usable : BackendTarget → Candidate
  unusable : Issue → Candidate
  broken : Text → Candidate

-- `backends` and `issues`; `backendRefs` are the names of the backends' cells, as the loop appends
-- to both at once.
pub record Resolution : Type 0 where
  pub backends : List BackendTarget
  pub backend_refs : List Text
  pub issues : List Issue

-- A resolution, or the error of the API server.
pub data Resolving : Type 0 where
  resolved : Resolution → Resolving
  failed : Text → Resolving

abbrev pub after_candidate : Candidate → Resolving → Resolving
after_candidate (broken e) later = failed e
after_candidate _ (failed e) = failed e
after_candidate (usable b) (resolved r) = resolved (record {
  backends = b ∷ r.backends;
  backend_refs = b.cell_ref ∷ r.backend_refs;
  issues = r.issues;
})
after_candidate (unusable i) (resolved r) = resolved (record r { issues = i ∷ r.issues })

pub data RouteReason : Type 0 where
  traffic_ready using_fallback_backend waiting_for_backends : RouteReason
  degraded issues_only : List Issue → RouteReason

-- The results of `resolveRouteBackends`.
pub record RouteBackends : Type 0 where
  pub backends : List BackendTarget
  pub backend_refs : List Text
  pub reason : RouteReason
  pub needs_requeue : Bool

pub data RouteResolving : Type 0 where
  route_resolved : RouteBackends → RouteResolving
  route_failed : Text → RouteResolving

-- The cell that the route names itself, and its additional ones.
unfoldable pub candidates_of : RouteSpec → List BackendRef
candidates_of spec =
    if is_empty spec.cell_ref
    then spec.additional_backends
    else record { cell_ref = spec.cell_ref; weight = spec.weight } ∷ spec.additional_backends

abbrev pub reason_with : (List Issue → RouteReason) → RouteReason → List Issue → RouteReason
reason_with f reason [] = reason
reason_with f reason (i ∷ issues) = f (i ∷ issues)

abbrev pub found_backends : Resolution → RouteReason → RouteResolving
found_backends r reason = route_resolved (record {
  backends = r.backends;
  backend_refs = r.backend_refs;
  reason = reason;
  needs_requeue = false;
})

abbrev pub no_backends : List Issue → RouteResolving
no_backends issues = route_resolved (record {
  backends = [];
  backend_refs = [];
  reason = reason_with issues_only waiting_for_backends issues;
  needs_requeue = true;
})

-- `get_cell` is the API server's answer during the resolution.
module _ (find_condition : List Condition → Text → Option Condition)
    (get_cell : Text → Fetched) where
  -- The part of a round that works on the cell that was found.
  unfoldable pub candidate_cell : BackendRef → Cell → Candidate
  unfolding cell_not_traffic_ready resolve_backend
  candidate_cell ref cell = elim (cell_not_traffic_ready find_condition cell) [
    | some reason ↦ unusable (not_traffic_ready ref.cell_ref reason)
    | none ↦ elim (resolve_backend cell) [
      | backend_error e ↦ unusable (not_resolved ref.cell_ref e)
      | backend_found b ↦ usable (record b { weight = ref.weight; cell_ref = ref.cell_ref })
    ]
  ]

  -- One round of the loop.
  unfoldable pub candidate : BackendRef → Candidate
  unfolding candidate_cell
  candidate ref = elim (get_cell ref.cell_ref) [
    | not_found ↦ unusable (cell_not_found ref.cell_ref)
    | fetch_error e ↦ broken e
    | fetched cell ↦ candidate_cell ref cell
  ]

  -- The loop of `resolveBackendCandidates`.
  unfoldable pub resolve_backend_candidates : List BackendRef → Resolving
  unfolding candidate
  resolve_backend_candidates [] =
      resolved (record { backends = []; backend_refs = []; issues = [] })
  resolve_backend_candidates (ref ∷ refs) =
      after_candidate (candidate ref) (resolve_backend_candidates refs)

  -- The fallback, after the issues of the candidates.
  unfoldable pub resolve_fallback : Option BackendRef → List Issue → RouteResolving
  resolve_fallback none issues = no_backends issues
  resolve_fallback (some ref) issues = elim (resolve_backend_candidates (ref ∷ [])) [
    | failed e ↦ route_failed e
    | resolved r ↦
        if is_empty r.backends
        then no_backends (issues ++ r.issues)
        else found_backends r using_fallback_backend
  ]

  -- `resolveRouteBackends`.
  unfoldable pub resolve_route_backends : RouteSpec → RouteResolving
  unfolding candidates_of resolve_backend_candidates resolve_fallback
  resolve_route_backends spec = elim (resolve_backend_candidates (candidates_of spec)) [
    | failed e ↦ route_failed e
    | resolved r ↦
        if is_empty r.backends
        then resolve_fallback spec.fallback_backend r.issues
        else found_backends r (reason_with degraded traffic_ready r.issues)
  ]
