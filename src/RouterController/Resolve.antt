-- ===== src/RouterController/Resolve.antt =====
-- `resolveRouteBackends` and `resolveBackendCandidates` as they ask for the cells.
pub mod Outcomes
pub mod Refinement
pub mod Requests
use cell_router_operator.Base.{
  ℕ, Bool, true, false, not, Option, none, some, List, [], ◌∷◌, ◌++◌, any, if◌then◌else◌, is_empty,
  Text, codes, text_eq, Dict,
}
use cell_router_operator.Constants.{operator_name, managed_by_label, router_name_label}
use cell_router_operator.Api.Meta.{ConditionStatus, status_true, status_false, Condition}
use cell_router_operator.Api.Cell.{Cell, reason_progressing, reason_reconciled}
use cell_router_operator.Api.Placement.{BackendRef, Placement, placement_ready_condition}
use cell_router_operator.Api.Router.{RouteSpec, CellRouter}
use cell_router_operator.RouteBuilder.{BackendTarget, reference_grant_name, mutate_reference_grant}
use cell_router_operator.Backends.{
  Fetched, fetched, not_found, fetch_error, Candidate, usable, unusable, broken, candidate,
  Resolution, RouteBackends, Issue, candidates_of, reason_with, degraded, issues_only,
  traffic_ready, using_fallback_backend, waiting_for_backends, RouteReason,
}
use cell_router_operator.Client.{
  Kind, gateway_kind, http_route_kind, reference_grant_kind, Header, change_grant, Reply, reply,
  failed, get_cell, get_object, list_placements, list_routers, list_objects, write_object,
  patch_placement_status, client_error, Program, ask, done, fail, ◌>>=◌, ◌>>◌, void_reply,
  delete_found,
}
use cell_router_operator.Machinery.{Machinery}

abbrev pub fetched_of : Reply (Option Cell) → Fetched
fetched_of (reply none) = not_found
fetched_of (reply (some cell)) = fetched cell
fetched_of (failed text) = fetch_error text

-- A round of `resolveBackendCandidates`, with what the later rounds give.
abbrev pub add_candidate : Candidate → Program Resolution → Program Resolution
add_candidate (broken text) later = fail (client_error text)
add_candidate (unusable issue) later = do r ← later; done (record r { issues = issue ∷ r.issues })
add_candidate (usable backend) later = do
  r ← later
  done (record {
    backends = backend ∷ r.backends;
    backend_refs = backend.cell_ref ∷ r.backend_refs;
    issues = r.issues;
  })

abbrev pub backends_found : Resolution → RouteReason → RouteBackends
backends_found r reason = record {
  backends = r.backends;
  backend_refs = r.backend_refs;
  reason = reason;
  needs_requeue = false;
}

abbrev pub backends_missing : List Issue → RouteBackends
backends_missing issues = record {
  backends = [];
  backend_refs = [];
  reason = reason_with issues_only waiting_for_backends issues;
  needs_requeue = true;
}

module _ (api : Machinery) where
  -- `resolveBackendCandidates`.
  unfoldable pub ask_backend_candidates : List BackendRef → Program Resolution
  unfolding candidate
  ask_backend_candidates [] = done (record { backends = []; backend_refs = []; issues = [] })
  ask_backend_candidates (ref ∷ refs) =
      let later = ask_backend_candidates refs in
      ask (get_cell ref.cell_ref) (λ answer.
        add_candidate (candidate api.find_condition (λ name. fetched_of answer) ref) later)

  -- The fallback, after the issues of the candidates.
  unfoldable pub ask_fallback : Option BackendRef → List Issue → Program RouteBackends
  unfolding ask_backend_candidates
  ask_fallback none issues = done (backends_missing issues)
  ask_fallback (some ref) issues = do
    r ← ask_backend_candidates (ref ∷ [])
    done (
        if is_empty r.backends
        then backends_missing (issues ++ r.issues)
        else backends_found r using_fallback_backend)

  -- `resolveRouteBackends`.
  unfoldable pub ask_route_backends : RouteSpec → Program RouteBackends
  unfolding candidates_of ask_backend_candidates ask_fallback
  ask_route_backends spec = do
    r ← ask_backend_candidates (candidates_of spec)
    if is_empty r.backends
        then ask_fallback spec.fallback_backend r.issues
        else done (backends_found r (reason_with degraded traffic_ready r.issues))
