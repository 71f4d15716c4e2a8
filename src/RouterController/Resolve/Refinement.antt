-- ===== src/RouterController/Resolve/Refinement.antt =====
-- The backends of a route, asked for one cell after another, are those of `Backends`.
use cell_router_operator.Base.{
  ◌≡◌, refl, ◌∙◌, List, [], ◌∷◌, ◌++◌, Text, Option, none, some, is_empty, if◌then◌else◌,
  Bool-cases, inl, inr,
}
use cell_router_operator.Api.Placement.{BackendRef}
use cell_router_operator.Api.Router.{RouteSpec}
use cell_router_operator.Backends.{
  Fetched, Candidate, usable, unusable, broken, candidate, Resolution, Resolving, resolved, failed,
  no_backends, found_backends, reason_with, degraded, traffic_ready, using_fallback_backend,
  resolve_backend_candidates, resolve_fallback, resolve_route_backends, RouteBackends,
  RouteResolving, route_resolved, route_failed, Issue, after_candidate, candidates_of,
}
use cell_router_operator.Client.{
  Request, Response, get_cell, Outcome, finished, failing, client_error, Program, outcome_of,
  then_outcome, outcome_of->>=, done,
}
use cell_router_operator.Machinery.{Machinery}
use cell_router_operator.RouterController.Resolve.{
  fetched_of, add_candidate, backends_found, backends_missing, ask_backend_candidates, ask_fallback,
  ask_route_backends,
}

-- The result of a resolution, as the end of a program.
abbrev pub resolving_outcome : Resolving → Outcome Resolution
resolving_outcome (resolved r) = finished r
resolving_outcome (failed text) = failing (client_error text)

abbrev pub route_outcome : RouteResolving → Outcome RouteBackends
route_outcome (route_resolved r) = finished r
route_outcome (route_failed text) = failing (client_error text)

module _ (api : Machinery) (server : (q : Request) → Response q) where
  -- The server's cells.
  abbrev pub served : Text → Fetched
  served name = fetched_of (server (get_cell name))

  add_candidate-outcome :
      (c : Candidate) (later : Program Resolution) (rest : Resolving)
      → outcome_of server later ≡ resolving_outcome rest
      → outcome_of server (add_candidate c later) ≡ resolving_outcome (after_candidate c rest)
  add_candidate-outcome (broken text) later rest h = refl
  add_candidate-outcome (usable b) later (resolved r) h = outcome_of->>= server later _ ∙ rw h refl
  add_candidate-outcome (usable b) later (failed t) h = outcome_of->>= server later _ ∙ rw h refl
  add_candidate-outcome (unusable i) later (resolved r) h =
      outcome_of->>= server later _ ∙ rw h refl
  add_candidate-outcome (unusable i) later (failed t) h = outcome_of->>= server later _ ∙ rw h refl

  ask_backend_candidates-outcome :
      (refs : List BackendRef)
      → outcome_of server (ask_backend_candidates api refs)
        ≡ resolving_outcome (resolve_backend_candidates api.find_condition served refs)
  unfolding ask_backend_candidates resolve_backend_candidates candidate
  ask_backend_candidates-outcome [] = refl
  ask_backend_candidates-outcome (ref ∷ refs) =
      add_candidate-outcome _ _ _ (ask_backend_candidates-outcome refs)

  fallback_lem :
      (issues : List Issue) (tried : Resolving)
      → then_outcome (resolving_outcome tried) (λ r. finished (
          if is_empty r.backends
          then backends_missing (issues ++ r.issues)
          else backends_found r using_fallback_backend))
        ≡ route_outcome (elim tried [
          | failed e ↦ route_failed e
          | resolved r ↦
              if is_empty r.backends
              then no_backends (issues ++ r.issues)
              else found_backends r using_fallback_backend
        ])
  fallback_lem issues (failed e) = refl
  fallback_lem issues (resolved r) = elim (Bool-cases (is_empty r.backends)) [
    | inl empty ↦ rw empty refl
    | inr some_there ↦ rw some_there refl
  ]

  ask_fallback-outcome :
      (fallback : Option BackendRef) (issues : List Issue)
      → outcome_of server (ask_fallback api fallback issues)
        ≡ route_outcome (resolve_fallback api.find_condition served fallback issues)
  unfolding ask_fallback resolve_fallback
  ask_fallback-outcome none issues = refl
  ask_fallback-outcome (some ref) issues =
      outcome_of->>= server (ask_backend_candidates api (ref ∷ [])) _
      ∙ rw (ask_backend_candidates-outcome (ref ∷ []))
          (fallback_lem issues (resolve_backend_candidates api.find_condition served (ref ∷ [])))

  route_lem :
      (spec : RouteSpec) (tried : Resolving)
      → then_outcome (resolving_outcome tried) (λ r. outcome_of server (
          if is_empty r.backends
          then ask_fallback api spec.fallback_backend r.issues
          else done (backends_found r (reason_with degraded traffic_ready r.issues))))
        ≡ route_outcome (elim tried [
          | failed e ↦ route_failed e
          | resolved r ↦
              if is_empty r.backends
              then resolve_fallback api.find_condition served spec.fallback_backend r.issues
              else found_backends r (reason_with degraded traffic_ready r.issues)
        ])
  route_lem spec (failed e) = refl
  route_lem spec (resolved r) = elim (Bool-cases (is_empty r.backends)) [
    | inl empty ↦ rw empty (ask_fallback-outcome spec.fallback_backend r.issues)
    | inr some_there ↦ rw some_there refl
  ]

  -- Against a server whose answers do not change, the resolution that asks for one cell after
  -- another ends with what resolveRouteBackends gives for the server's cells, errors included.
  pub ask_route_backends-outcome :
      (spec : RouteSpec)
      → outcome_of server (ask_route_backends api spec)
        ≡ route_outcome (resolve_route_backends api.find_condition served spec)
  unfolding ask_route_backends resolve_route_backends
  ask_route_backends-outcome spec =
      outcome_of->>= server (ask_backend_candidates api (candidates_of spec)) _
      ∙ rw (ask_backend_candidates-outcome (candidates_of spec)) (
          route_lem spec
            (resolve_backend_candidates api.find_condition served (candidates_of spec)))
