-- ===== src/RouterController/Resolve/Outcomes.antt =====
-- What the router's reconciliation gets when it asks for the backends of a route.
use cell_router_operator.Base.{◌≡◌, ◌⊎◌, inl, inr, ◌∙◌, ap, arith, Text, Option, none, some}
use cell_router_operator.Api.Cell.{Cell}
use cell_router_operator.Api.Router.{RouteSpec}
use cell_router_operator.Backends.{fetch_error, resolve_route_backends, RouteBackends}
use cell_router_operator.Backends.Routes.{
  RouteResolving-cases, RouteOutcome, resolve_route_backends-RouteOutcome,
}
use cell_router_operator.Backends.Failures.{IsReferred, resolve_route_backends-failed}
use cell_router_operator.Client.{
  Request, Response, Reply, reply, failed, get_cell, finished, failing, client_error, outcome_of,
}
use cell_router_operator.Machinery.{Machinery}
use cell_router_operator.RouterController.Resolve.{fetched_of, ask_route_backends}
use cell_router_operator.RouterController.Resolve.Refinement.{
  served, route_outcome, ask_route_backends-outcome,
}

fetched_of-fetch_error :
    (answer : Reply (Option Cell)) (e : Text)
    → fetched_of answer ≡ fetch_error e
    → answer ≡ failed e
fetched_of-fetch_error (reply none) e h = absurd (ground arith)
fetched_of-fetch_error (reply (some cell)) e h = absurd (ground arith)
fetched_of-fetch_error (failed text) e h = let same : text ≡ e = ground arith in ap failed same

module _ (api : Machinery) (server : (q : Request) → Response q) where
  -- Against a server whose answers do not change, the resolution that asks for one cell after
  -- another ends either with backends, which are those of the route's own references that can
  -- serve, or of its fallback if none of them can, or none if neither can, and only then with the
  -- wish to be repeated; or with the error that the server gave for a cell which the route or its
  -- fallback names.
  pub ask_route_backends-RouteOutcome :
      (spec : RouteSpec)
      → ((r : RouteBackends) × (outcome_of server (ask_route_backends api spec) ≡ finished r)
          × RouteOutcome api.find_condition (served api server) spec r)
        ⊎ ((name e : Text) × IsReferred name spec
            × (server (get_cell name) ≡ failed e)
            × (outcome_of server (ask_route_backends api spec) ≡ failing (client_error e)))
  ask_route_backends-RouteOutcome spec =
      let get = served api server in
      let same = ask_route_backends-outcome api server spec in
      elim (RouteResolving-cases (resolve_route_backends api.find_condition get spec)) [
        | inl (r, found) ↦ inl (
          r,
          same ∙ ap route_outcome found,
          resolve_route_backends-RouteOutcome api.find_condition get spec r found,
        )
        | inr (e, bad) ↦
            let (name, referred, asked) =
              resolve_route_backends-failed api.find_condition get spec e bad in
            inr (
              name,
              e,
              referred,
              fetched_of-fetch_error (server (get_cell name)) e asked,
              same ∙ ap route_outcome bad,
            )
      ]
