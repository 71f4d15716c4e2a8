-- ===== src/RouteBuilder/Routes.antt =====
-- The HTTP routes of placements.
use cell_router_operator.Base.{
  ◌≡◌, ◌≢◌, refl, false, Option, none, some, List, [], ◌∷◌, arith, inl, inr, Text, is_empty,
}
use cell_router_operator.Errors.{ok}
use cell_router_operator.Api.Placement.{Placement}
use cell_router_operator.Api.Router.{RouteSpec, CellRouter}
use cell_router_operator.Compiler.{route_spec_from_placement}
use cell_router_operator.Compiler.Parts.{HasMatch, route_spec_from_placement-HasMatch}
use cell_router_operator.RouteBuilder.{
  HttpRoute, BackendTarget, build_matches, mutate_http_route, HttpRouteRule,
}

not_none {ℓ} : {A : Type ℓ} (o : Option A) → o ≢ none → (a : A) × (o ≡ some a)
not_none none h = absurd (h refl)
not_none (some a) h = (a, refl)

not_empty {ℓ} : {A : Type ℓ} (l : List A) → l ≢ [] → is_empty l ≡ false
not_empty [] h = absurd (h refl)
not_empty (x ∷ l) h = refl

build_matches-HasMatch : (r : RouteSpec) → HasMatch r → build_matches r ≢ []
unfolding build_matches
build_matches-HasMatch r (inl path) e = let (m, found) = not_none r.path_match path in ground arith
build_matches-HasMatch r (inr (inl headers)) e = ground (arith, not_empty r.header_matches headers)
build_matches-HasMatch r (inr (inr queries)) e =
    ground (arith, not_empty r.query_param_matches queries)

module _ (subexp_names : Text → Option (List Text)) where
  -- If a placement compiles to a route, the HTTPRoute that is built of that route has a single
  -- rule, and that rule has at least one match: a placement never becomes a catch-all rule.
  pub mutate_http_route-matches :
      (p : Placement) (r : RouteSpec) (route : HttpRoute) (router : CellRouter)
      (gateway_namespace : Text) (backends : List BackendTarget)
      → route_spec_from_placement subexp_names p ≡ ok r
      → (rule : HttpRouteRule) × ((mutate_http_route route router r gateway_namespace backends
            p.name).rules
          ≡ rule ∷ [])
        × (rule.matches ≢ [])
  unfolding mutate_http_route
  mutate_http_route-matches p r route router gateway_namespace backends h =
      (_, refl, build_matches-HasMatch r (route_spec_from_placement-HasMatch subexp_names p r h))
