-- ===== src/Backends/Failures.antt =====
-- Where the errors of `resolveRouteBackends` come from.
use cell_router_operator.Base.{
  ◌≡◌, ◌≢◌, ◌⊎◌, inl, inr, refl, ◌∙◌, ap, arith, List, [], ◌∷◌, Text, Option, none, some, is_empty,
  Bool-cases,
}
use cell_router_operator.Api.Meta.{Condition}
use cell_router_operator.Api.Placement.{BackendRef}
use cell_router_operator.Api.Router.{RouteSpec}
use cell_router_operator.Backends.{
  Fetched, fetch_error, Candidate, usable, unusable, broken, candidate, Resolving, resolved, failed,
  after_candidate, candidates_of, Issue, resolve_backend_candidates, resolve_fallback,
  resolve_route_backends, route_failed,
}
use cell_router_operator.Backends.Resolved.{candidate-broken}
use cell_router_operator.Backends.Routes.{Candidate-cases, Resolving-cases}

-- One of the references names the cell.
abbrev pub IsNamed : Text → List BackendRef → Type 0
IsNamed name [] = ⊥
IsNamed name (ref ∷ refs) = (name ≡ ref.cell_ref) ⊎ IsNamed name refs

-- The cell is one that the route or its fallback names.
abbrev pub IsReferred : Text → RouteSpec → Type 0
IsReferred name spec =
    IsNamed name (candidates_of spec)
    ⊎ ((ref : BackendRef) × (spec.fallback_backend ≡ some ref) × (name ≡ ref.cell_ref))

-- A candidate that is not broken leaves the error of a later one.
failed_later :
    (c : Candidate) (tried : Resolving) (e : Text)
    → ((t : Text) → c ≢ broken t)
    → after_candidate c tried ≡ failed e
    → tried ≡ failed e
failed_later (broken t) tried e ne h = absurd (ne t refl)
failed_later (usable b) (failed t) e ne h = h
failed_later (unusable i) (failed t) e ne h = h
failed_later (usable b) (resolved r) e ne h = absurd (ground arith)
failed_later (unusable i) (resolved r) e ne h = absurd (ground arith)

module _ (find_condition : List Condition → Text → Option Condition) (get : Text → Fetched) where
  candidates-failed :
      (refs : List BackendRef) (e : Text)
      → resolve_backend_candidates find_condition get refs ≡ failed e
      → (name : Text) × IsNamed name refs × (get name ≡ fetch_error e)
  unfolding resolve_backend_candidates
  candidates-failed [] e h = absurd (ground arith)
  candidates-failed (ref ∷ refs) e h =
      let tried = resolve_backend_candidates find_condition get refs in
      let further : ((t : Text) → candidate find_condition get ref ≢ broken t)
          → (name : Text) × IsNamed name (ref ∷ refs) × (get name ≡ fetch_error e) =
        λ ne.
          let (name, named, asked) =
            candidates-failed refs e
              (failed_later (candidate find_condition get ref) tried e ne h) in
          (name, inr named, asked) in
      elim (Candidate-cases (candidate find_condition get ref)) [
        | inl (b, good) ↦ further (λ t bad. ground arith)
        | inr (inl (i, bad)) ↦ further (λ t broke. ground arith)
        | inr (inr (t, bad)) ↦
            let same : failed t ≡ failed e = rw bad at h in
            let texts : t ≡ e = ground arith in
            (
              ref.cell_ref,
              inl refl,
              candidate-broken find_condition get ref t bad ∙ ap fetch_error texts,
            )
      ]

  fallback-failed :
      (fallback : Option BackendRef) (issues : List Issue) (e : Text)
      → resolve_fallback find_condition get fallback issues ≡ route_failed e
      → (ref : BackendRef) × (fallback ≡ some ref) × (get ref.cell_ref ≡ fetch_error e)
  unfolding resolve_fallback
  fallback-failed none issues e h = absurd (ground arith)
  fallback-failed (some ref) issues e h =
      elim (Resolving-cases (resolve_backend_candidates find_condition get (ref ∷ []))) [
        | inl (r, found) ↦ absurd (ground arith)
        | inr (t, bad) ↦
            let texts : t ≡ e = ground arith in
            let (name, named, asked) = candidates-failed (ref ∷ []) t bad in
            elim named [
              | inr never ↦ absurd never
              | inl same ↦ (ref, refl, rw (← same) (asked ∙ ap fetch_error texts))
            ]
      ]

  pub resolve_route_backends-failed :
      (spec : RouteSpec) (e : Text)
      → resolve_route_backends find_condition get spec ≡ route_failed e
      → (name : Text) × IsReferred name spec × (get name ≡ fetch_error e)
  unfolding resolve_route_backends
  resolve_route_backends-failed spec e h =
      elim (Resolving-cases (resolve_backend_candidates find_condition get (candidates_of spec))) [
        | inr (t, bad) ↦
            let texts : t ≡ e = ground arith in
            let (name, named, asked) = candidates-failed (candidates_of spec) t bad in
            (name, inl named, asked ∙ ap fetch_error texts)
        | inl (r, found) ↦ elim (Bool-cases (is_empty r.backends)) [
          | inr some_there ↦ absurd (ground arith)
          | inl empty ↦
              let (ref, given, asked) =
                fallback-failed spec.fallback_backend r.issues e (ground arith) in
              (ref.cell_ref, inr (ref, given, refl), asked)
        ]
      ]
