-- ===== src/Backends/Routes.antt =====
-- The backends of a route: its own, its fallback, or none.
use cell_router_operator.Base.{
  ◌≡◌, ◌≢◌, ◌⊎◌, refl, ap, true, false, Option, none, some, List, [], ◌∷◌, map, arith, inl, inr,
  Bool-cases, Text, is_empty,
}
use cell_router_operator.Api.Meta.{Condition}
use cell_router_operator.Api.Placement.{BackendRef}
use cell_router_operator.Api.Router.{RouteSpec}
use cell_router_operator.RouteBuilder.{BackendTarget}
use cell_router_operator.Backends.{
  Fetched, fetch_error, candidates_of, candidate, Candidate, usable, unusable, broken, Resolving,
  Resolution, resolved, failed, after_candidate, resolve_backend_candidates, resolve_fallback,
  RouteBackends, Issue, RouteResolving, route_resolved, route_failed, resolve_route_backends,
  using_fallback_backend,
}
use cell_router_operator.Backends.Resolved.{
  Stands, candidate-Stands, candidate-broken, Stands-candidate, Picked, none_left, take_one,
  pass_over,
}

pub Candidate-cases :
    (c : Candidate)
    → ((b : BackendTarget) × (c ≡ usable b))
      ⊎ (((i : Issue) × (c ≡ unusable i)) ⊎ ((e : Text) × (c ≡ broken e)))
Candidate-cases (usable b) = inl (b, refl)
Candidate-cases (unusable i) = inr (inl (i, refl))
Candidate-cases (broken e) = inr (inr (e, refl))

pub Resolving-cases :
    (r : Resolving) → ((q : Resolution) × (r ≡ resolved q)) ⊎ ((e : Text) × (r ≡ failed e))
Resolving-cases (resolved q) = inl (q, refl)
Resolving-cases (failed e) = inr (e, refl)

pub RouteResolving-cases :
    (r : RouteResolving)
    → ((q : RouteBackends) × (r ≡ route_resolved q)) ⊎ ((e : Text) × (r ≡ route_failed e))
RouteResolving-cases (route_resolved q) = inl (q, refl)
RouteResolving-cases (route_failed e) = inr (e, refl)

empty_iff {ℓ} : {A : Type ℓ} (l : List A) → is_empty l ≡ true → l ≡ []
empty_iff [] h = refl
empty_iff (x ∷ l) h = ground arith

filled {ℓ} : {A : Type ℓ} (l : List A) → is_empty l ≡ false → l ≢ []
filled [] h e = ground arith
filled (x ∷ l) h e = ground arith

module _ (find_condition : List Condition → Text → Option Condition)
    (get_cell : Text → Fetched) where
  -- What a resolution holds.
  record IsResolution (refs : List BackendRef) (r : Resolution) : Type 0 where
    picked : Picked find_condition get_cell refs r.backends
    names : r.backend_refs ≡ map (λ (b : BackendTarget). b.cell_ref) r.backends

  IsResolution-of :
      (refs : List BackendRef) (r : Resolution)
      → resolve_backend_candidates find_condition get_cell refs ≡ resolved r
      → IsResolution refs r
  unfolding resolve_backend_candidates
  IsResolution-of [] r h = rw (the_end r h) (record { picked = none_left; names = refl })
    where
      the_end :
          (r : Resolution)
          → resolved (record { backends = []; backend_refs = []; issues = [] }) ≡ resolved r
          → r ≡ record { backends = []; backend_refs = []; issues = [] }
      the_end r h = ground arith
  IsResolution-of (ref ∷ refs) r h =
      elim (Resolving-cases (resolve_backend_candidates find_condition get_cell refs)) [
        | inr (e, bad) ↦ absurd (
            failing (candidate find_condition get_cell ref) e
              (rw (bad, resolve_backend_candidates) at h))
        | inl (q, found) ↦
            let later = IsResolution-of refs q found in
            elim (Candidate-cases (candidate find_condition get_cell ref)) [
              | inr (inr (e, bad)) ↦ absurd (ground arith)
              | inl (b, good) ↦
                  taken b q (candidate-Stands find_condition get_cell ref b good) later
                    (ground arith)
              | inr (inl (i, bad)) ↦ passed i q bad later (ground arith)
            ]
      ]
    where
      failing : (c : Candidate) (e : Text) → after_candidate c (failed e) ≡ resolved r → ⊥
      failing (usable b) e h = ground arith
      failing (unusable b) e h = ground arith
      failing (broken b) e h = ground arith

      taken :
          (b : BackendTarget) (q : Resolution)
          → Stands find_condition get_cell ref b
          → IsResolution refs q
          → record {
            backends = b ∷ q.backends;
            backend_refs = b.cell_ref ∷ q.backend_refs;
            issues = q.issues;
          }
            ≡ r
          → IsResolution (ref ∷ refs) r
      taken b q s later e = rw (← e) (record {
        picked = take_one ref b refs q.backends s later.picked;
        names = ap (λ l. b.cell_ref ∷ l) later.names;
      })

      passed :
          (i : Issue) (q : Resolution)
          → candidate find_condition get_cell ref ≡ unusable i
          → IsResolution refs q
          → record q { issues = i ∷ q.issues } ≡ r
          → IsResolution (ref ∷ refs) r
      passed i q bad later e = rw (← e) (record {
        picked =
            pass_over ref refs q.backends
              (λ b s. clash b (Stands-candidate find_condition get_cell ref b s)) later.picked;
        names = later.names;
      })
        where
          clash : (b : BackendTarget) → candidate find_condition get_cell ref ≡ usable b → ⊥
          clash b good = ground arith

  -- What the resolution of a route comes to.
  pub data RouteOutcome (spec : RouteSpec) (r : RouteBackends) : Type 0 where
    own_backends :
        Picked find_condition get_cell (candidates_of spec) r.backends
        → r.backends ≢ []
        → r.needs_requeue ≡ false
        → RouteOutcome spec r
    fallback_backends :
        (ref : BackendRef)
        → Picked find_condition get_cell (candidates_of spec) []
        → spec.fallback_backend ≡ some ref
        → Picked find_condition get_cell (ref ∷ []) r.backends
        → r.backends ≢ []
        → r.reason ≡ using_fallback_backend
        → r.needs_requeue ≡ false
        → RouteOutcome spec r
    nothing_found :
        Picked find_condition get_cell (candidates_of spec) []
        → ((ref : BackendRef)
            → spec.fallback_backend ≡ some ref
            → Picked find_condition get_cell (ref ∷ []) [])
        → r.backends ≡ []
        → r.needs_requeue ≡ true
        → RouteOutcome spec r

  fallback_outcome :
      (spec : RouteSpec) (fallback : Option BackendRef) (issues : List Issue) (r : RouteBackends)
      → spec.fallback_backend ≡ fallback
      → Picked find_condition get_cell (candidates_of spec) []
      → resolve_fallback find_condition get_cell fallback issues ≡ route_resolved r
      → RouteOutcome spec r
  unfolding resolve_fallback
  fallback_outcome spec none issues r e empty h =
      nothing_found empty (λ ref given. ground arith) (ground arith) (ground arith)
  fallback_outcome spec (some ref) issues r e empty h =
      elim (Resolving-cases (resolve_backend_candidates find_condition get_cell (ref ∷ []))) [
        | inr (x, bad) ↦ absurd (ground arith)
        | inl (q, found) ↦
            let is = IsResolution-of (ref ∷ []) q found in
            elim (Bool-cases (is_empty q.backends)) [
              | inr some_found ↦
                  let same : q.backends ≡ r.backends = ground arith in
                  fallback_backends ref empty e (rw (← same) is.picked)
                    (rw (← same) (filled q.backends some_found)) (ground arith) (ground arith)
              | inl no_more ↦
                  nothing_found empty
                    (λ ref' given.
                      let same : ref ≡ ref' = ground arith in
                      rw (← same) (rw (empty_iff q.backends no_more) at is.picked))
                    (ground arith) (ground arith)
            ]
      ]

  -- A route that is resolved has backends of its own, or those of its fallback if none of its own
  -- cells can serve, or none at all, and is looked at again later exactly in the last case.
  pub resolve_route_backends-RouteOutcome :
      (spec : RouteSpec) (r : RouteBackends)
      → resolve_route_backends find_condition get_cell spec ≡ route_resolved r
      → RouteOutcome spec r
  unfolding resolve_route_backends
  resolve_route_backends-RouteOutcome spec r h =
      elim (Resolving-cases
        (resolve_backend_candidates find_condition get_cell (candidates_of spec))) [
          | inr (x, bad) ↦ absurd (ground arith)
          | inl (q, found) ↦
              let is = IsResolution-of (candidates_of spec) q found in
              elim (Bool-cases (is_empty q.backends)) [
                | inr some_found ↦
                    let same : q.backends ≡ r.backends = ground arith in
                    own_backends (rw (← same) is.picked)
                      (rw (← same) (filled q.backends some_found)) (ground arith)
                | inl no_more ↦
                    fallback_outcome spec spec.fallback_backend q.issues r refl
                      (rw (empty_iff q.backends no_more) at is.picked) (ground arith)
              ]
        ]

  candidate-ne-broken :
      ((name e : Text) → get_cell name ≢ fetch_error e)
      → (ref : BackendRef) (e : Text) → candidate find_condition get_cell ref ≢ broken e
  candidate-ne-broken answers ref e h =
      answers ref.cell_ref e (candidate-broken find_condition get_cell ref e h)

  candidates_resolved :
      ((name e : Text) → get_cell name ≢ fetch_error e)
      → (refs : List BackendRef)
      → (q : Resolution) × (resolve_backend_candidates find_condition get_cell refs ≡ resolved q)
  unfolding resolve_backend_candidates
  candidates_resolved answers [] = (_, refl)
  candidates_resolved answers (ref ∷ refs) =
      let (q, found) = candidates_resolved answers refs in
      let (r, done) =
        step (candidate find_condition get_cell ref) q (candidate-ne-broken answers ref) in
      (r, rw (found, resolve_backend_candidates) done)
    where
      step :
          (c : Candidate) (q : Resolution)
          → ((e : Text) → c ≢ broken e)
          → (r : Resolution) × (after_candidate c (resolved q) ≡ resolved r)
      step (usable b) q h = (_, refl)
      step (unusable i) q h = (_, refl)
      step (broken e) q h = absurd (h e refl)

  resolve_fallback-ne-failed :
      ((name e : Text) → get_cell name ≢ fetch_error e)
      → (fallback : Option BackendRef) (issues : List Issue) (e : Text)
      → resolve_fallback find_condition get_cell fallback issues ≢ route_failed e
  unfolding resolve_fallback
  resolve_fallback-ne-failed answers none issues e h = ground arith
  resolve_fallback-ne-failed answers (some ref) issues e h =
      let (q, found) = candidates_resolved answers (ref ∷ []) in ground arith

  resolve_route_backends-ne-failed :
      (spec : RouteSpec)
      → ((name e : Text) → get_cell name ≢ fetch_error e)
      → (e : Text) → resolve_route_backends find_condition get_cell spec ≢ route_failed e
  unfolding resolve_route_backends
  resolve_route_backends-ne-failed spec answers e h =
      let (q, found) = candidates_resolved answers (candidates_of spec) in
      ground (arith, resolve_fallback-ne-failed answers spec.fallback_backend q.issues e)

  -- If the API server answers for every name with a cell or with NotFound, resolveRouteBackends
  -- returns no error, and the route has backends of its own; or, if none of its own cells can
  -- serve, those of its fallback; or none at all, if no fallback can serve either, and only then
  -- it asks to be looked at again. The backends are those of the references whose cells are there,
  -- traffic-ready and resolvable, all of them and in order.
  pub resolve_route_backends-resolved :
      (spec : RouteSpec)
      → ((name e : Text) → get_cell name ≢ fetch_error e)
      → (r : RouteBackends) × (resolve_route_backends find_condition get_cell spec
          ≡ route_resolved r)
        × RouteOutcome spec r
  resolve_route_backends-resolved spec answers =
      elim (RouteResolving-cases (resolve_route_backends find_condition get_cell spec)) [
        | inl (r, h) ↦ (r, h, resolve_route_backends-RouteOutcome spec r h)
        | inr (e, bad) ↦ absurd (resolve_route_backends-ne-failed spec answers e bad)
      ]
