-- ===== src/RouterController/Resolve/Requests.antt =====
-- What the resolution of a route asks for.
use cell_router_operator.Base.{
  Bool, true, if◌then◌else◌, ◌≡◌, ◌⊎◌, inl, inr, refl, false, List, [], ◌∷◌, Text, Option, none,
  some, is_empty, Option-cases,
}
use cell_router_operator.Api.Cell.{Cell}
use cell_router_operator.Api.Placement.{BackendRef}
use cell_router_operator.Api.Router.{RouteSpec}
use cell_router_operator.RouteBuilder.{BackendTarget}
use cell_router_operator.Backends.{
  RouteBackends, fetched, not_resolved, cell_not_found, Candidate, usable, unusable, candidate,
  candidate_cell, cell_not_traffic_ready, resolve_backend, backend_found, backend_error,
  ResolvedBackend, Issue, Resolution, candidates_of,
}
use cell_router_operator.Client.{Reply, reply, failed, Request, Program, get_cell}
use cell_router_operator.Client.Runs.{Log, Runs, has_failed, if-Runs}
use cell_router_operator.Client.Written.{Ends, >>=-Ends}
use cell_router_operator.Machinery.{Machinery}
use cell_router_operator.RouterController.Resolve.{
  add_candidate, ask_backend_candidates, ask_fallback, ask_route_backends,
}

IsDecided : Candidate → Type 0
IsDecided c = ((b : BackendTarget) × (c ≡ usable b)) ⊎ ((i : Issue) × (c ≡ unusable i))

resolved_lem :
    (ref : BackendRef) (found : ResolvedBackend)
    → IsDecided (elim found [
      | backend_error e ↦ unusable (not_resolved ref.cell_ref e)
      | backend_found b ↦ usable (record b { weight = ref.weight; cell_ref = ref.cell_ref })
    ])
unfolding IsDecided
resolved_lem ref (backend_error e) = inr (_, refl)
resolved_lem ref (backend_found b) = inl (_, refl)

-- A cell that was found leads to a backend or to an issue.
candidate_cell-IsDecided :
    (api : Machinery) (ref : BackendRef) (cell : Cell)
    → IsDecided (candidate_cell api.find_condition (λ name. fetched cell) ref cell)
unfolding candidate_cell IsDecided
candidate_cell-IsDecided api ref cell =
    elim (Option-cases (cell_not_traffic_ready api.find_condition cell)) [
      | inl ready ↦ rw (ready, candidate_cell) (resolved_lem ref (resolve_backend cell))
      | inr (why, unready) ↦ rw (unready, candidate_cell) (inr (_, refl))
    ]

-- There are backends exactly if there are names of their cells.
abbrev pub Agree : List BackendTarget → List Text → Type 0
Agree backends refs = is_empty refs ≡ is_empty backends

-- `P` allows the reads of cells, which `I` does not depend on.
module _ (api : Machinery) (P : Log → Request → Type 0) (I : Log → Type 0)
    (reads : (log : Log) (name : Text) → P log (get_cell name))
    (keeps : (log : Log) (name : Text) (r : Reply (Option Cell))
      → I log
      → I ((get_cell name, r) ∷ log)) where
  ResolutionGood : Resolution → Log → Type 0
  ResolutionGood r log = Agree r.backends r.backend_refs × I log

  RouteGood : RouteBackends → Log → Type 0
  RouteGood r log = Agree r.backends r.backend_refs × I log

  decided-Ends :
      (c : Candidate) (later : Program Resolution) (log : Log)
      → IsDecided c
      → Runs P (Ends ResolutionGood) log later
      → Runs P (Ends ResolutionGood) log (add_candidate c later)
  unfolding IsDecided ResolutionGood
  decided-Ends c later log (inl (b, e)) h = rw e (
      >>=-Ends P ResolutionGood ResolutionGood log later _ h
        (λ l r fine good. (fine, (refl, good.1))))
  decided-Ends c later log (inr (i, e)) h = rw e (
      >>=-Ends P ResolutionGood ResolutionGood log later _ h
        (λ l r fine good. (fine, (good.0, good.1))))

  ask_backend_candidates-Ends :
      (refs : List BackendRef) (log : Log)
      → has_failed log ≡ false
      → I log
      → Runs P (Ends ResolutionGood) log (ask_backend_candidates api refs)
  unfolding ask_backend_candidates candidate IsDecided ResolutionGood
  ask_backend_candidates-Ends [] log fine good = (fine, (refl, good))
  ask_backend_candidates-Ends (ref ∷ refs) log fine good = (
    reads log ref.cell_ref,
    elim [
      | failed text ↦ refl
      | reply none ↦
          decided-Ends (unusable (cell_not_found ref.cell_ref)) (ask_backend_candidates api refs) _
            (inr (_, refl)) (ask_backend_candidates-Ends refs _ fine (keeps log _ _ good))
      | reply (some cell) ↦
          decided-Ends (candidate_cell api.find_condition (λ name. fetched cell) ref cell)
            (ask_backend_candidates api refs) _ (candidate_cell-IsDecided api ref cell)
            (ask_backend_candidates-Ends refs _ fine (keeps log _ _ good))
    ],
  )

  -- What a list of candidates comes to, whichever of two ways it goes on.
  Agree-if :
      (b : Bool) (first second : RouteBackends)
      → Agree first.backends first.backend_refs
      → Agree second.backends second.backend_refs
      → Agree (if b then first else second).backends (if b then first else second).backend_refs
  Agree-if true first second h k = h
  Agree-if false first second h k = k

  ask_fallback-Ends :
      (fallback : Option BackendRef) (issues : List Issue) (log : Log)
      → has_failed log ≡ false
      → I log
      → Runs P (Ends RouteGood) log (ask_fallback api fallback issues)
  unfolding ask_fallback ResolutionGood RouteGood
  ask_fallback-Ends none issues log fine good = (fine, (refl, good))
  ask_fallback-Ends (some ref) issues log fine good =
      >>=-Ends P ResolutionGood RouteGood log (ask_backend_candidates api (ref ∷ [])) _
        (ask_backend_candidates-Ends (ref ∷ []) log fine good)
        (λ l r fine1 good1. (fine1, (Agree-if (is_empty r.backends) _ _ refl good1.0, good1.1)))

  -- The resolution of a route reads cells only.
  pub ask_route_backends-Ends :
      (spec : RouteSpec) (log : Log)
      → has_failed log ≡ false
      → I log
      → Runs P
          (Ends (λ r l. Agree r.backends r.backend_refs × I l))
          log
          (ask_route_backends api spec)
  unfolding ask_route_backends ResolutionGood RouteGood
  ask_route_backends-Ends spec log fine good =
      >>=-Ends P ResolutionGood RouteGood log (ask_backend_candidates api (candidates_of spec)) _
        (ask_backend_candidates-Ends (candidates_of spec) log fine good)
        (λ l r fine1 good1.
          if-Runs P (Ends RouteGood) l (is_empty r.backends) _ _
            (λ empty. ask_fallback-Ends spec.fallback_backend r.issues l fine1 good1.1)
            (λ there. (fine1, (good1.0, good1.1))))
