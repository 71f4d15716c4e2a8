-- ===== src/RouterController/Routes/Safe.antt =====
-- What `reconcileRoutes` deletes, and when it calls the routes ready.
use cell_router_operator.Base.{
  ◌≡◌, ◌⊎◌, inl, inr, refl, ap, ◌∙◌, ℕ, true, false, List, [], ◌∷◌, Text, Option, is_empty, All,
  arith,
}
use cell_router_operator.Errors.{Error, Result, ok, err, panic}
use cell_router_operator.Api.Placement.{Placement}
use cell_router_operator.Api.Router.{CellRouter, ManagedRouteStatus}
use cell_router_operator.Overlap.{Conflicts}
use cell_router_operator.RoutePlans.{RoutePlan, build_route_plans}
use cell_router_operator.Client.{
  http_route_kind, reference_grant_kind, plan_error, Outcome, finished, failing, crashed, Program,
  ◌>>=◌, ◌>>◌, done,
}
use cell_router_operator.Client.Runs.{Log, Runs, Runs-mono, has_failed}
use cell_router_operator.Client.Written.{written_names, route_answers, Ends, >>=-Ends}
use cell_router_operator.Machinery.{Machinery, MachineryLaws}
use cell_router_operator.RouterController.{cleanup_stale_routes, cleanup_stale_reference_grants}
use cell_router_operator.RouterController.Routes.{
  RoutesRound, RoutesResult, from_result, report_invalid, reconcile_plans, reconcile_routes,
}
use cell_router_operator.RouterController.Routes.Cleanup.{
  cleanup_stale_routes-Ends, cleanup_stale_grants-Ends,
}
use cell_router_operator.RouterController.Routes.Requests.{
  IsServed, IsRouterRequest, Tracks, report_invalid-Ends, reconcile_plans-Ends,
}

-- Neither a route nor a grant was written.
abbrev pub IsFresh : Log → Type 0
IsFresh log =
    (written_names http_route_kind log ≡ [])
    × (written_names reference_grant_kind log ≡ [])
    × (route_answers log ≡ [])

module _ (api : Machinery) (laws : MachineryLaws api) (sum32 : Text → ℕ)
    (subexp_names : Text → Option (List Text)) (iterate : Conflicts → Conflicts)
    (iterate_all : (m : Conflicts) → iterate m ≡ [] → m ≡ []) (router : CellRouter)
    (placements : List Placement) where
  -- How `reconcileRoutes` ends. The routes are called ready only if no placement is invalid, the
  -- gateway serves every route, and nothing is to be repeated; an error is that of a request or
  -- that of the plans, and a panic that of the plans.
  abbrev pub RoutesEnd : Log → Outcome RoutesResult → Type 0
  RoutesEnd log (finished result) =
      (has_failed log ≡ false)
      × (result.all_ready ≡ true
          → (result.needs_requeue ≡ false)
            × All (IsServed router) (route_answers log)
            × ((plans : List RoutePlan) × (build_route_plans subexp_names router placements
                  ≡ ok (plans, []))))
  RoutesEnd log (failing f) =
      (has_failed log ≡ true)
      ⊎ ((e : Error) × (f ≡ plan_error e)
          × (build_route_plans subexp_names router placements ≡ err e))
  RoutesEnd log crashed = build_route_plans subexp_names router placements ≡ panic

  nil_lem : (m : Conflicts) → is_empty m ≡ true → m ≡ []
  nil_lem [] h = refl
  nil_lem (x ∷ rest) h = ground arith

  planned_routes : List RoutePlan × Conflicts → Program RoutesResult
  planned_routes (plans, invalid) = do
    statuses ← report_invalid api placements (iterate invalid) []
    round ←
        reconcile_plans api sum32 router router.spec.gateway.namespace
          (record {
            all_ready = is_empty (iterate invalid);
            needs_requeue = false;
            statuses = statuses;
            routes = [];
            grants = [];
          })
          plans
    cleanup_stale_routes router router.spec.gateway.namespace round.routes
    cleanup_stale_reference_grants router round.grants
    done (record {
      all_ready = round.all_ready;
      needs_requeue = round.needs_requeue;
      statuses = round.statuses;
    })

  -- What the results promise.
  IsPromised : Conflicts → RoutesResult → Log → Type 0
  IsPromised invalid result log =
      result.all_ready ≡ true
      → (result.needs_requeue ≡ false)
        × All (IsServed router) (route_answers log)
        × (is_empty (iterate invalid) ≡ true)

  planned_routes-Ends :
      (planned : List RoutePlan × Conflicts) (log : Log)
      → has_failed log ≡ false
      → IsFresh log
      → Runs (IsRouterRequest api router) (Ends (IsPromised planned.1)) log (planned_routes planned)
  unfolding planned_routes IsPromised
  planned_routes-Ends (plans, invalid) log fine (no_routes, no_grants, no_answers) =
      let P = IsRouterRequest api router in
      let clean = is_empty (iterate invalid) in
      let empty : List ManagedRouteStatus → RoutesRound = λ statuses. record {
        all_ready = clean;
        needs_requeue = false;
        statuses = statuses;
        routes = [];
        grants = [];
      } in
      let I : RoutesRound → Log → Type 0 = Tracks router clean in
      let start : I (empty []) log =
        rw (no_routes, no_grants, no_answers) (tt, tt, λ c. (refl, tt, c)) in
      >>=-Ends P (λ statuses. I (empty statuses)) (IsPromised invalid) log
        (report_invalid api placements (iterate invalid) []) _
        (report_invalid-Ends api laws sum32 router clean (empty []) placements (iterate invalid) []
          log fine start)
        (λ l statuses fine1 good1.
          >>=-Ends P I (IsPromised invalid) l
            (reconcile_plans api sum32 router router.spec.gateway.namespace (empty statuses) plans)
            _
            (reconcile_plans-Ends api laws sum32 router clean (empty statuses) plans l fine1 good1)
            (λ l2 round fine2 good2.
              >>=-Ends P (λ a. I round) (IsPromised invalid) l2
                (cleanup_stale_routes router router.spec.gateway.namespace round.routes) _
                (cleanup_stale_routes-Ends api router clean round l2 fine2 good2)
                (λ l3 u fine3 good3.
                  >>=-Ends P (λ a. I round) (IsPromised invalid) l3
                    (cleanup_stale_reference_grants router round.grants) _
                    (cleanup_stale_grants-Ends api router clean round l3 fine3 good3)
                    (λ l4 u2 fine4 good4. (fine4, good4.2)))))

  promised_end :
      (plans : List RoutePlan) (invalid : Conflicts) (log : Log) (o : Outcome RoutesResult)
      → build_route_plans subexp_names router placements ≡ ok (plans, invalid)
      → Ends (IsPromised invalid) log o
      → RoutesEnd log o
  unfolding IsPromised
  promised_end plans invalid log (finished result) made (fine, good) = (
    fine,
    λ ready.
        let (quiet, served, clean) = good ready in
        let none_invalid : invalid ≡ [] = iterate_all invalid (nil_lem (iterate invalid) clean) in
        (quiet, served, (plans, made ∙ ap (λ (m : Conflicts). ok (plans, m)) none_invalid)),
  )
  promised_end plans invalid log (failing f) made h = inl h
  promised_end plans invalid log crashed made h = absurd h

  with_plans :
      (result : Result (List RoutePlan × Conflicts)) (log : Log)
      → build_route_plans subexp_names router placements ≡ result
      → has_failed log ≡ false
      → IsFresh log
      → Runs (IsRouterRequest api router) RoutesEnd log (from_result result >>= planned_routes)
  with_plans (ok planned) log made fine fresh =
      Runs-mono (IsRouterRequest api router) (IsRouterRequest api router)
        (Ends (IsPromised planned.1)) RoutesEnd log (planned_routes planned)
        (planned_routes-Ends planned log fine fresh) (λ l q sent. sent)
        (λ l o h. promised_end planned.0 planned.1 l o made h)
  with_plans (err e) log made fine fresh = inr (e, refl, made)
  with_plans panic log made fine fresh = made

  -- If find_condition and set_condition meet the laws, iterate leaves out nothing of a map that is
  -- not empty, and no request has failed and no route or grant was written before, the
  -- reconciliation of the routes writes only the gateway's namespace and what it makes the
  -- router's, deletes only objects that the server gave and whose names it has not written, and
  -- gives a placement a status that is Ready exactly if it lists a backend. It calls the routes
  -- ready only if no placement is invalid, every route that it wrote is served by the gateway and
  -- nothing is to be repeated, and it ends with an error or a panic only if a request failed or
  -- buildRoutePlans returned that error or panic.
  pub reconcile_routes-Runs :
      (log : Log)
      → has_failed log ≡ false
      → IsFresh log
      → Runs (IsRouterRequest api router) RoutesEnd log (
          reconcile_routes api sum32 subexp_names iterate router router.spec.gateway.namespace
            placements)
  unfolding reconcile_routes planned_routes
  reconcile_routes-Runs log fine fresh =
      with_plans (build_route_plans subexp_names router placements) log refl fine fresh
