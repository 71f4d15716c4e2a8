-- ===== src/RouterController/Routes/Requests.antt =====
-- What `reconcileRoutes` sends, and what it returns.
use cell_router_operator.Base.{
  ◌↔◌, not, is_empty, ◌∙◌, ◌≡◌, ◌⊎◌, inr, refl, ℕ, Bool, true, false, List, [], ◌∷◌, Text, Option,
  none, some, is_empty, All, arith, text_eq, text_eq_refl,
}
use cell_router_operator.Api.Placement.{placement_ready_condition, Placement}
use cell_router_operator.Api.Router.{CellRouter, ManagedRouteStatus}
use cell_router_operator.RouteBuilder.{BackendTarget, reference_grant_name}
use cell_router_operator.Overlap.{Conflicts}
use cell_router_operator.RoutePlans.{RoutePlan}
use cell_router_operator.RouteStatus.{RouteParentStatus, is_route_ready}
use cell_router_operator.Client.{
  namespace_kind, http_route_kind, reference_grant_kind, Reply, reply, failed, Request,
  write_object, delete_object, patch_cell, patch_cell_status, patch_router, patch_router_status,
  patch_placement_status,
}
use cell_router_operator.Client.Runs.{Log, Runs, has_failed, if-Runs}
use cell_router_operator.Client.Written.{
  written_names, route_answers, WasGiven, All-mono, Ends, >>=-Ends, is_kind,
}
use cell_router_operator.Machinery.{Machinery, MachineryLaws}
use cell_router_operator.Machinery.Conditions.{IsTrue-set_condition, set_condition-IsTrue}
use cell_router_operator.Messages.{route_reason_text}
use cell_router_operator.Backends.Resolved.{IsTrue}
use cell_router_operator.RouterController.{
  set_placement_readiness, is_expected, patch_if_there, patch_placement_readiness,
  reconcile_reference_grant, find_placement_by_name,
}
use cell_router_operator.RouterController.Resolve.{ask_route_backends}
use cell_router_operator.RouterController.Resolve.Requests.{Agree, ask_route_backends-Ends}
use cell_router_operator.RouterController.Routes.{
  RoutesRound, report_invalid, reconcile_grants, note_readiness, publish_route, status_of,
  reconcile_plan, reconcile_plans,
}

-- An HTTPRoute's answer says that the gateway serves the route.
abbrev pub IsServed : CellRouter → Reply (List RouteParentStatus) → Type 0
IsServed router (reply parents) =
    (is_route_ready parents router.spec.gateway.name router.spec.gateway.namespace).0 ≡ true
IsServed router (failed text) = ⊥

-- Every name is one of the expected ones.
abbrev pub AreExpected : List Text → List Text → Type 0
AreExpected expected names = All (λ n. is_expected n expected ≡ true) names

-- What a router that is not deleted may lead to, beside reads: writes of the gateway's namespace and
-- of what the router controls, deletions of objects that the server gave and whose names were not
-- written, and statuses by which a placement is ready exactly if it lists a backend.
abbrev pub IsRouterRequest : Machinery → CellRouter → Log → Request → Type 0
IsRouterRequest api router log (write_object w) =
    ((w.kind ≡ namespace_kind) × (w.name ≡ router.spec.gateway.namespace))
    ⊎ (w.controller ≡ some router.uid)
IsRouterRequest api router log (delete_object kind h) =
    WasGiven kind h log × All (λ n. text_eq n h.name ≡ false) (written_names kind log)
IsRouterRequest api router log (patch_router before after) = ⊥
IsRouterRequest api router log (patch_router_status before after) = ⊥
IsRouterRequest api router log (patch_cell before after) = ⊥
IsRouterRequest api router log (patch_cell_status before after) = ⊥
IsRouterRequest api router log (patch_placement_status before after) =
    (after.spec ≡ before.spec)
    × (IsTrue (api.find_condition after.status.conditions placement_ready_condition)
        ↔ (is_empty after.status.resolved_backends ≡ false))
IsRouterRequest api router log q = Unit

-- The variables of the loop agree with what was sent: all that was written is expected, and
-- `allReady` is only left if nothing is to be repeated, the gateway serves every route and no
-- placement is invalid (`clean`).
abbrev pub Tracks : CellRouter → Bool → RoutesRound → Log → Type 0
Tracks router clean round log =
    AreExpected round.routes (written_names http_route_kind log)
    × AreExpected round.grants (written_names reference_grant_kind log)
    × (round.all_ready ≡ true
        → (round.needs_requeue ≡ false)
          × All (IsServed router) (route_answers log)
          × (clean ≡ true))

not-not : (b : Bool) → b ≡ not (not b)
not-not true = refl
not-not false = refl

module _ (api : Machinery) (laws : MachineryLaws api) (sum32 : Text → ℕ) (router : CellRouter)
    (clean : Bool) where
  expected_more :
      (name : Text) (expected names : List Text)
      → AreExpected expected names
      → AreExpected (name ∷ expected) names
  unfolding is_expected
  expected_more name expected names h = All-mono _ _ names (λ n there. ground arith) h

  expected_new : (name : Text) (expected : List Text) → is_expected name (name ∷ expected) ≡ true
  unfolding is_expected
  expected_new name expected = rw (text_eq_refl name) refl

  readiness_lem :
      (p : Placement) (backends : List Text) (reason : Text) (ready : Bool)
      → is_empty backends ≡ not ready
      → ((set_placement_readiness api p backends reason ready).spec ≡ p.spec)
        × (IsTrue (
              api.find_condition
                (set_placement_readiness api p backends reason ready).status.conditions
                placement_ready_condition)
            ↔ (is_empty backends ≡ false))
  unfolding set_placement_readiness
  readiness_lem p backends reason true agree =
      (refl, (λ h. agree, λ h. set_condition-IsTrue api _ _ laws refl))
  readiness_lem p backends reason false agree = (
    refl,
    (
      λ h. let e = IsTrue-set_condition api _ _ laws h in absurd (ground arith),
      λ h. absurd (ground arith),
    ),
  )

  patch_if_there-Ends :
      (I : Log → Type 0) (p : Option Placement) (backends : List Text) (reason : Text)
      (ready : Bool) (log : Log)
      → is_empty backends ≡ not ready
      → ((before after : Placement) (r : Reply (Unit {0}))
          → I log
          → I ((patch_placement_status before after, r) ∷ log))
      → has_failed log ≡ false
      → I log
      → Runs
          (IsRouterRequest api router)
          (Ends (λ a. I))
          log
          (patch_if_there api p backends reason ready)
  unfolding patch_if_there patch_placement_readiness set_placement_readiness
  patch_if_there-Ends I none backends reason ready log agree keeps fine good = (fine, good)
  patch_if_there-Ends I (some p) backends reason ready log agree keeps fine good = (
    readiness_lem p backends reason ready agree,
    elim [ reply u ↦ (fine, keeps _ _ _ good) | failed text ↦ refl ],
  )

  pub report_invalid-Ends :
      (round : RoutesRound) (placements : List Placement) (invalid : Conflicts)
      (statuses : List ManagedRouteStatus) (log : Log)
      → has_failed log ≡ false
      → Tracks router clean round log
      → Runs
          (IsRouterRequest api router)
          (Ends (λ a. Tracks router clean round))
          log
          (report_invalid api placements invalid statuses)
  unfolding report_invalid
  report_invalid-Ends round placements [] statuses log fine good = (fine, good)
  report_invalid-Ends round placements ((name, why) ∷ rest) statuses log fine good =
      >>=-Ends (IsRouterRequest api router) (λ a. Tracks router clean round)
        (λ a. Tracks router clean round) log _ _
        (patch_if_there-Ends (Tracks router clean round) (find_placement_by_name placements name) []
          _ false log refl (λ b a r kept. kept) fine good)
        (λ l u fine1 good1. report_invalid-Ends round placements rest _ l fine1 good1)

  reconcile_grants-Ends :
      (round : RoutesRound) (route_name gateway_namespace : Text) (backends : List BackendTarget)
      (grants : List Text) (log : Log)
      → has_failed log ≡ false
      → Tracks router clean (record round { grants = grants }) log
      → Runs
          (IsRouterRequest api router)
          (Ends (λ gs. Tracks router clean (record round { grants = gs })))
          log
          (reconcile_grants sum32 router route_name gateway_namespace backends grants)
  unfolding reconcile_grants reconcile_reference_grant is_kind
  reconcile_grants-Ends round route_name gateway_namespace [] grants log fine good = (fine, good)
  reconcile_grants-Ends round route_name gateway_namespace (b ∷ rest) grants log fine good =
      let name = reference_grant_name sum32 route_name b in
      (
        inr refl,
        elim [
          | failed text ↦ refl
          | reply parents ↦
              reconcile_grants-Ends round route_name gateway_namespace rest (name ∷ grants) _ fine
                (good.0, (expected_new name grants, expected_more name grants _ good.1), good.2)
        ],
      )

  note_readiness_lem :
      (round : RoutesRound) (status : ManagedRouteStatus) (ready : Bool) (time : Option ℕ)
      → (note_readiness round status (ready, time)).all_ready ≡ true
      → (ready ≡ true)
        × (round.all_ready ≡ true)
        × (round.needs_requeue ≡ false
            → (note_readiness round status (ready, time)).needs_requeue ≡ false)
  unfolding note_readiness
  note_readiness_lem round status true time h = (refl, h, λ quiet. quiet)
  note_readiness_lem round status false time h = absurd (ground arith)

  publish_route-Ends :
      (round : RoutesRound) (plan : RoutePlan) (backends : List BackendTarget)
      (status : ManagedRouteStatus) (log : Log)
      → has_failed log ≡ false
      → Tracks router clean round log
      → Runs
          (IsRouterRequest api router)
          (Ends (Tracks router clean))
          log
          (publish_route sum32 router router.spec.gateway.namespace round plan backends status)
  unfolding publish_route is_kind note_readiness
  publish_route-Ends round plan backends status log fine good =
      let gateway_namespace = router.spec.gateway.namespace in
      >>=-Ends (IsRouterRequest api router)
        (λ gs. Tracks router clean (record round { grants = gs })) (Tracks router clean) log
        (reconcile_grants sum32 router plan.name gateway_namespace backends round.grants) _
        (reconcile_grants-Ends round plan.name gateway_namespace backends round.grants log fine
          good)
        (λ l grants fine1 good1. (
          inr refl,
          elim [
            | failed text ↦ refl
            | reply parents ↦
                let answer = is_route_ready parents router.spec.gateway.name gateway_namespace in
                let noted = note_readiness_lem round status answer.0 answer.1 in
                (
                  fine1,
                  (
                    (
                      expected_new plan.name round.routes,
                      expected_more plan.name round.routes _ good1.0,
                    ),
                    good1.1,
                    λ left.
                        let (served, before, quiet) = noted left in
                        let kept = good1.2 before in (quiet kept.0, (served, kept.1), kept.2),
                  ),
                )
          ],
        ))

  reconcile_plan-Ends :
      (round : RoutesRound) (plan : RoutePlan) (log : Log)
      → has_failed log ≡ false
      → Tracks router clean round log
      → Runs
          (IsRouterRequest api router)
          (Ends (Tracks router clean))
          log
          (reconcile_plan api sum32 router router.spec.gateway.namespace round plan)
  unfolding reconcile_plan
  reconcile_plan-Ends round plan log fine good =
      let P = IsRouterRequest api router in
      let I : Log → Type 0 = Tracks router clean round in
      >>=-Ends P (λ found l. Agree found.backends found.backend_refs × I l) (Tracks router clean)
        log (ask_route_backends api plan.spec) _
        (ask_route_backends-Ends api P I (λ l name. tt) (λ l name r kept. kept) plan.spec log fine
          good)
        (λ l found fine1 good1.
          >>=-Ends P (λ a. I) (Tracks router clean) l _ _
            (patch_if_there-Ends I plan.placement found.backend_refs
              (route_reason_text api found.reason) (not (is_empty found.backends)) l
              (good1.0 ∙ not-not (is_empty found.backends)) (λ b a r kept. kept) fine1 good1.1)
            (λ l2 u fine2 good2.
              if-Runs P (Ends (Tracks router clean)) l2 (is_empty found.backends) _ _
                (λ missing. (fine2, (good2.0, good2.1, λ left. absurd (ground arith))))
                (λ there.
                  publish_route-Ends round plan found.backends (status_of api plan found) l2 fine2
                    good2)))

  pub reconcile_plans-Ends :
      (round : RoutesRound) (plans : List RoutePlan) (log : Log)
      → has_failed log ≡ false
      → Tracks router clean round log
      → Runs
          (IsRouterRequest api router)
          (Ends (Tracks router clean))
          log
          (reconcile_plans api sum32 router router.spec.gateway.namespace round plans)
  unfolding reconcile_plans
  reconcile_plans-Ends round [] log fine good = (fine, good)
  reconcile_plans-Ends round (plan ∷ rest) log fine good =
      >>=-Ends (IsRouterRequest api router) (Tracks router clean) (Tracks router clean) log _ _
        (reconcile_plan-Ends round plan log fine good)
        (λ l next fine1 good1. reconcile_plans-Ends next rest l fine1 good1)
