-- ===== src/RouterController/Reconcile/Statuses.antt =====
-- What the reconciliation of a router that is not deleted sends, and how it ends.
use cell_router_operator.Base.{
  ◌≡◌, ◌⊎◌, inl, inr, refl, sym, ℕ, Bool, true, false, List, [], ◌∷◌, Text, codes, Option, All,
  arith,
}
use cell_router_operator.Api.Meta.{status_true, status_false}
use cell_router_operator.Api.Cell.{reason_reconciled}
use cell_router_operator.Api.Placement.{Placement}
use cell_router_operator.Api.Router.{
  CellRouter, CellRouterStatus, router_gateway_ready_condition, router_routes_ready_condition,
}
use cell_router_operator.Overlap.{Conflicts}
use cell_router_operator.RoutePlans.{build_route_plans}
use cell_router_operator.Client.{
  reply, failed, Request, Failure, gateway_namespace_required, Outcome, finished, failing, crashed,
  Program, attempt,
}
use cell_router_operator.Client.Runs.{
  Log, Runs, Runs-mono, has_failed, attempt-Runs, Extends, Extends-trans, Runs-Extends,
}
use cell_router_operator.Client.Written.{route_answers, is_kind}
use cell_router_operator.Machinery.{Machinery, MachineryLaws}
use cell_router_operator.Machinery.Conditions.{IsTrue-set_condition}
use cell_router_operator.CellController.Normal.{Requeue}
use cell_router_operator.RouterController.{list_router_placements, set_router_condition}
use cell_router_operator.RouterController.Routes.{RoutesResult, reconcile_routes}
use cell_router_operator.RouterController.Routes.Requests.{IsServed, IsRouterRequest}
use cell_router_operator.RouterController.Routes.Safe.{IsFresh, RoutesEnd, reconcile_routes-Runs}
use cell_router_operator.RouterController.Reconcile.{
  reconcile_gateway_namespace, reconcile_gateway, report_failure, report_routes, finish_routes,
  reconcile_placements, reconcile_listed, reconcile_normal,
}
use cell_router_operator.RouterController.Reconcile.Ends.{
  Listed, Listed-Extends, IsReady, NoneInvalid, IsNormalRequest, IsNormalEnd,
}

module _ (api : Machinery) (laws : MachineryLaws api) (sum32 : Text → ℕ)
    (subexp_names : Text → Option (List Text)) (iterate : Conflicts → Conflicts)
    (iterate_all : (m : Conflicts) → iterate m ≡ [] → m ≡ []) (router : CellRouter)
    (start : Log) where
  abbrev Sends : Log → Request → Type 0
  Sends = IsNormalRequest api subexp_names router start

  abbrev EndsAs : Log → Outcome Requeue → Type 0
  EndsAs = IsNormalEnd api subexp_names router start

  -- The status of a part that failed.
  report_failure-Runs :
      (s : CellRouterStatus) (kind message : Text) (f : Failure) (log : Log)
      → EndsAs log (failing f)
      → Runs Sends EndsAs log
          (report_failure api router (record router { status = s }) kind message f)
  unfolding report_failure set_router_condition
  report_failure-Runs s kind message f log bad = (
    inr (refl, refl, λ ready. absurd (unready (IsTrue-set_condition api _ _ laws ready))),
    elim [
      | failed text ↦ inl refl
      | reply u ↦ elim bad [
        | inl asked ↦ inl asked
        | inr (inl missing) ↦ inr (inl missing)
        | inr (inr (placements, e, same, listed, made)) ↦ inr (
            inr (
              placements,
              e,
              same,
              Listed-Extends router start log _ placements (_ ∷ [], refl) listed,
              made,
            ))
      ]
    ],
  )
    where
      unready : status_false ≡ status_true → ⊥
      unready e = ground arith

  -- The end, with the results of the routes.
  report_routes-ready :
      (ready : Bool) (r : CellRouter) → IsReady api (report_routes api ready r) → ready ≡ true
  unfolding report_routes set_router_condition
  report_routes-ready true r h = refl
  report_routes-ready false r h =
      let e = IsTrue-set_condition api _ _ laws h in absurd (ground arith)

  report_routes-spec : (ready : Bool) (r : CellRouter) → (report_routes api ready r).spec ≡ r.spec
  unfolding report_routes set_router_condition
  report_routes-spec true r = refl
  report_routes-spec false r = refl

  finish_routes-Runs :
      (s : CellRouterStatus) (gateway_ref : Text) (result : RoutesResult) (log : Log)
      → has_failed log ≡ false
      → (result.all_ready ≡ true
          → (result.needs_requeue ≡ false)
            × All (IsServed router) (route_answers log)
            × NoneInvalid api subexp_names router start log)
      → Runs Sends EndsAs log
          (finish_routes api router (record router { status = s }) gateway_ref result)
  unfolding finish_routes
  finish_routes-Runs s gateway_ref result log fine promised =
      let updated = record router {
        status = record s {
          managed_gateway_ref = gateway_ref;
          managed_routes = result.statuses;
          observed_generation = router.generation;
        };
      } in
      let after = report_routes api result.all_ready updated in
      (
        inr (
          refl,
          report_routes-spec result.all_ready updated,
          λ ready.
              let good = promised (report_routes-ready result.all_ready updated ready) in
              (fine, good.1, good.2),
        ),
        elim [
          | failed text ↦ inl refl
          | reply u ↦ (
            fine,
            after,
            log,
            refl,
            λ ready.
                let good = promised (report_routes-ready result.all_ready updated ready) in
                rw good.0 refl,
          )
        ],
      )

  reconcile_placements-Runs :
      (s : CellRouterStatus) (gateway_ref : Text) (placements : List Placement) (log : Log)
      → has_failed log ≡ false
      → IsFresh log
      → Listed router start log placements
      → Runs Sends EndsAs log (
          reconcile_placements api sum32 subexp_names iterate router
            (record router { status = s })
            gateway_ref
            placements)
  unfolding reconcile_placements build_route_plans
  reconcile_placements-Runs s gateway_ref placements log fine fresh listed =
      let now = record router { status = s } in
      let End = RoutesEnd api laws sum32 subexp_names iterate iterate_all now placements in
      let Later : Log → Outcome RoutesResult → Type 0 = λ l o. End l o × Extends log l in
      let still : (l : Log) → Extends log l → Listed router start l placements =
        λ l later. Listed-Extends router start log l placements later listed in
      attempt-Runs Sends Later EndsAs log
        (reconcile_routes api sum32 subexp_names iterate now router.spec.gateway.namespace
          placements)
        (report_failure api router now router_routes_ready_condition
          (codes "route reconciliation failed"))
        (finish_routes api router now gateway_ref)
        (Runs-mono (IsRouterRequest api router) Sends Later Later log _
          (Runs-Extends (IsRouterRequest api router) End log log _ ([], refl)
            (reconcile_routes-Runs api laws sum32 subexp_names iterate iterate_all now placements
              log fine fresh))
          (λ l q sent. inl sent) (λ l o h. h))
        (λ l f bad.
          report_failure-Runs s router_routes_ready_condition (codes "route reconciliation failed")
            f l
            (elim bad.0 [
              | inl asked ↦ inl asked
              | inr (e, same, made) ↦ inr (inr (placements, e, same, still l bad.1, made))
            ]))
        (λ l result good. finish_routes-Runs s gateway_ref result l good.0.0 (λ ready.
          let kept = good.0.1 ready in
          (kept.0, kept.1, (placements, kept.2.0, still l good.1, kept.2.1))))
        (λ l never. (placements, still l never.1, never.0))

  -- What is known before the routes are reconciled.
  FreshEnd {ℓ} : {A : Type ℓ} → (Log → A → Type 0) → Log → Outcome A → Type 0
  FreshEnd K log (finished a) = (has_failed log ≡ false) × IsFresh log × K log a
  FreshEnd K log (failing f) =
      (has_failed log ≡ true)
      ⊎ ((f ≡ gateway_namespace_required) × (router.spec.gateway.namespace ≡ []))
  FreshEnd K log crashed = ⊥

  -- A stage that is followed by another.
  stage-Runs {ℓ} :
      {A : Type ℓ} (K : Log → A → Type 0) (s : CellRouterStatus) (kind message : Text) (log : Log)
      (m : Program A) (rest : A → Program Requeue)
      → Runs Sends (FreshEnd K) log m
      → ((log' : Log) (a : A)
          → has_failed log' ≡ false
          → IsFresh log'
          → K log' a
          → Runs Sends EndsAs log' (rest a))
      → Runs Sends EndsAs log
          (attempt m (report_failure api router (record router { status = s }) kind message) rest)
  unfolding FreshEnd
  stage-Runs K s kind message log m rest h next =
      attempt-Runs Sends (FreshEnd K) EndsAs log m _ rest h
        (λ l f bad.
          report_failure-Runs s kind message f l
            (elim bad [ inl asked ↦ inl asked | inr missing ↦ inr (inl missing) ]))
        (λ l a good. next l a good.0 good.1 good.2) (λ l never. absurd never)

  reconcile_listed-Runs :
      (s : CellRouterStatus) (gateway_ref : Text) (log : Log)
      → has_failed log ≡ false
      → IsFresh log
      → Extends start log
      → Runs Sends EndsAs log (
          reconcile_listed api sum32 subexp_names iterate router
            (record router { status = s })
            gateway_ref)
  unfolding reconcile_listed list_router_placements set_router_condition FreshEnd
  reconcile_listed-Runs s gateway_ref log fine fresh begun =
      let ready =
        set_router_condition api (record router { status = s }) router_gateway_ready_condition
          status_true reason_reconciled (codes "gateway reconciled") in
      stage-Runs (Listed router start) ready.status router_routes_ready_condition
        (codes "placement discovery failed") log (list_router_placements router.name)
        (reconcile_placements api sum32 subexp_names iterate router ready gateway_ref)
        (
          inl tt,
          elim [
            | failed text ↦ inl refl
            | reply cluster ↦ (fine, fresh, (cluster, log, begun, ([], refl), refl))
          ],
        )
        (λ l placements fine1 fresh1 listed.
          reconcile_placements-Runs ready.status gateway_ref placements l fine1 fresh1 listed)

  reconcile_gateway-Runs :
      (log : Log)
      → has_failed log ≡ false
      → IsFresh log
      → Extends start log
      → Runs Sends (FreshEnd (λ l a. Extends start l)) log (reconcile_gateway router)
  unfolding reconcile_gateway is_kind FreshEnd
  reconcile_gateway-Runs log fine fresh begun = (
    inl (inr refl),
    elim [
      | failed text ↦ inl refl
      | reply parents ↦ (fine, fresh, Extends-trans begun (_ ∷ [], refl))
    ],
  )

  gateway_namespace-Runs :
      (namespace : Text) (log : Log)
      → namespace ≡ router.spec.gateway.namespace
      → has_failed log ≡ false
      → IsFresh log
      → Extends start log
      → Runs Sends
          (FreshEnd (λ l a. Extends start l))
          log
          (reconcile_gateway_namespace router namespace)
  unfolding reconcile_gateway_namespace is_kind FreshEnd
  gateway_namespace-Runs [] log same fine fresh begun = inr (refl, sym same)
  gateway_namespace-Runs (c ∷ n) log same fine fresh begun = (
    inl (inl (refl, same)),
    elim [
      | failed text ↦ inl refl
      | reply parents ↦ (fine, fresh, Extends-trans begun (_ ∷ [], refl))
    ],
  )

  -- If find_condition and set_condition meet the laws, iterate leaves out nothing of a map that is
  -- not empty, and no request has failed and no route or grant was written before, the
  -- reconciliation of a router keeps to the writes, deletions and placement statuses that the
  -- reconciliation of its routes may send, and writes only statuses of the router that say Ready
  -- only if no request has failed, the gateway serves every route that was written, and none of
  -- the router's placements, as the server has just listed them, is invalid. It ends right after a
  -- status was written, not to be repeated if that says Ready; or with an error, after a failed
  -- request or of an empty gateway namespace or of the plans of the placements that were listed;
  -- or with the panic of those plans.
  pub reconcile_normal-IsNormalEnd :
      has_failed start ≡ false
      → IsFresh start
      → Runs
          (IsNormalRequest api subexp_names router start)
          (IsNormalEnd api subexp_names router start)
          start
          (reconcile_normal api sum32 subexp_names iterate router)
  unfolding reconcile_normal
  reconcile_normal-IsNormalEnd fine0 fresh0 =
      let gateway_namespace = router.spec.gateway.namespace in
      stage-Runs (λ l u. Extends start l) router.status router_gateway_ready_condition
        (codes "gateway namespace reconciliation failed") start
        (reconcile_gateway_namespace router gateway_namespace) _
        (gateway_namespace-Runs gateway_namespace start refl fine0 fresh0 ([], refl))
        (λ l u fine fresh begun.
          stage-Runs (λ l2 a. Extends start l2) router.status router_gateway_ready_condition
            (codes "gateway reconciliation failed") l (reconcile_gateway router)
            (reconcile_listed api sum32 subexp_names iterate router router)
            (reconcile_gateway-Runs l fine fresh begun)
            (λ l2 gateway_ref fine1 fresh1 begun1.
              reconcile_listed-Runs router.status gateway_ref l2 fine1 fresh1 begun1))
