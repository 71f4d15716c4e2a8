-- ===== src/CellController/Normal/Statuses.antt =====
-- What the reconciliation of a cell that is not deleted sends, and how it ends.
use cell_router_operator.Base.{
  ◌≡◌, ◌≢◌, inl, inr, refl, ℕ, Bool, true, false, none, some, Text, codes, arith, if◌then◌else◌,
}
use cell_router_operator.Api.Meta.{status_true}
use cell_router_operator.Api.Cell.{
  Cell, CellStatus, cell_namespace_ready_condition, cell_service_ready_condition, reason_reconciled,
}
use cell_router_operator.Backends.{effective_namespace, effective_cell_state}
use cell_router_operator.Backends.Resolved.{TakesTraffic}
use cell_router_operator.Client.{
  reply, failed, patch_cell_status, Outcome, finished, failing, crashed, Program, attempt, done,
  ◌>>◌, ask, void_reply,
}
use cell_router_operator.Client.Runs.{Log, Runs, IsHonest, has_failed, attempt-Runs}
use cell_router_operator.Machinery.{Machinery, MachineryLaws}
use cell_router_operator.CellController.{count_ready_endpoints, set_cell_condition}
use cell_router_operator.CellController.Normal.{
  Requeue, cell_backend_requeue_delay, reconcile_namespace, reconcile_service, report_failure,
  report_state, report_counted, reconcile_backend, reconcile_rest, reconcile_entrypoint,
  reconcile_normal,
}
use cell_router_operator.CellController.Normal.Readiness.{
  IsReport, report_state-KeepsRest, report_state-IsReport,
}
use cell_router_operator.CellController.Normal.Requests.{
  WasCounted, IsNormalRequest, IsNormalEnd, report_failure-Runs, reconcile_policies-IsHonest,
}

requeued :
    (again : Bool)
    → (if again then some cell_backend_requeue_delay else none) ≡ some cell_backend_requeue_delay
    → again ≡ true
requeued true h = refl
requeued false h = ground arith

module _ (api : Machinery) (laws : MachineryLaws api) (cell : Cell) where
  -- The end, for a status that says what it should.
  send_report-Runs :
      (endpoints : ℕ) (result : Cell × Bool) (log : Log)
      → has_failed log ≡ false
      → WasCounted endpoints log
      → result.0.spec ≡ cell.spec
      → result.0.status.available_endpoints ≡ endpoints
      → IsReport api laws result (
          TakesTraffic (effective_cell_state cell)
          × TakesTraffic (effective_cell_state cell)
          × (endpoints ≢ 0))
      → Runs (IsNormalRequest api cell) (IsNormalEnd api) log (do
        ask (patch_cell_status cell result.0) void_reply
        done (if result.1 then some cell_backend_requeue_delay else none))
  send_report-Runs endpoints (after, again) log fine counted same n (takes, waits) = (
    (
      refl,
      same,
      (
        λ h. let t = takes.0 h in (fine, t.0, rw n t.2, rw n counted),
        λ t. takes.1 (t.1, t.1, rw⁻¹ n t.2),
      ),
    ),
    elim [
      | reply u ↦ (
        fine,
        cell,
        after,
        log,
        refl,
        (λ h. waits.0 (requeued again h), λ h. rw (waits.1 h) refl),
      )
      | failed text ↦ refl
    ],
  )

  report_counted-Runs :
      (s : CellStatus) (service : Text) (endpoints : ℕ) (log : Log)
      → has_failed log ≡ false
      → WasCounted endpoints log
      → Runs (IsNormalRequest api cell) (IsNormalEnd api) log (
          report_counted api cell
            (record cell { status = s })
            (effective_namespace cell)
            service
            endpoints)
  unfolding report_counted effective_cell_state
  report_counted-Runs s service endpoints log fine counted =
      let state = effective_cell_state cell in
      let updated = record cell {
        status = record s {
          namespace = effective_namespace cell;
          entrypoint_service = service;
          observed_generation = cell.generation;
          operational_state = state;
          available_endpoints = endpoints;
        };
      } in
      let (spec, n) = report_state-KeepsRest api state endpoints updated in
      send_report-Runs endpoints (report_state api state endpoints updated) log fine counted spec n
        (report_state-IsReport api laws state endpoints updated)

  -- The count, and what is known after it.
  HasCounted : Log → Outcome ℕ → Type 0
  HasCounted log (finished n) = (has_failed log ≡ false) × WasCounted n log
  HasCounted log (failing f) = has_failed log ≡ true
  HasCounted log crashed = ⊥

  reconcile_backend-Runs :
      (s : CellStatus) (service : Text) (log : Log)
      → has_failed log ≡ false
      → Runs (IsNormalRequest api cell) (IsNormalEnd api) log (
          reconcile_backend api cell
            (record cell { status = s })
            (effective_namespace cell)
            service)
  unfolding reconcile_backend count_ready_endpoints HasCounted
  reconcile_backend-Runs s service log fine =
      attempt-Runs (IsNormalRequest api cell) HasCounted (IsNormalEnd api) log
        (count_ready_endpoints (effective_namespace cell) cell.spec.entrypoint.service_name) _ _
        (
          (refl, refl),
          elim [ reply slices ↦ (fine, (_, _, slices, log, refl, refl)) | failed text ↦ refl ],
        )
        (λ l f bad. report_failure-Runs api laws cell s _ _ f l bad)
        (λ l n good. report_counted-Runs s service n l good.0 good.1) (λ l never. never)

  -- A stage that is followed by another, which starts from a status of its own.
  stage-Runs {ℓ} :
      {A : Type ℓ} (s : CellStatus) (kind message : Text) (log : Log) (m : Program A)
      (rest : A → Program Requeue)
      → Runs (IsNormalRequest api cell) IsHonest log m
      → ((log' : Log) (a : A)
          → has_failed log' ≡ false
          → Runs (IsNormalRequest api cell) (IsNormalEnd api) log' (rest a))
      → Runs
          (IsNormalRequest api cell)
          (IsNormalEnd api)
          log
          (attempt m (report_failure api cell (record cell { status = s }) kind message) rest)
  stage-Runs s kind message log m rest h next =
      attempt-Runs (IsNormalRequest api cell) IsHonest (IsNormalEnd api) log _ _ _ h
        (λ l f bad. report_failure-Runs api laws cell s kind message f l bad) next
        (λ l never. never)

  reconcile_rest-Runs :
      (s : CellStatus) (service : Text) (log : Log)
      → has_failed log ≡ false
      → Runs
          (IsNormalRequest api cell)
          (IsNormalEnd api)
          log
          (reconcile_rest api cell (record cell { status = s }) (effective_namespace cell) service)
  unfolding reconcile_rest set_cell_condition
  reconcile_rest-Runs s service log fine =
      stage-Runs s _ _ log _ _ (reconcile_policies-IsHonest api laws cell s log fine)
        (λ l u fine1. reconcile_backend-Runs _ service l fine1)

  reconcile_service-IsHonest :
      (s : CellStatus) (log : Log)
      → has_failed log ≡ false
      → Runs
          (IsNormalRequest api cell)
          IsHonest
          log
          (reconcile_service (record cell { status = s }) (effective_namespace cell))
  unfolding reconcile_service
  reconcile_service-IsHonest s log fine =
      ((inr (refl, refl)), elim [ reply parents ↦ fine | failed text ↦ refl ])

  reconcile_entrypoint-Runs :
      (s : CellStatus) (log : Log)
      → has_failed log ≡ false
      → Runs
          (IsNormalRequest api cell)
          (IsNormalEnd api)
          log
          (reconcile_entrypoint api cell (record cell { status = s }) (effective_namespace cell))
  unfolding reconcile_entrypoint set_cell_condition
  reconcile_entrypoint-Runs s log fine =
      let next =
        set_cell_condition api (record cell { status = s }) cell_service_ready_condition status_true
          reason_reconciled (codes "service reconciled") in
      stage-Runs s cell_service_ready_condition (codes "service reconciliation failed") log
        (reconcile_service (record cell { status = s }) (effective_namespace cell))
        (reconcile_rest api cell next (effective_namespace cell))
        (reconcile_service-IsHonest s log fine)
        (λ l service fine1. reconcile_rest-Runs next.status service l fine1)

  reconcile_namespace-IsHonest :
      (log : Log)
      → has_failed log ≡ false
      → Runs
          (IsNormalRequest api cell)
          IsHonest
          log
          (reconcile_namespace cell (effective_namespace cell))
  unfolding reconcile_namespace
  reconcile_namespace-IsHonest log fine =
      (inl (refl, refl), elim [ reply parents ↦ fine | failed text ↦ refl ])

  -- If find_condition and set_condition meet the laws, and no request has failed before, every
  -- request that the reconciliation of a cell sends meets IsNormalRequest: it writes the cell's
  -- namespace, or an object in it that it makes the cell's; deletes an object only if it was just
  -- read and the cell controls it; and writes a status that is traffic-ready exactly if no request
  -- has failed, the cell's state takes traffic, and the endpoints just counted are some. It ends
  -- with an error exactly if a request failed, and otherwise right after the status was written,
  -- to be repeated after the delay exactly if that status waits for endpoints.
  pub reconcile_normal-Runs :
      (log : Log)
      → has_failed log ≡ false
      → Runs (IsNormalRequest api cell) (IsNormalEnd api) log (reconcile_normal api cell)
  unfolding reconcile_normal set_cell_condition
  reconcile_normal-Runs log fine =
      let next =
        set_cell_condition api cell cell_namespace_ready_condition status_true reason_reconciled
          (codes "namespace reconciled") in
      stage-Runs cell.status cell_namespace_ready_condition
        (codes "namespace reconciliation failed") log
        (reconcile_namespace cell (effective_namespace cell))
        (λ _. reconcile_entrypoint api cell next (effective_namespace cell))
        (reconcile_namespace-IsHonest log fine)
        (λ l u fine1. reconcile_entrypoint-Runs next.status l fine1)
