-- ===== src/CellController/Normal/Readiness.antt =====
-- What the conditions that a reconciliation writes say.
use cell_router_operator.Base.{
  List, ◌≡◌, ◌≢◌, ◌↔◌, refl, sym, ap, ◌∙◌, ℕ, Bool, true, false, none, some, Text, codes, ◌==◌,
  ==_iff, if◌then◌else◌, arith,
}
use cell_router_operator.Api.Meta.{ConditionStatus, status_true, status_false, Condition}
use cell_router_operator.Api.Cell.{
  CellState, active, draining, disabled, other_state, Cell, cell_ready_condition,
  cell_backend_ready_condition, reason_waiting_for_backend, reason_reconciled,
}
use cell_router_operator.Backends.{effective_cell_state, cell_not_traffic_ready}
use cell_router_operator.Backends.Resolved.{IsTrue, TakesTraffic, cell_not_traffic_ready_iff}
use cell_router_operator.Machinery.{Machinery, MachineryLaws}
use cell_router_operator.CellController.{is_positive_int32, set_cell_condition}
use cell_router_operator.CellController.Normal.{set_pair, report_state}

kinds_differ : cell_backend_ready_condition ≢ cell_ready_condition
kinds_differ e = ground arith

-- The BackendReady condition says that the cell waits for endpoints.
abbrev pub IsWaiting : Machinery → Cell → Type 0
IsWaiting api cell =
    (c : Condition) × (api.find_condition cell.status.conditions cell_backend_ready_condition
      ≡ some c)
    × (c.reason ≡ reason_waiting_for_backend)

module _ (api : Machinery) (laws : MachineryLaws api) where
  -- The condition of a cell that a status has set.
  WasSet : List Condition → Text → ConditionStatus → Text → Type 0
  WasSet conditions kind status reason =
      (c : Condition) × (api.find_condition conditions kind ≡ some c)
      × (c.status ≡ status)
      × (c.reason ≡ reason)

  WasSet-iff :
      (conditions : List Condition) (kind : Text) (status : ConditionStatus) (reason : Text)
      → WasSet conditions kind status reason
      → IsTrue (api.find_condition conditions kind) ↔ (status ≡ status_true)
  unfolding WasSet
  WasSet-iff conditions kind status reason (c, found, same, why) = (
    λ (c', found', holds). let one : some c ≡ some c' = sym found ∙ found' in ground arith,
    λ e. (c, found, same ∙ e),
  )

  backend-WasSet :
      (cell : Cell) (status : ConditionStatus) (reason message : Text) (ready : ConditionStatus)
      (ready_reason ready_message : Text)
      → WasSet
          (set_pair api cell status reason message ready ready_reason
            ready_message).status.conditions
          cell_backend_ready_condition
          status
          reason
  unfolding WasSet set_cell_condition
  backend-WasSet cell status reason message ready ready_reason ready_message =
      let (c, found, same, why) = laws.find_set_same cell.status.conditions (record {
        kind = cell_backend_ready_condition;
        status = status;
        reason = reason;
        message = message;
        observed_generation = cell.generation;
        last_transition_time = 0;
      }) in
      (c, laws.find_set_other _ _ cell_backend_ready_condition kinds_differ ∙ found, same, why)

  ready-WasSet :
      (cell : Cell) (ready : ConditionStatus) (ready_reason ready_message : Text)
      → WasSet
          (set_cell_condition api cell cell_ready_condition ready ready_reason
            ready_message).status.conditions
          cell_ready_condition
          ready
          ready_reason
  unfolding WasSet set_cell_condition
  ready-WasSet cell ready ready_reason ready_message = laws.find_set_same cell.status.conditions _

  -- A false Ready condition keeps traffic away.
  pub unready-takes_no_traffic :
      (cell : Cell) (reason message : Text)
      → cell_not_traffic_ready api.find_condition
          (set_cell_condition api cell cell_ready_condition status_false reason message)
        ≢ none
  unready-takes_no_traffic cell reason message h =
      let t = (cell_not_traffic_ready_iff api.find_condition _).0 h in
      let e = (WasSet-iff _ _ _ _ (ready-WasSet cell status_false reason message)).0 t.ready in
      ground arith

  set_pair_iff :
      (cell : Cell) (status : ConditionStatus) (reason message : Text) (ready : ConditionStatus)
      (ready_reason ready_message : Text)
      → (cell_not_traffic_ready api.find_condition
            (set_pair api cell status reason message ready ready_reason ready_message)
          ≡ none)
        ↔ (TakesTraffic (effective_cell_state cell)
            × (status ≡ status_true)
            × (ready ≡ status_true))
  unfolding set_cell_condition effective_cell_state
  set_pair_iff cell status reason message ready ready_reason ready_message =
      let traffic =
        cell_not_traffic_ready_iff api.find_condition
          (set_pair api cell status reason message ready ready_reason ready_message) in
      let backend =
        WasSet-iff _ _ _ _
          (backend-WasSet cell status reason message ready ready_reason ready_message) in
      let own = WasSet-iff _ _ _ _ (
        ready-WasSet
          (set_cell_condition api cell cell_backend_ready_condition status reason message) ready
          ready_reason ready_message) in
      (
        λ h. let t = traffic.0 h in (t.state, backend.0 t.backend, own.0 t.ready),
        λ (state, b, r).
            traffic.1 (record { state = state; backend = backend.1 b; ready = own.1 r }),
      )

  set_pair-IsWaiting :
      (cell : Cell) (status : ConditionStatus) (reason message : Text) (ready : ConditionStatus)
      (ready_reason ready_message : Text)
      → IsWaiting api (set_pair api cell status reason message ready ready_reason ready_message)
        ↔ (reason ≡ reason_waiting_for_backend)
  unfolding WasSet
  set_pair-IsWaiting cell status reason message ready ready_reason ready_message =
      let (c, found, same, why) =
        backend-WasSet cell status reason message ready ready_reason ready_message in
      (
        λ (c', found', waits).
            let one : some c ≡ some c' = sym found ∙ found' in
            let equal : c ≡ c' = ground arith in
            sym why ∙ (ap (λ (d : Condition). d.reason) equal ∙ waits),
        λ e. (c, found, why ∙ e),
      )

  -- A reported cell takes traffic exactly if `Takes`, and is tried again exactly if it waits.
  abbrev pub IsReport : Cell × Bool → Type 0 → Type 0
  IsReport result Takes =
      ((cell_not_traffic_ready api.find_condition result.0 ≡ none) ↔ Takes)
      × ((result.1 ≡ true) ↔ IsWaiting api result.0)

  set_pair-IsReport :
      (cell : Cell) (status : ConditionStatus) (reason message : Text) (ready : ConditionStatus)
      (ready_reason ready_message : Text) (again : Bool) (Takes : Type 0)
      → (TakesTraffic (effective_cell_state cell) × (status ≡ status_true) × (ready ≡ status_true))
        ↔ Takes
      → (again ≡ true) ↔ (reason ≡ reason_waiting_for_backend)
      → IsReport
          (set_pair api cell status reason message ready ready_reason ready_message, again)
          Takes
  set_pair-IsReport cell status reason message ready ready_reason ready_message again Takes t w =
      let p = set_pair_iff cell status reason message ready ready_reason ready_message in
      let q = set_pair-IsWaiting cell status reason message ready ready_reason ready_message in
      ((λ h. t.0 (p.0 h), λ h. p.1 (t.1 h)), (λ h. q.1 (w.0 h), λ h. w.1 (q.0 h)))

  if-IsReport :
      (b : Bool) (first second : Cell × Bool) (Takes : Type 0)
      → (b ≡ true → IsReport first Takes)
      → (b ≡ false → IsReport second Takes)
      → IsReport (if b then first else second) Takes
  if-IsReport true first second Takes h k = h refl
  if-IsReport false first second Takes h k = k refl

  default_report :
      (state : CellState) (endpoints : ℕ) (cell : Cell)
      → TakesTraffic state
      → IsReport
          (if endpoints == 0
            then (
              set_pair api cell status_false reason_waiting_for_backend
                  (codes "waiting for ready backend endpoints")
                  status_false
                  reason_waiting_for_backend
                  (codes "cell is waiting for ready backend endpoints"),
              true,
            )
            else (
              set_pair api cell status_true reason_reconciled
                  (codes "backend endpoints are ready")
                  status_true
                  reason_reconciled
                  (codes "cell is ready"),
              false,
            ))
          (TakesTraffic (effective_cell_state cell) × TakesTraffic state × (endpoints ≢ 0))
  default_report state endpoints cell takes =
      if-IsReport (endpoints == 0) _ _ _
        (λ empty.
          set_pair-IsReport cell _ _ _ _ _ _ true _
            (λ h. ground arith, λ h. absurd (h.2 ((==_iff endpoints 0).0 empty)))
            (λ h. refl, λ h. refl))
        (λ some_ready.
          set_pair-IsReport cell _ _ _ _ _ _ false _
            (λ h. (h.0, takes, λ e. ground (arith, ==_iff endpoints 0)), λ h. (h.0, refl, refl))
            (λ h. ground arith, λ h. ground arith))

  -- The reported state: the cell takes traffic exactly if it is in such a state and some endpoint
  -- was counted.
  pub report_state-IsReport :
      (state : CellState) (endpoints : ℕ) (cell : Cell)
      → IsReport
          (report_state api state endpoints cell)
          (TakesTraffic (effective_cell_state cell) × TakesTraffic state × (endpoints ≢ 0))
  unfolding report_state
  report_state-IsReport disabled endpoints cell =
      set_pair-IsReport cell _ _ _ _ _ _ false _ (λ h. ground arith, λ h. absurd (h.1.1 refl))
        (λ h. ground arith, λ h. ground arith)
  report_state-IsReport draining endpoints cell =
      if-IsReport (is_positive_int32 endpoints) _ _ _
        (λ some_ready.
          set_pair-IsReport cell _ _ _ _ _ _ false _ (λ h. ground arith, λ h. absurd (h.1.0 refl))
            (λ h. ground arith, λ h. ground arith))
        (λ none_ready.
          set_pair-IsReport cell _ _ _ _ _ _ true _ (λ h. ground arith, λ h. absurd (h.1.0 refl))
            (λ h. refl, λ h. refl))
  report_state-IsReport active endpoints cell =
      default_report active endpoints cell (λ e. ground arith, λ e. ground arith)
  report_state-IsReport (other_state t) endpoints cell =
      default_report (other_state t) endpoints cell (λ e. ground arith, λ e. ground arith)

-- The conditions are all that a report changes.
abbrev pub KeepsRest : Cell → Cell × Bool → Type 0
KeepsRest cell result =
    (result.0.spec ≡ cell.spec)
    × (result.0.status.available_endpoints ≡ cell.status.available_endpoints)

if-KeepsRest :
    (cell : Cell) (b : Bool) (first second : Cell × Bool)
    → KeepsRest cell first
    → KeepsRest cell second
    → KeepsRest cell (if b then first else second)
if-KeepsRest cell true first second h k = h
if-KeepsRest cell false first second h k = k

pub report_state-KeepsRest :
    (api : Machinery) (state : CellState) (endpoints : ℕ) (cell : Cell)
    → KeepsRest cell (report_state api state endpoints cell)
unfolding report_state set_cell_condition
report_state-KeepsRest api disabled endpoints cell = (refl, refl)
report_state-KeepsRest api draining endpoints cell =
    if-KeepsRest cell (is_positive_int32 endpoints) _ _ (refl, refl) (refl, refl)
report_state-KeepsRest api active endpoints cell =
    if-KeepsRest cell (endpoints == 0) _ _ (refl, refl) (refl, refl)
report_state-KeepsRest api (other_state t) endpoints cell =
    if-KeepsRest cell (endpoints == 0) _ _ (refl, refl) (refl, refl)
