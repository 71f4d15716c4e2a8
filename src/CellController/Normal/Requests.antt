-- ===== src/CellController/Normal/Requests.antt =====
-- What the reconciliation of a cell that is not deleted may send, and how it may end.
use cell_router_operator.Base.{
  ◌≡◌, ◌≢◌, ◌↔◌, ◌⊎◌, inr, refl, ℕ, true, false, not, none, some, ◌∷◌, List, Text, arith,
}
use cell_router_operator.Api.Cell.{Cell, CellStatus}
use cell_router_operator.Backends.{
  effective_namespace, effective_cell_state, cell_not_traffic_ready,
}
use cell_router_operator.Backends.Resolved.{TakesTraffic}
use cell_router_operator.CellBuilder.{quota_hard, limit_range_of, network_policy_of}
use cell_router_operator.Client.{
  Kind, namespace_kind, EndpointSlice, reply, failed, Request, get_object, list_endpoint_slices,
  write_object, delete_object, patch_cell_status, Failure, Outcome, finished, failing, crashed, ask,
  Change, void_reply,
}
use cell_router_operator.Client.Runs.{
  Log, Runs, IsHonest, has_failed, >>=-IsHonest, write-IsHonest, if-Runs, option-Runs,
}
use cell_router_operator.Machinery.{Machinery, MachineryLaws}
use cell_router_operator.CellController.{
  count_slices, delete_controlled, set_cell_condition, delete_managed_resource_quota,
  delete_managed_limit_range, delete_managed_network_policy,
}
use cell_router_operator.CellController.Deletes.{WasJustRead, delete_controlled-IsHonest}
use cell_router_operator.CellController.Normal.{
  Requeue, cell_backend_requeue_delay, reconcile_resource_quota, reconcile_limit_range,
  reconcile_network_policy, reconcile_policies, report_failure, controlled_write,
}
use cell_router_operator.CellController.Normal.Readiness.{IsWaiting, unready-takes_no_traffic}

-- The number of endpoints is that of the slices of the last answer.
abbrev pub WasCounted : ℕ → Log → Type 0
WasCounted n log =
    (namespace : Text) × (service : Text) × (slices : List EndpointSlice) × (before : Log) × (log
      ≡ (list_endpoint_slices namespace service, reply slices) ∷ before)
    × (n ≡ count_slices 0 slices)

-- What a cell may lead to while it is not deleted: writes of the namespace and of objects in it
-- that the cell controls; deletions of what the cell controls; and a status by which the cell takes
-- traffic exactly if no request has failed, its state takes traffic, and an endpoint was counted.
abbrev pub IsNormalRequest : Machinery → Cell → Log → Request → Type 0
IsNormalRequest api cell log (get_object kind namespace name) = namespace ≡ effective_namespace cell
IsNormalRequest api cell log (list_endpoint_slices namespace service) =
    (namespace ≡ effective_namespace cell) × (service ≡ cell.spec.entrypoint.service_name)
IsNormalRequest api cell log (write_object w) =
    ((w.kind ≡ namespace_kind) × (w.name ≡ effective_namespace cell))
    ⊎ ((w.controller ≡ some cell.uid) × (w.namespace ≡ effective_namespace cell))
IsNormalRequest api cell log (delete_object kind h) =
    WasJustRead kind h log × (api.is_controlled_by h cell.uid ≡ true)
IsNormalRequest api cell log (patch_cell_status before after) =
    (before ≡ cell)
    × (after.spec ≡ cell.spec)
    × ((cell_not_traffic_ready api.find_condition after ≡ none) ↔ (
        (has_failed log ≡ false)
        × TakesTraffic (effective_cell_state cell)
        × (after.status.available_endpoints ≢ 0)
        × WasCounted after.status.available_endpoints log))
IsNormalRequest api cell log _ = ⊥

-- It ends with an error exactly if a request failed, and otherwise after the status was written;
-- it is repeated after the delay exactly if that status says that the cell waits for endpoints.
abbrev pub IsNormalEnd : Machinery → Log → Outcome Requeue → Type 0
IsNormalEnd api log (finished again) =
    (has_failed log ≡ false)
    × (base : Cell) × (after : Cell) × (before : Log) × (log
        ≡ (patch_cell_status base after, reply tt) ∷ before)
    × ((again ≡ some cell_backend_requeue_delay) ↔ IsWaiting api after)
IsNormalEnd api log (failing f) = has_failed log ≡ true
IsNormalEnd api log crashed = ⊥

module _ (api : Machinery) (laws : MachineryLaws api) (cell : Cell) where
  pub report_failure-Runs :
      (s : CellStatus) (kind message : Text) (f : Failure) (log : Log)
      → has_failed log ≡ true
      → Runs
          (IsNormalRequest api cell)
          (IsNormalEnd api)
          log
          (report_failure api cell (record cell { status = s }) kind message f)
  unfolding report_failure set_cell_condition
  report_failure-Runs s kind message f log failed_before = (
    (refl, refl, (λ h. absurd (unready-takes_no_traffic api laws _ _ _ h), λ t. ground arith)),
    elim [ reply u ↦ failed_before | failed text ↦ refl ],
  )

  delete_lem :
      (s : CellStatus) (kind : Kind) (name : Text) (log : Log)
      → has_failed log ≡ false
      → Runs
          (IsNormalRequest api cell)
          IsHonest
          log
          (delete_controlled api (record cell { status = s }) kind (effective_namespace cell) name)
  delete_lem s kind name log fine =
      delete_controlled-IsHonest api (record cell { status = s }) (IsNormalRequest api cell)
        (λ ns. ns ≡ effective_namespace cell) (λ l k ns n here. here)
        (λ l k h read mine. (read, mine)) kind (effective_namespace cell) name log refl fine

  write_lem :
      (kind : Kind) (name : Text) (change : Change) (log : Log)
      → has_failed log ≡ false
      → Runs
          (IsNormalRequest api cell)
          IsHonest
          log
          (ask (controlled_write cell (effective_namespace cell) kind name change) void_reply)
  write_lem kind name change log fine =
      write-IsHonest (IsNormalRequest api cell) log fine _ (inr (refl, refl))

  pub reconcile_policies-IsHonest :
      (s : CellStatus) (log : Log)
      → has_failed log ≡ false
      → Runs
          (IsNormalRequest api cell)
          IsHonest
          log
          (reconcile_policies api (record cell { status = s }) (effective_namespace cell))
  unfolding reconcile_policies reconcile_resource_quota reconcile_limit_range
      reconcile_network_policy delete_managed_resource_quota delete_managed_limit_range
      delete_managed_network_policy
  reconcile_policies-IsHonest s log fine =
      let P = IsNormalRequest api cell in
      let policies = cell.spec.policies in
      >>=-IsHonest P log _ _
        (option-Runs P IsHonest log (quota_hard policies) _ _ (delete_lem s _ _ log fine)
          (λ hard there. write_lem _ _ _ log fine))
        (λ l u fine1.
          >>=-IsHonest P l _ _
            (option-Runs P IsHonest l (limit_range_of policies) _ _ (delete_lem s _ _ l fine1)
              (λ spec there. write_lem _ _ _ l fine1))
            (λ l2 u2 fine2.
              option-Runs P IsHonest l2 (network_policy_of policies) _ _ (delete_lem s _ _ l2 fine2)
                (λ spec there.
                  if-Runs P IsHonest l2 (not spec.enabled) _ _ (λ off. delete_lem s _ _ l2 fine2)
                    (λ on. write_lem _ _ _ l2 fine2))))
