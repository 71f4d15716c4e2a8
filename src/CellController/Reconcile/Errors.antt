-- ===== src/CellController/Reconcile/Errors.antt =====
-- When a reconciliation of a cell returns an error.
use cell_router_operator.Base.{◌≡◌, refl, false, none, some, [], Text}
use cell_router_operator.Api.Cell.{Cell}
use cell_router_operator.Constants.{finalizer_cell}
use cell_router_operator.Client.{Request, reply, failed, Outcome, finished, failing, crashed}
use cell_router_operator.Client.Runs.{
  Log, Runs, Runs-mono, IsHonest, has_failed, >>=-IsHonest, if-Runs,
}
use cell_router_operator.Machinery.{Machinery, MachineryLaws}
use cell_router_operator.CellController.Normal.{Requeue, reconcile_normal}
use cell_router_operator.CellController.Normal.Requests.{IsNormalRequest, IsNormalEnd}
use cell_router_operator.CellController.Normal.Statuses.{reconcile_normal-Runs}
use cell_router_operator.CellController.Reconcile.{
  ensure_finalizer, reconcile_found, reconcile_cell,
}
use cell_router_operator.CellController.Reconcile.Deletion.{
  IsDeletionRequest, reconcile_deletion-IsHonest,
}

-- A request of any kind.
AnyRequest : Log → Request → Type 0
AnyRequest log q = Unit

normal_end :
    (api : Machinery) (log : Log) (o : Outcome Requeue) → IsNormalEnd api log o → IsHonest log o
normal_end api log (finished r) h = h.0
normal_end api log (failing f) h = h
normal_end api log crashed h = h

module _ (api : Machinery) (laws : MachineryLaws api) where
  ensure_finalizer-IsHonest :
      (cell : Cell) (log : Log)
      → has_failed log ≡ false
      → Runs AnyRequest IsHonest log (ensure_finalizer api cell)
  unfolding ensure_finalizer AnyRequest
  ensure_finalizer-IsHonest cell log fine =
      if-Runs AnyRequest IsHonest log (api.contains_finalizer cell.finalizers finalizer_cell) _ _
        (λ there. fine) (λ missing. (tt, elim [ reply c ↦ fine | failed text ↦ refl ]))

  reconcile_found-IsHonest :
      (cell : Cell) (log : Log)
      → has_failed log ≡ false
      → Runs AnyRequest IsHonest log (reconcile_found api cell)
  unfolding reconcile_found AnyRequest
  reconcile_found-IsHonest cell log fine =
      if-Runs AnyRequest IsHonest log cell.is_deleted _ _
        (λ deleted.
          Runs-mono (IsDeletionRequest api cell) AnyRequest IsHonest IsHonest log _
            (reconcile_deletion-IsHonest api cell log fine) (λ l q h. tt) (λ l o h. h))
        (λ live.
          >>=-IsHonest AnyRequest log _ _ (ensure_finalizer-IsHonest cell log fine)
            (λ l patched fine1.
              Runs-mono (IsNormalRequest api patched) AnyRequest (IsNormalEnd api) IsHonest l
                (reconcile_normal api patched) (reconcile_normal-Runs api laws patched l fine1)
                (λ l2 q h. tt) (normal_end api)))

  -- If find_condition and set_condition meet the laws, the reconciliation of a cell by its name
  -- never panics, and returns an error exactly if one of its requests failed.
  pub reconcile_cell-IsHonest :
      (name : Text) → Runs (λ log q. Unit) IsHonest [] (reconcile_cell api name)
  unfolding reconcile_cell AnyRequest
  reconcile_cell-IsHonest name = (
    tt,
    elim [
      | reply none ↦ refl
      | failed text ↦ refl
      | reply (some cell) ↦ reconcile_found-IsHonest cell _ refl
    ],
  )
