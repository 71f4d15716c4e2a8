-- ===== src/CellController/Deletes.antt =====
-- What the Cell reconciler deletes.
use cell_router_operator.Base.{
  ◌≡◌, inl, inr, refl, true, false, none, some, [], ◌∷◌, Text, Bool-cases,
}
use cell_router_operator.Api.Cell.{Cell}
use cell_router_operator.Client.{
  service_kind, Kind, Header, reply, failed, Request, get_object, delete_object,
}
use cell_router_operator.Client.Runs.{Log, Runs, IsHonest, has_failed, delete_found-IsHonest}
use cell_router_operator.Machinery.{Machinery}
use cell_router_operator.CellController.{delete_controlled, delete_entrypoint_service}

-- The last answer was this object.
abbrev pub WasJustRead : Kind → Header → Log → Type 0
WasJustRead kind h log =
    (namespace : Text) × (name : Text) × (before : Log) × (log
      ≡ (get_object kind namespace name, reply (some h)) ∷ before)

-- `P` allows the reads in some namespaces, and the deletion of one that was just read and that the cell
-- controls.
module _ (api : Machinery) (cell : Cell) (P : Log → Request → Type 0) (IsRead : Text → Type 0)
    (reads : (log : Log) (kind : Kind) (namespace name : Text)
      → IsRead namespace
      → P log (get_object kind namespace name))
    (deletes : (log : Log) (kind : Kind) (h : Header)
      → WasJustRead kind h log
      → api.is_controlled_by h cell.uid ≡ true
      → P log (delete_object kind h)) where
  pub delete_controlled-IsHonest :
      (kind : Kind) (namespace name : Text) (log : Log)
      → IsRead namespace
      → has_failed log ≡ false
      → Runs P IsHonest log (delete_controlled api cell kind namespace name)
  unfolding delete_controlled
  delete_controlled-IsHonest kind namespace name log here fine = (
    reads log kind namespace name here,
    elim [
      | reply none ↦ fine
      | failed text ↦ refl
      | reply (some h) ↦ elim (Bool-cases (api.is_controlled_by h cell.uid)) [
        | inl mine ↦ rw mine (
            delete_found-IsHonest P _ fine kind h
              (deletes _ kind h (namespace, name, log, refl) mine))
        | inr foreign ↦ rw foreign fine
      ]
    ],
  )

  pub delete_entrypoint_service-IsHonest :
      (namespace : Text) (log : Log)
      → IsRead namespace
      → has_failed log ≡ false
      → Runs P IsHonest log (delete_entrypoint_service api cell namespace)
  unfolding delete_entrypoint_service
  delete_entrypoint_service-IsHonest [] log here fine = fine
  delete_entrypoint_service-IsHonest (c ∷ namespace) log here fine =
      delete_controlled-IsHonest service_kind (c ∷ namespace) cell.spec.entrypoint.service_name log
        here fine
