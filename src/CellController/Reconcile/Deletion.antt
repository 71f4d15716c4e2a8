-- ===== src/CellController/Reconcile/Deletion.antt =====
-- What the deletion of a cell deletes, and when its finalizer goes.
use cell_router_operator.Base.{
  text_eq_iff, ◌≡◌, ◌⊎◌, inl, inr, refl, true, false, none, some, [], ◌∷◌, Text, text_eq,
  Bool-cases, if◌then◌else◌,
}
use cell_router_operator.Constants.{
  finalizer_cell, operator_name, managed_by_label, cell_name_label,
}
use cell_router_operator.Api.Cell.{Cell}
use cell_router_operator.Client.{
  namespace_kind, Header, reply, failed, Request, get_object, delete_object, patch_cell, done,
}
use cell_router_operator.Client.Runs.{
  Log, Runs, IsHonest, has_failed, if-Runs, >>=-IsHonest, delete_found-IsHonest,
}
use cell_router_operator.Machinery.{Machinery}
use cell_router_operator.Backends.{effective_namespace}
use cell_router_operator.CellController.Deletes.{WasJustRead, delete_entrypoint_service-IsHonest}
use cell_router_operator.CellController.Reconcile.{drop_finalizer, reconcile_deletion}
use cell_router_operator.CellController.{label_of, delete_namespace_if_managed}

-- The labels of a namespace that the operator made for the cell.
abbrev pub IsNamespaceOf : Cell → Header → Type 0
IsNamespaceOf cell h =
    (label_of h.labels managed_by_label ≡ operator_name)
    × (label_of h.labels cell_name_label ≡ cell.name)

-- What a deleted cell may lead to: a deletion of what the cell controls, or of the namespace that
-- the operator made for it where the spec asks for that; and the removal of the finalizer, after
-- requests that all succeeded.
abbrev pub IsDeletionRequest : Machinery → Cell → Log → Request → Type 0
IsDeletionRequest api cell log (get_object kind namespace name) = Unit
IsDeletionRequest api cell log (delete_object kind h) =
    WasJustRead kind h log
    × ((api.is_controlled_by h cell.uid ≡ true)
        ⊎ ((kind ≡ namespace_kind) × (cell.spec.tear_down_on_delete ≡ true) × IsNamespaceOf cell h))
IsDeletionRequest api cell log (patch_cell before after) =
    (has_failed log ≡ false)
    × (before ≡ cell)
    × (after.finalizers ≡ api.remove_finalizer cell.finalizers finalizer_cell)
IsDeletionRequest api cell log _ = ⊥

module _ (api : Machinery) (cell : Cell) where
  delete_namespace-IsHonest :
      (namespace : Text) (log : Log)
      → cell.spec.tear_down_on_delete ≡ true
      → has_failed log ≡ false
      → Runs (IsDeletionRequest api cell) IsHonest log (delete_namespace_if_managed cell namespace)
  unfolding delete_namespace_if_managed
  delete_namespace-IsHonest [] log tear_down fine = fine
  delete_namespace-IsHonest (c ∷ namespace) log tear_down fine = (
    tt,
    elim [
      | reply none ↦ fine
      | failed text ↦ refl
      | reply (some h) ↦
          let operator = label_of h.labels managed_by_label in
          let name = label_of h.labels cell_name_label in
          elim (Bool-cases (text_eq operator operator_name)) [
            | inr foreign ↦ rw foreign fine
            | inl made ↦ elim (Bool-cases (text_eq name cell.name)) [
              | inr foreign ↦ rw (made, foreign) fine
              | inl ours ↦
                  rw (made, ours)
                    (delete_found-IsHonest (IsDeletionRequest api cell) _ fine namespace_kind h (
                      ([], c ∷ namespace, log, refl),
                      inr (
                        refl,
                        tear_down,
                        (
                          (text_eq_iff operator operator_name).0 made,
                          (text_eq_iff name cell.name).0 ours,
                        ),
                      ),
                    ))
            ]
          ]
    ],
  )

  drop_finalizer-IsHonest :
      (log : Log)
      → has_failed log ≡ false
      → Runs (IsDeletionRequest api cell) IsHonest log (drop_finalizer api cell)
  unfolding drop_finalizer
  drop_finalizer-IsHonest log fine =
      if-Runs (IsDeletionRequest api cell) IsHonest log
        (api.contains_finalizer cell.finalizers finalizer_cell) _ _
        (λ there. ((fine, refl, refl), elim [ reply c ↦ fine | failed text ↦ refl ])) (λ gone. fine)

  tear_down-IsHonest :
      (namespace : Text) (log : Log)
      → has_failed log ≡ false
      → Runs (IsDeletionRequest api cell) IsHonest log (
          if cell.spec.tear_down_on_delete
          then delete_namespace_if_managed cell namespace
          else done tt)
  tear_down-IsHonest namespace log fine =
      if-Runs (IsDeletionRequest api cell) IsHonest log cell.spec.tear_down_on_delete _ _
        (λ wanted. delete_namespace-IsHonest namespace log wanted fine) (λ unwanted. fine)

  -- If no request has failed before, the deletion of a cell deletes only what was just read and is
  -- controlled by the cell, or is a namespace with the operator's and the cell's labels while the
  -- spec asks for the teardown; it removes the finalizer only if no request has failed; and it
  -- returns an error exactly if a request failed.
  pub reconcile_deletion-IsHonest :
      (log : Log)
      → has_failed log ≡ false
      → Runs (IsDeletionRequest api cell) IsHonest log (reconcile_deletion api cell)
  unfolding reconcile_deletion
  reconcile_deletion-IsHonest log fine =
      let P = IsDeletionRequest api cell in
      >>=-IsHonest P log _ _
        (delete_entrypoint_service-IsHonest api cell P (λ ns. Unit {0}) (λ l k ns n here. tt)
          (λ l k h read mine. (read, inl mine)) (effective_namespace cell) log tt fine)
        (λ l u fine1.
          >>=-IsHonest P l _ _ (tear_down-IsHonest (effective_namespace cell) l fine1)
            (λ l2 u2 fine2. drop_finalizer-IsHonest l2 fine2))
