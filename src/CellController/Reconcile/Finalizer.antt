-- ===== src/CellController/Reconcile/Finalizer.antt =====
-- The finalizer of a cell is there before anything else is done for it.
use cell_router_operator.Base.{arith, subst, ◌≡◌, ◌⊎◌, inl, inr, refl, ◌∷◌, true, false, []}
use cell_router_operator.Constants.{finalizer_cell}
use cell_router_operator.Api.Cell.{Cell}
use cell_router_operator.Client.{
  Outcome, finished, failing, crashed, Request, reply, failed, patch_cell,
}
use cell_router_operator.Client.Runs.{Log, Runs, Extends, Extends-Runs, attempt-Runs, if-Runs}
use cell_router_operator.Machinery.{Machinery}
use cell_router_operator.CellController.Normal.{reconcile_normal}
use cell_router_operator.CellController.Reconcile.{ensure_finalizer, reconcile_found}

-- The cell with the finalizer.
abbrev pub with_finalizer : Machinery → Cell → Cell
with_finalizer api cell = record cell {
  finalizers = api.add_finalizer cell.finalizers finalizer_cell;
}

-- The server has accepted the finalizer.
abbrev pub WasAdded : Machinery → Cell → Log → Type 0
WasAdded api cell log =
    (patched : Cell) × (before : Log) × Extends
      ((patch_cell cell (with_finalizer api cell), reply patched) ∷ before) log

-- A request that adds the finalizer, or one that is sent while the finalizer is there.
abbrev pub IsGuarded : Machinery → Cell → Log → Request → Type 0
IsGuarded api cell log q =
    (q ≡ patch_cell cell (with_finalizer api cell))
    ⊎ (api.contains_finalizer cell.finalizers finalizer_cell ≡ true)
    ⊎ WasAdded api cell log

module _ (api : Machinery) (cell : Cell) where
  -- The finalizer was there, or has just been accepted.
  IsThere : Log → Outcome Cell → Type 0
  IsThere log (finished c) =
      (api.contains_finalizer cell.finalizers finalizer_cell ≡ true)
      ⊎ ((patched : Cell) × (before : Log) × (log
            ≡ (patch_cell cell (with_finalizer api cell), reply patched) ∷ before))
  IsThere log (failing f) = Unit
  IsThere log crashed = Unit

  ensure_finalizer-IsThere :
      (log : Log) → Runs (IsGuarded api cell) IsThere log (ensure_finalizer api cell)
  unfolding ensure_finalizer IsThere
  ensure_finalizer-IsThere log =
      if-Runs (IsGuarded api cell) IsThere log
        (api.contains_finalizer cell.finalizers finalizer_cell) _ _ (λ there. inl there)
        (λ missing.
          (inl refl, elim [ reply patched ↦ inr (patched, log, refl) | failed text ↦ tt ]))

  rest-IsGuarded :
      (log : Log) (c : Cell)
      → IsThere log (finished c)
      → Runs (IsGuarded api cell) (λ l o. Unit) log (reconcile_normal api c)
  unfolding IsThere
  rest-IsGuarded log c (inl there) =
      Extends-Runs (IsGuarded api cell) log log (reconcile_normal api c) ([], refl)
        (λ l q after. inr (inl there))
  rest-IsGuarded log c (inr (patched, before, same)) =
      Extends-Runs (IsGuarded api cell) log log (reconcile_normal api c) ([], refl)
        (λ l q after. inr (inr (patched, before, subst (λ base. Extends base l) same after)))

  -- For a cell that is not deleted, every request of its reconciliation either is the patch that
  -- adds the finalizer, or is sent while the finalizer was there when the cell was read or after
  -- the server accepted that patch: nothing is made for a cell before the finalizer protects it.
  pub reconcile_found-IsGuarded :
      (log : Log)
      → cell.is_deleted ≡ false
      → Runs (IsGuarded api cell) (λ l o. Unit) log (reconcile_found api cell)
  unfolding reconcile_found
  reconcile_found-IsGuarded log live =
      let P = IsGuarded api cell in
      if-Runs P (λ l o. Unit) log cell.is_deleted _ _ (λ deleted. absurd (ground arith))
        (λ still.
          attempt-Runs P IsThere (λ l o. Unit) log (ensure_finalizer api cell) _
            (reconcile_normal api) (ensure_finalizer-IsThere log) (λ l f h. tt)
            (λ l c there. rest-IsGuarded l c there) (λ l h. tt))
