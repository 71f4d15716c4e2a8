-- ===== src/RouterController/Reconcile/Finalizer.antt =====
-- The finalizer of a router is there before anything else is done for it.
use cell_router_operator.Base.{
  List, Text, ℕ, Option, arith, subst, ◌≡◌, ◌⊎◌, inl, inr, refl, ◌∷◌, true, false, [],
}
use cell_router_operator.Constants.{finalizer_cell_router}
use cell_router_operator.Api.Router.{CellRouter}
use cell_router_operator.Client.{
  Outcome, finished, failing, crashed, Request, reply, failed, patch_router,
}
use cell_router_operator.Client.Runs.{Log, Runs, Extends, Extends-Runs, attempt-Runs, if-Runs}
use cell_router_operator.Machinery.{Machinery}
use cell_router_operator.Overlap.{Conflicts}
use cell_router_operator.RouterController.Reconcile.{
  ensure_finalizer, reconcile_normal, reconcile_found,
}

-- The router with the finalizer.
abbrev pub with_finalizer : Machinery → CellRouter → CellRouter
with_finalizer api router = record router {
  finalizers = api.add_finalizer router.finalizers finalizer_cell_router;
}

-- The server has accepted the finalizer.
abbrev pub WasAdded : Machinery → CellRouter → Log → Type 0
WasAdded api router log =
    (patched : CellRouter) × (before : Log) × Extends
      ((patch_router router (with_finalizer api router), reply patched) ∷ before) log

-- A request that adds the finalizer, or one that is sent while the finalizer is there.
abbrev pub IsFinalized : Machinery → CellRouter → Log → Request → Type 0
IsFinalized api router log q =
    (q ≡ patch_router router (with_finalizer api router))
    ⊎ (api.contains_finalizer router.finalizers finalizer_cell_router ≡ true)
    ⊎ WasAdded api router log

module _ (api : Machinery) (sum32 : Text → ℕ) (subexp_names : Text → Option (List Text))
    (iterate : Conflicts → Conflicts) (router : CellRouter) where
  -- The finalizer was there, or has just been accepted.
  IsThere : Log → Outcome CellRouter → Type 0
  IsThere log (finished c) =
      (api.contains_finalizer router.finalizers finalizer_cell_router ≡ true)
      ⊎ ((patched : CellRouter) × (before : Log) × (log
            ≡ (patch_router router (with_finalizer api router), reply patched) ∷ before))
  IsThere log (failing f) = Unit
  IsThere log crashed = Unit

  ensure_finalizer-IsThere :
      (log : Log) → Runs (IsFinalized api router) IsThere log (ensure_finalizer api router)
  unfolding ensure_finalizer IsThere
  ensure_finalizer-IsThere log =
      if-Runs (IsFinalized api router) IsThere log
        (api.contains_finalizer router.finalizers finalizer_cell_router) _ _ (λ there. inl there)
        (λ missing.
          (inl refl, elim [ reply patched ↦ inr (patched, log, refl) | failed text ↦ tt ]))

  rest-IsFinalized :
      (log : Log) (c : CellRouter)
      → IsThere log (finished c)
      → Runs
          (IsFinalized api router)
          (λ l o. Unit)
          log
          (reconcile_normal api sum32 subexp_names iterate c)
  unfolding IsThere
  rest-IsFinalized log c (inl there) =
      Extends-Runs (IsFinalized api router) log log
        (reconcile_normal api sum32 subexp_names iterate c) ([], refl)
        (λ l q after. inr (inl there))
  rest-IsFinalized log c (inr (patched, before, same)) =
      Extends-Runs (IsFinalized api router) log log
        (reconcile_normal api sum32 subexp_names iterate c) ([], refl)
        (λ l q after. inr (inr (patched, before, subst (λ base. Extends base l) same after)))

  -- For a router that is not deleted, every request of its reconciliation either is the patch that
  -- adds the finalizer, or is sent while the finalizer was there when the router was read or after
  -- the server accepted that patch: nothing is made for a router before the finalizer protects it.
  pub reconcile_found-IsFinalized :
      (log : Log)
      → router.is_deleted ≡ false
      → Runs
          (IsFinalized api router)
          (λ l o. Unit)
          log
          (reconcile_found api sum32 subexp_names iterate router)
  unfolding reconcile_found
  reconcile_found-IsFinalized log live =
      let P = IsFinalized api router in
      if-Runs P (λ l o. Unit) log router.is_deleted _ _ (λ deleted. absurd (ground arith))
        (λ still.
          attempt-Runs P IsThere (λ l o. Unit) log (ensure_finalizer api router) _
            (reconcile_normal api sum32 subexp_names iterate) (ensure_finalizer-IsThere log)
            (λ l f h. tt) (λ l c there. rest-IsFinalized l c there) (λ l h. tt))
