-- ===== src/RouterController/Reconcile/Errors.antt =====
-- When a reconciliation of a router returns an error.
use mathlib.Core.List.{append-nil}
use cell_router_operator.Base.{
  ◌≡◌, ◌⊎◌, inl, inr, refl, sym, ◌∷◌, true, false, none, some, List, [], Text, ℕ, Option,
}
use cell_router_operator.Constants.{finalizer_cell_router}
use cell_router_operator.Errors.{Error, err, panic}
use cell_router_operator.Api.Placement.{Placement}
use cell_router_operator.Api.Router.{CellRouter}
use cell_router_operator.Overlap.{Conflicts}
use cell_router_operator.RoutePlans.{build_route_plans}
use cell_router_operator.Client.{
  Request, get_router, patch_router, reply, failed, plan_error, gateway_namespace_required, Outcome,
  finished, failing, crashed,
}
use cell_router_operator.Client.Runs.{
  Log, Runs, Extends, Extends-trans, Runs-Extends, Runs-mono, IsHonest, has_failed, attempt-Runs,
  if-Runs,
}
use cell_router_operator.Machinery.{Machinery, MachineryLaws}
use cell_router_operator.CellController.Normal.{Requeue}
use cell_router_operator.RouterController.Routes.Safe.{IsFresh}
use cell_router_operator.RouterController.Reconcile.{
  ensure_finalizer, reconcile_deletion, reconcile_normal, reconcile_found, reconcile_router,
}
use cell_router_operator.RouterController.Reconcile.Deletion.{
  IsDeletionRequest, reconcile_deletion-Runs,
}
use cell_router_operator.RouterController.Reconcile.Ends.{Listed, IsNormalRequest, IsNormalEnd}
use cell_router_operator.RouterController.Reconcile.Statuses.{reconcile_normal-IsNormalEnd}
use cell_router_operator.RouterController.Reconcile.Finalizer.{with_finalizer}

-- The log in which the router was just read.
abbrev pub after_read : Text → CellRouter → Log
after_read name found = (get_router name, reply (some found)) ∷ []

-- The router that the reconciliation goes on with: the one that was read, which is not deleted, if
-- it had the finalizer, and otherwise the server's answer to the patch that adds it.
abbrev pub IsCurrent : Machinery → Text → Log → CellRouter → Type 0
IsCurrent api name log router =
    (found : CellRouter) × (found.is_deleted ≡ false)
    × (((router ≡ found)
          × (api.contains_finalizer found.finalizers finalizer_cell_router ≡ true)
          × Extends (after_read name found) log)
        ⊎ Extends
            ((patch_router found (with_finalizer api found), reply router) ∷ after_read name found)
            log)

-- A value after requests that all succeeded; an error after one that failed, or of a router without
-- a gateway namespace, or of the plans of that router and its placements as they were listed; or a
-- panic of such plans.
abbrev pub IsExplained :
    Machinery → (Text → Option (List Text)) → Text → Log → Outcome Requeue → Type 0
IsExplained api subexp_names name log (finished again) = has_failed log ≡ false
IsExplained api subexp_names name log (failing f) =
    (has_failed log ≡ true)
    ⊎ ((router : CellRouter) × IsCurrent api name log router
        × (f ≡ gateway_namespace_required)
        × (router.spec.gateway.namespace ≡ []))
    ⊎ ((router : CellRouter) × (placements : List Placement) × (e : Error) × IsCurrent api name log
          router
        × Listed router [] log placements
        × (f ≡ plan_error e)
        × (build_route_plans subexp_names router placements ≡ err e))
IsExplained api subexp_names name log crashed =
    (router : CellRouter) × (placements : List Placement) × IsCurrent api name log router
    × Listed router [] log placements
    × (build_route_plans subexp_names router placements ≡ panic)

AnyRequest : Log → Request → Type 0
AnyRequest log q = Unit

-- Whatever was listed since a later moment was listed since the beginning.
Listed-start :
    (router : CellRouter) (start log : Log) (placements : List Placement)
    → Listed router start log placements
    → Listed router [] log placements
Listed-start router start log placements (cluster, before, first, then, same) =
    (cluster, before, (before, sym (append-nil before)), then, same)

module _ (api : Machinery) (laws : MachineryLaws api) (sum32 : Text → ℕ)
    (subexp_names : Text → Option (List Text)) (iterate : Conflicts → Conflicts)
    (iterate_all : (m : Conflicts) → iterate m ≡ [] → m ≡ []) (name : Text) where
  abbrev Explained : Log → Outcome Requeue → Type 0
  Explained = IsExplained api subexp_names name

  honest_end : (log : Log) (o : Outcome Requeue) → IsHonest log o → Explained log o
  honest_end log (finished again) h = h
  honest_end log (failing f) h = inl h
  honest_end log crashed h = absurd h

  IsCurrent-Extends :
      (log log' : Log) (router : CellRouter)
      → Extends log log'
      → IsCurrent api name log router
      → IsCurrent api name log' router
  IsCurrent-Extends log log' router later (found, live, inl (same, there, read)) =
      (found, live, inl (same, there, Extends-trans read later))
  IsCurrent-Extends log log' router later (found, live, inr patched) =
      (found, live, inr (Extends-trans patched later))

  normal_end :
      (router : CellRouter) (start log : Log) (o : Outcome Requeue)
      → IsCurrent api name log router
      → IsNormalEnd api subexp_names router start log o
      → Explained log o
  normal_end router start log (finished again) now h = h.0
  normal_end router start log (failing f) now (inl h) = inl h
  normal_end router start log (failing f) now (inr (inl (same, missing))) =
      inr (inl (router, now, same, missing))
  normal_end router start log (failing f) now (inr (inr (placements, e, same, listed, made))) =
      inr (
        inr
          (router, placements, e, now, Listed-start router start log placements listed, same, made))
  normal_end router start log crashed now (placements, listed, made) =
      (router, placements, now, Listed-start router start log placements listed, made)

  -- The finalizer is there, and nothing was written.
  IsAdded : Log → Outcome CellRouter → Type 0
  IsAdded log (finished router) =
      (has_failed log ≡ false) × IsFresh log × IsCurrent api name log router
  IsAdded log (failing f) = has_failed log ≡ true
  IsAdded log crashed = ⊥

  ensure_finalizer-IsAdded :
      (found : CellRouter)
      → found.is_deleted ≡ false
      → Runs AnyRequest IsAdded (after_read name found) (ensure_finalizer api found)
  unfolding ensure_finalizer AnyRequest IsAdded
  ensure_finalizer-IsAdded found live =
      if-Runs AnyRequest IsAdded (after_read name found)
        (api.contains_finalizer found.finalizers finalizer_cell_router) _ _
        (λ there. (refl, (refl, refl, refl), (found, live, inl (refl, there, ([], refl)))))
        (λ missing. (
          tt,
          elim [
            | reply r ↦ (refl, (refl, refl, refl), (found, live, inr ([], refl)))
            | failed text ↦ refl
          ],
        ))

  reconcile_found-IsExplained :
      (found : CellRouter)
      → Runs AnyRequest Explained
          (after_read name found)
          (reconcile_found api sum32 subexp_names iterate found)
  unfolding reconcile_found AnyRequest IsAdded
  reconcile_found-IsExplained found =
      let log = after_read name found in
      if-Runs AnyRequest Explained log found.is_deleted _ _
        (λ deleted.
          Runs-mono (IsDeletionRequest api found) AnyRequest IsHonest Explained log
            (reconcile_deletion api found) (reconcile_deletion-Runs api found log refl)
            (λ l q h. tt) honest_end)
        (λ live.
          attempt-Runs AnyRequest IsAdded Explained log (ensure_finalizer api found) _
            (reconcile_normal api sum32 subexp_names iterate) (ensure_finalizer-IsAdded found live)
            (λ l f bad. inl bad)
            (λ l router good.
              let Sends = IsNormalRequest api subexp_names router l in
              let Ends = IsNormalEnd api subexp_names router l in
              let m = reconcile_normal api sum32 subexp_names iterate router in
              Runs-mono Sends AnyRequest (λ l2 o. Ends l2 o × Extends l l2) Explained l m
                (Runs-Extends Sends Ends l l m ([], refl)
                  (reconcile_normal-IsNormalEnd api laws sum32 subexp_names iterate iterate_all
                    router l good.0 good.1))
                (λ l2 q h. tt)
                (λ l2 o h. normal_end router l l2 o (IsCurrent-Extends l l2 router h.1 good.2) h.0))
            (λ l never. absurd never))

  -- If find_condition and set_condition meet the laws, and iterate leaves out nothing of a map
  -- that is not empty, the reconciliation of a router by its name returns an error only if one of
  -- its requests failed, the gateway namespace of the current router is empty, or buildRoutePlans
  -- returns the error for the current router and its placements as the server listed them, and it
  -- panics only if buildRoutePlans does so for these; a value it returns only if no request
  -- failed. The current router is the one that was read, if it has the finalizer, and otherwise
  -- the server's answer to the patch that adds it, and the one that was read is not deleted.
  pub reconcile_router-IsExplained :
      Runs
        (λ log q. Unit)
        (IsExplained api subexp_names name)
        []
        (reconcile_router api sum32 subexp_names iterate name)
  unfolding reconcile_router AnyRequest
  reconcile_router-IsExplained = (
    tt,
    elim [
      | reply none ↦ refl
      | failed text ↦ inl refl
      | reply (some router) ↦ reconcile_found-IsExplained router
    ],
  )
