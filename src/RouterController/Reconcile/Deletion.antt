-- ===== src/RouterController/Reconcile/Deletion.antt =====
-- What the deletion of a router deletes, and when its finalizer goes.
use cell_router_operator.Base.{
  ◌≡◌, inl, inr, refl, true, false, List, [], ◌∷◌, Text, none, some, All, Bool-cases,
}
use cell_router_operator.Constants.{finalizer_cell_router}
use cell_router_operator.Api.Router.{CellRouter}
use cell_router_operator.Client.{
  Kind, gateway_kind, http_route_kind, reference_grant_kind, Header, reply, failed, Request,
  get_object, list_objects, delete_object, patch_router,
}
use cell_router_operator.Client.Runs.{
  Log, Runs, IsHonest, has_failed, >>=-IsHonest, delete_found-IsHonest, if-Runs,
}
use cell_router_operator.Client.Written.{WasGiven, list-WasGiven}
use cell_router_operator.Machinery.{Machinery}
use cell_router_operator.RouterController.{
  router_labels, delete_controlled, delete_managed_http_routes, delete_managed_reference_grants,
  delete_managed_gateway,
}
use cell_router_operator.RouterController.Reconcile.{drop_finalizer, reconcile_deletion}

-- What a deleted router may lead to: lists and reads, deletions of objects that the server gave and
-- that the router controls, and the removal of the finalizer after requests that all succeeded.
abbrev pub IsDeletionRequest : Machinery → CellRouter → Log → Request → Type 0
IsDeletionRequest api router log (get_object kind namespace name) = Unit
IsDeletionRequest api router log (list_objects kind namespace labels) =
    labels ≡ router_labels router
IsDeletionRequest api router log (delete_object kind h) =
    WasGiven kind h log × (api.is_controlled_by h router.uid ≡ true)
IsDeletionRequest api router log (patch_router before after) =
    (has_failed log ≡ false)
    × (before ≡ router)
    × (after.finalizers ≡ api.remove_finalizer router.finalizers finalizer_cell_router)
IsDeletionRequest api router log q = ⊥

module _ (api : Machinery) (router : CellRouter) where
  delete_controlled-IsHonest :
      (kind : Kind) (objects : List Header) (log : Log)
      → has_failed log ≡ false
      → All (λ h. WasGiven kind h log) objects
      → Runs (IsDeletionRequest api router) IsHonest log (delete_controlled api kind router objects)
  unfolding delete_controlled
  delete_controlled-IsHonest kind [] log fine given = fine
  delete_controlled-IsHonest kind (h ∷ rest) log fine (here, given) =
      elim (Bool-cases (api.is_controlled_by h router.uid)) [
        | inr foreign ↦ rw foreign (delete_controlled-IsHonest kind rest log fine given)
        | inl mine ↦ rw mine (
          (here, mine),
          elim [
            | failed text ↦ refl
            | reply found ↦ delete_controlled-IsHonest kind rest _ fine given
          ],
        )
      ]

  delete_routes-IsHonest :
      (namespace : Text) (log : Log)
      → has_failed log ≡ false
      → Runs
          (IsDeletionRequest api router)
          IsHonest
          log
          (delete_managed_http_routes api router namespace)
  unfolding delete_managed_http_routes
  delete_routes-IsHonest namespace log fine = (
    refl,
    elim [
      | failed text ↦ refl
      | reply objects ↦
          delete_controlled-IsHonest http_route_kind objects _ fine
            (list-WasGiven http_route_kind (some namespace) (router_labels router) objects log)
    ],
  )

  delete_grants-IsHonest :
      (log : Log)
      → has_failed log ≡ false
      → Runs
          (IsDeletionRequest api router)
          IsHonest
          log
          (delete_managed_reference_grants api router)
  unfolding delete_managed_reference_grants
  delete_grants-IsHonest log fine = (
    refl,
    elim [
      | failed text ↦ refl
      | reply objects ↦
          delete_controlled-IsHonest reference_grant_kind objects _ fine
            (list-WasGiven reference_grant_kind none (router_labels router) objects log)
    ],
  )

  delete_gateway-IsHonest :
      (log : Log)
      → has_failed log ≡ false
      → Runs (IsDeletionRequest api router) IsHonest log (delete_managed_gateway api router)
  unfolding delete_managed_gateway
  delete_gateway-IsHonest log fine = (
    tt,
    elim [
      | failed text ↦ refl
      | reply none ↦ fine
      | reply (some h) ↦ elim (Bool-cases (api.is_controlled_by h router.uid)) [
        | inr foreign ↦ rw foreign fine
        | inl mine ↦ rw mine (
            delete_found-IsHonest (IsDeletionRequest api router) _ fine gateway_kind h
              (inl (refl, refl), mine))
      ]
    ],
  )

  drop_finalizer-IsHonest :
      (log : Log)
      → has_failed log ≡ false
      → Runs (IsDeletionRequest api router) IsHonest log (drop_finalizer api router)
  unfolding drop_finalizer
  drop_finalizer-IsHonest log fine =
      if-Runs (IsDeletionRequest api router) IsHonest log
        (api.contains_finalizer router.finalizers finalizer_cell_router) _ _
        (λ there. ((fine, refl, refl), elim [ reply c ↦ fine | failed text ↦ refl ])) (λ gone. fine)

  -- If no request has failed before, the deletion of a router deletes only objects that the server
  -- gave and that the router controls, removes the finalizer only if no request has failed, and
  -- returns an error exactly if a request failed.
  pub reconcile_deletion-Runs :
      (log : Log)
      → has_failed log ≡ false
      → Runs (IsDeletionRequest api router) IsHonest log (reconcile_deletion api router)
  unfolding reconcile_deletion
  reconcile_deletion-Runs log fine =
      let P = IsDeletionRequest api router in
      let gateway_namespace = router.spec.gateway.namespace in
      >>=-IsHonest P log (delete_managed_http_routes api router gateway_namespace) _
        (delete_routes-IsHonest gateway_namespace log fine)
        (λ l u fine1.
          >>=-IsHonest P l (delete_managed_reference_grants api router) _
            (delete_grants-IsHonest l fine1)
            (λ l2 u2 fine2.
              >>=-IsHonest P l2 (delete_managed_gateway api router) _
                (delete_gateway-IsHonest l2 fine2)
                (λ l3 u3 fine3. drop_finalizer-IsHonest l3 fine3)))
