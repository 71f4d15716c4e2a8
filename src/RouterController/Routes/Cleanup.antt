-- ===== src/RouterController/Routes/Cleanup.antt =====
-- What the clean-up of stale routes and grants deletes.
use cell_router_operator.Base.{
  ◌≡◌, inl, inr, refl, Bool, true, false, List, [], ◌∷◌, Text, none, some, All, text_eq,
  text_eq_iff, sym, ap, ◌∙◌, Bool-cases,
}
use mathlib.Core.Bool.{false≢true}
use cell_router_operator.Api.Router.{CellRouter}
use cell_router_operator.Client.{
  Kind, http_route_kind, reference_grant_kind, Header, Reply, reply, failed, delete_object,
}
use cell_router_operator.Client.Runs.{Log, Runs, has_failed}
use cell_router_operator.Client.Written.{written_names, WasGiven, list-WasGiven, All-mono, Ends}
use cell_router_operator.Machinery.{Machinery}
use cell_router_operator.RouterController.{
  router_labels, is_expected, delete_stale, cleanup_stale_routes, cleanup_stale_reference_grants,
}
use cell_router_operator.RouterController.Routes.{RoutesRound}
use cell_router_operator.RouterController.Routes.Requests.{IsRouterRequest, AreExpected, Tracks}

module _ (api : Machinery) (router : CellRouter) (clean : Bool) where
  -- A name that is not expected was not written.
  unexpected_lem :
      (name : Text) (expected names : List Text)
      → AreExpected expected names
      → is_expected name expected ≡ false
      → All (λ n. text_eq n name ≡ false) names
  unexpected_lem name expected names h unexpected =
      All-mono (λ n. is_expected n expected ≡ true) _ names
        (λ n there. elim (Bool-cases (text_eq n name)) [
          | inr other ↦ other
          | inl same ↦
              let one : n ≡ name = (text_eq_iff n name).0 same in
              absurd
                (false≢true (sym unexpected ∙ (ap (λ m. is_expected m expected) (sym one) ∙ there)))
        ])
        h

  delete_stale-Ends :
      (I : Log → Type 0) (kind : Kind) (expected : List Text) (objects : List Header) (log : Log)
      → ((l : Log) (h : Header) (r : Reply Bool) → I l → I ((delete_object kind h, r) ∷ l))
      → ((l : Log) → I l → AreExpected expected (written_names kind l))
      → has_failed log ≡ false
      → I log
      → All (λ h. WasGiven kind h log) objects
      → Runs (IsRouterRequest api router) (Ends (λ a. I)) log (delete_stale kind expected objects)
  unfolding delete_stale
  delete_stale-Ends I kind expected [] log keeps cover fine good given = (fine, good)
  delete_stale-Ends I kind expected (h ∷ rest) log keeps cover fine good (here, given) =
      elim (Bool-cases (is_expected h.name expected)) [
        | inl wanted ↦
            rw wanted (delete_stale-Ends I kind expected rest log keeps cover fine good given)
        | inr stale ↦ rw stale (
          (here, unexpected_lem h.name expected _ (cover log good) stale),
          elim [
            | failed text ↦ refl
            | reply found ↦
                delete_stale-Ends I kind expected rest _ keeps cover fine
                  (keeps log h (reply found) good) given
          ],
        )
      ]

  pub cleanup_stale_routes-Ends :
      (round : RoutesRound) (log : Log)
      → has_failed log ≡ false
      → Tracks router clean round log
      → Runs
          (IsRouterRequest api router)
          (Ends (λ a. Tracks router clean round))
          log
          (cleanup_stale_routes router router.spec.gateway.namespace round.routes)
  unfolding cleanup_stale_routes
  cleanup_stale_routes-Ends round log fine good = (
    tt,
    elim [
      | failed text ↦ refl
      | reply objects ↦
          delete_stale-Ends (Tracks router clean round) http_route_kind round.routes objects _
            (λ l h r kept. kept) (λ l kept. kept.0) fine good
            (list-WasGiven http_route_kind (some router.spec.gateway.namespace)
              (router_labels router) objects log)
    ],
  )

  pub cleanup_stale_grants-Ends :
      (round : RoutesRound) (log : Log)
      → has_failed log ≡ false
      → Tracks router clean round log
      → Runs
          (IsRouterRequest api router)
          (Ends (λ a. Tracks router clean round))
          log
          (cleanup_stale_reference_grants router round.grants)
  unfolding cleanup_stale_reference_grants
  cleanup_stale_grants-Ends round log fine good = (
    tt,
    elim [
      | failed text ↦ refl
      | reply objects ↦
          delete_stale-Ends (Tracks router clean round) reference_grant_kind round.grants objects _
            (λ l h r kept. kept) (λ l kept. kept.1) fine good
            (list-WasGiven reference_grant_kind none (router_labels router) objects log)
    ],
  )
