-- ===== src/Backends/Resolved.antt =====
-- What the backends of a route are.
use cell_router_operator.Base.{
  ◌≡◌, ◌≢◌, ◌↔◌, ◌⊎◌, refl, ap, Option, none, some, List, [], ◌∷◌, arith, inl, inr, Option-cases,
  Text, codes,
}
use cell_router_operator.Api.Cell.{CellState, active, draining, disabled, other_state, Cell}
use cell_router_operator.Api.Meta.{status_true, Condition}
use cell_router_operator.Api.Placement.{BackendRef}
use cell_router_operator.RouteBuilder.{BackendTarget}
use cell_router_operator.Backends.{
  effective_cell_state, check_condition, check_state, or_else, NotReady, cell_not_traffic_ready,
  cell_not_ready, backend_not_ready, resolve_backend, backend_found, backend_error, BackendError,
  ResolvedBackend, Fetched, fetched, not_found, fetch_error, candidate, candidate_cell, usable,
  broken,
}

-- A condition that is there and is true.
abbrev pub IsTrue : Option Condition → Type 0
IsTrue o = (c : Condition) × (o ≡ some c) × (c.status ≡ status_true)

check_condition_iff :
    (o : Option Condition) (reason : NotReady) → (check_condition o reason ≡ none) ↔ IsTrue o
unfolding check_condition
check_condition_iff none reason = (λ h. ground arith, λ t. ground arith)
check_condition_iff (some c) reason = (λ h. (c, refl, ground arith), λ t. ground arith)

or_else_iff {ℓ} : {A : Type ℓ} (a b : Option A) → (or_else a b ≡ none) ↔ ((a ≡ none) × (b ≡ none))
or_else_iff none b = (λ h. (refl, h), λ h. h.1)
or_else_iff (some a) b = (λ h. ground arith, λ h. ground arith)

-- A state in which a cell takes traffic.
abbrev pub TakesTraffic : CellState → Type 0
TakesTraffic s = (s ≢ draining) × (s ≢ disabled)

check_state_iff : (s : CellState) → (check_state s ≡ none) ↔ TakesTraffic s
check_state_iff active = (λ h. (λ e. ground arith, λ e. ground arith), λ h. refl)
check_state_iff draining = (λ h. ground arith, λ h. absurd (h.0 refl))
check_state_iff disabled = (λ h. ground arith, λ h. absurd (h.1 refl))
check_state_iff (other_state t) = (λ h. (λ e. ground arith, λ e. ground arith), λ h. refl)

module _ (find_condition : List Condition → Text → Option Condition) where
  -- What it takes for a cell to be traffic-ready.
  pub record IsTrafficReady (cell : Cell) : Type 0 where
    pub state : TakesTraffic (effective_cell_state cell)
    pub backend : IsTrue (find_condition cell.status.conditions (codes "BackendReady"))
    pub ready : IsTrue (find_condition cell.status.conditions (codes "Ready"))

  -- A cell is traffic-ready exactly if its effective state is neither draining nor disabled, and
  -- the BackendReady and Ready conditions that are looked up are there and true.
  pub cell_not_traffic_ready_iff :
      (cell : Cell) → (cell_not_traffic_ready find_condition cell ≡ none) ↔ IsTrafficReady cell
  unfolding cell_not_traffic_ready
  cell_not_traffic_ready_iff cell =
      let s = check_state_iff (effective_cell_state cell) in
      let b =
        check_condition_iff (find_condition cell.status.conditions (codes "BackendReady"))
          backend_not_ready in
      let r =
        check_condition_iff (find_condition cell.status.conditions (codes "Ready"))
          cell_not_ready in
      (
        λ h.
            let (hs, h1) = (or_else_iff _ _).0 h in
            let (hb, hr) = (or_else_iff _ _).0 h1 in
            record { state = s.0 hs; backend = b.0 hb; ready = r.0 hr },
        λ t. (or_else_iff _ _).1 (s.1 t.state, (or_else_iff _ _).1 (b.1 t.backend, r.1 t.ready)),
      )

ResolvedBackend-cases :
    (r : ResolvedBackend)
    → ((b : BackendTarget) × (r ≡ backend_found b)) ⊎ ((e : BackendError) × (r ≡ backend_error e))
ResolvedBackend-cases (backend_found b) = inl (b, refl)
ResolvedBackend-cases (backend_error e) = inr (e, refl)

Fetched-cases :
    (f : Fetched)
    → ((cell : Cell) × (f ≡ fetched cell)) ⊎ ((f ≡ not_found) ⊎ ((e : Text) × (f ≡ fetch_error e)))
Fetched-cases (fetched cell) = inl (cell, refl)
Fetched-cases not_found = inr (inl refl)
Fetched-cases (fetch_error e) = inr (inr (e, refl))

fields_eq :
    (own : BackendTarget) (ref : BackendRef) (b : BackendTarget)
    → own.namespace ≡ b.namespace
    → own.name ≡ b.name
    → own.port ≡ b.port
    → b.weight ≡ ref.weight
    → b.cell_ref ≡ ref.cell_ref
    → record own { weight = ref.weight; cell_ref = ref.cell_ref } ≡ b
fields_eq own ref b n m p w c = rw (n, m, p, ← w, ← c) refl

module _ (find_condition : List Condition → Text → Option Condition)
    (get_cell : Text → Fetched) where
  -- A backend that stands for a reference: its cell is there, is traffic-ready and resolves to
  -- the backend's service, and the weight is the reference's.
  pub record Stands (ref : BackendRef) (b : BackendTarget) : Type 0 where
    pub cell : Cell
    pub found : get_cell ref.cell_ref ≡ fetched cell
    pub ready : IsTrafficReady find_condition cell
    pub service :
        (own : BackendTarget) × (resolve_backend cell ≡ backend_found own)
        × (own.namespace ≡ b.namespace)
        × (own.name ≡ b.name)
        × (own.port ≡ b.port)
    pub weight : b.weight ≡ ref.weight
    pub cell_ref : b.cell_ref ≡ ref.cell_ref

  candidate_cell-Stands :
      (ref : BackendRef) (cell : Cell) (b : BackendTarget)
      → get_cell ref.cell_ref ≡ fetched cell
      → candidate_cell find_condition get_cell ref cell ≡ usable b
      → Stands ref b
  unfolding candidate_cell
  candidate_cell-Stands ref cell b found h =
      elim (Option-cases (cell_not_traffic_ready find_condition cell)) [
        | inr (reason, e) ↦ absurd (ground arith)
        | inl ready ↦ elim (ResolvedBackend-cases (resolve_backend cell)) [
          | inr (e, bad) ↦ absurd (ground arith)
          | inl (own, good) ↦ record {
            cell = cell;
            found = found;
            ready = (cell_not_traffic_ready_iff find_condition cell).0 ready;
            service = (own, good, ground arith, ground arith, ground arith);
            weight = ground arith;
            cell_ref = ground arith;
          }
        ]
      ]

  pub candidate-Stands :
      (ref : BackendRef) (b : BackendTarget)
      → candidate find_condition get_cell ref ≡ usable b
      → Stands ref b
  unfolding candidate
  candidate-Stands ref b h = elim (Fetched-cases (get_cell ref.cell_ref)) [
    | inl (cell, found) ↦ candidate_cell-Stands ref cell b found (ground arith)
    | inr (inl gone) ↦ absurd (ground arith)
    | inr (inr (e, bad)) ↦ absurd (ground arith)
  ]

  pub candidate-broken :
      (ref : BackendRef) (e : Text)
      → candidate find_condition get_cell ref ≡ broken e
      → get_cell ref.cell_ref ≡ fetch_error e
  unfolding candidate candidate_cell
  candidate-broken ref e h = ground arith

  pub Stands-candidate :
      (ref : BackendRef) (b : BackendTarget)
      → Stands ref b
      → candidate find_condition get_cell ref ≡ usable b
  unfolding candidate candidate_cell
  Stands-candidate ref b s =
      let (own, good, n, m, p) = s.service in
      let free = (cell_not_traffic_ready_iff find_condition s.cell).1 s.ready in
      let same : record own { weight = ref.weight; cell_ref = ref.cell_ref } ≡ b =
        fields_eq own ref b n m p s.weight s.cell_ref in
      rw (s.found, candidate, candidate_cell, free, good) (ap usable same)

  -- The backends are picked from the references, in order, and a reference is passed over only if
  -- nothing stands for it.
  pub data Picked : List BackendRef → List BackendTarget → Type 0 where
    none_left : Picked [] []
    take_one :
        (ref : BackendRef) (b : BackendTarget) (refs : List BackendRef) (bs : List BackendTarget)
        → Stands ref b
        → Picked refs bs
        → Picked (ref ∷ refs) (b ∷ bs)
    pass_over :
        (ref : BackendRef) (refs : List BackendRef) (bs : List BackendTarget)
        → ((b : BackendTarget) → ¬ Stands ref b)
        → Picked refs bs
        → Picked (ref ∷ refs) bs
