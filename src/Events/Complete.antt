-- ===== src/Events/Complete.antt =====
-- The events that matter to a cell or to a router lead to it.
use cell_router_operator.Base.{
  ◌≡◌, ◌⊎◌, inl, inr, refl, sym, ap, ◌∙◌, true, false, List, [], ◌∷◌, is_empty, Text, text_eq,
  text_eq_iff, Bool-cases,
}
use cell_router_operator.Api.Cell.{Cell}
use cell_router_operator.Api.Placement.{Placement}
use cell_router_operator.Backends.{effective_namespace}
use cell_router_operator.Client.{
  EndpointSlice, reply, Request, Response, list_cells, finished, outcome_of,
}
use cell_router_operator.CellController.{label_of}
use cell_router_operator.RouterController.{placements_of}
use cell_router_operator.Events.{
  cells_of_slice, requests_for_endpoint_slice, requests_for_placement,
}

abbrev pub IsCell : Cell → List Cell → Type 0
IsCell c [] = ⊥
IsCell c (x ∷ rest) = (x ≡ c) ⊎ IsCell c rest

abbrev pub IsText : Text → List Text → Type 0
IsText t [] = ⊥
IsText t (x ∷ rest) = (x ≡ t) ⊎ IsText t rest

-- The endpoints of the slice are those that the reconciliation of the cell counts.
abbrev pub CountsFor : Text → EndpointSlice → Cell → Type 0
CountsFor service_name_label slice cell =
    (effective_namespace cell ≡ slice.namespace)
    × (cell.spec.entrypoint.service_name ≡ label_of slice.labels service_name_label)

cells_of_slice_complete :
    (namespace service : Text) (cells : List Cell) (c : Cell)
    → IsCell c cells
    → effective_namespace c ≡ namespace
    → c.spec.entrypoint.service_name ≡ service
    → IsText c.name (cells_of_slice namespace service cells)
unfolding cells_of_slice
cells_of_slice_complete namespace service [] c there here serves = absurd there
cells_of_slice_complete namespace service (x ∷ rest) c (inl same) here serves =
    let near : text_eq (effective_namespace x) namespace ≡ true =
      (text_eq_iff _ _).1 (ap effective_namespace same ∙ here) in
    let own : text_eq x.spec.entrypoint.service_name service ≡ true =
      (text_eq_iff _ _).1 (ap (λ (d : Cell). d.spec.entrypoint.service_name) same ∙ serves) in
    rw (near, own) (inl (ap (λ (d : Cell). d.name) same))
cells_of_slice_complete namespace service (x ∷ rest) c (inr there) here serves =
    let later = cells_of_slice_complete namespace service rest c there here serves in
    elim (Bool-cases (text_eq (effective_namespace x) namespace)) [
      | inr elsewhere ↦ rw elsewhere later
      | inl near ↦ elim (Bool-cases (text_eq x.spec.entrypoint.service_name service)) [
        | inr foreign ↦ rw (near, foreign) later
        | inl own ↦ rw (near, own) (inr later)
      ]
    ]

-- If the endpoints of a slice are those that the reconciliation of a cell counts, the cell's
-- service has a name, and the server lists the cell, then the event of the slice leads to the
-- cell.
pub requests_for_endpoint_slice_complete :
    (service_name_label : Text) (slice : EndpointSlice) (server : (q : Request) → Response q)
    (cells : List Cell) (cell : Cell)
    → server list_cells ≡ reply cells
    → IsCell cell cells
    → CountsFor service_name_label slice cell
    → is_empty cell.spec.entrypoint.service_name ≡ false
    → (names : List Text) × (outcome_of server
          (requests_for_endpoint_slice service_name_label slice)
        ≡ finished names)
      × IsText cell.name names
unfolding requests_for_endpoint_slice
requests_for_endpoint_slice_complete service_name_label slice server cells cell listed there
      (here, serves) named =
    let service = label_of slice.labels service_name_label in
    let found : is_empty service ≡ false = ap is_empty (sym serves) ∙ named in
    (
      cells_of_slice slice.namespace service cells,
      rw found (rw (listed, outcome_of) refl),
      cells_of_slice_complete slice.namespace service cells cell there here serves,
    )

abbrev pub IsPlacement : Placement → List Placement → Type 0
IsPlacement p [] = ⊥
IsPlacement p (x ∷ rest) = (x ≡ p) ⊎ IsPlacement p rest

placements_of_sound :
    (router_name : Text) (placements : List Placement) (p : Placement)
    → IsPlacement p (placements_of router_name placements)
    → p.spec.router_ref ≡ router_name
unfolding placements_of
placements_of_sound router_name [] p h = absurd h
placements_of_sound router_name (x ∷ rest) p h =
    elim (Bool-cases (text_eq x.spec.router_ref router_name)) [
      | inr other ↦ placements_of_sound router_name rest p (rw other at h)
      | inl own ↦ elim (rw own at h) [
        | inl same ↦ ap (λ (q : Placement). q.spec.router_ref) (sym same) ∙ (text_eq_iff _ _).0 own
        | inr there ↦ placements_of_sound router_name rest p there
      ]
    ]

-- If a router with a name takes a placement into account, the event of the placement leads to that
-- router and to no other.
pub requests_for_placement-placements_of :
    (router_name : Text) (placements : List Placement) (p : Placement)
    → IsPlacement p (placements_of router_name placements)
    → is_empty router_name ≡ false
    → requests_for_placement p ≡ router_name ∷ []
unfolding requests_for_placement
requests_for_placement-placements_of router_name placements p h named =
    let own = placements_of_sound router_name placements p h in rw (own, named) refl
