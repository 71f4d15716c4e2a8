-- ===== src/Events.antt =====
-- Which cells and routers an event concerns: `requestsForEndpointSlice` of
-- internal/controller/cell_controller.go, and `requestsForCell` and `requestsForPlacement` of
-- internal/controller/cellrouter_controller.go. A request is the name of the object.
pub mod Complete
use cell_router_operator.Base.{
  Bool, true, false, not, List, [], ◌∷◌, map, if◌then◌else◌, is_empty, Text, text_eq, lookup,
}
use cell_router_operator.Api.Cell.{Cell}
use cell_router_operator.Api.Placement.{Placement}
use cell_router_operator.Api.Router.{CellRouter}
use cell_router_operator.Backends.{effective_namespace}
use cell_router_operator.Client.{
  EndpointSlice, reply, failed, list_cells, list_routers, Program, ask, done,
}
use cell_router_operator.CellController.{label_of}

-- The names of the cells whose entrypoint an EndpointSlice belongs to.
unfoldable pub cells_of_slice : Text → Text → List Cell → List Text
unfolding effective_namespace text_eq
cells_of_slice namespace service_name [] = []
cells_of_slice namespace service_name (c ∷ rest) =
    let later = cells_of_slice namespace service_name rest in
    if not (text_eq (effective_namespace c) namespace)
    then later
    else if not (text_eq c.spec.entrypoint.service_name service_name)
    then later
    else c.name ∷ later

-- `requestsForEndpointSlice`: the names of the cells to reconcile. The key of the label is
-- discoveryv1's `LabelServiceName`.
unfoldable pub requests_for_endpoint_slice : Text → EndpointSlice → Program (List Text)
unfolding cells_of_slice lookup
requests_for_endpoint_slice service_name_label slice =
    let service_name = label_of slice.labels service_name_label in
    if is_empty service_name
    then done []
    else ask list_cells (elim [
      | failed text ↦ done []
      | reply cells ↦ done (cells_of_slice slice.namespace service_name cells)
    ])

-- `requestsForCell`: every router is reconciled when a cell changes.
unfoldable pub requests_for_cell : Program (List Text)
requests_for_cell = ask list_routers (elim [
  | failed text ↦ done []
  | reply routers ↦ done (map (λ (router : CellRouter). router.name) routers)
])

-- `requestsForPlacement`.
unfoldable pub requests_for_placement : Placement → List Text
requests_for_placement placement =
    if is_empty placement.spec.router_ref then [] else placement.spec.router_ref ∷ []
