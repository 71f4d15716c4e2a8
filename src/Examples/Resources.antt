-- ===== src/Examples/Resources.antt =====
-- The theorems on metadata and on the resources of cells and gateways, applied.
use cell_router_operator.Base.{
  ◌≡◌, refl, true, none, some, [], ◌∷◌, if◌then◌else◌, is_empty, Text, codes, Dict, lookup,
}
use cell_router_operator.Constants.{
  operator_name, managed_by_label, cell_name_label, entrypoint_service_label,
}
use cell_router_operator.Api.Cell.{Cell, draining}
use cell_router_operator.Metadata.{or_empty, is_protected, merge}
use cell_router_operator.Metadata.Lookup.{merged, merge-lookup}
use cell_router_operator.CellBuilder.{
  Metadata, mutate_namespace, Service, mutate_service, NetworkPolicy, mutate_network_policy,
}
use cell_router_operator.CellBuilder.Labels.{mutate_namespace-owned, mutate_service-owned}
use cell_router_operator.CellBuilder.Selector.{mutate_service-selector}
use cell_router_operator.RouteBuilder.{Gateway, mutate_gateway}
use cell_router_operator.RouteBuilder.Listeners.{
  is_sorted, listeners_named, mutate_gateway-listeners,
}
use cell_router_operator.Examples.Data.{main_router, cell_in}

abbrev cell_b : Cell
cell_b = cell_in (codes "b") draining

abbrev old_labels : Dict Text
old_labels = (codes "cellrouter.io/cell-name", codes "old") ∷ []

merge-lookup_example :
    lookup
      (codes "team")
      (merge (some old_labels) cell_b.spec.namespace_labels (cell_name_label ∷ []))
    ≡ merged
        (is_protected (cell_name_label ∷ []) (codes "team"))
        (lookup (codes "team") (or_empty (some old_labels)))
        (lookup (codes "team") cell_b.spec.namespace_labels)
merge-lookup_example =
    merge-lookup (some old_labels) cell_b.spec.namespace_labels (cell_name_label ∷ [])
      (codes "team") (unfold lookup in (refl, (refl, tt)))

abbrev old_metadata : Metadata
old_metadata = record { labels = some old_labels; annotations = none }

mutate_namespace-owned_example :
    (lookup managed_by_label (or_empty (mutate_namespace old_metadata cell_b).labels)
      ≡ some operator_name)
    × (lookup cell_name_label (or_empty (mutate_namespace old_metadata cell_b).labels)
        ≡ some (codes "b"))
mutate_namespace-owned_example =
    mutate_namespace-owned old_metadata cell_b (unfold lookup in (refl, (refl, tt)))

abbrev old_service : Service
old_service = record {
  metadata = old_metadata;
  selector = some ((codes "stale", codes "yes") ∷ []);
  kind = [];
  ports = [];
}

abbrev old_policy : NetworkPolicy
old_policy = record {
  labels = none;
  pod_selector_labels = (codes "stale", codes "yes") ∷ [];
  policy_types = [];
  ingress = [];
}

mutate_service-owned_example :
    (lookup managed_by_label (or_empty (mutate_service old_service cell_b).metadata.labels)
      ≡ some operator_name)
    × (lookup cell_name_label (or_empty (mutate_service old_service cell_b).metadata.labels)
        ≡ some (codes "b"))
    × (lookup entrypoint_service_label
          (or_empty (mutate_service old_service cell_b).metadata.labels)
        ≡ some (codes "web"))
mutate_service-owned_example = mutate_service-owned old_service cell_b (unfold lookup in (refl, tt))

mutate_service-selector_example :
    (lookup (codes "app") (or_empty (mutate_service old_service cell_b).selector)
      ≡ lookup (codes "app") (mutate_network_policy old_policy cell_b).pod_selector_labels)
    × (lookup (codes "app") (or_empty (mutate_service old_service cell_b).selector) ≡ (
        if is_empty cell_b.spec.workload_selector
        then lookup (codes "app") ((cell_name_label, cell_b.name) ∷ [])
        else lookup (codes "app") cell_b.spec.workload_selector))
mutate_service-selector_example =
    mutate_service-selector old_service old_policy cell_b (codes "app")
      (unfold lookup in (refl, tt))

abbrev old_gateway : Gateway
old_gateway = record { labels = none; annotations = none; gateway_class_name = []; listeners = [] }

mutate_gateway-listeners_example :
    (is_sorted (mutate_gateway old_gateway main_router).listeners ≡ true)
    × (listeners_named (codes "http") (mutate_gateway old_gateway main_router).listeners
        ≡ listeners_named (codes "http") main_router.spec.gateway.listeners)
mutate_gateway-listeners_example = mutate_gateway-listeners old_gateway main_router (codes "http")
