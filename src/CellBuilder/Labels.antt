-- ===== src/CellBuilder/Labels.antt =====
-- The labels by which the operator knows its objects.
use cell_router_operator.Base.{
  ◌≡◌, refl, true, Option, some, List, [], ◌∷◌, Text, Dict, lookup, IsDict,
}
use cell_router_operator.Constants.{
  operator_name, managed_by_label, cell_name_label, entrypoint_service_label,
}
use cell_router_operator.Metadata.{or_empty, is_protected, merge}
use cell_router_operator.Metadata.Lookup.{merge-lookup}
use cell_router_operator.Api.Cell.{Cell}
use cell_router_operator.CellBuilder.{Metadata, mutate_namespace, Service, mutate_service}

-- A protected label of a first merge survives a second one.
pub merge-protected :
    (labels : Option (Dict Text)) (own user : Dict Text) (protected_keys : List Text) (k v : Text)
    → IsDict own
    → IsDict user
    → lookup k own ≡ some v
    → is_protected protected_keys k ≡ true
    → lookup k (merge (some (merge labels own [])) user protected_keys) ≡ some v
unfolding is_protected
merge-protected labels own user protected_keys k v d e found kept =
    rw (merge-lookup (some (merge labels own [])) user protected_keys k e, kept)
      (rw (merge-lookup labels own [] k d, found) refl)

-- For namespace labels without repeated keys, the managed-by label of the namespace ends up with
-- the operator's name and its cell-name label with the cell's name, whatever labels the namespace
-- has and the cell asks for.
pub mutate_namespace-owned :
    (ns : Metadata) (cell : Cell)
    → IsDict cell.spec.namespace_labels
    → (lookup managed_by_label (or_empty (mutate_namespace ns cell).labels) ≡ some operator_name)
      × (lookup cell_name_label (or_empty (mutate_namespace ns cell).labels) ≡ some cell.name)
unfolding mutate_namespace
mutate_namespace-owned ns cell d =
    let own : Dict Text = (managed_by_label, operator_name) ∷ (cell_name_label, cell.name) ∷ [] in
    let keys : List Text = managed_by_label ∷ cell_name_label ∷ [] in
    let own_dict : IsDict own = unfold lookup in (refl, (refl, tt)) in
    (
      merge-protected ns.labels own cell.spec.namespace_labels keys managed_by_label operator_name
          own_dict d (unfold lookup in refl) (unfold is_protected in refl),
      merge-protected ns.labels own cell.spec.namespace_labels keys cell_name_label cell.name
          own_dict d (unfold lookup in refl) (unfold is_protected in refl),
    )

-- For service labels without repeated keys, the three labels of the service by which the operator
-- knows it end up with the operator's values, whatever labels the service has and the cell asks
-- for.
pub mutate_service-owned :
    (svc : Service) (cell : Cell)
    → IsDict cell.spec.service_labels
    → (lookup managed_by_label (or_empty (mutate_service svc cell).metadata.labels)
        ≡ some operator_name)
      × (lookup cell_name_label (or_empty (mutate_service svc cell).metadata.labels)
          ≡ some cell.name)
      × (lookup entrypoint_service_label (or_empty (mutate_service svc cell).metadata.labels)
          ≡ some cell.spec.entrypoint.service_name)
unfolding mutate_service
mutate_service-owned svc cell d =
    let own : Dict Text =
      (managed_by_label, operator_name)
      ∷ (cell_name_label, cell.name)
      ∷ (entrypoint_service_label, cell.spec.entrypoint.service_name)
      ∷ [] in
    let keys : List Text = managed_by_label ∷ cell_name_label ∷ entrypoint_service_label ∷ [] in
    let own_dict : IsDict own = unfold lookup in (refl, (refl, (refl, tt))) in
    let keeps = λ (k v : Text).
      merge-protected svc.metadata.labels own cell.spec.service_labels keys k v own_dict d in
    (
      keeps managed_by_label operator_name (unfold lookup in refl) (unfold is_protected in refl),
      keeps cell_name_label cell.name (unfold lookup in refl) (unfold is_protected in refl),
      keeps entrypoint_service_label cell.spec.entrypoint.service_name (unfold lookup in refl)
          (unfold is_protected in refl),
    )
