-- ===== src/CellBuilder/Selector.antt =====
-- The selector that a cell's service and network policy share.
use cell_router_operator.Base.{
  ◌≡◌, refl, ◌∙◌, Bool, true, false, Option, none, some, [], ◌∷◌, arith, if◌then◌else◌, is_empty,
  Text, text_eq_iff, Dict, lookup, lookup-insert, IsDict, insert, insert-IsDict,
}
use cell_router_operator.Constants.{cell_name_label}
use cell_router_operator.Metadata.{or_empty}
use cell_router_operator.Api.Cell.{Cell}
use cell_router_operator.CellBuilder.{
  copy_entries, workload_selector, Service, mutate_service, NetworkPolicy, mutate_network_policy,
}

-- The first value that is there.
abbrev pub first_of : Option Text → Option Text → Option Text
first_of none o = o
first_of (some v) o = some v

copy_entries-lookup :
    (src m : Dict Text) (k : Text)
    → IsDict src
    → lookup k (copy_entries src m) ≡ first_of (lookup k src) (lookup k m)
unfolding copy_entries lookup
copy_entries-lookup [] m k d = refl
copy_entries-lookup ((j, v) ∷ src) m k (fresh, d) =
    ground
      (arith, text_eq_iff j k, lookup-insert j k v m, copy_entries-lookup src (insert j v m) k d)

copy_entries-IsDict : (src m : Dict Text) → IsDict m → IsDict (copy_entries src m)
unfolding copy_entries
copy_entries-IsDict [] m d = d
copy_entries-IsDict ((j, v) ∷ src) m d =
    copy_entries-IsDict src (insert j v m) (insert-IsDict j v m d)

workload_selector-IsDict : (cell : Cell) → IsDict (workload_selector cell)
unfolding workload_selector
workload_selector-IsDict cell = go (is_empty cell.spec.workload_selector)
  where
    go :
        (b : Bool)
        → IsDict (
            if b
            then (cell_name_label, cell.name) ∷ []
            else copy_entries cell.spec.workload_selector [])
    go true = unfold lookup in (refl, tt)
    go false = copy_entries-IsDict cell.spec.workload_selector [] tt

first_of-none : (o : Option Text) → first_of o none ≡ o
first_of-none none = refl
first_of-none (some v) = refl

-- For a workload selector without repeated keys, the service's selector and the network policy's
-- hold the same under every key, namely what the cell's selector has, or the cell-name label alone
-- where that is empty: nothing of the selectors they had before is left.
pub mutate_service-selector :
    (svc : Service) (policy : NetworkPolicy) (cell : Cell) (k : Text)
    → IsDict cell.spec.workload_selector
    → (lookup k (or_empty (mutate_service svc cell).selector)
        ≡ lookup k (mutate_network_policy policy cell).pod_selector_labels)
      × (lookup k (or_empty (mutate_service svc cell).selector) ≡ (
          if is_empty cell.spec.workload_selector
          then lookup k ((cell_name_label, cell.name) ∷ [])
          else lookup k cell.spec.workload_selector))
unfolding mutate_service mutate_network_policy lookup
mutate_service-selector svc policy cell k d =
    let same : lookup k (copy_entries (workload_selector cell) [])
        ≡ lookup k (workload_selector cell) =
      copy_entries-lookup (workload_selector cell) [] k (workload_selector-IsDict cell)
      ∙ first_of-none (lookup k (workload_selector cell)) in
    (same, same ∙ chosen (is_empty cell.spec.workload_selector))
  where
    chosen :
        (b : Bool)
        → lookup k (
            if b
            then (cell_name_label, cell.name) ∷ []
            else copy_entries cell.spec.workload_selector [])
          ≡ (if b
              then lookup k ((cell_name_label, cell.name) ∷ [])
              else lookup k cell.spec.workload_selector)
    chosen true = refl
    chosen false =
        copy_entries-lookup cell.spec.workload_selector [] k d
        ∙ first_of-none (lookup k cell.spec.workload_selector)
