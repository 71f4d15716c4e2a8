-- ===== src/Constants.antt =====
-- The labels and names of internal/constants/constants.go.
use cell_router_operator.Base.{Text, codes}

abbrev pub operator_name : Text
operator_name = codes "cell-router-operator"

abbrev pub managed_by_label : Text
managed_by_label = codes "cellrouter.io/managed-by"

abbrev pub cell_name_label : Text
cell_name_label = codes "cellrouter.io/cell-name"

abbrev pub entrypoint_service_label : Text
entrypoint_service_label = codes "cellrouter.io/entrypoint-service"

abbrev pub router_name_label : Text
router_name_label = codes "cellrouter.io/router-name"

abbrev pub placement_name_label : Text
placement_name_label = codes "cellrouter.io/placement-name"

abbrev pub finalizer_cell : Text
finalizer_cell = codes "cell.cellrouter.io/finalizer"

abbrev pub finalizer_cell_router : Text
finalizer_cell_router = codes "cellrouter.cellrouter.io/finalizer"

abbrev pub cell_resource_quota_name : Text
cell_resource_quota_name = codes "cell-quota"

abbrev pub cell_limit_range_name : Text
cell_limit_range_name = codes "cell-limits"

abbrev pub cell_network_policy_name : Text
cell_network_policy_name = codes "cell-entrypoint"
