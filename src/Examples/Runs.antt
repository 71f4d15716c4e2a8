-- ===== src/Examples/Runs.antt =====
-- The reconcilers, run against a server.
use cell_router_operator.Base.{◌≡◌, refl, none, some, codes, is_blank}
use cell_router_operator.Validation.{
  validate_selector, validate_source, path_regex_has_named_capture, validate_range,
}
use cell_router_operator.Decimal.{is_decimal}
use cell_router_operator.Strconv.{parse_uint}
use cell_router_operator.RangeRegex.{numeric_range_regex}
use cell_router_operator.Capture.{replace_named_capture_body}
use cell_router_operator.Client.{finished, outcome_of}
use cell_router_operator.CellController.Reconcile.{reconcile_cell}
use cell_router_operator.RouterController.Reconcile.{reconcile_router}
use cell_router_operator.Examples.Data.{group_names, find_condition}
use cell_router_operator.Examples.Machines.{machines, server}

-- Three reconciliations against the server: the cell `a` serves, the cell `b` waits for endpoints,
-- and the router waits for its gateway.
serving_cell : outcome_of server (reconcile_cell machines (codes "a")) ≡ finished none
unfolding server reconcile_cell
serving_cell = refl

waiting_cell : outcome_of server (reconcile_cell machines (codes "b")) ≡ finished (some 5)
unfolding server reconcile_cell
waiting_cell = refl

waiting_router :
    outcome_of server (reconcile_router machines (λ t. 7) group_names (λ m. m) (codes "main"))
    ≡ finished (some 10)
unfolding server reconcile_router group_names is_blank validate_selector validate_source
    path_regex_has_named_capture validate_range is_decimal parse_uint numeric_range_regex
    replace_named_capture_body find_condition
waiting_router = refl
