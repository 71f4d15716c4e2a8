-- ===== src/Messages.antt =====
-- The texts that internal/controller writes into the statuses.
use cell_router_operator.Base.{◌++◌, List, map, Text, codes, join}
use cell_router_operator.Errors.{InvalidReason, overlaps_with, invalid_placement}
use cell_router_operator.Backends.{
  NotReady, cell_disabled, cell_draining, backend_not_ready, cell_not_ready, condition_message,
  BackendError, namespace_not_available, service_name_empty, port_not_set, Issue, cell_not_found,
  not_traffic_ready, not_resolved, RouteReason, traffic_ready, using_fallback_backend,
  waiting_for_backends, degraded, issues_only,
}
use cell_router_operator.Client.{Failure, client_error, plan_error, gateway_namespace_required}
use cell_router_operator.Machinery.{Machinery}

abbrev pub not_ready_text : NotReady → Text
not_ready_text cell_disabled = codes "disabled"
not_ready_text cell_draining = codes "draining"
not_ready_text backend_not_ready = codes "backend condition is not ready"
not_ready_text cell_not_ready = codes "cell condition is not ready"
not_ready_text (condition_message text) = text

abbrev pub backend_error_text : BackendError → Text
backend_error_text namespace_not_available = codes "cell namespace is not available"
backend_error_text service_name_empty = codes "cell entrypoint service name is empty"
backend_error_text port_not_set = codes "cell entrypoint port is not set"

module _ (api : Machinery) where
  abbrev pub issue_text : Issue → Text
  issue_text (cell_not_found cell) = codes "cell " ++ (api.quote cell ++ codes " not found")
  issue_text (not_traffic_ready cell reason) =
      codes "cell "
      ++ (api.quote cell ++ (codes " is not traffic-ready: " ++ not_ready_text reason))
  issue_text (not_resolved cell e) =
      codes "failed to resolve backend for cell "
      ++ (api.quote cell ++ (codes ": " ++ backend_error_text e))

  pub join_issues : List Issue → Text
  unfolding join
  join_issues issues = join (codes "; ") (map issue_text issues)

  unfoldable pub route_reason_text : RouteReason → Text
  unfolding join_issues
  route_reason_text traffic_ready = codes "traffic-ready"
  route_reason_text using_fallback_backend = codes "using fallback backend"
  route_reason_text waiting_for_backends = codes "waiting for traffic-ready backends"
  route_reason_text (degraded issues) = codes "degraded: " ++ join_issues issues
  route_reason_text (issues_only issues) = join_issues issues

  -- The entries of `invalidPlacements`.
  unfoldable pub invalid_reason_text : InvalidReason → Text
  invalid_reason_text (overlaps_with name) = codes "placement overlaps with " ++ api.quote name
  invalid_reason_text (invalid_placement e) = codes "invalid placement: " ++ api.error_text e

  -- `err.Error()`.
  unfoldable pub failure_text : Failure → Text
  failure_text (client_error text) = text
  failure_text (plan_error e) = api.error_text e
  failure_text gateway_namespace_required = codes "gateway namespace is required"
