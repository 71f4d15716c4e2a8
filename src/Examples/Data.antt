-- ===== src/Examples/Data.antt =====
-- Two placements of one router, the router, and its cells.
use cell_router_operator.Base.{
  ◌++◌, false, Option, none, some, List, [], ◌∷◌, Text, codes, text_eq, if◌then◌else◌,
}
use cell_router_operator.Api.Placement.{
  header, path_capture, exact, range, Selector, PlacementStatus, Placement,
}
use cell_router_operator.Api.Router.{match_exact, match_regular_expression, RouteSpec, CellRouter}
use cell_router_operator.Api.Cell.{draining, other_state, CellState, Cell}
use cell_router_operator.Api.Meta.{status_true, Condition}
use cell_router_operator.Backends.{Fetched, fetched, not_found}

abbrev pub users_regex : Text
users_regex = codes "^/users/(?P<id>[0-9]+)$"

-- The names of the groups, of the one expression that the examples use.
unfoldable pub group_names : Text → Option (List Text)
unfolding text_eq
group_names regex = if text_eq regex users_regex then some (codes "id" ∷ []) else none

abbrev pub id_selector : Selector
id_selector = record {
  source = record { kind = path_capture; name = codes "id"; path_regex = users_regex };
  operator = range;
  value = [];
  bounds = some (record { start = codes "3"; end = codes "7" });
}

abbrev pub region_selector : Selector
region_selector = record {
  source = record { kind = header; name = codes "X-Region"; path_regex = [] };
  operator = exact;
  value = codes "eu";
  bounds = none;
}

abbrev pub new_status : PlacementStatus
new_status = record { observed_generation = 0; resolved_backends = []; conditions = [] }

abbrev pub users : Placement
users = record {
  name = codes "users";
  generation = 1;
  status = new_status;
  spec = record {
    router_ref = codes "main";
    listener_names = [];
    hostnames = codes "example.org" ∷ [];
    selectors = id_selector ∷ region_selector ∷ [];
    destinations = record { cell_ref = codes "a"; weight = none } ∷ [];
  };
}

-- The same selectors in another order.
abbrev pub accounts : Placement
accounts = record {
  name = codes "accounts";
  generation = 1;
  status = new_status;
  spec = record {
    router_ref = codes "main";
    listener_names = [];
    hostnames = codes "example.org" ∷ [];
    selectors = region_selector ∷ id_selector ∷ [];
    destinations = record { cell_ref = codes "b"; weight = none } ∷ [];
  };
}

abbrev pub users_route : RouteSpec
users_route = record {
  name = codes "users";
  cell_ref = codes "a";
  listener_names = [];
  hostnames = codes "example.org" ∷ [];
  path_match =
      some
        (record { kind = some match_regular_expression; value = codes "^/users/(?P<id>[3-7])$" });
  header_matches =
      record { name = codes "X-Region"; value = codes "eu"; kind = some match_exact } ∷ [];
  query_param_matches = [];
  weight = none;
  additional_backends = [];
  fallback_backend = none;
}

abbrev pub static_route : RouteSpec
static_route = record {
  name = codes "static";
  cell_ref = codes "b";
  listener_names = [];
  hostnames = [];
  path_match = none;
  header_matches = [];
  query_param_matches = [];
  weight = none;
  additional_backends = record { cell_ref = codes "gone"; weight = some 5 } ∷ [];
  fallback_backend = some (record { cell_ref = codes "a"; weight = some 9 });
}

abbrev pub main_router : CellRouter
main_router = record {
  name = codes "main";
  uid = codes "uid-main";
  generation = 3;
  finalizers = [];
  is_deleted = false;
  status = record {
    observed_generation = 2;
    managed_gateway_ref = [];
    managed_routes = [];
    conditions = [];
  };
  spec = record {
    gateway = record {
      name = codes "edge";
      namespace = codes "gateways";
      gateway_class_name = codes "envoy";
      labels = [];
      annotations = [];
      listeners =
          record {
            name = codes "https";
            port = 443;
            protocol = codes "HTTPS";
            hostname = none;
            tls = none;
          }
          ∷ record {
            name = codes "http";
            port = 80;
            protocol = codes "HTTP";
            hostname = none;
            tls = none;
          }
          ∷ [];
    };
    routes = static_route ∷ [];
  };
}

abbrev pub holds : Text → Condition
holds kind = record {
  kind = kind;
  status = status_true;
  reason = codes "Reconciled";
  message = [];
  observed_generation = 1;
  last_transition_time = 7;
}

abbrev pub cell_in : Text → CellState → Cell
cell_in name state = record {
  name = name;
  uid = codes "uid-" ++ name;
  generation = 1;
  finalizers = codes "cell.cellrouter.io/finalizer" ∷ [];
  is_deleted = false;
  spec = record {
    namespace = [];
    entrypoint = record {
      service_name = codes "web";
      port = 80;
      target_port = none;
      protocol = [];
      kind = [];
    };
    workload_selector = (codes "app", codes "web") ∷ [];
    state = state;
    namespace_labels =
        (codes "cellrouter.io/cell-name", codes "stolen") ∷ (codes "team", codes "x") ∷ [];
    namespace_annotations = [];
    service_labels = (codes "cellrouter.io/managed-by", codes "me") ∷ [];
    service_annotations = [];
    tear_down_on_delete = false;
    policies = none;
  };
  status = record {
    observed_generation = 1;
    namespace = [];
    entrypoint_service = [];
    operational_state = state;
    available_endpoints = 1;
    conditions = holds (codes "BackendReady") ∷ holds (codes "Ready") ∷ [];
  };
}

-- Cell `a` serves, cell `b` drains, and there is no other.
unfoldable pub get_cell : Text → Fetched
unfolding text_eq
get_cell name =
    if text_eq name (codes "a")
    then fetched (cell_in (codes "a") (other_state []))
    else if text_eq name (codes "b")
    then fetched (cell_in (codes "b") draining)
    else not_found

-- The first condition of a type.
unfoldable pub find_condition : List Condition → Text → Option Condition
unfolding text_eq
find_condition [] kind = none
find_condition (c ∷ rest) kind =
    let later = find_condition rest kind in if text_eq c.kind kind then some c else later
