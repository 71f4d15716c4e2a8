-- ===== src/RouteBuilder.antt =====
-- The Gateway API resources of a router: internal/resource/router/builder.go. Each function takes
-- the object as it is and returns it as the Go code leaves it; a field that the code does not touch
-- has no place here. A pointer that the code always sets is the value it points to.
pub mod Listeners
pub mod Routes
use cell_router_operator.Base.{
  ℕ, zero, suc, ◌+◌, ◌-◌, ◌/◌, ◌%◌, Bool, true, false, ◌||◌, not, Option, none, some, List, [], ◌∷◌,
  ◌++◌, map, ltb, if◌then◌else◌, is_empty, Text, codes, text_le, Dict, insert,
}
use cell_router_operator.Constants.{
  operator_name, managed_by_label, cell_name_label, router_name_label, placement_name_label,
}
use cell_router_operator.Metadata.{merge}
use cell_router_operator.Api.Router.{
  MatchType, HttpPathMatch, HttpHeaderMatch, HttpQueryParamMatch, RouteSpec, CellGatewayListener,
  CellRouter,
}

pub record BackendTarget : Type 0 where
  pub namespace : Text
  pub name : Text
  pub port : ℕ
  pub weight : Option ℕ
  pub cell_ref : Text

-- `%08x` of a `uint32`.
hex_digit : ℕ → ℕ
hex_digit n = if ltb n 10 then b'0' + n else b'a' + (n - 10)

hex_digits : ℕ → ℕ → Text
hex_digits zero n = []
hex_digits (suc k) n = hex_digits k (n / 16) ++ hex_digit (n % 16) ∷ []

-- `sum32` is `hash/fnv`'s 32-bit FNV-1a hash of a text.
module _ (sum32 : Text → ℕ) where
  unfoldable pub reference_grant_name : Text → BackendTarget → Text
  unfolding hex_digits hex_digit
  reference_grant_name route_name backend =
      route_name
      ++ (codes "-"
          ++ (hex_digits 8 (
                sum32
                  (route_name ++ (codes "/" ++ (backend.namespace ++ (codes "/" ++ backend.name)))))
              ++ codes "-backend"))

-- `MutateGatewayNamespace`, on the namespace's labels.
unfoldable pub mutate_gateway_namespace : Option (Dict Text) → CellRouter → Option (Dict Text)
unfolding merge
mutate_gateway_namespace labels router =
    some
      (merge labels ((managed_by_label, operator_name) ∷ (router_name_label, router.name) ∷ []) [])

pub record Gateway : Type 0 where
  pub labels : Option (Dict Text)
  pub annotations : Option (Dict Text)
  pub gateway_class_name : Text
  pub listeners : List CellGatewayListener

-- `sort.SliceStable` by name, as a stable insertion sort.
pub insert_listener : CellGatewayListener → List CellGatewayListener → List CellGatewayListener
unfolding text_le
insert_listener x [] = x ∷ []
insert_listener x (y ∷ ys) =
    let rest = insert_listener x ys in if text_le x.name y.name then x ∷ y ∷ ys else y ∷ rest

unfoldable pub sort_listeners : List CellGatewayListener → List CellGatewayListener
unfolding insert_listener
sort_listeners [] = []
sort_listeners (x ∷ xs) = insert_listener x (sort_listeners xs)

-- `MutateGateway`: a listener has the same fields in both APIs.
unfoldable pub mutate_gateway : Gateway → CellRouter → Gateway
unfolding merge sort_listeners
mutate_gateway gw router =
    let labels =
      merge gw.labels ((managed_by_label, operator_name) ∷ (router_name_label, router.name) ∷ [])
        [] in
    record {
      labels = some (
          merge (some labels) router.spec.gateway.labels
            (managed_by_label ∷ router_name_label ∷ []));
      annotations = some (merge gw.annotations router.spec.gateway.annotations []);
      gateway_class_name = router.spec.gateway.gateway_class_name;
      listeners = sort_listeners router.spec.gateway.listeners;
    }

pub record ReferenceGrantFrom : Type 0 where
  pub group : Text
  pub kind : Text
  pub namespace : Text

pub record ReferenceGrantTo : Type 0 where
  pub group : Text
  pub kind : Text
  pub name : Text

pub record ReferenceGrant : Type 0 where
  pub labels : Option (Dict Text)
  pub annotations : Option (Dict Text)
  pub from : List ReferenceGrantFrom
  pub to : List ReferenceGrantTo

-- `MutateReferenceGrant`.
unfoldable pub mutate_reference_grant :
    ReferenceGrant → CellRouter → Text → Text → Text → BackendTarget → ReferenceGrant
unfolding merge
mutate_reference_grant grant router route_name cell_ref gateway_namespace backend = record {
  labels = some (
      merge grant.labels
        ((managed_by_label, operator_name)
          ∷ (router_name_label, router.name)
          ∷ (cell_name_label, cell_ref)
          ∷ [])
        []);
  annotations =
      some (merge grant.annotations ((codes "cellrouter.io/route-name", route_name) ∷ []) []);
  from =
      record {
        group = codes "gateway.networking.k8s.io";
        kind = codes "HTTPRoute";
        namespace = gateway_namespace;
      }
      ∷ [];
  to = record { group = []; kind = codes "Service"; name = backend.name } ∷ [];
}

pub record ParentReference : Type 0 where
  pub name : Text
  pub namespace : Option Text
  pub section_name : Option Text

pub record HttpRouteMatch : Type 0 where
  pub path : Option HttpPathMatch
  pub headers : List HttpHeaderMatch
  pub query_params : List HttpQueryParamMatch

pub record HttpBackendRef : Type 0 where
  pub name : Text
  pub namespace : Text
  pub port : ℕ
  pub weight : Option ℕ

pub record HttpRouteRule : Type 0 where
  pub matches : List HttpRouteMatch
  pub backend_refs : List HttpBackendRef

pub record HttpRoute : Type 0 where
  pub labels : Option (Dict Text)
  pub parent_refs : List ParentReference
  pub hostnames : List Text
  pub rules : List HttpRouteRule

abbrev pub has_path : Option HttpPathMatch → Bool
has_path none = false
has_path (some p) = true

-- `buildMatches`, whose loops copy a match field by field into the type of the same name.
unfoldable pub build_matches : RouteSpec → List HttpRouteMatch
build_matches spec =
    if has_path spec.path_match
      || not (is_empty spec.header_matches)
      || not (is_empty spec.query_param_matches)
    then record {
      path = spec.path_match;
      headers = spec.header_matches;
      query_params = spec.query_param_matches;
    }
      ∷ []
    else []

abbrev pub parent_of : CellRouter → Text → Option Text → ParentReference
parent_of router gateway_namespace section_name = record {
  name = router.spec.gateway.name;
  namespace = some gateway_namespace;
  section_name = section_name;
}

abbrev pub parent_refs_of : CellRouter → Text → List Text → List ParentReference
parent_refs_of router gateway_namespace [] = parent_of router gateway_namespace none ∷ []
parent_refs_of router gateway_namespace (l ∷ listeners) =
    map (λ listener. parent_of router gateway_namespace (some listener)) (l ∷ listeners)

abbrev pub backend_ref_of : BackendTarget → HttpBackendRef
backend_ref_of backend = record {
  name = backend.name;
  namespace = backend.namespace;
  port = backend.port;
  weight = backend.weight;
}

-- `if placementName != "" { labels[...] = placementName }`.
abbrev pub placement_labels : Text → Dict Text → Dict Text
unfolding insert
placement_labels [] labels = labels
placement_labels (c ∷ name) labels = insert placement_name_label (c ∷ name) labels

-- `MutateHTTPRoute`.
unfoldable pub mutate_http_route :
    HttpRoute → CellRouter → RouteSpec → Text → List BackendTarget → Text → HttpRoute
unfolding merge build_matches placement_labels
mutate_http_route route router spec gateway_namespace backends placement_name = record {
  labels = some (
      merge route.labels
        (placement_labels placement_name (
          (managed_by_label, operator_name)
          ∷ (router_name_label, router.name)
          ∷ (cell_name_label, spec.cell_ref)
          ∷ []))
        []);
  parent_refs = parent_refs_of router gateway_namespace spec.listener_names;
  hostnames = spec.hostnames;
  rules = record { matches = build_matches spec; backend_refs = map backend_ref_of backends } ∷ [];
}
