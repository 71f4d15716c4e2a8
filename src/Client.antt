-- ===== src/Client.antt =====
-- The API server as the controllers of internal/controller call it, through controller-runtime's
-- client. A reconciliation is a tree of requests, and every answer of the server is one of its
-- branches: what other clients do to the cluster in between is in the answers.
pub mod Runs
pub mod Written
use cell_router_operator.Base.{◌≡◌, refl, ℕ, Bool, Option, List, Text, Dict}
use cell_router_operator.Errors.{Error}
use cell_router_operator.Api.Cell.{Cell}
use cell_router_operator.Api.Placement.{Placement}
use cell_router_operator.Api.Router.{CellRouter}
use cell_router_operator.CellBuilder.{Metadata, Service, ResourceQuota, LimitRange, NetworkPolicy}
use cell_router_operator.RouteBuilder.{Gateway, ReferenceGrant, HttpRoute}
use cell_router_operator.RouteStatus.{RouteParentStatus}

pub data Kind : Type 0 where
  namespace_kind service_kind resource_quota_kind limit_range_kind network_policy_kind : Kind
  gateway_kind http_route_kind reference_grant_kind : Kind

-- What the operator reads of an object that it may delete; `controller` is the UID of the owner
-- reference that is the controller's. The namespace of a cluster-scoped object is empty.
pub record Header : Type 0 where
  pub namespace : Text
  pub name : Text
  pub labels : Dict Text
  pub controller : Option Text

-- The function that `controllerutil.CreateOrUpdate` is given, by the type of the object.
pub data Change : Type 0 where
  change_namespace : (Metadata → Metadata) → Change
  change_service : (Service → Service) → Change
  change_quota : (ResourceQuota → ResourceQuota) → Change
  change_limit_range : (LimitRange → LimitRange) → Change
  change_network_policy : (NetworkPolicy → NetworkPolicy) → Change
  change_gateway_namespace : (Option (Dict Text) → Option (Dict Text)) → Change
  change_gateway : (Gateway → Gateway) → Change
  change_grant : (ReferenceGrant → ReferenceGrant) → Change
  change_route : (HttpRoute → HttpRoute) → Change

-- A call of `controllerutil.CreateOrUpdate`; `controller` is the UID of the object that
-- `controllerutil.SetControllerReference` names, where the function calls it.
pub record Write : Type 0 where
  pub kind : Kind
  pub namespace : Text
  pub name : Text
  pub change : Change
  pub controller : Option Text

pub record Endpoint : Type 0 where
  pub ready : Option Bool
  pub addresses : List Text

pub record EndpointSlice : Type 0 where
  pub namespace : Text
  pub labels : Dict Text
  pub endpoints : List Endpoint

-- What the server answers, or the text of the error.
pub data Reply {ℓ} (A : Type ℓ) : Type ℓ where
  reply : A → Reply A
  failed : Text → Reply A

-- A list of the objects with given labels is of one namespace, or of all (`none`). A patch has the
-- object before the change, and after it.
pub data Request : Type 0 where
  get_cell get_router : Text → Request
  get_object : Kind → Text → Text → Request
  list_cells list_routers list_placements : Request
  list_endpoint_slices : Text → Text → Request
  list_objects : Kind → Option Text → Dict Text → Request
  write_object : Write → Request
  delete_object : Kind → Header → Request
  patch_cell patch_cell_status : Cell → Cell → Request
  patch_router patch_router_status : CellRouter → CellRouter → Request
  patch_placement_status : Placement → Placement → Request

-- `none` stands for NotFound. A write answers with the status of an HTTPRoute's parents, and with
-- the empty list for another object; a deletion with whether the object was there; a patch with
-- the object as the server has it.
abbrev pub Response : Request → Type 0
Response (get_cell name) = Reply (Option Cell)
Response (get_router name) = Reply (Option CellRouter)
Response (get_object kind namespace name) = Reply (Option Header)
Response list_cells = Reply (List Cell)
Response list_routers = Reply (List CellRouter)
Response list_placements = Reply (List Placement)
Response (list_endpoint_slices namespace service) = Reply (List EndpointSlice)
Response (list_objects kind namespace labels) = Reply (List Header)
Response (write_object w) = Reply (List RouteParentStatus)
Response (delete_object kind h) = Reply Bool
Response (patch_cell before after) = Reply Cell
Response (patch_cell_status before after) = Reply (Unit {0})
Response (patch_router before after) = Reply CellRouter
Response (patch_router_status before after) = Reply (Unit {0})
Response (patch_placement_status before after) = Reply (Unit {0})

-- The errors that a reconciliation returns: the server's, those of the route plans, and that of
-- `reconcileGatewayNamespace`.
pub data Failure : Type 0 where
  client_error : Text → Failure
  plan_error : Error → Failure
  gateway_namespace_required : Failure

-- How a function ends: `crashed` stands for a panic.
pub data Outcome {ℓ} (A : Type ℓ) : Type ℓ where
  finished : A → Outcome A
  failing : Failure → Outcome A
  crashed : Outcome A

pub data Program {ℓ} (A : Type ℓ) : Type ℓ where
  end : Outcome A → Program A
  ask : (q : Request) → (Response q → Program A) → Program A

abbrev pub done {ℓ} : {A : Type ℓ} → A → Program A
done a = end (finished a)

abbrev pub fail {ℓ} : {A : Type ℓ} → Failure → Program A
fail f = end (failing f)

-- `if err := m; err != nil { on_failure }` before the rest, which has the value; a panic ends both.
abbrev pub attempt {ℓ κ} :
    {A : Type ℓ} {B : Type κ} → Program A → (Failure → Program B) → (A → Program B) → Program B
attempt (end (finished a)) on_failure rest = rest a
attempt (end (failing f)) on_failure rest = on_failure f
attempt (end crashed) on_failure rest = end crashed
attempt (ask q k) on_failure rest = ask q (λ r. attempt (k r) on_failure rest)

infixl 5 ◌>>=◌ ◌>>◌
-- `if err := m; err != nil { return err }`.
abbrev pub ◌>>=◌ {ℓ κ} : {A : Type ℓ} {B : Type κ} → Program A → (A → Program B) → Program B
m >>= rest = attempt m fail rest

abbrev pub ◌>>◌ {ℓ κ} : {A : Type ℓ} {B : Type κ} → Program A → Program B → Program B
m >> rest = m >>= λ _. rest

-- A reply, with its error as the function's.
abbrev pub from_reply {ℓ} : {A : Type ℓ} → Reply A → Program A
from_reply (reply a) = done a
from_reply (failed text) = fail (client_error text)

-- A call whose value is not used.
abbrev pub void_reply {ℓ} : {A : Type ℓ} → Reply A → Program (Unit {0})
void_reply (reply a) = done tt
void_reply (failed text) = fail (client_error text)

-- `client.IgnoreNotFound(r.Delete(ctx, object))`.
abbrev pub delete_found : Kind → Header → Program (Unit {0})
delete_found kind h = ask (delete_object kind h) void_reply

-- How a program ends against a server whose answers do not change.
abbrev pub outcome_of {ℓ} : {A : Type ℓ} → ((q : Request) → Response q) → Program A → Outcome A
outcome_of server (end o) = o
outcome_of server (ask q k) = outcome_of server (k (server q))

abbrev pub then_outcome {ℓ κ} : {A : Type ℓ} {B : Type κ} → Outcome A → (A → Outcome B) → Outcome B
then_outcome (finished a) rest = rest a
then_outcome (failing f) rest = failing f
then_outcome crashed rest = crashed

pub outcome_of->>= {ℓ κ} :
    {A : Type ℓ} {B : Type κ} (server : (q : Request) → Response q) (m : Program A)
    (rest : A → Program B)
    → outcome_of server (m >>= rest)
      ≡ then_outcome (outcome_of server m) (λ a. outcome_of server (rest a))
outcome_of->>= server (end (finished a)) rest = refl
outcome_of->>= server (end (failing f)) rest = refl
outcome_of->>= server (end crashed) rest = refl
outcome_of->>= server (ask q k) rest = outcome_of->>= server (k (server q)) rest
