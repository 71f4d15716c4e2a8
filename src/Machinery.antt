-- ===== src/Machinery.antt =====
-- What the controllers call of apimachinery, controller-runtime and strconv.
pub mod Conditions
use cell_router_operator.Base.{◌≡◌, ◌≢◌, Bool, true, false, Option, some, List, Text}
use cell_router_operator.Errors.{Error}
use cell_router_operator.Api.Meta.{Condition}
use cell_router_operator.Client.{Header}

-- `find_condition` and `set_condition` are apimeta's `FindStatusCondition` and
-- `SetStatusCondition`, the next three controllerutil's functions on a list of finalizers,
-- `is_controlled_by` metav1's `IsControlledBy` with the owner's UID, and `quote` is the `%q` of a
-- string. `error_text` is the text of a placement's error: some hold a text of strconv's.
pub record Machinery : Type 0 where
  pub find_condition : List Condition → Text → Option Condition
  pub set_condition : List Condition → Condition → List Condition
  pub contains_finalizer : List Text → Text → Bool
  pub add_finalizer : List Text → Text → List Text
  pub remove_finalizer : List Text → Text → List Text
  pub is_controlled_by : Header → Text → Bool
  pub quote : Text → Text
  pub error_text : Error → Text

-- `SetStatusCondition` sets the condition of its type, and changes no other.
pub record MachineryLaws (api : Machinery) : Type 0 where
  pub find_set_same :
      (conditions : List Condition) (c : Condition)
      → (found : Condition) × (api.find_condition (api.set_condition conditions c) c.kind
          ≡ some found)
        × (found.status ≡ c.status)
        × (found.reason ≡ c.reason)
  pub find_set_other :
      (conditions : List Condition) (c : Condition) (kind : Text)
      → kind ≢ c.kind
      → api.find_condition (api.set_condition conditions c) kind
        ≡ api.find_condition conditions kind
