-- ===== src/Api/Meta.antt =====
-- What the operator reads and writes of `metav1.Condition`, and the text of a string type.
use cell_router_operator.Base.{ℕ, Text}

-- `metav1.ConditionStatus`, a string type.
pub data ConditionStatus : Type 0 where
  status_true status_false : ConditionStatus
  status_other : Text → ConditionStatus

-- A time is a number of seconds, and a generation only a number that is copied.
pub record Condition : Type 0 where
  pub kind : Text
  pub status : ConditionStatus
  pub reason : Text
  pub message : Text
  pub observed_generation : ℕ
  pub last_transition_time : ℕ
