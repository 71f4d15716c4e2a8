-- ===== src/Machinery/Conditions.antt =====
-- A condition that was just set.
use cell_router_operator.Base.{◌≡◌, ◌∙◌, sym, ap, List, some, arith}
use cell_router_operator.Api.Meta.{Condition, status_true}
use cell_router_operator.Backends.Resolved.{IsTrue}
use cell_router_operator.Machinery.{Machinery, MachineryLaws}

-- A condition that is true after it was set was set to true.
pub IsTrue-set_condition :
    (api : Machinery) (conditions : List Condition) (c : Condition)
    → MachineryLaws api
    → IsTrue (api.find_condition (api.set_condition conditions c) c.kind)
    → c.status ≡ status_true
IsTrue-set_condition api conditions c laws (d, there, holds) =
    let (found, here, same, why) = laws.find_set_same conditions c in
    let one : some found ≡ some d = sym here ∙ there in
    let equal : found ≡ d = ground arith in
    sym same ∙ (ap (λ (e : Condition). e.status) equal ∙ holds)

-- A condition that was set to true is true.
pub set_condition-IsTrue :
    (api : Machinery) (conditions : List Condition) (c : Condition)
    → MachineryLaws api
    → c.status ≡ status_true
    → IsTrue (api.find_condition (api.set_condition conditions c) c.kind)
set_condition-IsTrue api conditions c laws holds =
    let (found, here, same, why) = laws.find_set_same conditions c in (found, here, same ∙ holds)
