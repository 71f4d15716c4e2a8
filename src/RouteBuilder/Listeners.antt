-- ===== src/RouteBuilder/Listeners.antt =====
-- The order of the gateway's listeners.
use cell_router_operator.Base.{
  ◌≡◌, refl, ◌∙◌, Bool, true, List, [], ◌∷◌, arith, if◌then◌else◌, all, ◌&&◌, Text, text_eq,
  text_le, text_eq_iff, text_le_refl, text_le_total, text_le_trans,
}
use cell_router_operator.Api.Router.{CellGatewayListener, CellRouter}
use cell_router_operator.RouteBuilder.{insert_listener, sort_listeners, Gateway, mutate_gateway}

-- Every listener's name is at most those of the later ones.
unfoldable pub is_sorted : List CellGatewayListener → Bool
is_sorted [] = true
is_sorted (x ∷ xs) = all (λ y. text_le x.name y.name) xs && is_sorted xs

-- The listeners with a name, in order.
unfoldable pub listeners_named : Text → List CellGatewayListener → List CellGatewayListener
listeners_named name [] = []
listeners_named name (x ∷ xs) =
    let rest = listeners_named name xs in if text_eq x.name name then x ∷ rest else rest

all_trans :
    (a b : Text) (l : List CellGatewayListener)
    → text_le a b ≡ true
    → all (λ y. text_le b y.name) l ≡ true
    → all (λ y. text_le a y.name) l ≡ true
all_trans a b [] h k = refl
all_trans a b (y ∷ l) h k = ground (arith, all_trans a b l, text_le_trans a b y.name)

all-insert_listener :
    (a : Text) (x : CellGatewayListener) (l : List CellGatewayListener)
    → all (λ y. text_le a y.name) (insert_listener x l)
      ≡ (text_le a x.name && all (λ y. text_le a y.name) l)
unfolding insert_listener
all-insert_listener a x [] = refl
all-insert_listener a x (y ∷ l) = ground (arith, all-insert_listener a x l)

insert_listener-is_sorted :
    (x : CellGatewayListener) (l : List CellGatewayListener)
    → is_sorted l ≡ true
    → is_sorted (insert_listener x l) ≡ true
unfolding insert_listener is_sorted
insert_listener-is_sorted x [] h = refl
insert_listener-is_sorted x (y ∷ l) h = ground (
  arith,
  insert_listener-is_sorted x l,
  all-insert_listener y.name x l,
  all_trans x.name y.name l,
  text_le_total x.name y.name,
)

sort_listeners-is_sorted : (l : List CellGatewayListener) → is_sorted (sort_listeners l) ≡ true
unfolding sort_listeners is_sorted
sort_listeners-is_sorted [] = refl
sort_listeners-is_sorted (x ∷ l) =
    insert_listener-is_sorted x (sort_listeners l) (sort_listeners-is_sorted l)

insert_listener-named :
    (name : Text) (x : CellGatewayListener) (l : List CellGatewayListener)
    → listeners_named name (insert_listener x l) ≡ listeners_named name (x ∷ l)
unfolding insert_listener listeners_named
insert_listener-named name x [] = refl
insert_listener-named name x (y ∷ l) = ground (
  arith,
  insert_listener-named name x l,
  text_eq_iff x.name name,
  text_eq_iff y.name name,
  text_le_refl x.name,
)

sort_listeners-named :
    (name : Text) (l : List CellGatewayListener)
    → listeners_named name (sort_listeners l) ≡ listeners_named name l
unfolding sort_listeners listeners_named
sort_listeners-named name [] = refl
sort_listeners-named name (x ∷ l) =
    insert_listener-named name x (sort_listeners l) ∙ rw (sort_listeners-named name l) refl

-- The gateway's listeners stand in the order of their names, and those of any one name are the
-- listeners of the specification with that name, in the order they have there.
pub mutate_gateway-listeners :
    (gw : Gateway) (router : CellRouter) (name : Text)
    → (is_sorted (mutate_gateway gw router).listeners ≡ true)
      × (listeners_named name (mutate_gateway gw router).listeners
          ≡ listeners_named name router.spec.gateway.listeners)
unfolding mutate_gateway
mutate_gateway-listeners gw router name = (
  sort_listeners-is_sorted router.spec.gateway.listeners,
  sort_listeners-named name router.spec.gateway.listeners,
)
