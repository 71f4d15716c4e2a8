-- ===== src/Examples/Machines.antt =====
-- Functions that do what the controllers rely on, and a server.
use cell_router_operator.Base.{
  ◌≡◌, refl, sym, ap, ◌∙◌, Bool, true, false, Option, none, some, List, [], ◌∷◌, ◌++◌, any,
  if◌then◌else◌, Text, codes, text_eq, text_eq_iff, text_eq_refl, Bool-cases, inl, inr, arith,
}
use cell_router_operator.Api.Meta.{Condition}
use cell_router_operator.Api.Cell.{draining, other_state}
use cell_router_operator.Client.{
  EndpointSlice, Request, Response, reply, get_cell, get_router, get_object, list_cells,
  list_routers, list_placements, list_endpoint_slices, list_objects, write_object, delete_object,
  patch_cell, patch_cell_status, patch_router, patch_router_status, patch_placement_status,
}
use cell_router_operator.Machinery.{Machinery, MachineryLaws}
use cell_router_operator.Examples.Data.{find_condition, cell_in, main_router, users}

unfoldable pub set_condition : List Condition → Condition → List Condition
unfolding text_eq
set_condition [] c = c ∷ []
set_condition (d ∷ rest) c =
    let later = set_condition rest c in if text_eq d.kind c.kind then c ∷ rest else d ∷ later

unfoldable pub drop_text : List Text → Text → List Text
unfolding text_eq
drop_text [] t = []
drop_text (s ∷ rest) t = let later = drop_text rest t in if text_eq s t then later else s ∷ later

abbrev pub is_owned : Option Text → Text → Bool
is_owned none uid = false
is_owned (some owner) uid = text_eq owner uid

abbrev pub machines : Machinery
machines = record {
  find_condition = find_condition;
  set_condition = set_condition;
  contains_finalizer = λ finalizers f. any (λ g. text_eq g f) finalizers;
  add_finalizer = λ finalizers f. finalizers ++ f ∷ [];
  remove_finalizer = drop_text;
  is_controlled_by = λ h uid. is_owned h.controller uid;
  quote = λ t. codes "'" ++ (t ++ codes "'");
  error_text = λ e. codes "invalid";
}

find_set_same :
    (conditions : List Condition) (c : Condition)
    → find_condition (set_condition conditions c) c.kind ≡ some c
unfolding find_condition set_condition
find_set_same [] c = rw (text_eq_refl c.kind) refl
find_set_same (d ∷ rest) c = elim (Bool-cases (text_eq d.kind c.kind)) [
  | inl same ↦ rw same (rw (text_eq_refl c.kind) refl)
  | inr other ↦ rw (other, find_condition) (rw other (find_set_same rest c))
]

find_set_other :
    (conditions : List Condition) (c : Condition) (kind : Text)
    → text_eq c.kind kind ≡ false
    → find_condition (set_condition conditions c) kind ≡ find_condition conditions kind
unfolding find_condition set_condition
find_set_other [] c kind differ = rw differ refl
find_set_other (d ∷ rest) c kind differ = elim (Bool-cases (text_eq d.kind c.kind)) [
  | inl same ↦
      let one : d.kind ≡ c.kind = (text_eq_iff d.kind c.kind).0 same in
      let gone : text_eq d.kind kind ≡ false = ap (λ (t : Text). text_eq t kind) one ∙ differ in
      rw same (rw (gone, differ) refl)
  | inr other ↦ rw other (ground (arith, find_set_other rest c kind differ))
]

pub machines-laws : MachineryLaws machines
machines-laws = record {
  find_set_same = λ conditions c. (c, find_set_same conditions c, refl, refl);
  find_set_other = λ conditions c kind differ.
      find_set_other conditions c kind (elim (Bool-cases (text_eq c.kind kind)) [
        | inr other ↦ other
        | inl same ↦ absurd (differ (sym ((text_eq_iff c.kind kind).0 same)))
      ]);
}

abbrev pub slice_of_a : EndpointSlice
slice_of_a = record {
  namespace = codes "a";
  labels = (codes "kubernetes.io/service-name", codes "web") ∷ [];
  endpoints =
      record { ready = some true; addresses = codes "10.0.0.1" ∷ codes "10.0.0.2" ∷ [] }
      ∷ record { ready = some false; addresses = codes "10.0.0.3" ∷ [] }
      ∷ record { ready = none; addresses = codes "10.0.0.4" ∷ [] }
      ∷ [];
}

-- A server with the cells `a` and `b`, the placement `users`, endpoints of cell `a`, and gateways
-- that have not accepted a route.
unfoldable pub server : (q : Request) → Response q
unfolding text_eq
server (get_cell name) =
    if text_eq name (codes "a")
    then reply (some (cell_in (codes "a") (other_state [])))
    else if text_eq name (codes "b")
    then reply (some (cell_in (codes "b") draining))
    else reply none
server (get_router name) = reply (some main_router)
server (get_object kind namespace name) = reply none
server list_cells = reply (cell_in (codes "b") draining ∷ cell_in (codes "a") (other_state []) ∷ [])
server list_routers = reply (main_router ∷ [])
server list_placements = reply (users ∷ [])
server (list_endpoint_slices namespace service) =
    if text_eq namespace (codes "a") then reply (slice_of_a ∷ []) else reply []
server (list_objects kind namespace labels) = reply []
server (write_object w) = reply []
server (delete_object kind h) = reply true
server (patch_cell before after) = reply after
server (patch_cell_status before after) = reply tt
server (patch_router before after) = reply after
server (patch_router_status before after) = reply tt
server (patch_placement_status before after) = reply tt
