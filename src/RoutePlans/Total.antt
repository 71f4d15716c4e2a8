-- ===== src/RoutePlans/Total.antt =====
-- When the plans of a router are made.
use cell_router_operator.Base.{
  ◌≡◌, ◌≢◌, refl, ◌∙◌, Bool, true, false, not, ◌&&◌, Option, none, some, List, [], ◌∷◌, ◌++◌, map,
  arith, any, all, All, Text, text_eq, lookup, insert,
}
use cell_router_operator.Errors.{
  Error, Result, ok, err, panic, ◌>>=◌, reject_if, Succeeds, >>=-Succeeds, InvalidReason,
  invalid_placement, conflicting_placement,
}
use cell_router_operator.Api.Placement.{Placement}
use cell_router_operator.Api.Router.{RouteSpec, CellRouter}
use cell_router_operator.Compiler.{route_spec_from_placement}
use cell_router_operator.Compiler.Total.{route_spec_from_placement-ne-panic}
use cell_router_operator.Overlap.{Conflicts, validate_placement_overlaps}
use cell_router_operator.Overlap.Total.{CarryRanges, validate_placement_overlaps-Succeeds}
use cell_router_operator.RoutePlans.{
  RoutePlan, is_seen, static_plans, placement_plan, Planned, planned, refused, plan_of,
  placement_plans, build_route_plans,
}
use cell_router_operator.RoutePlans.Names.{route_names}

-- No text stands twice in the list.
unfoldable pub is_distinct : List Text → Bool
unfolding text_eq
is_distinct [] = true
is_distinct (n ∷ ns) = not (any (λ m. text_eq n m) ns) && is_distinct ns

-- The loops' check of a list of names, after those seen.
unfoldable pub are_new : List Text → List Text → Bool
unfolding is_seen
are_new seen [] = true
are_new seen (n ∷ ns) = not (is_seen n seen) && are_new (n ∷ seen) ns

none_seen-cons :
    (n : Text) (seen ns : List Text)
    → all (λ m. not (is_seen m (n ∷ seen))) ns
      ≡ (not (any (λ m. text_eq n m) ns) && all (λ m. not (is_seen m seen)) ns)
unfolding is_seen
none_seen-cons n seen [] = refl
none_seen-cons n seen (m ∷ ns) = ground (arith, none_seen-cons n seen ns)

pub are_new-eq :
    (seen ns : List Text) → are_new seen ns ≡ (all (λ m. not (is_seen m seen)) ns && is_distinct ns)
unfolding are_new is_distinct
are_new-eq seen [] = refl
are_new-eq seen (n ∷ ns) = ground (arith, are_new-eq (n ∷ seen) ns, none_seen-cons n seen ns)

pub none_seen-nil : (ns : List Text) → all (λ m. not (is_seen m [])) ns ≡ true
unfolding is_seen
none_seen-nil [] = refl
none_seen-nil (n ∷ ns) = none_seen-nil ns

abbrev pub placement_names : List Placement → List Text
placement_names = map (λ (p : Placement). p.name)

reject_if-passes : (b : Bool) (e : Error) → b ≡ false → reject_if b e ≡ ok tt
reject_if-passes b e h = rw h refl

static_plans-new :
    (seen : List Text) (routes : List RouteSpec) (ns : List Text)
    → are_new seen (route_names routes ++ ns) ≡ true
    → (r : List RoutePlan × List Text) × (static_plans seen routes ≡ ok r) × (are_new r.1 ns ≡ true)
unfolding static_plans are_new
static_plans-new seen [] ns h = (([], seen), refl, h)
static_plans-new seen (r ∷ rest) ns h =
    let fresh : is_seen r.name seen ≡ false = ground arith in
    let (later, made, new) = static_plans-new (r.name ∷ seen) rest ns (ground arith) in
    (
      (record { name = r.name; spec = r; placement = none; placement_ref = [] } ∷ later.0, later.1),
      rw (fresh, made) refl,
      new,
    )

module _ (subexp_names : Text → Option (List Text)) where
  plan_of-Succeeds :
      (o : Option InvalidReason) (p : Placement) → Succeeds (plan_of subexp_names o p)
  unfolding plan_of
  plan_of-Succeeds (some reason) p = (refused reason, refl)
  plan_of-Succeeds none p =
      go (route_spec_from_placement subexp_names p)
        (route_spec_from_placement-ne-panic subexp_names p)
    where
      go :
          (r : Result RouteSpec)
          → r ≢ panic
          → Succeeds (elim r as (λ _. Result Planned) [
            | ok spec ↦ ok (planned spec)
            | err e ↦ ok (refused (invalid_placement e))
            | panic ↦ panic
          ])
      go (ok spec) h = (_, refl)
      go (err e) h = (_, refl)
      go panic h = absurd (h refl)

  outcome :
      (seen : List Text) (invalid : Conflicts) (p : Placement) (rest : List Placement)
      → ((invalid' : Conflicts)
          → Succeeds (placement_plans subexp_names (p.name ∷ seen) invalid' rest))
      → (plan : Planned)
      → Succeeds (elim plan as (λ _. Result (List RoutePlan × Conflicts)) [
        | planned spec ↦ placement_plans subexp_names (p.name ∷ seen) invalid rest >>= λ r.
            ok (placement_plan p spec ∷ r.0, r.1)
        | refused reason ↦
            placement_plans subexp_names (p.name ∷ seen) (insert p.name reason invalid) rest
      ])
  outcome seen invalid p rest later (planned spec) =
      >>=-Succeeds (placement_plans subexp_names (p.name ∷ seen) invalid rest) _ (later invalid)
        (λ r. (_, refl))
  outcome seen invalid p rest later (refused reason) = later (insert p.name reason invalid)

  placement_plans-Succeeds :
      (seen : List Text) (invalid : Conflicts) (l : List Placement)
      → are_new seen (placement_names l) ≡ true
      → Succeeds (placement_plans subexp_names seen invalid l)
  unfolding placement_plans are_new
  placement_plans-Succeeds seen invalid [] h = (_, refl)
  placement_plans-Succeeds seen invalid (p ∷ rest) h =
      let fresh : is_seen p.name seen ≡ false = ground arith in
      >>=-Succeeds (reject_if (is_seen p.name seen) (conflicting_placement p.name)) _
        (tt, reject_if-passes (is_seen p.name seen) (conflicting_placement p.name) fresh)
        (λ _.
          >>=-Succeeds (plan_of subexp_names (lookup p.name invalid) p) _
            (plan_of-Succeeds (lookup p.name invalid) p)
            (outcome seen invalid p rest
              (λ invalid'. placement_plans-Succeeds (p.name ∷ seen) invalid' rest (ground arith))))

  -- If the names of the router's routes and of the placements are all different, and every range
  -- selector carries its range, buildRoutePlans returns plans, without an error or a panic.
  pub build_route_plans-Succeeds :
      (router : CellRouter) (placements : List Placement)
      → is_distinct (route_names router.spec.routes ++ placement_names placements) ≡ true
      → All (λ (p : Placement). CarryRanges p.spec.selectors) placements
      → Succeeds (build_route_plans subexp_names router placements)
  unfolding build_route_plans
  build_route_plans-Succeeds router placements distinct carry =
      let names = route_names router.spec.routes ++ placement_names placements in
      let new : are_new [] names ≡ true = are_new-eq [] names ∙ rw (none_seen-nil names) distinct in
      let ((static, seen), made, left) =
        static_plans-new [] router.spec.routes (placement_names placements) new in
      >>=-Succeeds (validate_placement_overlaps placements) _
        (validate_placement_overlaps-Succeeds placements carry)
        (λ overlaps.
          let ((plans, invalid), done) = placement_plans-Succeeds seen overlaps placements left in
          ((static ++ plans, invalid), rw (made, done) refl))
