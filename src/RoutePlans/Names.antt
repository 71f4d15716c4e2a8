-- ===== src/RoutePlans/Names.antt =====
-- Which plans there are.
use cell_router_operator.Base.{
  ◌≡◌, ◌⊎◌, refl, sym, ap, ◌∙◌, true, false, ◌||◌, Option, none, List, [], ◌∷◌, ◌++◌, map, arith,
  inl, inr, Bool-cases, Text, text_eq, text_eq_iff, text_eq_refl, lookup, insert, lookup-insert,
  if◌then◌else◌,
}
use mathlib.Core.Bool.{false≢true}
use cell_router_operator.Errors.{
  Result, ok, ◌>>=◌, reject_if, >>=-eq-ok, InvalidReason, duplicate_route, conflicting_placement,
}
use cell_router_operator.Api.Placement.{Placement}
use cell_router_operator.Api.Router.{RouteSpec, CellRouter}
use cell_router_operator.Overlap.{Conflicts, validate_placement_overlaps}
use cell_router_operator.Overlap.Conflicts.{is_named}
use cell_router_operator.RoutePlans.{
  RoutePlan, is_seen, static_plans, placement_plan, Planned, planned, refused, plan_of,
  placement_plans, build_route_plans,
}

-- The names of the placements without an entry in `invalidPlacements`, in order.
unfoldable pub valid_names : Conflicts → List Placement → List Text
valid_names invalid [] = []
valid_names invalid (p ∷ rest) =
    let later = valid_names invalid rest in
    if is_named p.name invalid then later else p.name ∷ later

abbrev pub plan_names : List RoutePlan → List Text
plan_names = map (λ (p : RoutePlan). p.name)

abbrev pub route_names : List RouteSpec → List Text
route_names = map (λ (r : RouteSpec). r.name)

map-append {ℓ κ} :
    {A : Type ℓ} {B : Type κ} (f : A → B) (xs ys : List A) → map f (xs ++ ys) ≡ map f xs ++ map f ys
map-append f [] ys = refl
map-append f (x ∷ xs) ys = ap (λ l. f x ∷ l) (map-append f xs ys)

static_plans-names :
    (seen : List Text) (routes : List RouteSpec) (plans : List RoutePlan) (seen' : List Text)
    → static_plans seen routes ≡ ok (plans, seen')
    → plan_names plans ≡ route_names routes
unfolding static_plans
static_plans-names seen [] plans seen' h =
    let same : plans ≡ [] = ground arith in ap plan_names same
static_plans-names seen (r ∷ rest) plans seen' h =
    let (u, fresh, h1) = >>=-eq-ok (reject_if (is_seen r.name seen) (duplicate_route r.name)) _ h in
    let ((plans1, seen1), made, h2) = >>=-eq-ok (static_plans (r.name ∷ seen) rest) _ h1 in
    let first : plans
        ≡ record { name = r.name; spec = r; placement = none; placement_ref = [] } ∷ plans1 =
      ground arith in
    rw first (ap (λ l. r.name ∷ l) (static_plans-names (r.name ∷ seen) rest plans1 seen1 made))

named-insert :
    (name k : Text) (reason : InvalidReason) (m : Conflicts)
    → is_named k (insert name reason m) ≡ (text_eq name k || is_named k m)
unfolding is_named
named-insert name k reason m = rw (lookup-insert name k reason m) (ground arith)

seen_now : (n : Text) (seen : List Text) → is_seen n (n ∷ seen) ≡ true
unfolding is_seen
seen_now n seen = rw (text_eq_refl n) refl

module _ (subexp_names : Text → Option (List Text)) where
  plan_of-planned :
      (name : Text) (invalid : Conflicts) (p : Placement) (spec : RouteSpec)
      → plan_of subexp_names (lookup name invalid) p ≡ ok (planned spec)
      → is_named name invalid ≡ false
  unfolding plan_of is_named
  plan_of-planned name invalid p spec h = ground arith

  -- One round of the loop.
  pub record Round (seen : List Text) (invalid : Conflicts) (p : Placement) (rest : List Placement)
      (plans : List RoutePlan) (invalid' : Conflicts) : Type 0 where
    pub fresh : is_seen p.name seen ≡ false
    pub outcome :
        ((spec : RouteSpec) × (plans1 : List RoutePlan) × (is_named p.name invalid ≡ false)
          × (plans ≡ placement_plan p spec ∷ plans1)
          × (placement_plans subexp_names (p.name ∷ seen) invalid rest ≡ ok (plans1, invalid')))
        ⊎ ((reason : InvalidReason) × (placement_plans subexp_names
                (p.name ∷ seen)
                (insert p.name reason invalid)
                rest
              ≡ ok (plans, invalid')))

  pub Round-of_ok :
      (seen : List Text) (invalid : Conflicts) (p : Placement) (rest : List Placement)
      (plans : List RoutePlan) (invalid' : Conflicts)
      → placement_plans subexp_names seen invalid (p ∷ rest) ≡ ok (plans, invalid')
      → Round seen invalid p rest plans invalid'
  unfolding placement_plans
  Round-of_ok seen invalid p rest plans invalid' h =
      let (u, fresh, h1) =
        >>=-eq-ok (reject_if (is_seen p.name seen) (conflicting_placement p.name)) _ h in
      let (plan, made, h2) = >>=-eq-ok (plan_of subexp_names (lookup p.name invalid) p) _ h1 in
      record { fresh = ground arith; outcome = go plan made h2 }
    where
      go :
          (plan : Planned)
          → plan_of subexp_names (lookup p.name invalid) p ≡ ok plan
          → ◌≡◌ {A = Result (List RoutePlan × Conflicts)}
              (elim plan as (λ _. Result (List RoutePlan × Conflicts)) [
                | planned spec ↦ placement_plans subexp_names (p.name ∷ seen) invalid rest >>= λ r.
                    ok (placement_plan p spec ∷ r.0, r.1)
                | refused reason ↦
                    placement_plans subexp_names (p.name ∷ seen) (insert p.name reason invalid) rest
              ])
              (ok (plans, invalid'))
          → ((spec : RouteSpec) × (plans1 : List RoutePlan) × (is_named p.name invalid ≡ false)
              × (plans ≡ placement_plan p spec ∷ plans1)
              × (placement_plans subexp_names (p.name ∷ seen) invalid rest ≡ ok (plans1, invalid')))
            ⊎ ((reason : InvalidReason) × (placement_plans subexp_names
                    (p.name ∷ seen)
                    (insert p.name reason invalid)
                    rest
                  ≡ ok (plans, invalid')))
      go (planned spec) made h2 =
          let ((plans1, invalid1), later, h3) =
            >>=-eq-ok (placement_plans subexp_names (p.name ∷ seen) invalid rest) _ h2 in
          inl (spec, plans1, plan_of-planned p.name invalid p spec made, ground arith, ground arith)
      go (refused reason) made h2 = inr (reason, h2)

  -- A name that has been seen keeps its entry, or its lack of one.
  seen_stays :
      (seen : List Text) (invalid : Conflicts) (l : List Placement) (plans : List RoutePlan)
      (invalid' : Conflicts) (k : Text)
      → placement_plans subexp_names seen invalid l ≡ ok (plans, invalid')
      → is_seen k seen ≡ true
      → is_named k invalid' ≡ is_named k invalid
  unfolding placement_plans is_seen
  seen_stays seen invalid [] plans invalid' k h s = ground arith
  seen_stays seen invalid (p ∷ rest) plans invalid' k h s =
      let r = Round-of_ok seen invalid p rest plans invalid' h in
      let other : text_eq p.name k ≡ false = apart p.name (Bool-cases (text_eq p.name k)) r.fresh in
      let again : is_seen k (p.name ∷ seen) ≡ true = rw other s in
      elim r.outcome [
        | inl (spec, plans1, valid, first, later) ↦
            seen_stays (p.name ∷ seen) invalid rest plans1 invalid' k later again
        | inr (reason, later) ↦
            seen_stays (p.name ∷ seen) (insert p.name reason invalid) rest plans invalid' k later
              again
            ∙ named-insert p.name k reason invalid
            ∙ rw other refl
      ]
    where
      apart :
          (n : Text)
          → (text_eq n k ≡ true) ⊎ (text_eq n k ≡ false)
          → is_seen n seen ≡ false
          → text_eq n k ≡ false
      apart n (inl same) fresh =
          absurd (false≢true (sym (rw ((text_eq_iff n k).0 same) at fresh) ∙ s))
      apart n (inr other) fresh = other

  placement_plans-names :
      (seen : List Text) (invalid : Conflicts) (l : List Placement) (plans : List RoutePlan)
      (invalid' : Conflicts)
      → placement_plans subexp_names seen invalid l ≡ ok (plans, invalid')
      → plan_names plans ≡ valid_names invalid' l
  unfolding placement_plans valid_names
  placement_plans-names seen invalid [] [] invalid' h = refl
  placement_plans-names seen invalid [] (q ∷ plans) invalid' h = ground arith
  placement_plans-names seen invalid (p ∷ rest) plans invalid' h =
      let r = Round-of_ok seen invalid p rest plans invalid' h in
      elim r.outcome [
        | inl (spec, plans1, valid, first, later) ↦
            let stays =
              seen_stays (p.name ∷ seen) invalid rest plans1 invalid' p.name later
                (seen_now p.name seen) in
            rw (first, stays, valid)
              (ap (λ l. p.name ∷ l)
                (placement_plans-names (p.name ∷ seen) invalid rest plans1 invalid' later))
        | inr (reason, later) ↦
            let stays =
              seen_stays (p.name ∷ seen) (insert p.name reason invalid) rest plans invalid' p.name
                later (seen_now p.name seen) in
            let entered : is_named p.name invalid' ≡ true =
              stays ∙ named-insert p.name p.name reason invalid ∙ rw (text_eq_refl p.name) refl in
            rw entered (
              placement_plans-names (p.name ∷ seen) (insert p.name reason invalid) rest plans
                invalid' later)
      ]

  -- When buildRoutePlans returns plans, their names are those of the router's routes, in order,
  -- and then those of the placements whose names have no entry among the invalid placements, in
  -- order.
  pub build_route_plans-names :
      (router : CellRouter) (placements : List Placement) (plans : List RoutePlan)
      (invalid : Conflicts)
      → build_route_plans subexp_names router placements ≡ ok (plans, invalid)
      → plan_names plans ≡ route_names router.spec.routes ++ valid_names invalid placements
  unfolding build_route_plans
  build_route_plans-names router placements plans invalid h =
      let (overlaps, found, h1) = >>=-eq-ok (validate_placement_overlaps placements) _ h in
      let ((static, seen), made, h2) = >>=-eq-ok (static_plans [] router.spec.routes) _ h1 in
      let ((later, invalid1), all_planned, h3) =
        >>=-eq-ok (placement_plans subexp_names seen overlaps placements) _ h2 in
      let whole : plans ≡ static ++ later = ground arith in
      let same : invalid1 ≡ invalid = ground arith in
      rw (whole, ← same)
        (map-append (λ (p : RoutePlan). p.name) static later
          ∙ rw
              (
                static_plans-names [] router.spec.routes static seen made,
                placement_plans-names seen overlaps placements later invalid1 all_planned,
              )
              refl)
