-- ===== src/Validation/Placements.antt =====
-- `CellPlacementSpec.Validate` accepts exactly the valid specifications.
use cell_router_operator.Base.{
  ℕ, ◌+◌, ◌≡◌, ◌≢◌, ◌↔◌, refl, sym, subst, true, false, Option, List, [], ◌∷◌, arith, Text,
  is_blank, is_empty, any, All, text_eq, text_eq_iff, inl, inr, Bool-cases,
}
use cell_router_operator.Errors.{
  ok, wrap_error, in_selector, duplicate_source, reject_if, >>=-eq-ok,
}
use cell_router_operator.Api.Placement.{
  SelectorSourceType, path_capture, SelectorSource, Selector, PlacementSpec,
}
use cell_router_operator.Validation.{
  validate_selector, validate_selectors, validate_spec, source_key, shared_regex,
}
use cell_router_operator.Validation.Spec.{
  IsValidKind, IsValidSelector, IsFresh, HasDistinctKeys, SharesKind, SharesRegex, IsValid,
}
use cell_router_operator.Validation.Selectors.{validate_selector_iff}

-- The keys of the list are new to `seen`.
abbrev AreFresh : List Text → List Selector → Type 0
AreFresh seen l = All (λ s. IsFresh (source_key s.source) seen) l

-- The path sources share a regular expression, the given one if there is one yet.
abbrev SharesFrom : Text → List Selector → Type 0
SharesFrom [] l = (regex : Text) × All (SharesRegex regex) l
SharesFrom (c ∷ r) l = All (SharesRegex (c ∷ r)) l

IsFresh-iff : (k : Text) (seen : List Text) → (any (λ j. text_eq j k) seen ≡ false) ↔ IsFresh k seen
IsFresh-iff k [] = (λ h. tt, λ h. refl)
IsFresh-iff k (j ∷ seen) = (
  λ h. (λ e. ground (arith, text_eq_iff j k), (IsFresh-iff k seen).0 (ground arith)),
  λ v. ground (arith, text_eq_iff j k, (IsFresh-iff k seen).1 v.1),
)

-- A key is new to the rest, and the rest is new to `seen`.
AreFresh-split :
    (k : Text) (seen : List Text) (l : List Selector)
    → AreFresh (k ∷ seen) l ↔ (All (λ t. k ≢ source_key t.source) l × AreFresh seen l)
AreFresh-split k seen [] = (λ h. (tt, tt), λ h. tt)
AreFresh-split k seen (s ∷ l) =
    let (forth, back) = AreFresh-split k seen l in
    (
      λ h. ((h.0.0, (forth h.1).0), (h.0.1, (forth h.1).1)),
      λ h. ((h.0.0, h.1.0), back (h.0.1, h.1.1)),
    )

AreFresh-nil : (l : List Selector) → AreFresh [] l
AreFresh-nil [] = tt
AreFresh-nil (s ∷ l) = (tt, AreFresh-nil l)

is_empty-ne {ℓ} : {A : Type ℓ} (l : List A) → (is_empty l ≡ false) ↔ (l ≢ [])
is_empty-ne [] = (λ h. ground arith, λ n. absurd (n refl))
is_empty-ne (x ∷ l) = (λ h. λ e. ground arith, λ n. refl)

-- A source that reads from the path has a regular expression.
abbrev IsPathText : SelectorSourceType → Text → Type 0
IsPathText path_capture own = own ≢ []
IsPathText _ own = Unit

-- The specification of the rest, with one more source before it.
abbrev SharesBefore : SelectorSourceType → Text → Text → List Selector → Type 0
SharesBefore k own [] l = (regex : Text) × (SharesKind k own regex × All (SharesRegex regex) l)
SharesBefore k own (c ∷ r) l = SharesKind k own (c ∷ r) × All (SharesRegex (c ∷ r)) l

module _ (rest : List Selector) where
  SharesFrom-along : (r r' : Text) → ok r ≡ ok r' → SharesFrom r' rest → SharesFrom r rest
  SharesFrom-along r r' e f = subst (λ x. SharesFrom x rest) (sym (cc)) f

  shares_sound :
      (k : SelectorSourceType) (own regex regex' : Text)
      → IsPathText k own
      → shared_regex k own regex ≡ ok regex'
      → SharesFrom regex' rest
      → SharesBefore k own regex rest
  unfolding shared_regex
  shares_sound path_capture [] [] regex' h e f = absurd (h refl)
  shares_sound path_capture (d ∷ own) [] regex' h e f =
      (d ∷ own, (refl, SharesFrom-along (d ∷ own) regex' e f))
  shares_sound path_capture own (c ∷ r) regex' h e f = elim (Bool-cases (text_eq (c ∷ r) own)) [
    | inl same ↦
        (sym ((text_eq_iff (c ∷ r) own).0 same), SharesFrom-along (c ∷ r) regex' (ground arith) f)
    | inr differ ↦ ground arith
  ]
  shares_sound _ own [] regex' h e f =
      let (r, all) = SharesFrom-along [] regex' e f in (r, (tt, all))
  shares_sound _ own (c ∷ r) regex' h e f = (tt, SharesFrom-along (c ∷ r) regex' e f)

  shares_complete :
      (k : SelectorSourceType) (own regex : Text)
      → IsPathText k own
      → SharesBefore k own regex rest
      → (regex' : Text) × (shared_regex k own regex ≡ ok regex') × SharesFrom regex' rest
  unfolding shared_regex
  shares_complete path_capture [] [] h v = absurd (h refl)
  shares_complete path_capture (d ∷ own) [] h (r, (e, all)) =
      (d ∷ own, refl, subst (λ x. All (SharesRegex x) rest) (sym e) all)
  shares_complete path_capture own (c ∷ r) h (e, all) =
      (c ∷ r, ground (arith, text_eq_iff (c ∷ r) own), all)
  shares_complete _ own [] h (r, (_, all)) = ([], refl, (r, all))
  shares_complete _ own (c ∷ r) h (_, all) = (c ∷ r, refl, all)

is_blank-nil : is_blank [] ≡ true
unfolding is_blank
is_blank-nil = refl

SharesFrom-nil : (regex : Text) → SharesFrom regex []
SharesFrom-nil [] = ([], tt)
SharesFrom-nil (c ∷ r) = tt

SharesBefore-to :
    (regex : Text) (s : Selector) (l : List Selector)
    → SharesBefore s.source.kind s.source.path_regex regex l ↔ SharesFrom regex (s ∷ l)
SharesBefore-to [] s l = (λ v. v, λ v. v)
SharesBefore-to (c ∷ r) s l = (λ v. v, λ v. v)

module _ (subexp_names : Text → Option (List Text)) where
  IsValidKind-text :
      (k : SelectorSourceType) (s : SelectorSource)
      → IsValidKind subexp_names k s
      → IsPathText k s.path_regex
  IsValidKind-text path_capture s v = λ e. ground (arith, is_blank-nil)
  IsValidKind-text _ s v = tt

  -- What the loop accepts from a state of it on.
  abbrev Accepted : List Text → Text → List Selector → Type 0
  Accepted seen regex l =
      All (IsValidSelector subexp_names) l
      × AreFresh seen l
      × HasDistinctKeys l
      × SharesFrom regex l

  -- What a round that succeeds has checked, and the rest of the loop.
  record Round (idx : ℕ) (seen : List Text) (regex : Text) (s : Selector) (rest : List Selector)
      : Type 0 where
    valid : validate_selector subexp_names s ≡ ok tt
    fresh : any (λ k. text_eq k (source_key s.source)) seen ≡ false
    agreed : Text
    agrees : shared_regex s.source.kind s.source.path_regex regex ≡ ok agreed
    onward :
        validate_selectors subexp_names (idx + 1) (source_key s.source ∷ seen) agreed rest ≡ ok tt

  Round-sound :
      (idx : ℕ) (seen : List Text) (regex : Text) (s : Selector) (rest : List Selector)
      → validate_selectors subexp_names idx seen regex (s ∷ rest) ≡ ok tt
      → Round idx seen regex s rest
  unfolding validate_selectors
  Round-sound idx seen regex s rest h =
      let key = source_key s.source in
      let (_, valid, h1) =
        >>=-eq-ok (wrap_error (in_selector idx) (validate_selector subexp_names s)) _ h in
      let (_, fresh, h2) =
        >>=-eq-ok (reject_if (any (λ k. text_eq k key) seen) (duplicate_source idx key)) _ h1 in
      let (regex', agrees, onward) =
        >>=-eq-ok (shared_regex s.source.kind s.source.path_regex regex) _ h2 in
      record {
        valid = ground arith;
        fresh = ground arith;
        agreed = regex';
        agrees = agrees;
        onward = onward;
      }

  Round-complete :
      (idx : ℕ) (seen : List Text) (regex : Text) (s : Selector) (rest : List Selector)
      → Round idx seen regex s rest
      → validate_selectors subexp_names idx seen regex (s ∷ rest) ≡ ok tt
  unfolding validate_selectors
  Round-complete idx seen regex s rest r = rw (r.valid, r.fresh, r.agrees, r.onward) refl

  validate_selectors_sound :
      (idx : ℕ) (seen : List Text) (regex : Text) (l : List Selector)
      → validate_selectors subexp_names idx seen regex l ≡ ok tt
      → Accepted seen regex l
  validate_selectors_sound idx seen regex [] h = (tt, tt, tt, SharesFrom-nil regex)
  validate_selectors_sound idx seen regex (s ∷ rest) h =
      let key = source_key s.source in
      let r = Round-sound idx seen regex s rest h in
      let valid = (validate_selector_iff subexp_names s).0 r.valid in
      let (each, fresh, distinct, shared) =
        validate_selectors_sound (idx + 1) (key ∷ seen) r.agreed rest r.onward in
      let (apart, fresh') = (AreFresh-split key seen rest).0 fresh in
      (
        (valid, each),
        ((IsFresh-iff key seen).0 r.fresh, fresh'),
        (apart, distinct),
        (SharesBefore-to regex s rest).0 (
            shares_sound rest s.source.kind s.source.path_regex regex r.agreed
              (IsValidKind-text s.source.kind s.source valid.source) r.agrees shared),
      )

  validate_selectors_complete :
      (idx : ℕ) (seen : List Text) (regex : Text) (l : List Selector)
      → Accepted seen regex l
      → validate_selectors subexp_names idx seen regex l ≡ ok tt
  validate_selectors_complete idx seen regex [] h = unfold validate_selectors in refl
  validate_selectors_complete idx seen regex (s ∷ rest)
        ((valid, each), (fresh, fresh'), (apart, distinct), shared) =
      let key = source_key s.source in
      let (regex', agrees, shared') =
        shares_complete rest s.source.kind s.source.path_regex regex
          (IsValidKind-text s.source.kind s.source valid.source)
          ((SharesBefore-to regex s rest).1 shared) in
      Round-complete idx seen regex s rest (record {
        valid = (validate_selector_iff subexp_names s).1 valid;
        fresh = (IsFresh-iff key seen).1 fresh;
        agreed = regex';
        agrees = agrees;
        onward =
            validate_selectors_complete (idx + 1) (key ∷ seen) regex' rest
              (each, (AreFresh-split key seen rest).1 (apart, fresh'), distinct, shared');
      })

  -- Validation returns no error exactly for the specifications that name a router, have selectors
  -- and destinations, and whose selectors are valid, read from different sources, and, where they
  -- capture from the path, agree on one path expression.
  pub validate_spec_iff :
      (spec : PlacementSpec) → (validate_spec subexp_names spec ≡ ok tt) ↔ IsValid subexp_names spec
  unfolding validate_spec
  validate_spec_iff spec = (
    λ h.
        let walk : validate_selectors subexp_names 0 [] [] spec.selectors ≡ ok tt = ground arith in
        let (each, _, distinct, shared) = validate_selectors_sound 0 [] [] spec.selectors walk in
        record {
          routed = ground arith;
          selecting = (is_empty-ne spec.selectors).0 (ground arith);
          going = (is_empty-ne spec.destinations).0 (ground arith);
          each = each;
          distinct = distinct;
          shared = shared;
        },
    λ v.
        rw
          (
            v.routed,
            (is_empty-ne spec.selectors).1 v.selecting,
            (is_empty-ne spec.destinations).1 v.going,
          )
          (validate_selectors_complete 0 [] [] spec.selectors
            (v.each, AreFresh-nil spec.selectors, v.distinct, v.shared)),
  )
