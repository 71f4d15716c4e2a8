-- ===== src/Compiler/Total.antt =====
-- Placements that validation accepts compile without a panic, and which of them compile.
use cell_router_operator.Base.{
  ◌≡◌, ◌≢◌, refl, Bool, true, false, ◌&&◌, Option, some, List, [], ◌∷◌, arith, leb, Text, All,
  if◌then◌else◌, codes, ◌++◌,
}
use cell_router_operator.Strconv.{value}
use cell_router_operator.Decimal.{is_decimal}
use cell_router_operator.Errors.{
  ok, panic, ◌>>=◌, Succeeds, >>=-Succeeds, ok-ne-panic, >>=-ne-panic,
}
use cell_router_operator.Api.Placement.{
  SelectorSourceType, header, query_param, path_capture, other_source, SelectorOperator, exact,
  prefix, suffix, range, other_operator, NumericRange, Selector, Placement,
}
use cell_router_operator.Api.Router.{match_regular_expression}
use cell_router_operator.RangeRegex.Matcher.{full_match}
use cell_router_operator.RangeRegex.Correct.{numeric_range_regex-exact}
use cell_router_operator.Validation.{validate, validate_spec}
use cell_router_operator.Validation.Total.{validate-ne-panic}
use cell_router_operator.Validation.Spec.{IsValidRange, IsValidOperator, IsValidSelector}
use cell_router_operator.Validation.Placements.{validate_spec_iff}
use cell_router_operator.Capture.{replace_named_capture_body}
use cell_router_operator.Compiler.{
  regex_body, selector_regex_body, anchored, compile_selector_regex, compile_value, compile_match,
  compile_matches, rewrite_captures, compile_path_regex, path_selectors, Matches,
  compile_header_selector, compile_query_selector, is_exact, is_path_capture,
  route_spec_from_placement,
}

regex_body-total :
    (o : SelectorOperator) (s : Selector)
    → IsValidOperator o s
    → (body : Text) × (regex_body o s ≡ ok body)
unfolding regex_body
regex_body-total exact s v = (_, refl)
regex_body-total prefix s v = (_, refl)
regex_body-total suffix s v = (_, refl)
regex_body-total range s (r, found, valid, unset) =
    let (regex, made, m) =
      numeric_range_regex-exact r.start r.end [] valid.start_decimal valid.end_decimal
        valid.in_order valid.fits in
    (regex, rw found made)
regex_body-total (other_operator o) s v = absurd v

-- A selector with the Range operator and a valid range compiles to `^(?:`, a body and `)$`, both
-- by itself and as the value of the regular expression match that a header or a query parameter of
-- its name gets, and the body accepts a text exactly if it is a decimal whose value lies in the
-- range.
pub compile_selector_regex-range :
    (s : Selector) (r : NumericRange) (t : Text)
    → s.operator ≡ range
    → s.bounds ≡ some r
    → IsValidRange r
    → (body : Text) × (compile_selector_regex s ≡ ok (codes "^(?:" ++ (body ++ codes ")$")))
      × (compile_header_selector s
          ≡ ok (record {
            name = s.source.name;
            value = codes "^(?:" ++ (body ++ codes ")$");
            kind = some match_regular_expression;
          }))
      × (compile_query_selector s
          ≡ ok (record {
            name = s.source.name;
            value = codes "^(?:" ++ (body ++ codes ")$");
            kind = some match_regular_expression;
          }))
      × (full_match body t
          ≡ (is_decimal t && leb (value r.start) (value t) && leb (value t) (value r.end)))
unfolding compile_selector_regex selector_regex_body regex_body compile_header_selector
    compile_query_selector compile_value
compile_selector_regex-range s r t is_range found valid =
    let (regex, made, matched) =
      numeric_range_regex-exact r.start r.end t valid.start_decimal valid.end_decimal valid.in_order
        valid.fits in
    (
      regex,
      rw (is_range, found, made) refl,
      rw (is_range, found, made) refl,
      rw (is_range, found, made) refl,
      matched,
    )

compile_value-Succeeds :
    (exactly : Bool) (s : Selector)
    → IsValidOperator s.operator s
    → Succeeds (compile_value exactly s)
unfolding compile_value compile_selector_regex selector_regex_body
compile_value-Succeeds true s v = (_, refl)
compile_value-Succeeds false s v =
    >>=-Succeeds (regex_body s.operator s >>= λ body. ok (anchored body)) _
      (>>=-Succeeds (regex_body s.operator s) _ (regex_body-total s.operator s v)
        (λ body. (_, refl)))
      (λ regex. (_, refl))

compile_match-Succeeds :
    (k : SelectorSourceType) (s : Selector) (found : Matches)
    → IsValidOperator s.operator s
    → Succeeds (compile_match k s found)
unfolding compile_match compile_header_selector compile_query_selector
compile_match-Succeeds header s found v =
    >>=-Succeeds (compile_header_selector s) _
      (>>=-Succeeds (compile_value (is_exact s.operator) s) _
        (compile_value-Succeeds (is_exact s.operator) s v) (λ m. (_, refl)))
      (λ m. (_, refl))
compile_match-Succeeds query_param s found v =
    >>=-Succeeds (compile_query_selector s) _
      (>>=-Succeeds (compile_value (is_exact s.operator) s) _
        (compile_value-Succeeds (is_exact s.operator) s v) (λ m. (_, refl)))
      (λ m. (_, refl))
compile_match-Succeeds path_capture s found v = (_, refl)
compile_match-Succeeds (other_source k) s found v = (_, refl)

abbrev HasOperators : List Selector → Type 0
HasOperators selectors = All (λ (s : Selector). IsValidOperator s.operator s) selectors

compile_matches-Succeeds :
    (selectors : List Selector) (found : Matches)
    → HasOperators selectors
    → Succeeds (compile_matches selectors found)
unfolding compile_matches
compile_matches-Succeeds [] found v = (found, refl)
compile_matches-Succeeds (s ∷ rest) found (v, vs) =
    >>=-Succeeds (compile_match s.source.kind s found) _
      (compile_match-Succeeds s.source.kind s found v) (λ m. compile_matches-Succeeds rest m vs)

replace-ne-panic : (pattern name body : Text) → replace_named_capture_body pattern name body ≢ panic
unfolding replace_named_capture_body
replace-ne-panic pattern name body h = ground arith

rewrite_captures-ne-panic :
    (regex : Text) (selectors : List Selector)
    → HasOperators selectors
    → rewrite_captures regex selectors ≢ panic
unfolding rewrite_captures selector_regex_body
rewrite_captures-ne-panic regex [] v h = ground arith
rewrite_captures-ne-panic regex (s ∷ rest) (v, vs) h =
    >>=-ne-panic (regex_body s.operator s) _ (ok-ne-panic _ (regex_body-total s.operator s v))
      (λ body made.
        >>=-ne-panic (replace_named_capture_body regex s.source.name body) _
          (replace-ne-panic regex s.source.name body)
          (λ regex' e. rewrite_captures-ne-panic regex' rest vs))
      h

path_selectors-HasOperators :
    (selectors : List Selector) → HasOperators selectors → HasOperators (path_selectors selectors)
unfolding path_selectors
path_selectors-HasOperators [] v = tt
path_selectors-HasOperators (s ∷ rest) (v, vs) =
    elim (is_path_capture s.source.kind)
      as (λ b. HasOperators (if b then s ∷ path_selectors rest else path_selectors rest)) [
        | true ↦ (v, path_selectors-HasOperators rest vs)
        | false ↦ path_selectors-HasOperators rest vs
      ]

compile_path_regex-ne-panic :
    (selectors : List Selector) → HasOperators selectors → compile_path_regex selectors ≢ panic
unfolding compile_path_regex
compile_path_regex-ne-panic selectors v =
    go (path_selectors selectors) (path_selectors-HasOperators selectors v)
  where
    go :
        (l : List Selector)
        → HasOperators l
        → elim l [ [] ↦ ok [] | s ∷ rest ↦ rewrite_captures s.source.path_regex (s ∷ rest) ] ≢ panic
    go [] v h = ground arith
    go (s ∷ rest) v h = rewrite_captures-ne-panic s.source.path_regex (s ∷ rest) v h

module _ (subexp_names : Text → Option (List Text)) where
  selector-HasOperators :
      (selectors : List Selector)
      → All (IsValidSelector subexp_names) selectors
      → HasOperators selectors
  selector-HasOperators [] v = tt
  selector-HasOperators (s ∷ rest) (v, vs) = (v.operator, selector-HasOperators rest vs)

  -- Compiling a placement never panics, whatever the placement.
  pub route_spec_from_placement-ne-panic :
      (p : Placement) → route_spec_from_placement subexp_names p ≢ panic
  unfolding route_spec_from_placement validate
  route_spec_from_placement-ne-panic p =
      >>=-ne-panic (validate_spec subexp_names p.spec) _ (validate-ne-panic subexp_names p)
        (λ u valid.
          let v = (validate_spec_iff subexp_names p.spec).0 valid in
          let ops = selector-HasOperators p.spec.selectors v.each in
          >>=-ne-panic (compile_path_regex p.spec.selectors) _
            (compile_path_regex-ne-panic p.spec.selectors ops)
            (λ regex made.
              >>=-ne-panic (compile_matches p.spec.selectors ([], [])) _
                (ok-ne-panic _ (compile_matches-Succeeds p.spec.selectors ([], []) ops))
                (λ m e h. ground arith)))
