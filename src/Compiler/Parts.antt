-- ===== src/Compiler/Parts.antt =====
-- What a placement that compiles has gone through, and what its route has to match.
use cell_router_operator.Base.{
  ◌≡◌, ◌≢◌, ◌⊎◌, refl, sym, ap, ◌∙◌, Bool, true, false, Option, none, List, [], ◌∷◌, arith, inl,
  inr, Text, is_blank, All,
}
use cell_router_operator.Errors.{ok, >>=-eq-ok}
use cell_router_operator.Api.Placement.{
  SelectorSourceType, header, query_param, path_capture, other_source, Selector, Placement,
}
use cell_router_operator.Api.Router.{RouteSpec}
use cell_router_operator.Validation.{validate}
use cell_router_operator.Validation.Spec.{IsValidKind, IsValidSelector, IsValid}
use cell_router_operator.Validation.Placements.{validate_spec_iff}
use cell_router_operator.Compiler.{
  Matches, compile_path_regex, compile_matches, path_match_of, path_selectors, is_path_capture,
  route_spec_from_placement, first_cell, first_weight, later_backends,
}
use cell_router_operator.Compiler.Matches.{
  is_header, is_query_param, source_names, compile_matches-names, rewrite_captures-ne-nil,
  header_names, query_names,
}

-- The route has something to match: a path, a header or a query parameter.
abbrev pub HasMatch : RouteSpec → Type 0
HasMatch r = (r.path_match ≢ none) ⊎ ((r.header_matches ≢ []) ⊎ (r.query_param_matches ≢ []))

path_selectors-first :
    (s : Selector) (rest : List Selector) (r : Text)
    → is_path_capture s.source.kind ≡ true
    → s.source.path_regex ≢ []
    → compile_path_regex (s ∷ rest) ≡ ok r
    → r ≢ []
unfolding compile_path_regex path_selectors
path_selectors-first s rest r first ne h =
    rewrite_captures-ne-nil s.source.path_regex r (s ∷ path_selectors rest) ne
      (rw (first, compile_path_regex, path_selectors) at h)

path_match_of-some : (r : Text) → r ≢ [] → path_match_of r ≢ none
path_match_of-some [] h e = h refl
path_match_of-some (c ∷ r) h e = ground arith

source_names-first :
    (picks : SelectorSourceType → Bool) (s : Selector) (rest : List Selector)
    → picks s.source.kind ≡ true
    → source_names picks (s ∷ rest) ≢ []
unfolding source_names
source_names-first picks s rest first e = ground arith

module _ (subexp_names : Text → Option (List Text)) where
  -- The steps of a compilation that returns a route.
  pub record Compiled (p : Placement) (r : RouteSpec) : Type 0 where
    pub valid : IsValid subexp_names p.spec
    pub path_regex : Text
    pub matches : Matches
    pub path_made : compile_path_regex p.spec.selectors ≡ ok path_regex
    pub matches_made : compile_matches p.spec.selectors ([], []) ≡ ok matches
    pub path : r.path_match ≡ path_match_of path_regex
    pub headers : r.header_matches ≡ matches.0
    pub queries : r.query_param_matches ≡ matches.1
    pub name : r.name ≡ p.name
    pub cell_ref : r.cell_ref ≡ first_cell p.spec.destinations
    pub weight : r.weight ≡ first_weight p.spec.destinations
    pub additional : r.additional_backends ≡ later_backends p.spec.destinations
    pub fallback : r.fallback_backend ≡ none

  pub Compiled-of_ok :
      (p : Placement) (r : RouteSpec)
      → route_spec_from_placement subexp_names p ≡ ok r
      → Compiled p r
  unfolding route_spec_from_placement validate
  Compiled-of_ok p r h =
      let (u, valid, h1) = >>=-eq-ok (validate subexp_names p) _ h in
      let (regex, path_made, h2) = >>=-eq-ok (compile_path_regex p.spec.selectors) _ h1 in
      let (found, matches_made, h3) = >>=-eq-ok (compile_matches p.spec.selectors ([], [])) _ h2 in
      record {
        valid = (validate_spec_iff subexp_names p.spec).0 valid;
        path_regex = regex;
        matches = found;
        path_made = path_made;
        matches_made = matches_made;
        path = ground arith;
        headers = ground arith;
        queries = ground arith;
        name = ground arith;
        cell_ref = ground arith;
        weight = ground arith;
        additional = ground arith;
        fallback = ground arith;
      }

  data Reads (s : Selector) : Type 0 where
    reads_header : is_header s.source.kind ≡ true → Reads s
    reads_query : is_query_param s.source.kind ≡ true → Reads s
    reads_path : is_path_capture s.source.kind ≡ true → s.source.path_regex ≢ [] → Reads s

  not_blank : (s : Text) → is_blank s ≡ false → s ≢ []
  unfolding is_blank
  not_blank [] h e = ground arith
  not_blank (c ∷ s) h e = ground arith

  reads : (s : Selector) → IsValidSelector subexp_names s → Reads s
  reads s v = go s.source.kind refl v.source
    where
      go :
          (k : SelectorSourceType)
          → s.source.kind ≡ k
          → IsValidKind subexp_names k s.source
          → Reads s
      go header e w = reads_header (ap is_header e)
      go query_param e w = reads_query (ap is_query_param e)
      go path_capture e w = reads_path (ap is_path_capture e) (not_blank s.source.path_regex w.0)
      go (other_source o) e w = absurd w

  has_match :
      (l : List Selector) (regex : Text) (found : Matches)
      → l ≢ []
      → All (IsValidSelector subexp_names) l
      → compile_path_regex l ≡ ok regex
      → compile_matches l ([], []) ≡ ok found
      → (path_match_of regex ≢ none) ⊎ ((found.0 ≢ []) ⊎ (found.1 ≢ []))
  has_match [] regex found ne v h k = absurd (ne refl)
  has_match (s ∷ rest) regex found ne (v, vs) h k =
      let (hs, qs) = compile_matches-names (s ∷ rest) found k in
      elim (reads s v) [
        | reads_header e ↦
            inr (inl (λ nil. source_names-first is_header s rest e (sym hs ∙ ap header_names nil)))
        | reads_query e ↦
            inr (
              inr (λ nil. source_names-first is_query_param s rest e (sym qs ∙ ap query_names nil)))
        | reads_path e own ↦
            inl (path_match_of-some regex (path_selectors-first s rest regex e own h))
      ]

  -- The route of a placement that compiles always has something to match.
  pub route_spec_from_placement-HasMatch :
      (p : Placement) (r : RouteSpec) → route_spec_from_placement subexp_names p ≡ ok r → HasMatch r
  route_spec_from_placement-HasMatch p r h =
      let c = Compiled-of_ok p r h in
      rw (c.path, c.headers, c.queries)
        (has_match p.spec.selectors c.path_regex c.matches c.valid.selecting c.valid.each
          c.path_made c.matches_made)
