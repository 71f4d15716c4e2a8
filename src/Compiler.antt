-- ===== src/Compiler.antt =====
-- From a placement to a route: `routeSpecFromPlacement` and the functions it calls, of
-- internal/controller/cellplacement_compiler.go.
pub mod Total
pub mod Matches
pub mod Parts
use cell_router_operator.Base.{
  ℕ, Bool, true, false, Option, none, some, List, [], ◌∷◌, ◌++◌, if◌then◌else◌, is_empty, Text,
  codes,
}
use cell_router_operator.Strconv.{quote_meta}
use cell_router_operator.Errors.{Error, Result, ok, err, panic, ◌>>=◌, ◌>>◌, unsupported_operator}
use cell_router_operator.Api.Placement.{
  SelectorSourceType, header, query_param, path_capture, other_source, SelectorOperator, exact,
  prefix, suffix, range, other_operator, SelectorSource, NumericRange, Selector, BackendRef,
  PlacementSpec, Placement,
}
use cell_router_operator.Api.Router.{
  MatchType, match_exact, match_regular_expression, HttpPathMatch, HttpHeaderMatch,
  HttpQueryParamMatch, RouteSpec,
}
use cell_router_operator.RangeRegex.{numeric_range_regex}
use cell_router_operator.Validation.{validate}
use cell_router_operator.Capture.{replace_named_capture_body}

-- The `switch` on the operator: `selector.Range.Start` of a nil range panics.
pub regex_body : SelectorOperator → Selector → Result Text
regex_body exact s = ok (quote_meta s.value)
regex_body prefix s = ok (quote_meta s.value ++ codes ".*")
regex_body suffix s = ok (codes ".*" ++ quote_meta s.value)
regex_body range s = elim (s.bounds) [ none ↦ panic | some r ↦ numeric_range_regex r.start r.end ]
regex_body (other_operator o) s = err (unsupported_operator (other_operator o))

unfoldable pub selector_regex_body : Selector → Result Text
unfolding regex_body
selector_regex_body s = regex_body s.operator s

-- A regular expression that stands for the whole text.
abbrev pub anchored : Text → Text
anchored body = codes "^(?:" ++ (body ++ codes ")$")

unfoldable pub compile_selector_regex : Selector → Result Text
unfolding selector_regex_body
compile_selector_regex s = do body ← selector_regex_body s; ok (anchored body)

abbrev pub is_exact : SelectorOperator → Bool
is_exact exact = true
is_exact _ = false

-- The value of a header or query parameter match, and its type.
pub compile_value : Bool → Selector → Result (Text × MatchType)
compile_value true s = ok (s.value, match_exact)
compile_value false s = do regex ← compile_selector_regex s; ok (regex, match_regular_expression)

unfoldable pub compile_header_selector : Selector → Result HttpHeaderMatch
unfolding compile_value
compile_header_selector s = do
  (value, kind) ← compile_value (is_exact s.operator) s
  ok (record { name = s.source.name; value = value; kind = some kind })

unfoldable pub compile_query_selector : Selector → Result HttpQueryParamMatch
unfolding compile_value
compile_query_selector s = do
  (value, kind) ← compile_value (is_exact s.operator) s
  ok (record { name = s.source.name; value = value; kind = some kind })

abbrev pub is_path_capture : SelectorSourceType → Bool
is_path_capture path_capture = true
is_path_capture _ = false

-- The first loop of `compilePathRegex`.
unfoldable pub path_selectors : List Selector → List Selector
path_selectors [] = []
path_selectors (s ∷ rest) =
    let later = path_selectors rest in if is_path_capture s.source.kind then s ∷ later else later

-- Its second loop, which rewrites one capture after another.
unfoldable pub rewrite_captures : Text → List Selector → Result Text
unfolding selector_regex_body
rewrite_captures path_regex [] = ok path_regex
rewrite_captures path_regex (s ∷ rest) = do
  body ← selector_regex_body s
  path_regex' ← replace_named_capture_body path_regex s.source.name body
  rewrite_captures path_regex' rest

unfoldable pub compile_path_regex : List Selector → Result Text
unfolding path_selectors rewrite_captures
compile_path_regex selectors = elim (path_selectors selectors) [
  | [] ↦ ok []
  | s ∷ rest ↦ rewrite_captures s.source.path_regex (s ∷ rest)
]

abbrev pub Matches : Type 0
Matches = List HttpHeaderMatch × List HttpQueryParamMatch

-- One round of the loop over the selectors, by the type of the source, before the later rounds.
pub compile_match : SelectorSourceType → Selector → Matches → Result Matches
unfolding compile_header_selector compile_query_selector
compile_match header s (headers, queries) = do
  m ← compile_header_selector s
  ok (headers ++ m ∷ [], queries)
compile_match query_param s (headers, queries) = do
  m ← compile_query_selector s
  ok (headers, queries ++ m ∷ [])
compile_match _ s found = ok found

-- `spec.HeaderMatches` and `spec.QueryParamMatches` after the loop.
unfoldable pub compile_matches : List Selector → Matches → Result Matches
unfolding compile_match
compile_matches [] found = ok found
compile_matches (s ∷ rest) found = do
  found' ← compile_match s.source.kind s found
  compile_matches rest found'

-- The path match, which is left nil for the empty expression.
abbrev pub path_match_of : Text → Option HttpPathMatch
path_match_of [] = none
path_match_of (c ∷ regex) =
    some (record { kind = some match_regular_expression; value = c ∷ regex })

abbrev pub first_cell : List BackendRef → Text
first_cell [] = []
first_cell (d ∷ rest) = d.cell_ref

abbrev pub first_weight : List BackendRef → Option ℕ
first_weight [] = none
first_weight (d ∷ rest) = d.weight

abbrev pub later_backends : List BackendRef → List BackendRef
later_backends [] = []
later_backends (d ∷ rest) = rest

module _ (subexp_names : Text → Option (List Text)) where
  unfoldable pub route_spec_from_placement : Placement → Result RouteSpec
  unfolding validate compile_path_regex compile_matches
  route_spec_from_placement p = do
    validate subexp_names p
    path_regex ← compile_path_regex p.spec.selectors
    (headers, queries) ← compile_matches p.spec.selectors ([], [])
    ok (record {
      name = p.name;
      cell_ref = first_cell p.spec.destinations;
      listener_names = p.spec.listener_names;
      hostnames = p.spec.hostnames;
      path_match = path_match_of path_regex;
      header_matches = headers;
      query_param_matches = queries;
      weight = first_weight p.spec.destinations;
      additional_backends = later_backends p.spec.destinations;
      fallback_backend = none;
    })
