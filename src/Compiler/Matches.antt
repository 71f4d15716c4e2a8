-- ===== src/Compiler/Matches.antt =====
-- Which matches the route of a placement has.
use cell_router_operator.Base.{
  ℕ, ◌≡◌, ◌≢◌, refl, sym, ap, ◌∙◌, Bool, true, false, List, [], ◌∷◌, ◌++◌, map, arith, Text,
  if◌then◌else◌,
}
use mathlib.Core.List.{append_assoc, append-nil}
use cell_router_operator.Errors.{ok, >>=-eq-ok}
use cell_router_operator.Api.Placement.{
  SelectorSourceType, header, query_param, path_capture, other_source, Selector,
}
use cell_router_operator.Api.Router.{HttpHeaderMatch, HttpQueryParamMatch}
use cell_router_operator.Capture.{replace_named_capture_body}
use cell_router_operator.Capture.Replace.{replace_named_capture_body-parts}
use cell_router_operator.Compiler.{
  Matches, compile_value, compile_header_selector, compile_query_selector, compile_match,
  compile_matches, is_exact, rewrite_captures, selector_regex_body,
}

abbrev pub is_header : SelectorSourceType → Bool
is_header header = true
is_header _ = false

abbrev pub is_query_param : SelectorSourceType → Bool
is_query_param query_param = true
is_query_param _ = false

-- The names of the sources of some types, in the order of the selectors.
unfoldable pub source_names : (SelectorSourceType → Bool) → List Selector → List Text
source_names picks [] = []
source_names picks (s ∷ rest) =
    let later = source_names picks rest in
    if picks s.source.kind then s.source.name ∷ later else later

map-append {ℓ κ} :
    {A : Type ℓ} {B : Type κ} (f : A → B) (xs ys : List A) → map f (xs ++ ys) ≡ map f xs ++ map f ys
map-append f [] ys = refl
map-append f (x ∷ xs) ys = ap (λ l. f x ∷ l) (map-append f xs ys)

abbrev pub header_names : List HttpHeaderMatch → List Text
header_names = map (λ (m : HttpHeaderMatch). m.name)

abbrev pub query_names : List HttpQueryParamMatch → List Text
query_names = map (λ (m : HttpQueryParamMatch). m.name)

compile_header_selector-name :
    (s : Selector) (m : HttpHeaderMatch) → compile_header_selector s ≡ ok m → m.name ≡ s.source.name
unfolding compile_header_selector
compile_header_selector-name s m h =
    let (v, made, e) = >>=-eq-ok (compile_value (is_exact s.operator) s) _ h in ground arith

compile_query_selector-name :
    (s : Selector) (m : HttpQueryParamMatch)
    → compile_query_selector s ≡ ok m
    → m.name ≡ s.source.name
unfolding compile_query_selector
compile_query_selector-name s m h =
    let (v, made, e) = >>=-eq-ok (compile_value (is_exact s.operator) s) _ h in ground arith

abbrev named_if : Bool → Text → List Text
named_if true name = name ∷ []
named_if false name = []

source_names-cons :
    (picks : SelectorSourceType → Bool) (s : Selector) (rest : List Selector)
    → named_if (picks s.source.kind) s.source.name ++ source_names picks rest
      ≡ source_names picks (s ∷ rest)
unfolding source_names
source_names-cons picks s rest = ground arith

-- What one round adds.
record Grown (k : SelectorSourceType) (s : Selector) (found found' : Matches) : Type 0 where
  headers : header_names found'.0 ≡ header_names found.0 ++ named_if (is_header k) s.source.name
  queries : query_names found'.1 ≡ query_names found.1 ++ named_if (is_query_param k) s.source.name

unchanged {ℓ} : {A : Type ℓ} (f : A → Text) (l l' : List A) → l' ≡ l → map f l' ≡ map f l ++ []
unchanged f l l' e = rw e (sym (append-nil (map f l)))

extended {ℓ} :
    {A : Type ℓ} (f : A → Text) (l l' : List A) (m : A) (name : Text)
    → l' ≡ l ++ m ∷ []
    → f m ≡ name
    → map f l' ≡ map f l ++ name ∷ []
extended f l l' m name e n = rw (e, map-append f l (m ∷ []), n) refl

compile_match-Grown :
    (k : SelectorSourceType) (s : Selector) (found found' : Matches)
    → compile_match k s found ≡ ok found'
    → Grown k s found found'
unfolding compile_match
compile_match-Grown header s (hs, qs) (hs', qs') h =
    let (m, made, e) = >>=-eq-ok (compile_header_selector s) _ h in
    record {
      headers =
          extended _ hs hs' m s.source.name (ground arith) (compile_header_selector-name s m made);
      queries = unchanged _ qs qs' (ground arith);
    }
compile_match-Grown query_param s (hs, qs) (hs', qs') h =
    let (m, made, e) = >>=-eq-ok (compile_query_selector s) _ h in
    record {
      headers = unchanged _ hs hs' (ground arith);
      queries =
          extended _ qs qs' m s.source.name (ground arith) (compile_query_selector-name s m made);
    }
compile_match-Grown path_capture s (hs, qs) (hs', qs') h = record {
  headers = unchanged _ hs hs' (ground arith);
  queries = unchanged _ qs qs' (ground arith);
}
compile_match-Grown (other_source o) s (hs, qs) (hs', qs') h = record {
  headers = unchanged _ hs hs' (ground arith);
  queries = unchanged _ qs qs' (ground arith);
}

-- Names that one round and the later ones add.
both_parts :
    (picks : SelectorSourceType → Bool) (s : Selector) (rest : List Selector) (a b c : List Text)
    → b ≡ a ++ named_if (picks s.source.kind) s.source.name
    → c ≡ b ++ source_names picks rest
    → c ≡ a ++ source_names picks (s ∷ rest)
both_parts picks s rest a b c one later =
    later
    ∙ rw (one, ← source_names-cons picks s rest)
        (append_assoc a (named_if (picks s.source.kind) s.source.name) (source_names picks rest))

compile_matches-after :
    (selectors : List Selector) (found found' : Matches)
    → compile_matches selectors found ≡ ok found'
    → (header_names found'.0 ≡ header_names found.0 ++ source_names is_header selectors)
      × (query_names found'.1 ≡ query_names found.1 ++ source_names is_query_param selectors)
unfolding compile_matches
compile_matches-after [] (hs, qs) (hs', qs') h = (
  unfold source_names in unchanged _ hs hs' (ground arith),
  unfold source_names in unchanged _ qs qs' (ground arith),
)
compile_matches-after (s ∷ rest) found found' h =
    let (m, made, onward) = >>=-eq-ok (compile_match s.source.kind s found) _ h in
    let g = compile_match-Grown s.source.kind s found m made in
    let (hs, qs) = compile_matches-after rest m found' onward in
    (
      both_parts is_header s rest (header_names found.0) (header_names m.0) _ g.headers hs,
      both_parts is_query_param s rest (query_names found.1) (query_names m.1) _ g.queries qs,
    )

-- When the selectors of a placement compile, the names of the header matches are those of the
-- Header selectors in order, and the names of the query parameter matches those of the QueryParam
-- selectors in order.
pub compile_matches-names :
    (selectors : List Selector) (found : Matches)
    → compile_matches selectors ([], []) ≡ ok found
    → (header_names found.0 ≡ source_names is_header selectors)
      × (query_names found.1 ≡ source_names is_query_param selectors)
compile_matches-names selectors found h = compile_matches-after selectors ([], []) found h

-- A replacement leaves a capture in the expression.
replaced-ne-nil :
    (regex name body r : Text) → replace_named_capture_body regex name body ≡ ok r → r ≢ []
replaced-ne-nil regex name body r h e =
    let (before, old, tail, whole, made, balanced, first) =
      replace_named_capture_body-parts regex name body r h in
    not_nil before _ _ (sym made ∙ e)
  where
    not_nil : (before : Text) (c : ℕ) (s : Text) → before ++ (c ∷ s) ≡ [] → ⊥
    not_nil [] c s e = ground arith
    not_nil (b ∷ before) c s e = ground arith

-- A rewritten expression that was not empty is not empty.
pub rewrite_captures-ne-nil :
    (regex r : Text) (selectors : List Selector)
    → regex ≢ []
    → rewrite_captures regex selectors ≡ ok r
    → r ≢ []
unfolding rewrite_captures
rewrite_captures-ne-nil regex r [] ne h e = ne (ground arith)
rewrite_captures-ne-nil regex r (s ∷ rest) ne h e =
    let (body, made, h1) = >>=-eq-ok (selector_regex_body s) _ h in
    let (regex', replaced, h2) =
      >>=-eq-ok (replace_named_capture_body regex s.source.name body) _ h1 in
    rewrite_captures-ne-nil regex' r rest (replaced-ne-nil regex s.source.name body regex' replaced)
      h2 e
