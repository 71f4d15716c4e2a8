-- ===== src/Client/Written.antt =====
-- What the requests of a run have written and listed.
use cell_router_operator.Base.{
  ◌≡◌, ◌⊎◌, inl, inr, refl, ℕ, Bool, true, false, List, [], ◌∷◌, ◌==◌, if◌then◌else◌, Option, some,
  Text,
}
use cell_router_operator.Base.{All}
use cell_router_operator.RouteStatus.{RouteParentStatus}
use cell_router_operator.Client.{
  Kind, namespace_kind, service_kind, resource_quota_kind, limit_range_kind, network_policy_kind,
  gateway_kind, http_route_kind, reference_grant_kind, Header, Reply, reply, failed, Request,
  Outcome, finished, failing, crashed, Program, fail, ◌>>=◌, get_object, list_objects, write_object,
}
use cell_router_operator.Client.Runs.{Log, Runs, has_failed, attempt-Runs}

kind_number : Kind → ℕ
kind_number namespace_kind = 0
kind_number service_kind = 1
kind_number resource_quota_kind = 2
kind_number limit_range_kind = 3
kind_number network_policy_kind = 4
kind_number gateway_kind = 5
kind_number http_route_kind = 6
kind_number reference_grant_kind = 7

unfoldable pub is_kind : Kind → Kind → Bool
unfolding kind_number
is_kind k j = kind_number k == kind_number j

-- The names of the objects of a kind that were written, successfully or not.
abbrev pub written_names : Kind → Log → List Text
written_names kind [] = []
written_names kind ((write_object w, r) ∷ log) =
    let before = written_names kind log in if is_kind w.kind kind then w.name ∷ before else before
written_names kind ((q, r) ∷ log) = written_names kind log

-- The answers to the writes of HTTPRoutes.
abbrev pub route_answers : Log → List (Reply (List RouteParentStatus))
route_answers [] = []
route_answers ((write_object w, r) ∷ log) =
    let before = route_answers log in if is_kind w.kind http_route_kind then r ∷ before else before
route_answers ((q, r) ∷ log) = route_answers log

abbrev pub IsAmong : Header → List Header → Type 0
IsAmong h [] = ⊥
IsAmong h (x ∷ rest) = (x ≡ h) ⊎ IsAmong h rest

abbrev pub ListsObject : Header → Reply (List Header) → Type 0
ListsObject h (reply objects) = IsAmong h objects
ListsObject h (failed text) = ⊥

abbrev pub ReadsObject : Header → Reply (Option Header) → Type 0
ReadsObject h (reply found) = found ≡ some h
ReadsObject h (failed text) = ⊥

-- The server has given this object of this kind.
abbrev pub WasGiven : Kind → Header → Log → Type 0
WasGiven kind h [] = ⊥
WasGiven kind h ((list_objects k namespace labels, r) ∷ log) =
    ((k ≡ kind) × ListsObject h r) ⊎ WasGiven kind h log
WasGiven kind h ((get_object k namespace name, r) ∷ log) =
    ((k ≡ kind) × ReadsObject h r) ⊎ WasGiven kind h log
WasGiven kind h ((q, r) ∷ log) = WasGiven kind h log

pub All-mono {ℓ κ μ} :
    {A : Type ℓ} (P : A → Type κ) (Q : A → Type μ) (l : List A)
    → ((a : A) → P a → Q a)
    → All P l
    → All Q l
All-mono P Q [] f h = tt
All-mono P Q (x ∷ rest) f (hx, h) = (f x hx, All-mono P Q rest f h)

All-IsAmong : (l : List Header) → All (λ h. IsAmong h l) l
All-IsAmong [] = tt
All-IsAmong (x ∷ rest) = (
  inl refl,
  All-mono (λ h. IsAmong h rest) (λ h. IsAmong h (x ∷ rest)) rest (λ h there. inr there)
      (All-IsAmong rest),
)

-- All that a list of objects gives was given.
pub list-WasGiven :
    (kind : Kind) (namespace : Option Text) (labels : List (Text × Text)) (objects : List Header)
    (log : Log)
    → All (λ h. WasGiven kind h ((list_objects kind namespace labels, reply objects) ∷ log)) objects
list-WasGiven kind namespace labels objects log =
    All-mono (λ h. IsAmong h objects) _ objects (λ h there. inl (refl, there)) (All-IsAmong objects)

-- A program ends with a value for which `I` holds, after requests that all succeeded, or with an
-- error after one that failed; it does not panic.
abbrev pub Ends {ℓ} : {A : Type ℓ} → (A → Log → Type 0) → Log → Outcome A → Type 0
Ends I log (finished a) = (has_failed log ≡ false) × I a log
Ends I log (failing f) = has_failed log ≡ true
Ends I log crashed = ⊥

pub >>=-Ends {ℓ κ} :
    {A : Type ℓ} {B : Type κ} (P : Log → Request → Type 0) (I : A → Log → Type 0)
    (J : B → Log → Type 0) (log : Log) (m : Program A) (rest : A → Program B)
    → Runs P (Ends I) log m
    → ((log' : Log) (a : A) → has_failed log' ≡ false → I a log' → Runs P (Ends J) log' (rest a))
    → Runs P (Ends J) log (m >>= rest)
>>=-Ends P I J log m rest h next =
    attempt-Runs P (Ends I) (Ends J) log m fail rest h (λ l f bad. bad)
      (λ l a good. next l a good.0 good.1) (λ l never. never)
