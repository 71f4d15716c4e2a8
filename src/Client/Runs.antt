-- ===== src/Client/Runs.antt =====
-- What holds of every run of a program: of each request where it is sent, and of the end.
use mathlib.Core.List.{append_assoc}
use cell_router_operator.Base.{
  sym, ◌++◌, ap, Option, none, some, if◌then◌else◌, ◌≡◌, refl, [], Bool, true, false, not, ◌||◌,
  List, ◌∷◌,
}
use cell_router_operator.Client.{
  Kind, Header, Write, void_reply, delete_found, Reply, reply, failed, get_cell, get_router,
  get_object, list_cells, list_routers, list_placements, list_endpoint_slices, list_objects,
  write_object, delete_object, patch_cell, patch_cell_status, patch_router, patch_router_status,
  patch_placement_status, fail, ◌>>=◌, Request, Response, Failure, Outcome, finished, failing,
  crashed, Program, end, ask, attempt,
}

-- The requests that were sent and their answers, the last one first.
abbrev pub Log : Type 0
Log = List ((q : Request) × Response q)

-- Each request meets `P`, and each end meets `Q`, with the log of what went before.
abbrev pub Runs {ℓ} :
    {A : Type ℓ} → (Log → Request → Type 0) → (Log → Outcome A → Type 0) → Log → Program A → Type 0
Runs P Q log (end o) = Q log o
Runs P Q log (ask q k) = P log q × ((r : Response q) → Runs P Q ((q, r) ∷ log) (k r))

-- A program that goes on after another one.
pub attempt-Runs {ℓ κ} :
    {A : Type ℓ} {B : Type κ} (P : Log → Request → Type 0) (Q : Log → Outcome A → Type 0)
    (R : Log → Outcome B → Type 0) (log : Log) (m : Program A) (on_failure : Failure → Program B)
    (rest : A → Program B)
    → Runs P Q log m
    → ((log' : Log) (f : Failure) → Q log' (failing f) → Runs P R log' (on_failure f))
    → ((log' : Log) (a : A) → Q log' (finished a) → Runs P R log' (rest a))
    → ((log' : Log) → Q log' crashed → R log' crashed)
    → Runs P R log (attempt m on_failure rest)
attempt-Runs P Q R log (end (finished a)) on_failure rest h bad good crash = good log a h
attempt-Runs P Q R log (end (failing f)) on_failure rest h bad good crash = bad log f h
attempt-Runs P Q R log (end crashed) on_failure rest h bad good crash = crash log h
attempt-Runs P Q R log (ask q k) on_failure rest (sent, h) bad good crash =
    (sent, λ r. attempt-Runs P Q R ((q, r) ∷ log) (k r) on_failure rest (h r) bad good crash)

-- What follows from what holds of a program holds of it too.
pub Runs-mono {ℓ} :
    {A : Type ℓ} (P P' : Log → Request → Type 0) (Q Q' : Log → Outcome A → Type 0) (log : Log)
    (m : Program A)
    → Runs P Q log m
    → ((log' : Log) (q : Request) → P log' q → P' log' q)
    → ((log' : Log) (o : Outcome A) → Q log' o → Q' log' o)
    → Runs P' Q' log m
Runs-mono P P' Q Q' log (end o) h f g = g log o h
Runs-mono P P' Q Q' log (ask q k) (sent, h) f g =
    (f log q sent, λ r. Runs-mono P P' Q Q' ((q, r) ∷ log) (k r) (h r) f g)

abbrev pub is_reply {ℓ} : {A : Type ℓ} → Reply A → Bool
is_reply (reply a) = true
is_reply (failed text) = false

-- The request was answered without an error.
abbrev pub is_answered : (q : Request) → Response q → Bool
is_answered (get_cell name) r = is_reply r
is_answered (get_router name) r = is_reply r
is_answered (get_object kind namespace name) r = is_reply r
is_answered list_cells r = is_reply r
is_answered list_routers r = is_reply r
is_answered list_placements r = is_reply r
is_answered (list_endpoint_slices namespace service) r = is_reply r
is_answered (list_objects kind namespace labels) r = is_reply r
is_answered (write_object w) r = is_reply r
is_answered (delete_object kind h) r = is_reply r
is_answered (patch_cell before after) r = is_reply r
is_answered (patch_cell_status before after) r = is_reply r
is_answered (patch_router before after) r = is_reply r
is_answered (patch_router_status before after) r = is_reply r
is_answered (patch_placement_status before after) r = is_reply r

-- A request has failed.
abbrev pub has_failed : Log → Bool
has_failed [] = false
has_failed ((q, r) ∷ log) = not (is_answered q r) || has_failed log

-- A value after requests that all succeeded, an error after one that failed, and no panic.
abbrev pub IsHonest {ℓ} : {A : Type ℓ} → Log → Outcome A → Type 0
IsHonest log (finished a) = has_failed log ≡ false
IsHonest log (failing f) = has_failed log ≡ true
IsHonest log crashed = ⊥

-- One program after another, where an error of the first one is that of both.
pub >>=-IsHonest {ℓ κ} :
    {A : Type ℓ} {B : Type κ} (P : Log → Request → Type 0) (log : Log) (m : Program A)
    (rest : A → Program B)
    → Runs P IsHonest log m
    → ((log' : Log) (a : A) → has_failed log' ≡ false → Runs P IsHonest log' (rest a))
    → Runs P IsHonest log (m >>= rest)
>>=-IsHonest P log m rest h good =
    attempt-Runs P IsHonest IsHonest log m fail rest h (λ log' f failed. failed)
      (λ log' a fine. good log' a fine) (λ log' e. e)

-- A single request, whose answer is not used.
module _ (P : Log → Request → Type 0) (log : Log) (fine : has_failed log ≡ false) where
  pub delete_found-IsHonest :
      (kind : Kind) (h : Header)
      → P log (delete_object kind h)
      → Runs P IsHonest log (delete_found kind h)
  delete_found-IsHonest kind h sent = (sent, elim [ reply found ↦ fine | failed text ↦ refl ])

  pub write-IsHonest :
      (w : Write) → P log (write_object w) → Runs P IsHonest log (ask (write_object w) void_reply)
  write-IsHonest w sent = (sent, elim [ reply parents ↦ fine | failed text ↦ refl ])

pub if-Runs {ℓ} :
    {A : Type ℓ} (P : Log → Request → Type 0) (Q : Log → Outcome A → Type 0) (log : Log) (b : Bool)
    (m n : Program A)
    → (b ≡ true → Runs P Q log m)
    → (b ≡ false → Runs P Q log n)
    → Runs P Q log (if b then m else n)
if-Runs P Q log true m n taken other = taken refl
if-Runs P Q log false m n taken other = other refl

pub option-Runs {ℓ κ} :
    {A : Type ℓ} {B : Type κ} (P : Log → Request → Type 0) (Q : Log → Outcome A → Type 0)
    (log : Log) (o : Option B) (m : Program A) (f : B → Program A)
    → Runs P Q log m
    → ((b : B) → o ≡ some b → Runs P Q log (f b))
    → Runs P Q log (elim o [ none ↦ m | some b ↦ f b ])
option-Runs P Q log none m f absent there = absent
option-Runs P Q log (some b) m f absent there = there b refl

-- A log that goes on from another one.
abbrev pub Extends : Log → Log → Type 0
Extends base log = (new : Log) × (log ≡ new ++ base)

-- Whatever a program sends, it sends after what was sent before it.
pub Extends-Runs {ℓ} :
    {A : Type ℓ} (P : Log → Request → Type 0) (base log : Log) (m : Program A)
    → Extends base log
    → ((l : Log) (q : Request) → Extends base l → P l q)
    → Runs P (λ l o. Unit) log m
Extends-Runs P base log (end o) after sent = tt
Extends-Runs P base log (ask q k) (new, same) sent = (
  sent log q (new, same),
  λ r.
      Extends-Runs P base ((q, r) ∷ log) (k r) ((q, r) ∷ new, ap (λ (l : Log). (q, r) ∷ l) same)
        sent,
)

pub Extends-trans : {a b c : Log} → Extends a b → Extends b c → Extends a c
Extends-trans {a} (new, e) (more, e') = (more ++ new, rw (e', e) (sym (append_assoc more new a)))

-- What was sent before stays in the log.
pub Runs-Extends {ℓ} :
    {A : Type ℓ} (P : Log → Request → Type 0) (Q : Log → Outcome A → Type 0) (base log : Log)
    (m : Program A)
    → Extends base log
    → Runs P Q log m
    → Runs P (λ l o. Q l o × Extends base l) log m
Runs-Extends P Q base log (end o) after h = (h, after)
Runs-Extends P Q base log (ask q k) (new, same) (sent, h) = (
  sent,
  λ r.
      Runs-Extends P Q base ((q, r) ∷ log) (k r) ((q, r) ∷ new, ap (λ (l : Log). (q, r) ∷ l) same)
        (h r),
)
