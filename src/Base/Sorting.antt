-- ===== src/Base/Sorting.antt =====
-- `sort.Strings` as insertion sort, and the removal of neighbours that are equal.
use mathlib.Core.Path.{◌≡◌, refl, ◌∙◌, ap, ap₂}
use mathlib.Core.Bool.{Bool, ◌||◌}
use mathlib.Core.Logic.{∥∥₁_elim}
use mathlib.Core.HLevel.{hedberg}
use mathlib.Core.List.{List, [], ◌∷◌, Perm, Permᴰ}
use native.Mathlib.Omega.{arith}
use native.Mathlib.Decide.{ℕ_discrete}
use cell_router_operator.Base.Tests.{if◌then◌else◌}
use cell_router_operator.Base.Lists.{any}
use cell_router_operator.Base.Strings.{Text, text_eq, text_le, text_eq_iff}
use cell_router_operator.Base.Strings.{text_le_total, text_le_antisymm, text_le_trans}

insert_text : Text → List Text → List Text
insert_text x [] = x ∷ []
insert_text x (y ∷ ys) = if text_le x y then x ∷ y ∷ ys else y ∷ insert_text x ys

-- Every sort by a total order gives this list.
unfoldable pub sort_texts : List Text → List Text
unfolding insert_text text_le
sort_texts [] = []
sort_texts (x ∷ xs) = insert_text x (sort_texts xs)

-- The loop of a scan that keeps a text if it differs from the last one kept.
unfoldable pub drop_repeats : Text → List Text → List Text
unfolding text_eq
drop_repeats last [] = []
drop_repeats last (x ∷ xs) =
    let same = drop_repeats last xs in
    let other = drop_repeats x xs in if text_eq x last then same else x ∷ other

module _ (p : Text → Bool) where
  any-insert_text : (x : Text) (xs : List Text) → any p (insert_text x xs) ≡ (p x || any p xs)
  unfolding insert_text
  any-insert_text x [] = refl
  any-insert_text x (y ∷ ys) = ground (arith, any-insert_text x ys)

  pub any-sort_texts : (xs : List Text) → any p (sort_texts xs) ≡ any p xs
  unfolding sort_texts
  any-sort_texts [] = refl
  any-sort_texts (x ∷ xs) =
      any-insert_text x (sort_texts xs) ∙ ap (λ b. p x || b) (any-sort_texts xs)

  pub any-drop_repeats :
      (x : Text) (xs : List Text) → (p x || any p (drop_repeats x xs)) ≡ (p x || any p xs)
  unfolding drop_repeats
  any-drop_repeats x [] = refl
  any-drop_repeats x (y ∷ ys) =
      ground (arith, any-drop_repeats x ys, any-drop_repeats y ys, text_eq_iff y x)

insert_text_comm :
    (x y : Text) (l : List Text) → insert_text x (insert_text y l) ≡ insert_text y (insert_text x l)
unfolding insert_text
insert_text_comm x y [] = ground (arith, text_le_total x y, text_le_antisymm x y)
insert_text_comm x y (z ∷ l) = ground (
  arith,
  insert_text_comm x y l,
  text_le_total x y,
  text_le_antisymm x y,
  text_le_trans x y z,
  text_le_trans y x z,
)

sort_texts-Permᴰ : {xs ys : List Text} → Permᴰ xs ys → sort_texts xs ≡ sort_texts ys
unfolding sort_texts
sort_texts-Permᴰ Permᴰ.nil = refl
sort_texts-Permᴰ (Permᴰ.cons e p) = ap₂ insert_text e (sort_texts-Permᴰ p)
sort_texts-Permᴰ (Permᴰ.swap {a} {b} {l} e h) = rw (← e, ← h) (insert_text_comm a b (sort_texts l))
sort_texts-Permᴰ (Permᴰ.trans p q) = sort_texts-Permᴰ p ∙ sort_texts-Permᴰ q

List_Text-discrete : Discrete (List Text)
List_Text-discrete = hlevel ℕ_discrete

-- The sorted list does not depend on the order of the texts.
pub sort_texts-Perm : {xs ys : List Text} → Perm xs ys → sort_texts xs ≡ sort_texts ys
sort_texts-Perm p = ∥∥₁_elim p (hedberg List_Text-discrete _ _) sort_texts-Permᴰ
