-- ===== src/Base/Entries.antt =====
-- A Go map with string keys as a list of entries with different keys.
use mathlib.Core.Path.{◌≡◌, refl}
use mathlib.Core.Logic.{inl, inr}
use mathlib.Core.Bool.{Bool, true}
use mathlib.Core.Option.{Option, none, some}
use mathlib.Core.List.{List, [], ◌∷◌}
use native.Mathlib.Omega.{arith}
use cell_router_operator.Base.Tests.{if◌then◌else◌, Bool-cases}
use cell_router_operator.Base.Lists.{any}
use cell_router_operator.Base.Strings.{Text, text_eq, text_eq_iff, text_eq_refl}

abbrev pub Dict {ℓ} : Type ℓ → Type ℓ
Dict V = List (Text × V)

module _ {ℓ} {V : Type ℓ} where
  -- `m[k]` with its second result.
  unfoldable pub lookup : Text → Dict V → Option V
  unfolding text_eq
  lookup k [] = none
  lookup k ((j, v) ∷ m) = if text_eq j k then some v else lookup k m

  -- `m[k] = v`.
  unfoldable pub insert : Text → V → Dict V → Dict V
  unfolding text_eq
  insert k v [] = (k, v) ∷ []
  insert k v ((j, w) ∷ m) = if text_eq j k then (k, v) ∷ m else (j, w) ∷ insert k v m

  pub lookup-insert :
      (k j : Text) (v : V) (m : Dict V)
      → lookup j (insert k v m) ≡ (if text_eq k j then some v else lookup j m)
  unfolding lookup insert
  lookup-insert k j v [] = refl
  lookup-insert k j v ((i, w) ∷ m) =
      ground (arith, text_eq_iff k j, text_eq_iff i k, text_eq_iff i j, lookup-insert k j v m)

  -- The keys differ.
  abbrev pub IsDict : Dict V → Type ℓ
  IsDict [] = Unit
  IsDict ((k, v) ∷ m) = (lookup k m ≡ none) × IsDict m

  pub insert-IsDict : (k : Text) (v : V) (m : Dict V) → IsDict m → IsDict (insert k v m)
  unfolding insert
  insert-IsDict k v [] d = (unfold lookup in refl, tt)
  insert-IsDict k v ((i, w) ∷ m) d = elim (Bool-cases (text_eq i k)) [
    | inl same ↦ rw same (ground (arith, text_eq_iff i k))
    | inr other ↦ rw other (
        ground
          (arith, lookup-insert k i v m, text_eq_iff i k, text_eq_iff k i, insert-IsDict k v m))
  ]

  -- An entry passes a test exactly if some key leads to it.
  pub any-entry_sound :
      (f : Text → V → Bool) (m : Dict V)
      → IsDict m
      → any (λ e. f e.0 e.1) m ≡ true
      → (k : Text) × (v : V) × (lookup k m ≡ some v) × (f k v ≡ true)
  unfolding lookup
  any-entry_sound f [] d h = ground arith
  any-entry_sound f ((i, w) ∷ m) d h = elim (Bool-cases (f i w)) [
    | inl here ↦ (i, w, rw (text_eq_refl i) refl, here)
    | inr later ↦
        let (k, v, found, passed) = any-entry_sound f m d.1 (ground arith) in
        (k, v, ground (arith, text_eq_iff i k), passed)
  ]

  pub any-entry_complete :
      (f : Text → V → Bool) (m : Dict V) (k : Text) (v : V)
      → lookup k m ≡ some v
      → f k v ≡ true
      → any (λ e. f e.0 e.1) m ≡ true
  unfolding lookup
  any-entry_complete f [] k v found passed = cc
  any-entry_complete f ((i, w) ∷ m) k v found passed =
      ground (arith, text_eq_iff i k, any-entry_complete f m k v)
