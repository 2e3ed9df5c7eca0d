-- ===== src/Base/Assoc.antt =====
-- Python's `dict` with numbers or texts for keys, as an association list.
use Prim.Native.Nat.{ℕ}
use mathlib.Core.Path.{◌≡◌, refl, ◌∙◌}
use mathlib.Core.Option.{Option, none, some}
use mathlib.Core.List.{List, [], ◌∷◌}
use native.Mathlib.Omega.{arith}
use version_control_tools_fx.Base.Tests.{ltb, ◌==◌, if◌then◌else◌}
use version_control_tools_fx.Base.Strings.{Text, text_eq, text_eq_iff}

module _ {ℓ} {V : Type ℓ} where
  -- `d[k]` where `none` stands for a missing key
  unfoldable pub lookup : ℕ → List (ℕ × V) → Option V
  lookup k [] = none
  lookup k ((j, v) ∷ m) = if j == k then some v else lookup k m

  -- one step of `sorted(d.items())`
  unfoldable pub insert_sorted : ℕ → V → List (ℕ × V) → List (ℕ × V)
  insert_sorted k v [] = (k, v) ∷ []
  insert_sorted k v ((j, w) ∷ m) =
      if ltb j k then (j, w) ∷ insert_sorted k v m else (k, v) ∷ (j, w) ∷ m

  -- `sorted(d.items())`; the keys of a dict differ, so the values are not compared
  unfoldable pub sorted_items : List (ℕ × V) → List (ℕ × V)
  unfolding insert_sorted
  sorted_items [] = []
  sorted_items ((k, v) ∷ m) = insert_sorted k v (sorted_items m)

  pub lookup-insert_sorted :
      (p k : ℕ) (v : V) (m : List (ℕ × V))
      → lookup p (insert_sorted k v m) ≡ (if k == p then some v else lookup p m)
  unfolding lookup insert_sorted
  lookup-insert_sorted p k v [] = refl
  lookup-insert_sorted p k v ((j, w) ∷ m) = ground (arith, lookup-insert_sorted p k v m)

  pub lookup-sorted_items : (p : ℕ) (m : List (ℕ × V)) → lookup p (sorted_items m) ≡ lookup p m
  unfolding lookup sorted_items
  lookup-sorted_items p [] = refl
  lookup-sorted_items p ((k, v) ∷ m) =
      ground (arith, lookup-insert_sorted p k v (sorted_items m), lookup-sorted_items p m)

  -- A dict has each key once.
  abbrev pub IsDict : List (ℕ × V) → Type ℓ
  IsDict [] = Unit
  IsDict ((k, v) ∷ m) = (lookup k m ≡ none) × IsDict m

  insert_sorted-IsDict :
      (k : ℕ) (v : V) (m : List (ℕ × V))
      → lookup k m ≡ none
      → IsDict m
      → IsDict (insert_sorted k v m)
  unfolding lookup insert_sorted
  insert_sorted-IsDict k v [] h d = (refl, tt)
  insert_sorted-IsDict k v ((j, w) ∷ m) h d =
      ground (arith, lookup-insert_sorted j k v m, insert_sorted-IsDict k v m)

  pub sorted_items-IsDict : (m : List (ℕ × V)) → IsDict m → IsDict (sorted_items m)
  unfolding sorted_items
  sorted_items-IsDict [] d = tt
  sorted_items-IsDict ((k, v) ∷ m) d =
      insert_sorted-IsDict k v (sorted_items m) (lookup-sorted_items k m ∙ d.0)
        (sorted_items-IsDict m d.1)

  -- a dict keyed by texts
  unfoldable pub find : Text → List (Text × V) → Option V
  find k [] = none
  find k ((j, v) ∷ m) = if text_eq j k then some v else find k m

  -- `d[k] = v`
  unfoldable pub assign : Text → V → List (Text × V) → List (Text × V)
  assign k v [] = (k, v) ∷ []
  assign k v ((j, w) ∷ m) = if text_eq j k then (j, v) ∷ m else (j, w) ∷ assign k v m

  pub find-assign :
      (k j : Text) (v : V) (m : List (Text × V))
      → find j (assign k v m) ≡ (if text_eq k j then some v else find j m)
  unfolding find assign
  find-assign k j v [] = refl
  find-assign k j v ((i, w) ∷ m) =
      ground (arith, text_eq_iff k j, text_eq_iff i k, text_eq_iff i j, find-assign k j v m)
