-- ===== src/Prelude/Maps.antt =====
-- `Map` and plain objects of the source as association lists in insertion order.
use mathlib.Core.Path.{◌≡◌, refl}
use mathlib.Core.Logic.{inl, inr}
use mathlib.Core.Bool.{Bool}
use mathlib.Core.Option.{Option, none, some}
use mathlib.Core.List.{List, [], ◌∷◌}
use native.Mathlib.Omega.{arith}
use Prim.Native.String.{String}
use text.Mathlib.TextEquality.{eq_iff}
use grid_story.Prelude.Tests.{if◌then◌else◌, Bool-cases, is_some}
use grid_story.Prelude.Equality.{◌==◌, string_eq}
use grid_story.Prelude.Lists.{Member, here, there}

module _ {ℓ} {V : Type ℓ} where
  -- `map.get(key)`.
  abbrev pub lookup : String → List (String × V) → Option V
  lookup key [] = none
  lookup key ((first, value) ∷ rest) = if first == key then some value else lookup key rest

  -- `map.set(key, value)`: an existing key keeps its place.
  abbrev pub insert : String → V → List (String × V) → List (String × V)
  insert key value [] = (key, value) ∷ []
  insert key value ((first, old) ∷ rest) =
      if first == key then (first, value) ∷ rest else (first, old) ∷ insert key value rest

  -- `new Map(entries)`, from the entries on the left of the list on.
  abbrev pub insert_all : List (String × V) → List (String × V) → List (String × V)
  insert_all m [] = m
  insert_all m ((k, v) ∷ es) = insert_all (insert k v m) es

  abbrev pub has_key : String → List (String × V) → Bool
  has_key k m = is_some (lookup k m)

  abbrev pub keys : List (String × V) → List String
  keys [] = []
  keys ((k, v) ∷ m) = k ∷ keys m

  pub lookup-insert :
      (key other : String) (value : V) (entries : List (String × V))
      → lookup other (insert key value entries)
        ≡ (if key == other then some value else lookup other entries)
  lookup-insert key other value [] = refl
  lookup-insert key other value ((first, old) ∷ rest) = ground (
    arith,
    lookup-insert key other value rest,
    eq_iff first key,
    eq_iff first other,
    eq_iff key other,
  )

  pub lookup-Member :
      (k : String) (m : List (String × V)) {v : V} → lookup k m ≡ some v → Member (k, v) m
  lookup-Member k [] h = cc
  lookup-Member k ((j, w) ∷ m) {v} h = elim (Bool-cases (j == k)) [
    | inl e ↦ here (ground (arith, eq_iff j k))
    | inr e ↦ there (lookup-Member k m (ground arith))
  ]
