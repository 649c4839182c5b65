-- ===== src/Base/Dict.antt =====
-- Objects and maps with text keys, as association lists in the order of insertion: a write to a key that
-- is present keeps its place, as in JavaScript's `Map`.
use Prim.Native.String.{String}
use mathlib.Core.Path.{◌≡◌, ◌∙◌, refl}
use mathlib.Core.Logic.{inl, inr}
use mathlib.Core.Option.{Option, none, some}
use mathlib.Core.List.{List, [], ◌∷◌}
use native.Mathlib.Omega.{arith}
use text.Mathlib.Text.{◌==◌}
use text.Mathlib.TextEquality.{eq_iff}
use package.dmp.Base.Tests.{if◌then◌else◌, Bool-cases}

abbrev pub Dict {ℓ} : Type ℓ → Type ℓ
Dict V = List (String × V)

module _ {ℓ} {V : Type ℓ} where
  -- `map.get(key)`
  abbrev pub lookup : String → Dict V → Option V
  lookup key [] = none
  lookup key (first ∷ others) = if first.0 == key then some first.1 else lookup key others

  -- `map.set(key, value)`
  abbrev pub insert : String → V → Dict V → Dict V
  insert key value [] = (key, value) ∷ []
  insert key value (first ∷ others) =
      if first.0 == key then (first.0, value) ∷ others else first ∷ insert key value others

  -- `map.delete(key)`
  abbrev pub remove : String → Dict V → Dict V
  remove key [] = []
  remove key (first ∷ others) =
      if first.0 == key then remove key others else first ∷ remove key others

  pub lookup-insert :
      (written asked : String) (value : V) (dict : Dict V)
      → lookup asked (insert written value dict)
        ≡ (if written == asked then some value else lookup asked dict)
  lookup-insert written asked value [] = refl
  lookup-insert written asked value (first ∷ others) =
      let later = lookup-insert written asked value others in
      ground (arith, later, eq_iff written asked, eq_iff first.0 written, eq_iff first.0 asked)

  pub lookup-remove :
      (gone asked : String) (dict : Dict V)
      → lookup asked (remove gone dict) ≡ (if gone == asked then none else lookup asked dict)
  lookup-remove gone asked [] = ground arith
  lookup-remove gone asked (first ∷ others) =
      let later = lookup-remove gone asked others in
      ground (arith, later, eq_iff gone asked, eq_iff first.0 gone, eq_iff first.0 asked)

  -- Each key stands once.
  abbrev pub Keyed : List (String × V) → Type ℓ
  Keyed [] = Unit
  Keyed ((k, v) ∷ m) = (lookup k m ≡ none) × Keyed m

  pub insert-Keyed : (k : String) (v : V) (m : List (String × V)) → Keyed m → Keyed (insert k v m)
  insert-Keyed k v [] h = (refl, tt)
  insert-Keyed k v ((j, w) ∷ m) h = elim (Bool-cases (j == k)) [
    | inl e ↦ rw e h
    | inr e ↦
        rw e
          (lookup-insert k j v m ∙ ground (arith, eq_iff k j, eq_iff j k), insert-Keyed k v m h.1)
  ]
