-- ===== src/Transform/Combinations.antt =====
-- `tDeconcat` of transformationCore.ts: one clip for each combination of values.
pub mod Made
pub mod Product
use dmp.Base.Decimal.{decimal}
use Prim.Native.Nat.{max}
use dmp.Base.{
  ℕ, zero, suc, String, Option, none, some, List, [], ◌∷◌, ◌++◌, if◌then◌else◌, includes, map,
  lookup, insert, length, get_elem?, get_or,
}
use dmp.Model.Value.{
  Value, undefined, null, text, array, object, inherited, Clip, Js, items, entries, read, holds,
}
use dmp.Formulas.{Outcome, ok, failed, type_error, untyped, ◌>>=◌ as and_then}
use dmp.Transform.Data.{Ref, Table, nested, Run, pure, fail, lift, ◌>>=◌, alloc, load, for_each}
use dmp.Transform.Grouping.{as_flat, is_empty}

pub data MatchMode : Type 0 where
  combinations sequential : MatchMode

module _ {A : Type 0} where
  -- `a.flatMap(x => b.map(y => x.concat([y])))`
  unfoldable pub extend : List (List A) → List A → List (List A)
  extend [] b = []
  extend (x ∷ xs) b = map (λ y. x ++ y ∷ []) b ++ extend xs b

-- One round of `cartesianProduct`, with `item[key] || []` for the second factor.
unfoldable pub next_factor : Js → List (List Value) → Value → Outcome (List (List Value))
next_factor js a v =
    if holds js v
    then (elim v [
      | array vs ↦ ok (extend a (items vs))
      | _ ↦ if is_empty a then ok [] else failed type_error
    ])
    else ok (extend a [])

-- `cartesianProduct`
unfoldable pub cartesian_product : Js → List (List Value) → List Value → Outcome (List (List Value))
unfolding next_factor extend
cartesian_product js a [] = ok a
cartesian_product js a (v ∷ vs) = and_then (next_factor js a v) (λ b. cartesian_product js b vs)

-- `newObj[key] = values[index]`
unfoldable pub put_values : List String → List Value → Clip → Clip
put_values [] vs obj = obj
put_values (k ∷ ks) [] obj = put_values ks [] (insert k undefined obj)
put_values (k ∷ ks) (v ∷ vs) obj = put_values ks vs (insert k v obj)

-- The item's other keys.
unfoldable pub put_others : List String → Clip → Clip → Clip
put_others keys [] obj = obj
put_others keys ((k, v) ∷ es) obj =
    put_others keys es (if includes keys k then obj else insert k v obj)

-- `createDeconcatObject`, for keys other than `__proto__`, a write to which sets no property.
unfoldable pub create_deconcat_object : List String → Clip → List Value → Clip
unfolding put_values put_others
create_deconcat_object keys item values = put_others keys item (put_values keys values [])

-- `v?.length || 0`; an object's own `length` and that of a function are out of the declared types.
unfoldable pub length_of : Js → Value → Outcome ℕ
length_of js (array vs) = ok (length (items vs))
length_of js (text s) = ok (js.text_length s)
length_of js (object es) = elim (lookup "length" (entries es)) [
  | none ↦ ok 0
  | some v ↦ failed untyped
]
length_of js (inherited k) = failed untyped
length_of js v = ok 0

-- `v?.[i]`
unfoldable pub element : Js → Value → ℕ → Value
element js undefined i = undefined
element js null i = undefined
element js (array vs) i = get_or (get_elem? (items vs) i) undefined
element js (object es) i = read (decimal i) (entries es)
element js v i = js.member v (decimal i)

-- `Math.max(...)` of the lengths, as far as the loop reads it.
unfoldable pub max_length : Js → List Value → Outcome ℕ
unfolding length_of
max_length js [] = ok 0
max_length js (v ∷ vs) =
    let rest = max_length js vs in
    and_then (length_of js v) (λ n. and_then rest (λ m. ok (max n m)))

-- The rounds of the sequential loop: the values at the indices from `i` on.
unfoldable pub rows : Js → List Value → ℕ → ℕ → List (List Value)
unfolding element
rows js vs i zero = []
rows js vs i (suc n) = map (λ v. element js v i) vs ∷ rows js vs (suc i) n

-- The combinations of one item's values.
unfoldable pub values_of : Js → MatchMode → List Value → Outcome (List (List Value))
unfolding cartesian_product max_length rows
values_of js combinations vs = cartesian_product js ([] ∷ []) vs
values_of js sequential vs = and_then (max_length js vs) (λ n. ok (rows js vs 0 n))

-- One item. In sequence and without keys nothing of the item is read.
unfoldable pub deconcat_item : Js → List String → MatchMode → Ref → Run (List Ref)
unfolding load values_of create_deconcat_object for_each alloc ◌>>=◌
deconcat_item js [] sequential i = pure []
deconcat_item js keys mode i = do
  item ← load i
  found ← lift (values_of js mode (map (λ k. read k item) keys))
  for_each (λ values. alloc (create_deconcat_object keys item values)) found

-- `tDeconcat.transform`; an array of arrays, which nothing refuses, is out of the declared types.
unfoldable pub deconcat : Js → List String → Option MatchMode → Table → Run Table
unfolding for_each deconcat_item ◌>>=◌
deconcat js keys mode t = elim (as_flat t) [
  | none ↦ fail untyped
  | some is ↦ do
    results ← for_each (deconcat_item js keys (get_or mode combinations)) is
    pure (nested results)
]
