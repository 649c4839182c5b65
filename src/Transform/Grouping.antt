-- ===== src/Transform/Grouping.antt =====
-- `tGrouping`, `tLeaveOne`, `tFilter` and `tCount` of transformationCore.ts: what groups clips and what
-- takes clips from groups.
pub mod Members
pub mod Groups
use Prim.Native.String.{◌++◌ as push_str}
use dmp.Base.{
  ℕ, zero, suc, String, Bool, true, false, Option, none, some, List, [], ◌∷◌, ◌++◌, if◌then◌else◌,
  all, map, not, lookup, insert, length, get_elem?, ◌==◌,
}
use dmp.Model.Value.{
  Value, undefined, null, boolean, number, text, array, object, inherited, Clip, Js, entries,
  of_clip, read, has, inherits, is_undefined, strict_equal, listing,
}
use dmp.Model.World.{Env}
use dmp.Formulas.{
  Ast, ValueVerifier, Outcome, Failure, ok, failed, plain, type_error, iast_helper,
  valid_value_with_verifier, ◌>>=◌ as and_then,
}
use dmp.Transform.Data.{
  Store, Ref, Table, flat, nested, Run, pure, fail, lift, ◌>>=◌, ◌>>◌, alloc, for_each,
}

-- `data.length > 0 && Array.isArray(data[0])`
abbrev pub as_flat : Table → Option (List Ref)
as_flat (flat xs) = some xs
as_flat (nested []) = some []
as_flat (nested (g ∷ gs)) = none

-- `data.length > 0 && !Array.isArray(data[0])`
abbrev pub as_nested : Table → Option (List (List Ref))
as_nested (nested gs) = some gs
as_nested (flat []) = some []
as_nested (flat (x ∷ xs)) = none

unfoldable pub require_flat : Table → Run (List Ref)
require_flat t = elim (as_flat t) [
  | some xs ↦ pure xs
  | none ↦
      fail (plain "Input data must be of type IDataTransformationClipArray (A[]) and not A[][]")
]

unfoldable pub require_nested : Table → Run (List (List Ref))
require_nested t = elim (as_nested t) [
  | some gs ↦ pure gs
  | none ↦ fail (plain "Input data must be of type A[][] (array of arrays) and not A[]")
]

-- An element as a value.
abbrev pub peek : Store → Ref → Value
peek s none = undefined
peek s (some r) = elim (get_elem? s r) [ none ↦ undefined | some c ↦ of_clip c ]

-- `findValue`; of what is inherited only the prototype itself is an object and no function.
unfoldable pub find_value : Js → Value → List String → Value
find_value js v [] = v
find_value js undefined (k ∷ ks) = undefined
find_value js null (k ∷ ks) = null
find_value js (object es) (k ∷ ks) =
    let rest = find_value js (read k (entries es)) ks in
    if has k (entries es) then rest else undefined
find_value js (array vs) (k ∷ ks) = find_value js (js.member (array vs) k) ks
find_value js (inherited p) (k ∷ ks) =
    let rest = find_value js (js.member (inherited p) k) ks in
    if p == "__proto__" then rest else undefined
find_value js v (k ∷ ks) = undefined

-- `getValueFromNestedKey`
unfoldable pub get_value_from_nested_key : Js → Value → String → Value
unfolding find_value
get_value_from_nested_key js v key = find_value js v (js.parts key)

-- `join('|')`
abbrev pub join : List String → String
join [] = ""
join (s ∷ []) = s
join (s ∷ t ∷ ts) = push_str s (push_str "|" (join (t ∷ ts)))

-- The group's key of an item, `none` where one of the keys is missing.
unfoldable pub group_key : Js → List String → Value → Option String
group_key js keys v =
    if all (λ k. not (is_undefined (get_value_from_nested_key js v k))) keys
    then some (join (map (λ k. js.to_text (get_value_from_nested_key js v k)) keys))
    else none

abbrev pub Groups : Type 0
Groups = List (String × List Ref)

-- `if (!groupsMap[groupKey]) …; groupsMap[groupKey].push(item)`: what `Object.prototype` has under the key
-- is no array.
unfoldable pub push_group : String → Ref → Groups → Outcome Groups
push_group k item groups = elim (lookup k groups) [
  | some g ↦ ok (insert k (g ++ item ∷ []) groups)
  | none ↦ if inherits k then failed type_error else ok (insert k (item ∷ []) groups)
]

-- The loop over the items, each with its key.
unfoldable pub group_items :
    Bool
    → (Ref → Option String)
    → List Ref
    → Groups
    → List (List Ref)
    → Outcome (Groups × List (List Ref))
unfolding push_group
group_items skip key [] groups unmatched = ok (groups, unmatched)
group_items skip key (i ∷ is) groups unmatched = elim (key i) [
  | none ↦ group_items skip key is groups (if skip then unmatched else unmatched ++ (i ∷ []) ∷ [])
  | some k ↦ and_then (push_group k i groups) (λ next. group_items skip key is next unmatched)
]

-- `tGrouping.transform`
unfoldable pub group : Js → List String → Bool → Table → Run Table
unfolding group_items group_key require_flat ◌>>=◌
group js keys skip_unmatch t = do
  items ← require_flat t
  λ s.
      lift
        (and_then (group_items skip_unmatch (λ i. group_key js keys (peek s i)) items [] [])
          (λ r. ok (nested (map (λ p. p.1) (listing r.0) ++ r.1))))
        s

-- `scores.indexOf(n)`, as the element at that index; undefined where there is none.
abbrev pub at_score : Js → Value → List Value → List Ref → Ref
at_score js best (v ∷ vs) (i ∷ is) = if strict_equal js v best then i else at_score js best vs is
at_score js best _ _ = none

-- `tLeaveOne.transform`
unfoldable pub leave_one : Js → Ast → Bool → Table → Run Table
unfolding require_nested for_each ◌>>=◌
leave_one js score_formula is_descend t = do
  groups ← require_nested t
  merged ←
      for_each
        (λ items. do
          scores ← for_each (λ i s. lift (iast_helper js score_formula (peek s i)) s) items
          let best = if is_descend then js.maximum scores else js.minimum scores
          pure (at_score js (number best) scores items))
        groups
  pure (flat merged)

-- `this.filters[key].every(…)`
unfoldable pub all_valid : Env → Value → List ValueVerifier → Outcome Bool
all_valid env v [] = ok true
all_valid env v (e ∷ es) =
    let rest = all_valid env v es in
    and_then (valid_value_with_verifier env v e) (λ b. if b then rest else ok false)

-- `isValidItem`
unfoldable pub is_valid_item : Env → List (String × List ValueVerifier) → Value → Outcome Bool
unfolding all_valid
is_valid_item env [] v = ok false
is_valid_item env ((k, es) ∷ fs) v =
    let rest = is_valid_item env fs v in
    and_then (all_valid env v es) (λ b. if b then ok true else rest)

-- `items.filter(item => this.isValidItem(item))`
unfoldable pub filter_items : (Ref → Outcome Bool) → List Ref → Outcome (List Ref)
filter_items valid [] = ok []
filter_items valid (i ∷ is) = do
  let rest = filter_items valid is
  and_then (valid i) (λ b. and_then rest (λ kept. ok (if b then i ∷ kept else kept)))

-- One array, with the filters in the order of their keys.
unfoldable pub filter_group : Env → List (String × List ValueVerifier) → List Ref → Run (List Ref)
unfolding is_valid_item filter_items ◌>>=◌
filter_group env filters items s =
    lift (filter_items (λ i. is_valid_item env (listing filters) (peek s i)) items) s

-- `tFilter.transform`
unfoldable pub filter_table : Env → List (String × List ValueVerifier) → Table → Run Table
unfolding filter_group for_each ◌>>=◌
filter_table env filters (nested (g ∷ gs)) = do
  groups ← for_each (filter_group env filters) (g ∷ gs)
  pure (nested groups)
filter_table env filters (nested []) = pure (flat [])
filter_table env filters (flat items) = do kept ← filter_group env filters items; pure (flat kept)

abbrev pub is_empty {ℓ} : {A : Type ℓ} → List A → Bool
is_empty [] = true
is_empty (x ∷ xs) = false

abbrev pub first : List Ref → Ref
first [] = none
first (i ∷ is) = i

-- `addedKeyRules`: the key's formula and the value's.
abbrev pub KeyRules : Type 0
KeyRules = List (Ast × Ast)

-- `item[IASTHelper(key)] = IASTHelper(value)` for each rule.
unfoldable pub add_keys : Js → KeyRules → Value → Clip → Outcome Clip
add_keys js [] v c = ok c
add_keys js (rule ∷ rules) v c =
    and_then (iast_helper js rule.0 v) (λ k.
      and_then (iast_helper js rule.1 v) (λ x. add_keys js rules v (insert (js.to_text k) x c)))

-- `tCount.transform`
unfoldable pub count : Js → KeyRules → Table → Run Table
unfolding require_nested for_each alloc add_keys ◌>>=◌
count js added_key_rules t = do
  groups ← require_nested t
  counts ←
      for_each
        (λ items. do
          item ← λ s.
              lift
                (add_keys js added_key_rules (peek s (first items))
                  (("count", number (js.of_length (length items))) ∷ []))
                s
          alloc item)
        groups
  pure (flat counts)
