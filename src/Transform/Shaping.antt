-- ===== src/Transform/Shaping.antt =====
-- `tAffine`, `tJoin`, `tConcat`, `tDeconcat`, `tDegroup` and `tFlatten` of transformationCore.ts: what
-- makes clips of other keys. A value that is put into a clip is copied.
use dmp.Base.Decimal.{decimal}
use dmp.Base.{
  ℕ, suc, String, Bool, ◌||◌, Option, none, some, List, [], ◌∷◌, ◌++◌, if◌then◌else◌, not, includes,
  lookup, insert, remove,
}
use dmp.Model.Value.{
  Value, array, object, Clip, Js, items, of_items, entries, read, has, holds, inherits, listing,
}
use dmp.Formulas.{Ast, Outcome, ok, failed, type_error, iast_helper, bad_node, ◌>>=◌ as and_then}
use dmp.Transform.Data.{
  Ref, Table, flat, nested, Run, pure, lift, ◌>>=◌, ◌>>◌, alloc, load, store, for_each,
}
use dmp.Transform.Grouping.{KeyRules, peek, require_flat, require_nested, is_empty}

-- `this.rules[key]` for one key of the item: the rule, what every object has under the key, or nothing.
unfoldable pub apply_rule : Js → List (String × Ast) → String → Clip → Outcome Clip
unfolding bad_node
apply_rule js rules k c = elim (lookup k rules) [
  | some rule ↦ and_then (iast_helper js rule (read k c)) (λ v. ok (insert k v c))
  | none ↦ if inherits k then and_then bad_node (λ _. ok c) else ok c
]

unfoldable pub apply_rules : Js → List (String × Ast) → List (String × Value) → Clip → Outcome Clip
unfolding apply_rule
apply_rules js rules [] c = ok c
apply_rules js rules ((k, _) ∷ ks) c =
    and_then (apply_rule js rules k c) (λ c'. apply_rules js rules ks c')

unfoldable pub remove_keys : List String → Clip → Clip
remove_keys [] c = c
remove_keys (k ∷ ks) c = remove_keys ks (remove k c)

-- The keys that are added, each written to the item before the next rule is evaluated on it.
unfoldable pub add_to_item : Js → KeyRules → Ref → Run (Unit {0})
unfolding load store ◌>>=◌
add_to_item js [] item = pure tt
add_to_item js (rule ∷ rules) item = do
  k ← λ s. lift (iast_helper js rule.0 (peek s item)) s
  v ← λ s. lift (iast_helper js rule.1 (peek s item)) s
  c ← load item
  store item (insert (js.to_text k) v c)
  add_to_item js rules item

-- One item of `tAffine`: the item itself is changed. It is kept if it has keys left.
unfoldable pub affine_item : Js → List String → List (String × Ast) → KeyRules → Ref → Run Bool
unfolding add_to_item load store apply_rules remove_keys ◌>>=◌
affine_item js removed_keys rules added_key_rules item = do
  add_to_item js added_key_rules item
  c ← load item
  ruled ← lift (apply_rules js rules (listing c) c)
  store item (remove_keys removed_keys ruled)
  pure (not (is_empty (remove_keys removed_keys ruled)))

abbrev pub kept : List Ref → List Bool → List Ref
kept (i ∷ is) (b ∷ bs) = if b then i ∷ kept is bs else kept is bs
kept _ _ = []

-- `tAffine.transform`
unfoldable pub affine : Js → List String → List (String × Ast) → KeyRules → Table → Run Table
unfolding require_flat for_each affine_item ◌>>=◌
affine js removed_keys rules added_key_rules t = do
  is ← require_flat t
  bs ← for_each (affine_item js removed_keys rules added_key_rules) is
  pure (flat (kept is bs))

-- `{ ...obj, ...item }`
abbrev pub spread : Clip → Clip → Clip
spread obj [] = obj
spread obj ((k, v) ∷ es) = spread (insert k v obj) es

-- The clip behind an element; undefined spreads nothing.
unfoldable pub spreadable : Ref → Run Clip
unfolding load ◌>>=◌
spreadable none = pure []
spreadable (some r) = load (some r)

unfoldable pub join_items : Clip → List Ref → Run Clip
unfolding spreadable ◌>>=◌
join_items obj [] = pure obj
join_items obj (i ∷ is) = do item ← spreadable i; join_items (spread obj item) is

-- `tJoin.transform`; the reserved keys are not read.
unfoldable pub join : Table → Run Table
unfolding require_nested for_each join_items alloc ◌>>=◌
join t = do
  groups ← require_nested t
  joined ← for_each (λ is. do obj ← join_items [] is; alloc obj) groups
  pure (flat joined)

-- One key of one item of `tConcat`.
unfoldable pub concat_entry : Js → List String → String → Value → Clip → Outcome Clip
concat_entry js concat_keys k v result =
    if includes concat_keys k
    then (elim (read k result) [
      | array vs ↦ ok (insert k (array (of_items (items vs ++ v ∷ []))) result)
      | w ↦
          if holds js w then failed type_error else ok (insert k (array (of_items (v ∷ []))) result)
    ])
    else ok (if holds js (read k result) then result else insert k v result)

unfoldable pub concat_item : Js → List String → Clip → Clip → Outcome Clip
unfolding concat_entry
concat_item js concat_keys [] result = ok result
concat_item js concat_keys ((k, v) ∷ es) result =
    and_then (concat_entry js concat_keys k v result) (λ r. concat_item js concat_keys es r)

unfoldable pub concat_items : Js → List String → List Ref → Clip → Run Clip
unfolding load concat_item ◌>>=◌
concat_items js concat_keys [] result = pure result
concat_items js concat_keys (i ∷ is) result = do
  c ← load i
  r ← lift (concat_item js concat_keys (listing c) result)
  concat_items js concat_keys is r

-- `tConcat.transform`
unfoldable pub concat : Js → List String → Table → Run Table
unfolding require_nested for_each concat_items alloc ◌>>=◌
concat js concat_keys t = do
  groups ← require_nested t
  results ← for_each (λ is. do result ← concat_items js concat_keys is []; alloc result) groups
  pure (flat results)

-- `tDegroup`: `obj[key] = item[key]` for each of the keys.
unfoldable pub pick_keys : Ref → List String → Clip → Run Clip
unfolding load ◌>>=◌
pick_keys item [] obj = pure obj
pick_keys item (k ∷ ks) obj = do c ← load item; pick_keys item ks (insert k (read k c) obj)

-- `tDegroup.transform`
unfoldable pub degroup : List String → List (List String) → Table → Run Table
unfolding require_flat for_each pick_keys alloc ◌>>=◌
degroup shared_keys target_key_groups t = do
  is ← require_flat t
  split ←
      for_each
        (λ item.
          for_each
            (λ targets. do
              shared ← pick_keys item shared_keys []
              obj ← pick_keys item targets shared
              alloc obj)
            target_key_groups)
        is
  pure (nested split)

-- The entries that `for (const key in v)` visits, `none` where `v` is no object.
indices : ℕ → List Value → Clip
indices n [] = []
indices n (v ∷ vs) = (decimal n, v) ∷ indices (suc n) vs

unfoldable pub flattenable : Value → Option Clip
unfolding indices
flattenable (object es) = some (entries es)
flattenable (array vs) = some (indices 0 (items vs))
flattenable v = none

unfoldable pub flatten_entries : Bool → Clip → Clip → Clip → Clip
flatten_entries keep_flattened item [] flattened = flattened
flatten_entries keep_flattened item ((k, v) ∷ es) flattened =
    flatten_entries keep_flattened item es
      (if not keep_flattened || not (has k item) then insert k v flattened else flattened)

-- `flattenItem`
unfoldable pub flatten_item : Bool → String → Bool → Ref → Run Ref
unfolding load flattenable flatten_entries alloc ◌>>=◌
flatten_item keep_flattened flattened_key keep_flattened_key i = do
  item ← load i
  elim (flattenable (read flattened_key item)) [
    | none ↦ pure i
    | some es ↦
        let flattened = flatten_entries keep_flattened item es item in
        alloc (if keep_flattened_key then flattened else remove flattened_key flattened)
  ]

-- `tFlatten.transform`
unfoldable pub flatten : Bool → String → Bool → Table → Run Table
unfolding for_each flatten_item ◌>>=◌
flatten keep_flattened flattened_key keep_flattened_key (nested (g ∷ gs)) = do
  groups ←
      for_each (λ is. for_each (flatten_item keep_flattened flattened_key keep_flattened_key) is)
        (g ∷ gs)
  pure (nested groups)
flatten keep_flattened flattened_key keep_flattened_key (nested []) = pure (flat [])
flatten keep_flattened flattened_key keep_flattened_key (flat is) = do
  flattened ← for_each (flatten_item keep_flattened flattened_key keep_flattened_key) is
  pure (flat flattened)
