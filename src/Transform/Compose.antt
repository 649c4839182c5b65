-- ===== src/Transform/Compose.antt =====
-- `DataTransformationCore`: transformations by name, one after the other, and several such pipelines over
-- the same clips.
pub mod Fresh
pub mod Apart
use dmp.Base.{
  includes, String, Bool, true, false, Option, none, some, List, [], ◌∷◌, if◌then◌else◌, ◌==◌,
  lookup,
}
use Prim.Native.String.{◌++◌ as push_str}
use dmp.Model.Value.{listing, inherits}
use dmp.Model.World.{Env}
use dmp.Formulas.{Ast, ValueVerifier, plain, type_error, untyped}
use dmp.Transform.Data.{Ref, Table, flat, nested, Run, pure, fail, ◌>>=◌, ◌>>◌}
use dmp.Transform.Grouping.{KeyRules, group, leave_one, filter_table, count}
use dmp.Transform.Shaping.{affine, join, concat, degroup, flatten}
use dmp.Transform.Combinations.{MatchMode, deconcat}

-- The parameters of each class.
pub data Params : Type 0 where
  grouping : (keys : List String) (skip_unmatch : Bool) → Params
  affine_of : (removed_keys : List String) (rules : List (String × Ast)) → KeyRules → Params
  leave_one_of : (score_formula : Ast) (is_descend : Bool) → Params
  concat_of : (concat_keys : List String) → Params
  deconcat_of : (deconcat_keys : List String) → Option MatchMode → Params
  join_of : (reserved_keys : List String) → Params
  degroup_of : (shared_keys : List String) (target_key_groups : List (List String)) → Params
  filter_of : (filters : List (String × List ValueVerifier)) → Params
  flatten_of : (keep_flattened : Bool) (flattened_key : String) (keep_flattened_key : Bool) → Params
  count_of : KeyRules → Params

-- The name under which `transformationRegistry` has the class of the parameters.
abbrev pub name_of : Params → String
name_of (grouping ks s) = "GROUP"
name_of (affine_of ks rs ns) = "AFFINE"
name_of (leave_one_of f d) = "LEAVEONE"
name_of (concat_of ks) = "CONCAT"
name_of (deconcat_of ks m) = "DECONCAT"
name_of (join_of ks) = "JOIN"
name_of (degroup_of ks gs) = "DEGROUP"
name_of (filter_of fs) = "FILTER"
name_of (flatten_of a k b) = "FLATTEN"
name_of (count_of ns) = "COUNT"

-- `instance.transform`
unfoldable pub transform : Env → Params → Table → Run Table
transform env (grouping ks s) t = group env.js ks s t
transform env (affine_of ks rs ns) t = affine env.js ks rs ns t
transform env (leave_one_of f d) t = leave_one env.js f d t
transform env (concat_of ks) t = concat env.js ks t
transform env (deconcat_of ks m) t = deconcat env.js ks m t
transform env (join_of ks) t = join t
transform env (degroup_of ks gs) t = degroup ks gs t
transform env (filter_of fs) t = filter_table env fs t
transform env (flatten_of a k b) t = flatten a k b t
transform env (count_of ns) t = count env.js ns t

abbrev pub registered : List String
registered =
    "GROUP" ∷ "AFFINE" ∷ "LEAVEONE" ∷ "CONCAT" ∷ "DECONCAT" ∷ "JOIN" ∷ "DEGROUP" ∷ "FILTER"
    ∷ "FLATTEN" ∷ "COUNT" ∷ []

-- A step of a pipeline: the name of the operation, and its parameters.
pub record Operation : Type 0 where
  pub operation_name : String
  pub params : Params

-- The class by its name; parameters of another class are out of the declared types.
unfoldable pub perform : Env → Operation → Table → Run Table
unfolding transform
perform env o t =
    if includes registered o.operation_name
    then (if o.operation_name == name_of o.params then transform env o.params t else fail untyped)
    else if inherits o.operation_name
    then fail type_error
    else fail (plain (push_str "Transformation " (push_str o.operation_name " is not registered.")))

-- `transformationCompose`
unfoldable pub transformation_compose : Env → List Operation → Table → Run Table
unfolding perform
transformation_compose env [] t = pure t
transformation_compose env (o ∷ os) t =
    perform env o t >>= λ next. transformation_compose env os next

abbrev pub Pipelines : Type 0
Pipelines = List (String × List Operation)

-- The loop over the pipelines; each starts from the same clips, in the store as the others left it.
unfoldable pub aggregate : Env → List Ref → Pipelines → Run (List (String × Table))
unfolding transformation_compose ◌>>=◌
aggregate env input [] = pure []
aggregate env input ((k, os) ∷ ps) = do
  t ← transformation_compose env os (flat input)
  rest ← aggregate env input ps
  pure ((k, t) ∷ rest)

-- `transformationAggregate`
unfoldable pub transformation_aggregate : Env → List Ref → Pipelines → Run (List (String × Table))
unfolding aggregate
transformation_aggregate env input [] = pure (("raw", flat input) ∷ [])
transformation_aggregate env input (p ∷ ps) = aggregate env input (listing (p ∷ ps))
