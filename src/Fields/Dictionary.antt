-- ===== src/Fields/Dictionary.antt =====
-- Reading the dictionary of fields: getStudyFields of
-- packages/itmat-cores/src/coreFunc/dataCore.ts.
use dmp.Base.{
  ℕ, zero, suc, ◌/◌, ◌%◌, String, Bool, true, false, ◌&&◌, Option, none, some, List, [], ◌∷◌, ◌++◌,
  ◌==◌, if◌then◌else◌, not, eqb, leb, filter, any, includes,
}
use dmp.Model.Types.{User, Role, DataPermission, Study, DataVersion, Field}
use dmp.Model.Action.{
  Action, ◌>>=◌, ◌>>◌, pure, gets, or_throw, throw_if, no_permission_error,
  client_action_on_non_existent_entry, code_text,
}
use dmp.Model.Collection.{find_one, is_live}
use dmp.Access.{logged_in}
use dmp.Roles.{own_roles, is_empty}

-- The argument `dataVersion`: null, one version, several, or none at all.
pub data VersionQuery : Type 0 where
  draft : VersionQuery
  one_version : String → VersionQuery
  versions : List (Option String) → VersionQuery
  up_to_current : VersionQuery

-- `(permission.permission & bit) === bit`, for a power of two.
abbrev pub has_bit : ℕ → ℕ → Bool
has_bit bit level = eqb (level / bit % 2) 1

-- The patterns that the level of their permission lets be read.
abbrev patterns_of : List DataPermission → List String
patterns_of [] = []
patterns_of (p ∷ ps) =
    let rest = patterns_of ps in if has_bit 4 p.permission then p.fields ++ rest else rest

abbrev pub readable_patterns : List Role → List String
readable_patterns [] = []
readable_patterns (r ∷ rs) = patterns_of r.data_permissions ++ readable_patterns rs

-- `hasPermission`: some pattern of some role's permission matches the field, and its level has the bit.
unfoldable pub permits : (String → String → Bool) → ℕ → String → List Role → Bool
permits test bit field_id roles =
    any
      (λ r.
        any (λ p. any (λ re. test re field_id && has_bit bit p.permission) p.fields)
          r.data_permissions)
      roles

-- The ids of the versions up to the current one.
abbrev upto : ℕ → List DataVersion → List (Option String)
upto zero vs = []
upto (suc n) [] = []
upto (suc n) (v ∷ vs) = some v.id ∷ upto n vs

unfoldable pub available_versions : VersionQuery → Study → List (Option String)
available_versions draft study = none ∷ []
available_versions (one_version v) study = some v ∷ []
available_versions (versions vs) study = vs
available_versions up_to_current study = upto study.current_data_version study.data_versions

abbrev same_version : Option String → Option String → Bool
same_version none none = true
same_version none (some w) = false
same_version (some v) none = false
same_version (some v) (some w) = v == w

abbrev pub in_versions : List (Option String) → Option String → Bool
in_versions vs v = any (λ w. same_version w v) vs

-- `$match`
unfoldable pub matching :
    (String → String → Bool)
    → String
    → List (Option String)
    → Option (List String)
    → List String
    → Field
    → Bool
matching test study_id vs selected patterns f =
    f.study_id == study_id
    && in_versions vs f.data_version
    && (elim selected [
      | some ids ↦ includes ids f.field_id
      | none ↦ any (λ re. test re f.field_id) patterns
    ])
    && test "^.*$" f.field_id

-- `$sort: { 'life.createdTime': -1 }`; the entries of one time are taken to keep their order.
abbrev pub insert_by_time : Field → List Field → List Field
insert_by_time f [] = f ∷ []
insert_by_time f (g ∷ gs) =
    if leb g.life.created_time f.life.created_time then f ∷ g ∷ gs else g ∷ insert_by_time f gs

abbrev pub sort_by_time : List Field → List Field
sort_by_time [] = []
sort_by_time (f ∷ fs) = insert_by_time f (sort_by_time fs)

-- `$group` by the field's id with `$first`
abbrev pub first_of_each : List Field → List Field
first_of_each [] = []
first_of_each (f ∷ fs) = f ∷ filter (λ g. not (g.field_id == f.field_id)) (first_of_each fs)

-- `getStudyFields`
unfoldable pub get_study_fields :
    Option User → String → VersionQuery → Option (List String) → Action (List Field)
get_study_fields caller study_id query selected = do
  requester ← logged_in caller
  roles ← gets (λ w. own_roles requester study_id w.roles)
  throw_if (is_empty roles) no_permission_error (code_text no_permission_error)
  found ← gets (λ w. find_one (λ s. s.id == study_id && is_live s.life) w.studies)
  study ← or_throw found client_action_on_non_existent_entry "Study does not exist."
  let vs : List (Option String) = available_versions query study
  fields ← gets (λ w. first_of_each (
      sort_by_time (
        filter (matching w.env.matches study_id vs selected (readable_patterns roles))
          w.field_dictionary)))
  pure (filter (λ f. is_live f.life) fields)
