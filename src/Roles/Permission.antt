-- ===== src/Roles/Permission.antt =====
-- `checkFieldOrDataPermission` of packages/itmat-cores/src/coreFunc/permissionCore.ts, with the tables
-- of packages/itmat-types/src/types/permission.ts.
pub mod Spec
use dmp.Base.{
  ℕ, String, Bool, true, false, Option, none, some, List, [], ◌∷◌, ◌==◌, if◌then◌else◌, not, eqb,
  all, any, get_or, map,
}
use dmp.Model.Types.{User, DataPermission}
use dmp.Model.World.{World}
use dmp.Roles.{own_roles}

pub data AtomicPermission : Type 0 where
  read write delete : AtomicPermission

-- `permissionString`
abbrev pub permission_string : AtomicPermission → List ℕ
permission_string read = 4 ∷ 5 ∷ 6 ∷ 7 ∷ []
permission_string write = 6 ∷ 7 ∷ []
permission_string delete = 7 ∷ []

-- A field (`has_value` is false) or a data clip, with its properties as `String` shows them.
pub record Entry : Type 0 where
  pub field_id : Option String
  pub has_value : Bool
  pub properties : Option (List (String × String))

abbrev pub lookup : String → List (String × String) → String
lookup k [] = "undefined"
lookup k ((j, v) ∷ ps) = if j == k then v else lookup k ps

module _ (test : String → String → Bool) where
  -- The three tests of the inner loop, each `true` where the source leaves its tag alone.
  abbrev pub field_passes : Entry → DataPermission → Bool
  field_passes entry p =
      not (all (λ field. not (test field (get_or entry.field_id "undefined"))) p.fields)

  abbrev pub property_passes : List (String × String) → String × List String → Bool
  property_passes given (property, props) =
      not (all (λ prop. not (test prop (lookup property given))) props)

  abbrev pub properties_pass : Entry → DataPermission → Bool
  properties_pass entry p =
      if entry.has_value
      then elim entry.properties [
        | none ↦ true
        | some given ↦ all (property_passes given) p.data_properties
      ]
      else true

  abbrev pub level_passes : AtomicPermission → DataPermission → Bool
  level_passes a p = any (λ n. eqb n p.permission) (permission_string a)

  -- The loop over the permissions of one role, with its tag.
  pub tag_of : Entry → AtomicPermission → Bool → List DataPermission → Bool
  tag_of entry a tag [] = tag
  tag_of entry a tag (p ∷ ps) =
      let tag₁ = if field_passes entry p then tag else false in
      let tag₂ = if properties_pass entry p then tag₁ else false in
      let tag₃ = if level_passes a p then tag₂ else false in tag_of entry a tag₃ ps

-- `checkFieldOrDataPermission`
unfoldable pub check_field_or_data_permission :
    World → User → String → Entry → AtomicPermission → Bool
unfolding tag_of own_roles
check_field_or_data_permission w user study_id entry a =
    let roles = own_roles user study_id w.roles in
    let tags = map (λ r. tag_of w.env.matches entry a true r.data_permissions) roles in
    if all (λ tag. not tag) tags then false else true
