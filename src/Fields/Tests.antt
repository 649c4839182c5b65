-- ===== src/Fields/Tests.antt =====
-- Tests of the operations on fields, and their theorems at concrete inputs.
use dmp.Base.{◌≡◌, refl, none, some, List, [], ◌∷◌, String, Option, arith}
use dmp.Model.Types.{integer}
use dmp.Model.World.{World}
use dmp.Model.Action.{◌>>=◌, ok}
use dmp.Samples.{everything, readers, trial_world, with_age, alice, bob}
use dmp.Roles.{own_roles}
use dmp.Fields.{
  FieldInput, versions, up_to_current, get_study_fields, create_field, delete_field,
  require_field_permission, validate_field_entry, options_or, permits, matching, available_versions,
}
use dmp.Fields.Read.{Read, get_study_fields-Read}
use dmp.Fields.Grows.{create, serve, Served, serve-Served}
use dmp.Fields.Gone.{Gone, delete_field-Gone}

abbrev age : FieldInput
age = record {
  study_id = "s";
  field_name = "Age";
  field_id = "age";
  description = none;
  data_type = integer;
  categorical_options = none;
  unit = some "years";
  comments = none;
  verifier = none;
  properties = none;
  metadata = none;
}

abbrev drafts : List (Option String)
drafts = none ∷ []

-- What was created is read; an edit hides it by a newer entry.
created_is_read :
    (get_study_fields
      (some bob)
      "s"
      (versions drafts)
      none
      (create_field (some alice) age trial_world).1).0
    ≡ ok (create_field (some alice) age trial_world).1.field_dictionary
unfolding get_study_fields create_field require_field_permission validate_field_entry options_or
    permits own_roles matching available_versions ◌>>=◌
created_is_read = refl

-- The default versions leave out entries without a version.
not_by_default : (get_study_fields (some bob) "s" up_to_current none with_age).0 ≡ ok []
unfolding get_study_fields own_roles matching available_versions ◌>>=◌
not_by_default = refl

-- A deletion hides the field.
deleted_is_gone :
    (get_study_fields
      (some bob)
      "s"
      (versions drafts)
      none
      (delete_field (some alice) "s" "age" with_age).1).0
    ≡ ok []
unfolding get_study_fields delete_field require_field_permission permits own_roles matching
    available_versions ◌>>=◌
deleted_is_gone = refl

-- Selected fields are read without a permission for them.
abbrev no_level : World
no_level = record with_age {
  roles = (record readers { data_permissions = (record everything { permission = 0 }) ∷ [] }) ∷ [];
}

selected_without_permission :
    (get_study_fields (some bob) "s" (versions drafts) (some ("age" ∷ [])) no_level).0
    ≡ ok with_age.field_dictionary
unfolding get_study_fields own_roles matching available_versions ◌>>=◌
selected_without_permission = refl

get_study_fields-Read_example :
    Read
      (some bob)
      "s"
      (versions drafts)
      none
      with_age
      (get_study_fields (some bob) "s" (versions drafts) none with_age)
get_study_fields-Read_example = get_study_fields-Read (some bob) "s" (versions drafts) none with_age

serve-Served_example :
    Served (create (some alice) age) trial_world (serve (create (some alice) age) trial_world)
serve-Served_example = serve-Served (create (some alice) age) trial_world

delete_field-Gone_example :
    Gone (some bob) "s" "age" drafts none with_age (delete_field (some alice) "s" "age" with_age)
delete_field-Gone_example =
    delete_field-Gone (some alice) (some bob) "s" "age" drafts none with_age refl (omega arith, tt)
