-- ===== src/Upload/Tests.antt =====
-- Tests of uploading and deleting data, and the theorem at a concrete input.
use dmp.Base.{◌≡◌, refl, none, some, List, [], ◌∷◌, map}
use dmp.Model.Types.{study_manager}
use dmp.Model.World.{World}
use dmp.Model.Value.{number, text, null}
use dmp.Model.Action.{◌>>=◌}
use dmp.Samples.{alice, bob, writers, with_age}
use dmp.Roles.{own_roles}
use dmp.Roles.Permission.{check_field_or_data_permission}
use dmp.Files.{config_of}
use dmp.Fields.{get_study_fields, matching, available_versions}
use dmp.Model.Value.{inherits}
use dmp.Upload.Check.{DataInput, judge, parse_value, verify, check_properties}
use dmp.Upload.{upload_data, delete_data, upload_each, may_upload}
use dmp.Upload.Stored.{Stored, upload_data-Stored}

-- A number, a missing value, and a clip of a field that the study does not have.
abbrev clips : List DataInput
clips =
    (record { field_id = "age"; value = "40"; properties = none })
    ∷ (record { field_id = "age"; value = "99999"; properties = none })
    ∷ (record { field_id = "sex"; value = "f"; properties = none })
    ∷ []

-- Alice's clips are taken but for the last.
two_of_three :
    map (λ d. d.value) (upload_data (some alice) "s" clips with_age).1.data_clips
    ≡ number 0 ∷ text "99999" ∷ []
unfolding upload_data upload_each config_of get_study_fields matching available_versions own_roles
    may_upload check_field_or_data_permission judge parse_value verify check_properties ◌>>=◌
    inherits
two_of_three = refl

-- Bob may not write.
none_of_three : map (λ d. d.value) (upload_data (some bob) "s" clips with_age).1.data_clips ≡ []
unfolding upload_data upload_each config_of get_study_fields matching available_versions own_roles
    may_upload check_field_or_data_permission judge parse_value verify check_properties ◌>>=◌
    inherits
none_of_three = refl

-- A manager deletes data without a permission for it.
abbrev manager_only : World
manager_only = record with_age {
  roles = (record writers { study_role = study_manager; data_permissions = [] }) ∷ [];
}

deleted_without_permission :
    map (λ d. d.value) (delete_data (some alice) "s" "age" [] manager_only).1.data_clips ≡ null ∷ []
unfolding delete_data own_roles ◌>>=◌
deleted_without_permission = refl

upload_data-Stored_example :
    Stored (some alice) "s" clips with_age (upload_data (some alice) "s" clips with_age)
upload_data-Stored_example = upload_data-Stored (some alice) "s" clips with_age
