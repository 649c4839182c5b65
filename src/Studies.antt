-- ===== src/Studies.antt =====
-- Studies: packages/itmat-cores/src/coreFunc/studyCore.ts, but for the data versions.
mod Tests
pub mod Deleted
pub mod Visible
pub mod Versions
use Prim.Native.String
use dmp.Base.{
  ℕ, ◌*◌, String, Bool, true, false, ◌&&◌, ◌||◌, or_else, eqb, Option, none, some, List, [], ◌∷◌,
  ◌==◌, not, is_none, is_some, truthy, filter, any, includes, get_or, map, if◌then◌else◌,
}
use dmp.Model.Types.{
  User, Role, Study, Config, ConfigType, study_config, FileUpload, profile_file, whole_user,
}
use dmp.Model.World.{World}
use dmp.Model.Action.{
  Action, GenericResponse, ◌>>=◌, ◌>>◌, pure, gets, or_throw, throw_if, modify, uuid, date_now,
  try_catch, no_permission_error, client_malformed_input, client_action_on_non_existent_entry,
}
use dmp.Model.Collection.{find_one, insert_one, update_one, update_many, is_live, born, bury_by}
use dmp.Access.{logged_in, is_admin}
use dmp.Files.{upload_picture, config_tag, same_key, mebibytes}
use dmp.Roles.{manages, held_by, is_empty}

abbrev pub live_study : String → Study → Bool
live_study i s = s.id == i && is_live s.life

-- The ids of the studies in which a user holds a live role.
abbrev pub role_study_ids : User → World → List String
role_study_ids u w = map (λ r. r.study_id) (filter (held_by u.id) w.roles)

abbrev no_access : String
no_access = "No permission to access the study."

-- A study was asked for, and it is not among these.
abbrev pub is_foreign : Option String → List String → Bool
is_foreign none ids = false
is_foreign (some i) ids = not (includes ids i)

-- The queries of `getStudies`, by the study that was asked for.
abbrev pub select : Option String → User → World → List Study
select none requester w =
    filter
      (λ s. is_live s.life && (is_admin requester || includes (role_study_ids requester w) s.id))
      w.studies
select (some i) requester w = filter (live_study i) w.studies

-- `getStudies`
unfoldable pub get_studies : Option User → Option String → Action (List Study)
get_studies caller study_id = do
  requester ← logged_in caller
  ids ← gets (role_study_ids requester)
  throw_if (not (is_admin requester) && is_foreign (truthy study_id) ids) no_permission_error
      no_access
  studies ← gets (select (truthy study_id) requester)
  throw_if (is_empty studies && is_some (truthy study_id)) no_permission_error no_access
  pure studies

-- `$set: { profile: … }`, where a picture was uploaded.
abbrev set_profile : String → Option String → List Study → List Study
set_profile study_id none studies = studies
set_profile study_id (some f) studies =
    update_one (λ s. s.id == study_id) (λ s. record s { profile = some f }) studies

-- `createStudy`. The study is stored before its picture is checked. A picture's absence is no update.
unfoldable pub create_study :
    Option User → String → Option String → Option FileUpload → Action Study
create_study caller study_name description profile = do
  requester ← logged_in caller
  throw_if (not (is_admin requester)) no_permission_error "Only admin can create a study."
  study_id ← uuid
  existing ← gets (λ w.
      find_one
        (λ s.
          w.env.matches_i (String.◌++◌ "^" (String.◌++◌ study_name "$")) s.name && is_live s.life)
        w.studies)
  throw_if (is_some existing) client_malformed_input "Study name already used."
  time ← date_now
  let entry : Study = record {
    id = study_id;
    name = study_name;
    current_data_version = 0;
    data_versions = [];
    description = get_or description "";
    profile = none;
    is_public = false;
    life = born time requester.id;
  }
  config_id ← uuid
  properties_id ← uuid
  properties_time ← date_now
  config_time ← date_now
  let config : Config = record {
    id = config_id;
    config_type = study_config;
    key = some study_id;
    properties = record {
      default_maximum_file_size = mebibytes 8192;
      default_maximum_file_repo_size = 0;
      default_file_bucket_id = "";
      default_profile_bucket_id = "";
      default_representation_for_missing_value = "99999";
    };
    life = born config_time requester.id;
  }
  modify (λ w. record w { configs = insert_one config w.configs })
  modify (λ w. record w { studies = insert_one entry w.studies })
  picture ← upload_picture requester (some study_id) profile_file profile
  modify (λ w. record w { studies = set_profile study_id picture w.studies })
  pure (record entry { profile = picture })

-- The guard of the edits: an administrator, or a manager of the study.
abbrev pub require_study_manager : User → String → String → Action (Unit {0})
require_study_manager requester study_id message = do
  allowed ← gets (λ w. manages requester study_id w.roles)
  throw_if (not (is_admin requester) && not allowed) no_permission_error message

abbrev missing : String
missing = "Study does not exist."

-- The `try` block of `editStudy`: an upload that fails leaves the study's picture as it is.
abbrev new_profile : User → String → Option String → Option FileUpload → Action (Option String)
new_profile requester study_id old profile =
    try_catch (upload_picture requester (some study_id) profile_file profile) (pure old)

-- `if (name)` of `editStudy`
abbrev name_taken : Study → Option String → World → Bool
name_taken study none w = false
name_taken study (some n) w =
    not (n == study.name) && is_some (find_one (λ s. s.name == n && is_live s.life) w.studies)

-- `editStudy`
unfoldable pub edit_study :
    Option User → String → Option String → Option String → Option FileUpload → Action (Option Study)
edit_study caller study_id name description profile = do
  requester ← logged_in caller
  require_study_manager requester study_id "Only admin or study manager can edit a study."
  found ← gets (λ w. find_one (live_study study_id) w.studies)
  study ← or_throw found client_action_on_non_existent_entry missing
  picture ← new_profile requester study_id study.profile profile
  taken ← gets (name_taken study (truthy name))
  throw_if taken client_malformed_input "Study name already used."
  modify (λ w. record w {
    studies =
        update_one (λ s. s.id == study_id)
          (λ s. record s {
            profile = or_else picture s.profile;
            name = get_or (truthy name) s.name;
            description = get_or (truthy description) s.description;
          })
          w.studies;
  })
  gets (λ w. find_one (λ s. s.id == study_id) w.studies)

-- `editStudyVisibility`
unfoldable pub edit_study_visibility : Option User → String → Bool → Action (Option Study)
edit_study_visibility caller study_id is_public = do
  requester ← logged_in caller
  require_study_manager requester study_id
      "Only admin or study manager can change study visibility."
  found ← gets (λ w. find_one (live_study study_id) w.studies)
  throw_if (is_none found) client_action_on_non_existent_entry missing
  modify (λ w. record w {
    studies =
        update_one (λ s. s.id == study_id) (λ s. record s { is_public = is_public }) w.studies;
  })
  gets (λ w. find_one (λ s. s.id == study_id) w.studies)

-- `deleteStudy`. It stores the requester itself as `deletedUser`.
unfoldable pub delete_study : Option User → String → Action GenericResponse
delete_study caller study_id = do
  requester ← logged_in caller
  throw_if (not (is_admin requester)) no_permission_error "Only admin can delete a study."
  found ← gets (λ w. find_one (live_study study_id) w.studies)
  study ← or_throw found client_action_on_non_existent_entry missing
  timestamp ← date_now
  let dead = bury_by timestamp (whole_user requester.id)
  modify (λ w. record w {
    studies = update_one (live_study study_id) (λ s. record s { life = dead s.life }) w.studies;
  })
  modify (λ w. record w {
    files =
        update_many (λ f. same_key f.study_id (some study_id) && is_live f.life)
          (λ f. record f { life = dead f.life }) w.files;
  })
  modify (λ w. record w {
    field_dictionary =
        update_many (λ f. f.study_id == study_id && is_live f.life)
          (λ f. record f { life = dead f.life }) w.field_dictionary;
  })
  modify (λ w. record w {
    data_clips =
        update_many (λ d. d.study_id == study_id && is_live d.life)
          (λ d. record d { life = dead d.life }) w.data_clips;
  })
  modify (λ w. record w {
    configs =
        update_many
          (λ c.
            eqb (config_tag c.config_type) (config_tag study_config)
            && same_key c.key (some study_id)
            && is_live c.life)
          (λ c. record c { life = dead c.life }) w.configs;
  })
  pure (record {
    id = study_id;
    description = String.◌++◌ "Study " (String.◌++◌ study.name " has been deleted.");
  })
