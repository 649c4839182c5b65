-- ===== src/Studies/Versions.antt =====
-- Data versions: `createDataVersion` and `setDataversionAsCurrent` of
-- packages/itmat-cores/src/coreFunc/studyCore.ts.
pub mod Moved
pub mod Current
use Prim.Native.String
use dmp.Base.{
  ℕ, zero, suc, String, Bool, true, false, ◌&&◌, Option, none, some, List, [], ◌∷◌, ◌++◌, ◌==◌, not,
  is_none, filter, any, includes, map, if◌then◌else◌, length, eqb,
}
use dmp.Model.Types.{User, Role, Study, DataVersion, Data, ColdData, Field}
use dmp.Model.World.{World}
use dmp.Model.Action.{
  Action, GenericResponse, ◌>>=◌, ◌>>◌, pure, gets, or_throw, throw_if, modify, uuid, date_now,
  no_permission_error, client_malformed_input, client_action_on_non_existent_entry,
  unqualified_error,
}
use dmp.Model.Collection.{find_one, insert_one, update_one, update_many, is_live, born}
use dmp.Access.{logged_in, is_admin}
use dmp.Roles.{held_by, is_manager, is_empty}

-- `roleStudyRoles.includes(STUDY_MANAGER)`, over the requester's roles in all studies: no study id is
-- passed to `getRolesOfUser` here.
abbrev pub manages_any : User → List Role → Bool
manages_any requester roles = any is_manager (filter (held_by requester.id) roles)

-- `{ studyId, dataVersion: null }`
abbrev pub pending_data : String → Data → Bool
pending_data study_id d = d.study_id == study_id && is_none d.data_version

abbrev pub pending_field : String → Field → Bool
pending_field study_id f = f.study_id == study_id && is_none f.data_version

abbrev pub same_properties : List (String × String) → List (String × String) → Bool
same_properties [] [] = true
same_properties [] (q ∷ qs) = false
same_properties (p ∷ ps) [] = false
same_properties (p ∷ ps) (q ∷ qs) = p.0 == q.0 && p.1 == q.1 && same_properties ps qs

abbrev same_clip : Data → ColdData → Bool
same_clip d c =
    c.study_id == d.study_id
    && c.field_id == d.field_id
    && same_properties c.properties d.properties

-- One operation of the bulk, `find(filters).upsert().update({ $set })`.
abbrev upsert : Data → ColdData → List ColdData → List ColdData
upsert d new cold =
    if any (same_clip d) cold
    then update_many (same_clip d)
        (λ c. record c {
          id = new.id;
          value = new.value;
          data_version = new.data_version;
          life = new.life;
        })
        cold
    else insert_one new cold

-- The cursor's loop. The batches of 1000 only say when the operations are sent.
unfoldable pub sync_cold : User → String → List Data → Action (Unit {0})
sync_cold requester version [] = pure tt
sync_cold requester version (d ∷ ds) = do
  cold_id ← uuid
  time ← date_now
  let new : ColdData = record {
    id = cold_id;
    study_id = d.study_id;
    field_id = d.field_id;
    properties = d.properties;
    value = d.value;
    data_version = some version;
    life = born time requester.id;
  }
  modify (λ w. record w { cold_data = upsert d new w.cold_data })
  sync_cold requester version ds

-- `$push: { dataVersions }, $inc: { currentDataVersion: 1 }`
abbrev pub push_version : DataVersion → Study → Study
push_version v s = record s {
  data_versions = s.data_versions ++ v ∷ [];
  current_data_version = suc s.current_data_version;
}

-- The end of `createDataVersion`: cold storage, the study's list, and the check of what was moved.
unfoldable pub finish_version :
    User → String → String → String → String → List Data → Bool → Action DataVersion
finish_version requester study_id version_id tag data_version clips nothing = do
  sync_cold requester version_id clips
  time ← date_now
  let new : DataVersion = record {
    id = version_id;
    version = data_version;
    tag = tag;
    life = born time requester.id;
  }
  modify
      (λ w. record w { studies = update_one (λ s. s.id == study_id) (push_version new) w.studies })
  throw_if nothing unqualified_error "Nothing to update."
  pure new

abbrev decimal : String
decimal = "^[0-9]+(\\.[0-9]+)?$"

-- `createDataVersion`
unfoldable pub create_data_version :
    Option User → String → String → String → Bool → Action DataVersion
create_data_version caller study_id tag data_version wants_cold = do
  requester ← logged_in caller
  allowed ← gets (λ w. manages_any requester w.roles)
  throw_if (not (is_admin requester) && not allowed) no_permission_error
      "Only admin or study manager can create a study version."
  found ← gets (λ w. find_one (λ s. s.id == study_id && is_live s.life) w.studies)
  study ← or_throw found client_action_on_non_existent_entry "Study does not exist."
  well_formed ← gets (λ w. w.env.matches decimal data_version)
  throw_if (not well_formed) client_malformed_input "Version must be a float number."
  throw_if (includes (map (λ v. v.version) study.data_versions) data_version) client_malformed_input
      "Version has been used."
  version_id ← uuid
  moved_data ← gets (λ w. length (filter (pending_data study_id) w.data_clips))
  modify (λ w. record w {
    data_clips =
        update_many (pending_data study_id) (λ d. record d { data_version = some version_id })
          w.data_clips;
  })
  moved_fields ← gets (λ w. length (filter (pending_field study_id) w.field_dictionary))
  modify (λ w. record w {
    field_dictionary =
        update_many (pending_field study_id) (λ f. record f { data_version = some version_id })
          w.field_dictionary;
  })
  modify (λ w. record w {
    caches =
        update_many (λ c. c.key_study_id == study_id) (λ c. record c { outdated = true }) w.caches;
  })
  clips ← gets (λ w.
      filter
        (λ d.
          d.study_id == study_id && elim d.data_version [ none ↦ false | some v ↦ v == version_id ])
        w.data_clips)
  finish_version requester study_id version_id tag data_version (if wants_cold then clips else [])
      (eqb moved_data 0 && eqb moved_fields 0)

-- `versionIdsList.indexOf(id)`, plus one
abbrev pub position : String → List DataVersion → ℕ
position i [] = 0
position i (v ∷ vs) =
    if v.id == i then 1 else elim (position i vs) [ zero ↦ 0 | suc n ↦ suc (suc n) ]

-- `setDataversionAsCurrent`. The filter `deleted: null` picks every study with the id, since studies
-- have no field `deleted`.
unfoldable pub set_dataversion_as_current : Option User → String → String → Action GenericResponse
set_dataversion_as_current caller study_id version_id = do
  requester ← logged_in caller
  allowed ← gets (λ w. manages_any requester w.roles)
  throw_if (not (is_admin requester) && not allowed) no_permission_error
      "Only admin or study manager can set a study version."
  found ← gets (λ w. find_one (λ s. s.id == study_id && is_live s.life) w.studies)
  study ← or_throw found client_action_on_non_existent_entry "Study does not exist."
  throw_if (not (eqb (length (filter (λ v. v.id == version_id) study.data_versions)) 1))
      client_malformed_input "Data version does not exist."
  let current = position version_id study.data_versions
  modify (λ w. record w {
    studies =
        update_one (λ s. s.id == study_id) (λ s. record s { current_data_version = current })
          w.studies;
  })
  pure (record {
    id = study_id;
    description = "Data version has been set as the current version of the study.";
  })
