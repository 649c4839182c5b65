-- ===== src/Organisations.antt =====
-- Organisations: packages/itmat-cores/src/coreFunc/organisationCore.ts.
mod Tests
pub mod Unique
use dmp.Base.{
  String, Bool, false, ◌&&◌, Option, none, some, List, ◌==◌, not, is_some, is_none, truthy, filter,
  get_or, or_else,
}
use dmp.Model.Types.{User, Organisation, FileUpload, profile_file}
use dmp.Model.Action.{
  Action, GenericResponse, ◌>>=◌, ◌>>◌, pure, gets, throw_if, modify, uuid, date_now,
  client_malformed_input, client_action_on_non_existent_entry,
}
use dmp.Model.Collection.{find_one, insert_one, update_one, is_live, born, bury}
use dmp.Files.{upload_picture}
use dmp.Access.{logged_in, require_admin}

-- The filters `{ name, 'life.deletedTime': null }` and `{ id, 'life.deletedTime': null }`.
abbrev pub live_named : String → Organisation → Bool
live_named n o = o.name == n && is_live o.life

abbrev pub live_with_id : String → Organisation → Bool
live_with_id i o = o.id == i && is_live o.life

-- `getOrganisations`; the requester is not asked for.
unfoldable pub get_organisations : Option String → Action (List Organisation)
get_organisations organisation_id = elim (truthy organisation_id) [
  | none ↦ gets (λ w. filter (λ o. is_live o.life) w.organisations)
  | some i ↦ gets (λ w. filter (live_with_id i) w.organisations)
]

-- `createOrganisation`
unfoldable pub create_organisation :
    Option User → String → Option String → Option FileUpload → Action Organisation
create_organisation caller name shortname profile = do
  requester ← logged_in caller
  require_admin requester
  taken ← gets (λ w. find_one (live_named name) w.organisations)
  throw_if (is_some taken) client_malformed_input "Organisation already exists."
  picture ← upload_picture requester none profile_file profile
  organisation_id ← uuid
  time ← date_now
  let entry : Organisation = record {
    id = organisation_id;
    name = name;
    shortname = shortname;
    profile = picture;
    life = born time requester.id;
  }
  modify (λ w. record w { organisations = insert_one entry w.organisations })
  pure entry

-- `if (name)` of `editOrganisation`: another live organisation may not have it.
pub check_name : String → Option String → Action (Unit {0})
check_name organisation_id none = pure tt
check_name organisation_id (some n) = do
  other ← gets (λ w. find_one (live_named n) w.organisations)
  throw_if (elim other [ none ↦ false | some o ↦ not (o.id == organisation_id) ])
      client_malformed_input "Organisation already exists."

-- `$set: updateFilter`
abbrev pub set_organisation :
    Option String → Option String → Option String → Organisation → Organisation
set_organisation name shortname picture o = record o {
  name = get_or name o.name;
  shortname = or_else shortname o.shortname;
  profile = or_else picture o.profile;
}

-- `editOrganisation`
unfoldable pub edit_organisation :
    Option User
    → String
    → Option String
    → Option String
    → Option FileUpload
    → Action GenericResponse
edit_organisation caller organisation_id name shortname profile = do
  requester ← logged_in caller
  require_admin requester
  found ← gets (λ w. find_one (live_with_id organisation_id) w.organisations)
  throw_if (is_none found) client_action_on_non_existent_entry "Organisation not found."
  check_name organisation_id (truthy name)
  picture ← upload_picture requester none profile_file profile
  modify (λ w. record w {
    organisations =
        update_one (λ o. o.id == organisation_id)
          (set_organisation (truthy name) (truthy shortname) picture) w.organisations;
  })
  pure (record { id = organisation_id; description = "Organisation updated successfully." })

-- `deleteOrganisation`
unfoldable pub delete_organisation : Option User → String → Action GenericResponse
delete_organisation caller organisation_id = do
  requester ← logged_in caller
  require_admin requester
  found ← gets (λ w. find_one (live_with_id organisation_id) w.organisations)
  throw_if (is_none found) client_action_on_non_existent_entry "Organisation not found."
  time ← date_now
  modify (λ w. record w {
    organisations =
        update_one (λ o. o.id == organisation_id)
          (λ o. record o { life = bury time requester.id o.life }) w.organisations;
  })
  pure (record { id = organisation_id; description = "Organisation deleted successfully." })
