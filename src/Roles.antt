-- ===== src/Roles.antt =====
-- Roles and data permissions: packages/itmat-cores/src/coreFunc/permissionCore.ts.
mod Tests
mod GuestRole
pub mod Guests
pub mod Revoke
pub mod Guard
pub mod Permission
use dmp.Base.{
  ℕ, suc, ◌/◌, ◌%◌, String, Bool, true, false, ◌&&◌, ◌||◌, Option, none, some, List, [], ◌∷◌, ◌++◌,
  ◌==◌, if◌then◌else◌, not, is_none, eqb, truthy, filter, all, any, includes, get_or, or_else, map,
  length,
}
use dmp.Model.Types.{
  User, UserType, guest, Role, StudyRole, study_manager, study_user, DataPermission, Study,
}
use dmp.Model.World.{World, Env}
use dmp.Model.Action.{
  Action, GenericResponse, ◌>>=◌, ◌>>◌, pure, gets, or_throw, throw_if, modify, uuid, date_now,
  no_permission_error, client_malformed_input, client_action_on_non_existent_entry, code_text,
}
use dmp.Model.Collection.{find_one, insert_one, update_one, is_live, born, bury}
use dmp.Access.{logged_in, is_admin}

-- `role.studyRole === enumStudyRoles.STUDY_MANAGER`
abbrev pub is_manager : Role → Bool
is_manager r = elim r.study_role [ study_manager ↦ true | _ ↦ false ]

-- The filters `{ 'users': userId, 'life.deletedTime': null }`, with a study and without.
abbrev pub held_by : String → Role → Bool
held_by user_id r = includes r.users user_id && is_live r.life

abbrev pub held_in : String → String → Role → Bool
held_in study_id user_id r = r.study_id == study_id && held_by user_id r

-- `getUsersOfRole`
unfoldable pub get_users_of_role : String → Action (List User)
get_users_of_role role_id = do
  found ← gets (λ w. find_one (λ r. r.id == role_id && is_live r.life) w.roles)
  role ← or_throw found no_permission_error (code_text no_permission_error)
  gets (λ w. filter (λ u. includes role.users u.id) w.users)

-- `getRolesOfUser`
unfoldable pub get_roles_of_user : Option User → String → Option String → Action (List Role)
get_roles_of_user caller user_id study_id = do
  requester ← logged_in caller
  elim (truthy study_id) [
    | some s ↦ gets (λ w. filter (held_in s user_id) w.roles)
    | none ↦
        throw_if (not (is_admin requester) && not (requester.id == user_id)) no_permission_error
          (code_text no_permission_error)
        >> gets (λ w. filter (held_by user_id) w.roles)
  ]

-- `getRolesOfUser(requester, requester.id, studyId)`, which never throws: a user may always read
-- their own roles. An empty study id reads as no study at all.
unfoldable pub own_roles : User → String → List Role → List Role
own_roles requester study_id roles = elim (truthy (some study_id)) [
  | some s ↦ filter (held_in s requester.id) roles
  | none ↦ filter (held_by requester.id) roles
]

-- The guard of the operations on roles: an administrator, or a manager of the study.
unfoldable pub manages : User → String → List Role → Bool
unfolding own_roles
manages requester study_id roles = any is_manager (own_roles requester study_id roles)

unfoldable pub require_manager : User → String → Action (Unit {0})
require_manager requester study_id = do
  allowed ← gets (λ w. manages requester study_id w.roles)
  throw_if (not (is_admin requester) && not allowed) no_permission_error
      (code_text no_permission_error)

-- `getRolesOfStudy`
unfoldable pub get_roles_of_study : Option User → String → Action (List Role)
get_roles_of_study caller study_id = do
  requester ← logged_in caller
  require_manager requester study_id
  gets (λ w. filter (λ r. r.study_id == study_id && is_live r.life) w.roles)

-- What `createStudyRole` stores where no data permissions are given.
abbrev no_data_permissions : List DataPermission
no_data_permissions =
    (record { fields = []; data_properties = []; include_un_versioned = false; permission = 0 })
    ∷ []

-- `createStudyRole`
unfoldable pub create_study_role :
    Option User
    → String
    → String
    → Option String
    → Option (List DataPermission)
    → Option StudyRole
    → Option (List String)
    → Action Role
create_study_role caller study_id name description data_permissions study_role users = do
  requester ← logged_in caller
  require_manager requester study_id
  role_id ← uuid
  time ← date_now
  let new_role : Role = record {
    id = role_id;
    study_id = study_id;
    name = name;
    description = description;
    data_permissions = get_or data_permissions no_data_permissions;
    study_role = get_or study_role study_user;
    users = get_or users [];
    life = born time requester.id;
  }
  modify (λ w. record w { roles = insert_one new_role w.roles })
  pure new_role

-- The `$set` of `editStudyRole`, with the fields of the role that was found as defaults.
abbrev pub set_role :
    Role
    → Option String
    → Option String
    → Option (List DataPermission)
    → Option StudyRole
    → Option (List String)
    → Role
    → Role
set_role role name description data_permissions study_role users r = record r {
  name = get_or name role.name;
  description = or_else description role.description;
  data_permissions = get_or data_permissions role.data_permissions;
  study_role = get_or study_role role.study_role;
  users = get_or users role.users;
}

-- `editStudyRole`
unfoldable pub edit_study_role :
    Option User
    → String
    → Option String
    → Option String
    → Option (List DataPermission)
    → Option StudyRole
    → Option (List String)
    → Action (Option Role)
edit_study_role caller role_id name description data_permissions study_role users = do
  requester ← logged_in caller
  found ← gets (λ w. find_one (λ r. r.id == role_id && is_live r.life) w.roles)
  role ← or_throw found no_permission_error (code_text no_permission_error)
  require_manager requester role.study_id
  modify (λ w. record w {
    roles =
        update_one (λ r. r.id == role_id)
          (set_role role name description data_permissions study_role users) w.roles;
  })
  gets (λ w. find_one (λ r. r.id == role_id) w.roles)

-- `deleteStudyRole`
unfoldable pub delete_study_role : Option User → String → Action GenericResponse
delete_study_role caller role_id = do
  requester ← logged_in caller
  found ← gets (λ w. find_one (λ r. r.id == role_id && is_live r.life) w.roles)
  role ← or_throw found no_permission_error (code_text no_permission_error)
  require_manager requester role.study_id
  time ← date_now
  modify (λ w. record w {
    roles =
        update_one (λ r. r.id == role_id) (λ r. record r { life = bury time requester.id r.life })
          w.roles;
  })
  pure (record { id = role_id; description = "Role deleted successfully." })

-- `{ permission: { $bitsAllSet: 4 } }`
abbrev pub reads : DataPermission → Bool
reads p = eqb (p.permission / 4 % 2) 1

-- A live role named 'Guest' of one of the studies, with a permission to read.
abbrev pub is_guest_role : List String → Role → Bool
is_guest_role study_ids r =
    includes study_ids r.study_id
    && r.name == "Guest"
    && any reads r.data_permissions
    && is_live r.life

abbrev pub is_public_study : Study → Bool
is_public_study s = s.is_public && is_live s.life

-- `updateOne({ id: role.id, users: { $ne: userId } }, { $push: { users: userId } })`
abbrev pub push_user : String → Role → List Role → List Role
push_user user_id role =
    update_one (λ r. r.id == role.id && not (includes r.users user_id))
      (λ r. record r { users = r.users ++ user_id ∷ [] })

-- The updates of all the guest roles; they touch different documents, so their order is no matter.
unfoldable pub push_to_all : String → List Role → List Role → List Role
push_to_all user_id [] roles = roles
push_to_all user_id (g ∷ gs) roles = push_to_all user_id gs (push_user user_id g roles)

abbrev pub is_guest : User → Bool
is_guest u = elim u.user_type [ guest ↦ true | _ ↦ false ]

-- The ids of the public studies, and the guest roles in them.
abbrev pub public_study_ids : World → List String
public_study_ids w = map (λ s. s.id) (filter is_public_study w.studies)

abbrev pub guest_roles : World → List Role
guest_roles w = filter (is_guest_role (public_study_ids w)) w.roles

abbrev pub is_empty {ℓ} : {A : Type ℓ} → List A → Bool
is_empty [] = true
is_empty (x ∷ xs) = false

-- `addGuestUser`; the number in the last message is left out.
unfoldable pub add_guest_user : String → Action GenericResponse
unfolding push_to_all
add_guest_user username = do
  throw_if (username == "") client_malformed_input "Username is required to add a guest user."
  found ← gets (λ w. find_one (λ u. u.username == username) w.users)
  user ← or_throw found client_action_on_non_existent_entry "User not found"
  throw_if (not (is_guest user)) no_permission_error "User is not a guest user."
  study_ids ← gets public_study_ids
  roles ← gets guest_roles
  throw_if (not (is_empty study_ids) && is_empty roles) no_permission_error
      "No guest roles found for public studies."
  modify (λ w. record w {
    roles = if is_empty study_ids then w.roles else push_to_all user.id roles w.roles;
  })
  pure (record {
    id = user.id;
    description =
        if is_empty study_ids
        then "No public studies found."
        else "User added to public study roles";
  })
