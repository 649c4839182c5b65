-- ===== src/Drives.antt =====
-- Drives: packages/itmat-cores/src/coreFunc/driveCore.ts, creating folders and files and deleting.
mod Tests
pub mod Reach
pub mod Deleted
use dmp.Base.{
  ℕ, zero, suc, String, Bool, true, false, ◌&&◌, ◌||◌, Option, none, some, List, [], ◌∷◌, ◌++◌,
  ◌==◌, if◌then◌else◌, not, is_none, is_some, truthy, filter, any, includes, map,
}
use dmp.Model.Types.{
  User, Drive, DriveType, folder, file, DrivePermission, FileUpload, user_drive_file,
}
use dmp.Model.World.{World}
use dmp.Model.Action.{
  Action, ◌>>=◌, ◌>>◌, pure, gets, or_throw, throw_if, modify, uuid, date_now, code_text,
  no_permission_error, client_malformed_input, client_action_on_non_existent_entry,
}
use dmp.Model.Collection.{find_one, insert_one, update_one, update_many, is_live, born, bury}
use dmp.Access.{logged_in}
use dmp.Files.{same_key, upload_file}

abbrev pub is_folder : Drive → Bool
is_folder d = elim d.drive_type [ folder ↦ true | file ↦ false ]

abbrev pub live_drive : String → Drive → Bool
live_drive i d = d.id == i && is_live d.life

-- The parent by its id, or the root of the requester's own drive, live or not.
abbrev pub find_parent : User → Option String → List Drive → Option Drive
find_parent requester parent_id drives = elim (truthy parent_id) [
  | some i ↦ find_one (live_drive i) drives
  | none ↦ find_one (λ d. d.manager_id == requester.id && is_none d.parent) drives
]

-- `sharedUsers` has an entry of the user with `write`.
abbrev pub may_write : User → Drive → Bool
may_write requester d = any (λ p. p.iid == requester.id && p.write) d.shared_users

-- The live nodes under a parent, of one kind, by name.
abbrev pub has_child : Option String → Bool → String → List Drive → Bool
has_child parent folders name drives =
    includes
      (map (λ d. d.name)
        (filter (λ d. if is_folder d then folders else not folders)
          (filter (λ d. same_key d.parent parent && is_live d.life) drives)))
      name

-- `insertOne` of the node and `$push: { children }` of its parent.
abbrev pub attach : Drive → String → List Drive → List Drive
attach new parent drives =
    update_one (λ d. d.id == parent) (λ d. record d { children = d.children ++ new.id ∷ [] })
      (insert_one new drives)

-- `createDriveFolder`
unfoldable pub create_drive_folder :
    Option User → String → Option String → Bool → Option String → Action Drive
create_drive_folder caller folder_name parent_id restricted description = do
  requester ← logged_in caller
  found ← gets (λ w. find_parent requester parent_id w.drives)
  parent ← or_throw found no_permission_error "No permission to create folder."
  throw_if (not (may_write requester parent) && not (parent.manager_id == requester.id))
      no_permission_error "No permission to create folder."
  throw_if (not (is_folder parent)) client_malformed_input "Parent is not a folder."
  taken ← gets (λ w. has_child (some parent.id) true folder_name w.drives)
  throw_if taken client_malformed_input "Folder already exists."
  drive_id ← uuid
  time ← date_now
  let entry : Drive = record {
    id = drive_id;
    manager_id = parent.manager_id;
    path = parent.path ++ drive_id ∷ [];
    restricted = restricted;
    name = folder_name;
    description = description;
    file_id = none;
    drive_type = folder;
    parent = some parent.id;
    children = [];
    shared_users = parent.shared_users;
    life = born time requester.id;
  }
  modify (λ w. record w { drives = attach entry parent.id w.drives })
  pure entry

-- `createDriveFile`. The test of `sharedUsers` compares an id with the requester itself and never
-- holds, so only the parent's manager passes. Siblings are looked up by the parent id as it was given.
unfoldable pub create_drive_file :
    Option User → Option String → Option String → String → FileUpload → Action Drive
create_drive_file caller parent_id description file_type upload = do
  requester ← logged_in caller
  found ← gets (λ w. find_parent requester parent_id w.drives)
  parent ← or_throw found no_permission_error (code_text no_permission_error)
  throw_if (not (parent.manager_id == requester.id)) no_permission_error
      (code_text no_permission_error)
  throw_if (not (is_folder parent)) client_malformed_input "Parent is not a folder."
  throw_if (file_type == "") client_malformed_input "File or filetype not valid."
  taken ← gets (λ w. has_child parent_id false upload.filename w.drives)
  throw_if taken client_malformed_input "File already exists."
  stored ←
      upload_file requester none (some requester.id) upload file_type user_drive_file description
  drive_id ← uuid
  time ← date_now
  let entry : Drive = record {
    id = drive_id;
    manager_id = requester.id;
    path = parent.path ++ drive_id ∷ [];
    restricted = false;
    name = upload.filename;
    description = description;
    file_id = some stored.id;
    drive_type = file;
    parent = some parent.id;
    children = [];
    shared_users = parent.shared_users;
    life = born time requester.id;
  }
  modify (λ w. record w { drives = attach entry parent.id w.drives })
  pure entry

-- What `recursiveFindDrives` collects.
pub record Found : Type 0 where
  pub drive_ids : List String
  pub file_ids : List String

abbrev pub join : Found → Found → Found
join a b = record { drive_ids = a.drive_ids ++ b.drive_ids; file_ids = a.file_ids ++ b.file_ids }

-- The loop over the children, with the recursive call as an argument.
abbrev pub walk : List Drive → (Drive → Option Found) → List String → Option Found
walk drives visit [] = some (record { drive_ids = []; file_ids = [] })
walk drives visit (c ∷ cs) =
    let rest = walk drives visit cs in
    elim (find_one (live_drive c) drives) [
      | none ↦ rest
      | some d ↦ elim (visit d) [
        | none ↦ none
        | some a ↦ elim rest [ none ↦ none | some b ↦ some (join a b) ]
      ]
    ]

abbrev pub listed : Option String → List String
listed none = []
listed (some f) = f ∷ []

abbrev pub own_file : Drive → List String
own_file d = listed (truthy d.file_id)

abbrev pub rooted : Drive → Option Found → Option Found
rooted d none = none
rooted d (some a) = some (record { drive_ids = d.id ∷ a.drive_ids; file_ids = a.file_ids })

-- The tests of the node's type, with what was found among its children.
abbrev pub collect : DriveType → Drive → Option Found → Option Found
collect file d below = some (record { drive_ids = d.id ∷ []; file_ids = own_file d })
collect folder d below = rooted d below

-- `recursiveFindDrives`, to a depth; `none` where the depth is not enough.
unfoldable pub recursive_find_drives : ℕ → List Drive → Drive → Option Found
recursive_find_drives zero drives root = none
recursive_find_drives (suc n) drives root =
    collect root.drive_type root (walk drives (λ d. recursive_find_drives n drives d) root.children)

-- The two updates of `deleteDrive`. Its `$pull` is sent to the files, which have no children, and
-- changes nothing.
unfoldable pub delete_found : User → Found → Action (Unit {0})
delete_found requester found = do
  time ← date_now
  modify (λ w. record w {
    drives =
        update_many (λ d. includes found.drive_ids d.id)
          (λ d. record d { life = bury time requester.id d.life }) w.drives;
  })
  later ← date_now
  modify (λ w. record w {
    files =
        update_many (λ f. includes found.file_ids f.id)
          (λ f. record f { life = bury later requester.id f.life }) w.files;
  })

-- `deleteDrive`; it answers `none` where the depth is not enough.
unfoldable pub delete_drive : ℕ → Option User → String → Action (Option Drive)
delete_drive depth caller drive_id = do
  requester ← logged_in caller
  found ← gets (λ w. find_one (live_drive drive_id) w.drives)
  drive ← or_throw found client_action_on_non_existent_entry "Drive does not exist."
  throw_if (drive.restricted || is_none drive.parent) no_permission_error
      "You can not delete this drive."
  below ← gets (λ w. recursive_find_drives depth w.drives drive)
  elim below [ none ↦ pure none | some a ↦ delete_found requester a >> pure (some drive) ]
