-- ===== src/Drives/Tests.antt =====
-- Tests of driveCore.ts, and its theorems at concrete inputs.
use dmp.Base.{
  ℕ, ◌≡◌, refl, String, true, false, none, some, [], ◌∷◌, ◌==◌, if◌then◌else◌, All, map, arith,
}
use dmp.Model.Types.{Drive, folder, file, File, user_drive_file}
use dmp.Model.World.{World}
use dmp.Model.Action.{◌>>=◌}
use dmp.Model.Collection.{born, is_live}
use dmp.Samples.{alice, empty_world}
use dmp.Drives.{create_drive_folder, delete_drive, delete_found, recursive_find_drives}
use dmp.Drives.Deleted.{Deleted, IsRanked, delete_drive-Deleted}

abbrev home : Drive
home = record {
  id = "home";
  manager_id = "alice";
  path = "home" ∷ [];
  restricted = true;
  name = "My Drive";
  description = none;
  file_id = none;
  drive_type = folder;
  parent = none;
  children = "docs" ∷ [];
  shared_users = [];
  life = born 1 "alice";
}

abbrev docs : Drive
docs = record home {
  id = "docs";
  path = "home" ∷ "docs" ∷ [];
  restricted = false;
  name = "Documents";
  parent = some "home";
  children = "leaf" ∷ [];
}

abbrev leaf : Drive
leaf = record docs {
  id = "leaf";
  name = "notes.txt";
  path = "home" ∷ "docs" ∷ "leaf" ∷ [];
  drive_type = file;
  file_id = some "notes";
  parent = some "docs";
  children = [];
}

abbrev notes : File
notes = record {
  id = "notes";
  study_id = none;
  user_id = some "alice";
  file_name = "notes.txt";
  file_size = 12;
  description = none;
  uri = "uri";
  hash = "hash";
  file_type = "TXT";
  file_category = user_drive_file;
  life = born 1 "alice";
}

abbrev drive_world : World
drive_world = record empty_world { drives = home ∷ docs ∷ leaf ∷ []; files = notes ∷ [] }

abbrev height : String → ℕ
height i = if i == "home" then 2 else (if i == "docs" then 1 else 0)

-- Deleting the folder deletes what is in it, and its file.
folder_deleted :
    map (λ d. is_live d.life) (delete_drive 2 (some alice) "docs" drive_world).1.drives
    ≡ true ∷ false ∷ false ∷ []
unfolding delete_drive delete_found recursive_find_drives ◌>>=◌
folder_deleted = refl

-- A new folder is entered in its parent's children.
folder_created :
    map
      (λ d. d.children)
      (create_drive_folder (some alice) "Data" none false none drive_world).1.drives
    ≡ ("docs" ∷ "u" ∷ []) ∷ ("leaf" ∷ []) ∷ [] ∷ [] ∷ []
unfolding create_drive_folder ◌>>=◌
folder_created = refl

heights_fall : All (IsRanked height) drive_world.drives
heights_fall = ((omega arith, tt), ((omega arith, tt), (tt, tt)))

delete_drive-Deleted_example :
    Deleted "docs" drive_world (delete_drive 2 (some alice) "docs" drive_world)
delete_drive-Deleted_example =
    delete_drive-Deleted height 2 (some alice) "docs" drive_world heights_fall (omega arith)
