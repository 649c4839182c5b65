-- ===== src/Roles/Tests.antt =====
-- Tests of permissionCore.ts, and its theorems at concrete inputs.
use dmp.Base.{map, ◌≡◌, refl, ◌↔◌, true, false, none, some, [], ◌∷◌, eq_iff, Any, All}
use dmp.Model.Types.{Role, DataPermission, study_manager, study_user, Study}
use dmp.Model.World.{World}
use dmp.Model.Action.{◌>>=◌}
use dmp.Model.Collection.{born}
use dmp.Model.Collection.Distinct.{Distinct}
use dmp.Samples.{alice, bob, empty_world, visitor}
use dmp.Roles.{own_roles, delete_study_role, add_guest_user, push_to_all}
use dmp.Roles.Guests.{Granted, add_guest_user-Granted}
use dmp.Roles.Permission.{Entry, AtomicPermission, check_field_or_data_permission}
use dmp.Roles.Permission.Spec.{Covers, check_iff}
use dmp.Roles.Guard.{Guarded, delete, serve, target, serve-Guarded}
use dmp.Roles.Revoke.{Revoked, delete_study_role-Revoked}

abbrev reader : DataPermission
reader = record {
  fields = "age" ∷ "sex" ∷ [];
  data_properties = ("visit", "1" ∷ []) ∷ [];
  include_un_versioned = false;
  permission = 4;
}

-- Alice manages the study "s"; Bob may read two of its fields.
abbrev managers : Role
managers = record {
  id = "m";
  study_id = "s";
  name = "Managers";
  description = none;
  data_permissions = [];
  study_role = study_manager;
  users = "alice" ∷ [];
  life = born 1 "root";
}

abbrev readers : Role
readers = record managers {
  id = "r";
  name = "Readers";
  data_permissions = reader ∷ [];
  study_role = study_user;
  users = "bob" ∷ [];
}

abbrev study_world : World
study_world = record empty_world { roles = managers ∷ readers ∷ [] }

abbrev clip : Entry
clip = record { field_id = some "age"; has_value = true; properties = some (("visit", "1") ∷ []) }

bob_reads : check_field_or_data_permission study_world bob "s" clip AtomicPermission.read ≡ true
unfolding check_field_or_data_permission
bob_reads = refl

bob_writes_not :
    check_field_or_data_permission study_world bob "s" clip AtomicPermission.write ≡ false
unfolding check_field_or_data_permission
bob_writes_not = refl

check_iff_example :
    (check_field_or_data_permission study_world bob "s" clip AtomicPermission.read ≡ true)
    ↔ Any
        (λ r. All (Covers study_world.env.matches clip AtomicPermission.read) r.data_permissions)
        (own_roles bob "s" study_world.roles)
check_iff_example = check_iff study_world bob "s" clip AtomicPermission.read

serve-Guarded_example :
    Guarded
      (some bob)
      (target (delete "m") study_world)
      study_world
      (serve (some bob) (delete "m") study_world)
serve-Guarded_example = serve-Guarded (some bob) (delete "m") study_world

ids_differ : Distinct (λ r. r.id) study_world.roles
ids_differ = (((λ e. cc ((eq_iff "m" "r").1 e)), tt), (tt, tt))

delete_study_role-Revoked_example : Revoked "r" (delete_study_role (some alice) "r" study_world)
delete_study_role-Revoked_example =
    delete_study_role-Revoked (some alice) "r" study_world ids_differ

abbrev open_study : Study
open_study = record {
  id = "s";
  name = "Trial";
  current_data_version = 0;
  data_versions = [];
  description = "";
  profile = none;
  is_public = true;
  life = born 1 "root";
}

-- The study is public, and its readers are its guests.
abbrev public_world : World
public_world = record study_world {
  users = visitor ∷ [];
  studies = open_study ∷ [];
  roles = managers ∷ record readers { name = "Guest" } ∷ [];
}

guest_added :
    map (λ r. r.users) (add_guest_user "visitor" public_world).1.roles
    ≡ ("alice" ∷ []) ∷ ("bob" ∷ "visitor" ∷ []) ∷ []
unfolding add_guest_user push_to_all ◌>>=◌
guest_added = refl

add_guest_user-Granted_example :
    Granted "visitor" public_world (add_guest_user "visitor" public_world)
add_guest_user-Granted_example = add_guest_user-Granted "visitor" public_world ids_differ
