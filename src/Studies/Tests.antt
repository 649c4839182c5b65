-- ===== src/Studies/Tests.antt =====
-- Tests of studyCore.ts, and its theorems at concrete inputs.
use dmp.Base.{◌≡◌, refl, String, true, false, none, some, List, [], ◌∷◌, arith}
use dmp.Model.Types.{Study, DataVersion, Data, Role, study_user}
use dmp.Model.Value.{text}
use dmp.Model.World.{World}
use dmp.Model.Action.{◌>>=◌, ok}
use dmp.Model.Collection.{born}
use dmp.Samples.{sample_env, root, alice, empty_world, bob}
use dmp.Studies.Versions.{
  create_data_version, finish_version, set_dataversion_as_current, sync_cold, push_version,
}
use dmp.Studies.Versions.Current.{
  IsWellFormed, Call, create, choose, serve_all, serve_all-IsWellFormed,
}
use dmp.Studies.{delete_study, get_studies}
use dmp.Studies.Visible.{Visible, get_studies-Visible}
use dmp.Studies.Deleted.{Deleted, delete_study-Deleted}
use dmp.Studies.Versions.Moved.{Versioned, create_data_version-Versioned}

abbrev version_named : String → DataVersion
version_named i = record { id = i; version = i; tag = ""; life = born 1 "root" }

abbrev trial : Study
trial = record {
  id = "s";
  name = "Trial";
  current_data_version = 2;
  data_versions = version_named "v1" ∷ version_named "v2" ∷ [];
  description = "";
  profile = none;
  is_public = false;
  life = born 1 "root";
}

abbrev new_clip : Data
new_clip = record {
  study_id = "s";
  field_id = "age";
  data_version = none;
  value = text "40";
  properties = [];
  life = born 1 "root";
}

-- One study with two versions and a clip that waits for the next; every text is a version number.
abbrev trial_world : World
trial_world = record empty_world {
  env = record sample_env { matches = λ r s. true };
  studies = trial ∷ [];
  data_clips = new_clip ∷ [];
}

trial_world-IsWellFormed : IsWellFormed trial_world
trial_world-IsWellFormed = record { ids = (tt, tt); bounds = (omega arith, tt) }

abbrev calls : List Call
calls =
    choose (some root) "s" "v1"
    ∷ create (some root) "s" "third" "3" true
    ∷ create (some alice) "s" "" "4" false
    ∷ []

-- The increment starts at the version that was chosen before, so the new, third version is not current.
third_not_current :
    (serve_all calls trial_world).studies
    ≡ push_version
        (record { id = sample_env.uuid 0; version = "3"; tag = "third"; life = born 2 "root" })
        (record trial { current_data_version = 1 })
      ∷ []
unfolding create_data_version finish_version set_dataversion_as_current sync_cold ◌>>=◌
third_not_current = refl

serve_all-IsWellFormed_example : IsWellFormed (serve_all calls trial_world)
serve_all-IsWellFormed_example = serve_all-IsWellFormed calls trial_world trial_world-IsWellFormed

create_data_version-Versioned_example :
    Versioned "s" trial_world (create_data_version (some root) "s" "third" "3" true trial_world)
create_data_version-Versioned_example =
    create_data_version-Versioned (some root) "s" "third" "3" true trial_world

delete_study-Deleted_example :
    Deleted (some root) "s" trial_world (delete_study (some root) "s" trial_world)
delete_study-Deleted_example = delete_study-Deleted (some root) "s" trial_world (tt, tt)

abbrev readers : Role
readers = record {
  id = "r";
  study_id = "s";
  name = "Readers";
  description = none;
  data_permissions = [];
  study_role = study_user;
  users = "alice" ∷ [];
  life = born 1 "root";
}

abbrev shared_world : World
shared_world = record trial_world { roles = readers ∷ [] }

-- Bob has no role in the study, and sees nothing of it.
nothing_visible : get_studies (some bob) none shared_world ≡ (ok [], shared_world)
unfolding get_studies ◌>>=◌
nothing_visible = refl

get_studies-Visible_example :
    Visible (some alice) (some "s") shared_world (get_studies (some alice) (some "s") shared_world)
get_studies-Visible_example = get_studies-Visible (some alice) (some "s") shared_world
