-- ===== src/Files.antt =====
-- Uploading and deleting files: packages/itmat-cores/src/coreFunc/fileCore.ts.
mod Tests
pub mod Frame
pub mod Limits
use Prim.Native.Nat.{min}
use Prim.Native.String.{◌++◌ as push_str}
use dmp.Base.{
  ℕ, ◌+◌, ◌-◌, ◌*◌, String, Bool, true, false, ◌&&◌, Option, none, some, List, [], ◌∷◌, ltb, eqb,
  ◌==◌, if◌then◌else◌, not, is_none, truthy, includes, get_or,
}
use dmp.Model.Types.{
  User, File, FileUpload, FileCategory, study_data_file, user_drive_file, doc_file, cache_file,
  profile_file, domain_file, ConfigType, ConfigProperties, system_config, study_config, user_config,
  doc_config, cache_config, domain_config,
}
use dmp.Model.World.{World}
use dmp.Model.Action.{
  Action, GenericResponse, ◌>>=◌, ◌>>◌, pure, gets, or_throw, throw_if, modify, uuid, date_now,
  client_malformed_input, client_action_on_non_existent_entry, unqualified_error, file_stream_error,
  obj_store_error,
}
use dmp.Model.Collection.{find_one, insert_one, update_one, is_live, born, bury}

abbrev pub mebibytes : ℕ → ℕ
mebibytes n = n * 1024 * 1024

-- `defaultSettings`, by kind.
abbrev default_properties : ConfigType → ConfigProperties
default_properties system_config = record {
  default_maximum_file_size = mebibytes 1024;
  default_maximum_file_repo_size = 0;
  default_file_bucket_id = "system";
  default_profile_bucket_id = "profile";
  default_representation_for_missing_value = "";
}
default_properties study_config = record {
  default_maximum_file_size = mebibytes 8192;
  default_maximum_file_repo_size = 0;
  default_file_bucket_id = "";
  default_profile_bucket_id = "";
  default_representation_for_missing_value = "99999";
}
default_properties user_config = record {
  default_maximum_file_size = mebibytes 100;
  default_maximum_file_repo_size = mebibytes 500;
  default_file_bucket_id = "user";
  default_profile_bucket_id = "";
  default_representation_for_missing_value = "";
}
default_properties doc_config = record {
  default_maximum_file_size = mebibytes 100;
  default_maximum_file_repo_size = 0;
  default_file_bucket_id = "doc";
  default_profile_bucket_id = "";
  default_representation_for_missing_value = "";
}
default_properties cache_config = record {
  default_maximum_file_size = mebibytes 100;
  default_maximum_file_repo_size = 0;
  default_file_bucket_id = "cache";
  default_profile_bucket_id = "";
  default_representation_for_missing_value = "";
}
default_properties domain_config = record {
  default_maximum_file_size = mebibytes 10;
  default_maximum_file_repo_size = 0;
  default_file_bucket_id = "domain";
  default_profile_bucket_id = "";
  default_representation_for_missing_value = "";
}

-- Two kinds of configuration are equal when their numbers are.
abbrev pub config_tag : ConfigType → ℕ
config_tag system_config = 0
config_tag study_config = 1
config_tag user_config = 2
config_tag doc_config = 3
config_tag cache_config = 4
config_tag domain_config = 5

abbrev pub same_key : Option String → Option String → Bool
same_key none none = true
same_key none (some k) = false
same_key (some j) none = false
same_key (some j) (some k) = j == k

-- `configs_collection.findOne({ type, key })`, or the default settings of that kind.
unfoldable pub config_of : ConfigType → Option String → World → ConfigProperties
config_of t k w =
    elim (find_one (λ c. eqb (config_tag c.config_type) (config_tag t) && same_key c.key k)
      w.configs) [ none ↦ default_properties t | some c ↦ c.properties ]

-- The size limit and the bucket of an upload; `none` where no branch of the source applies. The sum
-- of the sizes stored so far is read as `cursor[0]`, which is undefined, and `?? 0` makes it 0.
unfoldable pub upload_target : User → Option String → FileCategory → World → Option (ℕ × String)
unfolding config_of
upload_target requester study_id study_data_file w = elim (truthy study_id) [
  | none ↦ none
  | some s ↦ some ((config_of study_config (some s) w).default_maximum_file_size, s)
]
upload_target requester study_id user_drive_file w =
    let c = config_of user_config (some requester.id) w in
    let remaining = c.default_maximum_file_repo_size - 0 in
    some (min c.default_maximum_file_size remaining, c.default_file_bucket_id)
upload_target requester study_id doc_file w =
    let c = config_of doc_config none w in
    some (c.default_maximum_file_size, c.default_file_bucket_id)
upload_target requester study_id cache_file w =
    let c = config_of cache_config none w in
    some (c.default_maximum_file_size, c.default_file_bucket_id)
upload_target requester study_id profile_file w =
    let c = config_of system_config none w in
    some (c.default_maximum_file_size, c.default_profile_bucket_id)
upload_target requester study_id domain_file w =
    let c = config_of domain_config none w in
    some (c.default_maximum_file_size, c.default_file_bucket_id)

-- The stream's events: the size at its `end` event, and `none` once the running size passes the limit and
-- the stream is destroyed, or where it breaks off by itself.
unfoldable pub read_stream : ℕ → ℕ → List ℕ → Option String → Option ℕ
read_stream limit size [] none = some size
read_stream limit size [] (some message) = none
read_stream limit size (chunk ∷ chunks) broken =
    let rest = read_stream limit (size + chunk) chunks broken in
    if ltb limit (size + chunk) then none else rest

-- The message of the stream's `error` event.
unfoldable pub stream_message : ℕ → ℕ → List ℕ → Option String → String
stream_message limit size [] broken = get_or broken ""
stream_message limit size (chunk ∷ chunks) broken =
    let rest = stream_message limit (size + chunk) chunks broken in
    if ltb limit (size + chunk) then "File size exceeds the limit." else rest

-- `handleFileUpload`; the object store's own error stands as `obj_store_error`.
unfoldable pub handle_file_upload :
    ℕ
    → ℕ
    → FileUpload
    → String
    → String
    → User
    → Option String
    → Option String
    → String
    → FileCategory
    → Option String
    → Action File
handle_file_upload size limit upload bucket file_uri requester study_id of_user file_type category
      description =
    do
      throw_if (ltb limit size) unqualified_error "File size exceeds the limit."
      stored ← gets (λ w. w.env.stores bucket file_uri)
      throw_if (not stored) obj_store_error ""
      file_id ← uuid
      time ← date_now
      let entry : File = record {
        id = file_id;
        study_id = study_id;
        user_id = of_user;
        file_name = upload.filename;
        file_size = size;
        description = description;
        uri = file_uri;
        hash = upload.digest;
        file_type = file_type;
        file_category = category;
        life = born time requester.id;
      }
      modify (λ w. record w { files = insert_one entry w.files })
      pure entry

-- `if (studyId)`: the study must be live.
abbrev pub check_study : Option String → Action (Unit {0})
check_study none = pure tt
check_study (some s) = do
  study ← gets (λ w. find_one (λ x. x.id == s && is_live x.life) w.studies)
  throw_if (is_none study) client_action_on_non_existent_entry "Study does not exist."

-- `uploadFile`: requester, study, user, upload, type, category, description.
unfoldable pub upload_file :
    User
    → Option String
    → Option String
    → FileUpload
    → String
    → FileCategory
    → Option String
    → Action File
unfolding upload_target handle_file_upload
upload_file requester study_id of_user upload file_type category description = do
  check_study (truthy study_id)
  found ← gets (upload_target requester study_id category)
  target ← or_throw found client_malformed_input "File category does not exist."
  file_uri ← uuid
  size ← or_throw (read_stream target.0 0 upload.chunks upload.stream_error) file_stream_error (
      push_str "Error reading file stream: "
        (stream_message target.0 0 upload.chunks upload.stream_error))
  handle_file_upload size target.0 upload target.1 file_uri requester study_id of_user file_type
      category description

-- `deleteFile`
unfoldable pub delete_file : String → String → Action GenericResponse
delete_file requester file_id = do
  file ← gets (λ w. find_one (λ f. f.id == file_id && is_live f.life) w.files)
  throw_if (is_none file) client_action_on_non_existent_entry "File does not exist."
  time ← date_now
  modify (λ w. record w {
    files =
        update_one (λ f. f.id == file_id) (λ f. record f { life = bury time requester f.life })
          w.files;
  })
  pure (record { id = file_id; description = "File has been deleted." })

-- `Object.keys(enumFileTypes)`
abbrev file_types : List String
file_types =
    "CSV" ∷ "ZIP" ∷ "RAR" ∷ "UNKNOWN" ∷ "MARKDOWN" ∷ "TXT" ∷ "JSON" ∷ "PDF" ∷ "DOCX" ∷ "XLSX"
    ∷ "XLS" ∷ "MAT" ∷ "JPG" ∷ "JPEG" ∷ "PNG" ∷ "WEBP" ∷ "GIF" ∷ "MP4" ∷ "AVI" ∷ "FEATHER" ∷ []

pub is_file_type : String → Bool
is_file_type ext = includes file_types ext

-- The lookup of an uploaded picture's type that creating and editing studies, domains and
-- organisations share: the extension must be one of `enumFileTypes`, whose keys are its values.
unfoldable pub picture_type : FileUpload → Action String
picture_type upload = do
  ext ← gets (λ w. w.env.extension upload.filename)
  throw_if (not (is_file_type ext)) client_malformed_input "File type not supported."
  pure ext

-- `if (profile)` and `if (logo)`: the id of the uploaded picture, if one is given.
unfoldable pub upload_picture :
    User → Option String → FileCategory → Option FileUpload → Action (Option String)
unfolding picture_type
upload_picture requester study_id category none = pure none
upload_picture requester study_id category (some upload) = do
  type ← picture_type upload
  entry ← upload_file requester study_id none upload type category none
  pure (some entry.id)
