-- ===== src/Model/Types.antt =====
-- The records that the core functions read and write (packages/itmat-types/src/types). A `metadata`
-- that is always `{}`, and fields that no modelled function reads or writes, are left out. Times and
-- sizes are natural numbers.
use dmp.Base.{ℕ, String, Bool, Option, List}
use dmp.Model.Value.{Value, Clip}
use dmp.Model.Formula.{ValueVerifier}

-- What `life.deletedUser` holds. It is declared a text, the id of a user; `deleteStudy` stores the requester's
-- session object in its place, which stands here by the user's id.
pub data Deleter : Type 0 where
  user_id : String → Deleter
  whole_user : String → Deleter

pub record Life : Type 0 where
  pub created_time : ℕ
  pub created_user : String
  pub deleted_time : Option ℕ
  pub deleted_user : Option Deleter

pub data UserType : Type 0 where
  admin standard system guest : UserType

pub record User : Type 0 where
  pub id : String
  pub username : String
  pub email : String
  pub user_type : UserType
  pub life : Life

-- `permission` is read - write - delete, one bit each.
pub record DataPermission : Type 0 where
  pub fields : List String
  pub data_properties : List (String × List String)
  pub include_un_versioned : Bool
  pub permission : ℕ

pub data StudyRole : Type 0 where
  study_manager study_assistant study_user : StudyRole

pub record Role : Type 0 where
  pub id : String
  pub study_id : String
  pub name : String
  pub description : Option String
  pub data_permissions : List DataPermission
  pub study_role : StudyRole
  pub users : List String
  pub life : Life

pub record DataVersion : Type 0 where
  pub id : String
  pub version : String
  pub tag : String
  pub life : Life

-- `current_data_version` is the index plus one: 0 stands for the source's -1, no version.
pub record Study : Type 0 where
  pub id : String
  pub name : String
  pub current_data_version : ℕ
  pub data_versions : List DataVersion
  pub description : String
  pub profile : Option String
  pub is_public : Bool
  pub life : Life

pub data DriveType : Type 0 where
  folder file : DriveType

pub record DrivePermission : Type 0 where
  pub iid : String
  pub read : Bool
  pub write : Bool
  pub delete : Bool

pub record Drive : Type 0 where
  pub id : String
  pub manager_id : String
  pub path : List String
  pub restricted : Bool
  pub name : String
  pub description : Option String
  pub file_id : Option String
  pub drive_type : DriveType
  pub parent : Option String
  pub children : List String
  pub shared_users : List DrivePermission
  pub life : Life

pub data FileCategory : Type 0 where
  study_data_file user_drive_file doc_file cache_file profile_file domain_file : FileCategory

pub record File : Type 0 where
  pub id : String
  pub study_id : Option String
  pub user_id : Option String
  pub file_name : String
  pub file_size : ℕ
  pub description : Option String
  pub uri : String
  pub hash : String
  pub file_type : String
  pub file_category : FileCategory
  pub life : Life

-- An upload as its stream delivers it: the lengths of the chunks, the message of its `error` event, none where
-- it ends without one, and the digest of all chunks.
pub record FileUpload : Type 0 where
  pub filename : String
  pub chunks : List ℕ
  pub stream_error : Option String
  pub digest : String

pub record Organisation : Type 0 where
  pub id : String
  pub name : String
  pub shortname : Option String
  pub profile : Option String
  pub life : Life

pub record Domain : Type 0 where
  pub id : String
  pub name : String
  pub domain_path : String
  pub logo : Option String
  pub color : Option String
  pub life : Life

pub data ConfigType : Type 0 where
  system_config study_config user_config doc_config cache_config domain_config : ConfigType

-- The sizes and buckets that uploads read. A kind of configuration that lacks a field has any value.
pub record ConfigProperties : Type 0 where
  pub default_maximum_file_size : ℕ
  pub default_maximum_file_repo_size : ℕ
  pub default_file_bucket_id : String
  pub default_profile_bucket_id : String
  pub default_representation_for_missing_value : String

pub record Config : Type 0 where
  pub id : String
  pub config_type : ConfigType
  pub key : Option String
  pub properties : ConfigProperties
  pub life : Life

-- `enumDataTypes`
pub data DataType : Type 0 where
  integer decimal string boolean datetime file json categorical : DataType

pub record CategoricalOption : Type 0 where
  pub id : String
  pub code : String
  pub description : String
  pub life : Life

pub record FieldProperty : Type 0 where
  pub name : String
  pub verifier : Option (List (List ValueVerifier))
  pub description : Option String
  pub required : Bool

pub record Field : Type 0 where
  pub id : String
  pub study_id : String
  pub field_name : String
  pub field_id : String
  pub description : Option String
  pub data_type : DataType
  pub categorical_options : Option (List CategoricalOption)
  pub unit : Option String
  pub comments : Option String
  pub data_version : Option String
  pub verifier : Option (List (List ValueVerifier))
  pub properties : Option (List FieldProperty)
  pub metadata : Clip
  pub life : Life

-- A data clip of a study, as far as versioning and deletion see it.

pub record Data : Type 0 where
  pub study_id : String
  pub field_id : String
  pub data_version : Option String
  pub value : Value
  pub properties : List (String × String)
  pub life : Life

-- A clip in cold storage.
pub record ColdData : Type 0 where
  pub id : String
  pub study_id : String
  pub field_id : String
  pub properties : List (String × String)
  pub value : Value
  pub data_version : Option String
  pub life : Life

pub record Cache : Type 0 where
  pub key_study_id : String
  pub outdated : Bool

pub data JobStatus : Type 0 where
  pending cancelled finished in_use error : JobStatus

pub data JobHistoryStatus : Type 0 where
  success failed : JobHistoryStatus

-- The errors of a run are left out.
pub record JobHistory : Type 0 where
  pub time : ℕ
  pub status : JobHistoryStatus

-- `period` is none for one-off jobs. What only the executor reads is left out.
pub record Job : Type 0 where
  pub id : String
  pub name : String
  pub next_execution_time : ℕ
  pub period : Option ℕ
  pub priority : ℕ
  pub history : List JobHistory
  pub counter : ℕ
  pub status : JobStatus
  pub life : Life

pub record JobSchedulerConfig : Type 0 where
  pub use_priority : Bool
  pub re_execute_failed_jobs : Bool
  pub failed_job_delay_time : ℕ
  pub max_attempts : ℕ

-- What an executor answers.
pub record JobActionReturn : Type 0 where
  pub successful : Bool
