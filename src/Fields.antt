-- ===== src/Fields.antt =====
-- The fields of a study: packages/itmat-cores/src/coreFunc/dataCore.ts (getStudyFields, createField,
-- editField, deleteField, validateFieldEntry). The dictionary only grows: an edit and a deletion append an
-- entry, and a reader sees the newest entry of each field.
mod Dictionary
pub mod Latest
pub mod Read
pub mod Grows
pub mod Gone
mod Tests
unfoldable pub use Dictionary.*
use Prim.Native.String.{◌++◌ as push_str}
use dmp.Base.{
  ℕ, zero, suc, ◌/◌, ◌%◌, String, Bool, true, false, ◌&&◌, ◌||◌, Option, none, some, List, [], ◌∷◌,
  ◌++◌, ◌==◌, if◌then◌else◌, not, is_none, eqb, leb, filter, any, includes, get_or, or_else, map,
}
use dmp.Model.Value.{Clip}
use dmp.Model.Formula.{ValueVerifier}
use dmp.Model.Types.{
  User, Role, DataPermission, Study, DataVersion, Field, FieldProperty, DataType, CategoricalOption,
  file, categorical,
}
use dmp.Model.World.{World}
use dmp.Model.Action.{
  Action, GenericResponse, ◌>>=◌, ◌>>◌, pure, gets, or_throw, throw, throw_if, modify, uuid,
  date_now, no_permission_error, client_malformed_input, client_action_on_non_existent_entry,
  code_text,
}
use dmp.Model.Collection.{find_one, insert_one, is_live, born, bury}
use dmp.Access.{logged_in}
use dmp.Roles.{own_roles, is_empty}

-- `CreateFieldInput` and `EditFieldInput`
pub record FieldInput : Type 0 where
  pub study_id : String
  pub field_name : String
  pub field_id : String
  pub description : Option String
  pub data_type : DataType
  pub categorical_options : Option (List (String × String))
  pub unit : Option String
  pub comments : Option String
  pub verifier : Option (List (List ValueVerifier))
  pub properties : Option (List FieldProperty)
  pub metadata : Option Clip

-- The guard of the operations: a role in the study, and a permission for the field with the bit.
unfoldable pub require_field_permission : User → String → String → ℕ → String → Action (Unit {0})
require_field_permission requester study_id field_id bit message = do
  roles ← gets (λ w. own_roles requester study_id w.roles)
  throw_if (is_empty roles) no_permission_error (code_text no_permission_error)
  allowed ← gets (λ w. permits w.env.matches bit field_id roles)
  throw_if (not allowed) no_permission_error message

-- `categoricalOptions[i]['id'] = uuid()`; the ids are overwritten later.
abbrev pub number_options : List (String × String) → Action (Unit {0})
number_options [] = pure tt
number_options (o ∷ os) = uuid >> number_options os

abbrev empty_options : FieldInput → String
empty_options input = push_str input.field_id (
    push_str "-"
      (push_str input.field_name ": possible values can't be empty if data type is categorical."))

-- A categorical field has options.
abbrev pub check_options :
    FieldInput → DataType → Option (List (String × String)) → Action (Unit {0})
check_options input categorical none = throw client_malformed_input (empty_options input)
check_options input categorical (some []) = throw client_malformed_input (empty_options input)
check_options input categorical (some (o ∷ os)) = number_options (o ∷ os)
check_options input _ given = pure tt

-- `validateFieldEntry`, and the error that its callers throw. Its loop over the compulsory keys tests
-- `=== undefined && === null`, which no key passes, and a data type is one of `enumDataTypes`.
unfoldable pub validate_field_entry : FieldInput → Action (Unit {0})
validate_field_entry input = do
  named ← gets (λ w. w.env.matches "^[a-zA-Z0-9_]*$" input.field_id)
  throw_if (not named) client_malformed_input "FieldId should contain letters, numbers and _ only."
  check_options input input.data_type input.categorical_options

-- `categoricalOptionsWithId`
abbrev pub new_options : User → List (String × String) → Action (List CategoricalOption)
new_options requester [] = pure []
new_options requester (o ∷ os) = do
  option_id ← uuid
  time ← date_now
  rest ← new_options requester os
  pure (
      (record { id = option_id; code = o.0; description = o.1; life = born time requester.id })
      ∷ rest)

unfoldable pub options_or :
    User
    → Option (List CategoricalOption)
    → Option (List (String × String))
    → Action (Option (List CategoricalOption))
options_or requester old none = pure old
options_or requester old (some os) = do options ← new_options requester os; pure (some options)

abbrev file_properties : Option (List FieldProperty) → List FieldProperty
file_properties given =
    get_or given []
    ++ (record { name = "FileName"; verifier = none; description = none; required = true }) ∷ []

-- `createField`
unfoldable pub create_field : Option User → FieldInput → Action Field
create_field caller input = do
  requester ← logged_in caller
  require_field_permission requester input.study_id input.field_id 2
      "No permission to create this field."
  validate_field_entry input
  options ← options_or requester none input.categorical_options
  entry_id ← uuid
  time ← date_now
  let entry : Field = record {
    id = entry_id;
    study_id = input.study_id;
    field_name = input.field_name;
    field_id = input.field_id;
    description = input.description;
    data_type = input.data_type;
    categorical_options = options;
    unit = input.unit;
    comments = input.comments;
    data_version = none;
    verifier = some (get_or input.verifier []);
    properties = elim input.data_type [
      | file ↦ some (file_properties input.properties)
      | _ ↦ input.properties
    ];
    metadata = get_or input.metadata [];
    life = born time requester.id;
  }
  modify (λ w. record w { field_dictionary = insert_one entry w.field_dictionary })
  pure entry

-- `editField`. The entry that lends the missing values is the first live one, of any version.
unfoldable pub edit_field : Option User → FieldInput → Action GenericResponse
edit_field caller input = do
  requester ← logged_in caller
  require_field_permission requester input.study_id input.field_id 2
      "No permission to create this field."
  found ← gets (λ w.
      find_one (λ f. f.study_id == input.study_id && f.field_id == input.field_id && is_live f.life)
        w.field_dictionary)
  field ← or_throw found client_action_on_non_existent_entry "Field does not exist."
  validate_field_entry input
  options ← options_or requester field.categorical_options input.categorical_options
  entry_id ← uuid
  time ← date_now
  let entry : Field = record {
    id = entry_id;
    study_id = input.study_id;
    field_name = input.field_name;
    field_id = input.field_id;
    description = or_else input.description field.description;
    data_type = input.data_type;
    categorical_options = options;
    unit = or_else input.unit field.unit;
    comments = or_else input.comments field.comments;
    data_version = none;
    verifier = or_else input.verifier field.verifier;
    properties = or_else input.properties field.properties;
    metadata = [];
    life = born time requester.id;
  }
  modify (λ w. record w { field_dictionary = insert_one entry w.field_dictionary })
  pure (record {
    id = input.field_id;
    description = push_str "Field " (push_str input.field_id " has been edited.");
  })

abbrev newest : List Field → Option Field
newest [] = none
newest (f ∷ fs) = some f

-- `!field || field.life.deletedTime`: a time of 0 reads as none.
abbrev undeleted : Option Field → Option Field
undeleted none = none
undeleted (some f) = elim f.life.deleted_time [
  | none ↦ some f
  | some zero ↦ some f
  | some (suc t) ↦ none
]

-- The newest entry of the field, of any version, unless it is a deletion.
abbrev newest_live : List Field → Option Field
newest_live fs = undeleted (newest (sort_by_time fs))

-- `deleteField`
unfoldable pub delete_field : Option User → String → String → Action GenericResponse
delete_field caller study_id field_id = do
  requester ← logged_in caller
  require_field_permission requester study_id field_id 1 "No permission to delete this field."
  found ← gets (λ w.
      newest_live
        (filter (λ f. f.study_id == study_id && f.field_id == field_id) w.field_dictionary))
  field ← or_throw found client_action_on_non_existent_entry "Field does not exist."
  entry_id ← uuid
  created ← date_now
  deleted ← date_now
  let entry : Field = record field {
    id = entry_id;
    study_id = study_id;
    field_id = field_id;
    data_version = none;
    metadata = [];
    life = bury deleted requester.id (born created requester.id);
  }
  modify (λ w. record w { field_dictionary = insert_one entry w.field_dictionary })
  pure (record {
    id = field_id;
    description = push_str "Field " (push_str field_id " has been deleted.");
  })
