-- ===== src/Upload.antt =====
-- Uploading data clips to a study, and deleting them: uploadData and deleteData of
-- packages/itmat-cores/src/coreFunc/dataCore.ts.
pub mod Check
pub mod Valid
pub mod Stored
mod Tests
use Prim.Native.String.{◌++◌ as push_str}
use dmp.Base.{
  ℕ, zero, suc, String, Bool, true, false, ◌&&◌, ◌||◌, Option, none, some, List, [], ◌∷◌, ◌++◌,
  ◌==◌, if◌then◌else◌, not, is_none, all, any, includes, get_or, or_else, map,
}
use dmp.Base.Decimal.{decimal as decimal_text}
use dmp.Model.Value.{
  Value, undefined, null, boolean, number, text, Clip, read, inherits, is_undefined,
}
use dmp.Model.Formula.{ValueVerifier}
use dmp.Model.Types.{
  User, Study, Field, FieldProperty, Data, DataType, integer, decimal, string,
  boolean as boolean_type, datetime, file, json, categorical, study_config,
}
use dmp.Model.World.{World, Env}
use dmp.Model.Action.{
  Action, CoreErrors, GenericResponse, ◌>>=◌, ◌>>◌, pure, gets, or_throw, throw, throw_if, modify,
  uuid, date_now, no_permission_error, client_malformed_input, client_action_on_non_existent_entry,
  unqualified_error, code_text,
}
use dmp.Model.Collection.{find_one, insert_one, is_live, born, bury}
use dmp.Access.{logged_in}
use dmp.Files.{config_of}
use dmp.Formulas.{
  Outcome, Failure, core, plain, type_error, untyped, valid_value_with_verifier, ok, failed,
}
use dmp.Roles.{own_roles, is_manager, is_empty}
use dmp.Roles.Permission.{Entry, check_field_or_data_permission, write}
use dmp.Fields.{available_versions, up_to_current, versions, get_study_fields}
use dmp.Upload.Check.{DataInput, Verdict, judge}

-- `IGenericResponse`, with whether the clip was taken.
pub record Response : Type 0 where
  pub id : String
  pub successful : Bool
  pub code : Option CoreErrors
  pub description : String

abbrev entry_of : DataInput → Entry
entry_of d = record { field_id = some d.field_id; has_value = true; properties = d.properties }

unfoldable pub may_upload : World → User → String → DataInput → Bool
may_upload w requester study_id d =
    check_field_or_data_permission w requester study_id (entry_of d) write

unfoldable pub verdict_on :
    User → String → List Field → String → DataInput → World → Outcome Verdict
unfolding judge
verdict_on requester study_id fields missing d w =
    if may_upload w requester study_id d
    then judge w.env fields missing d
    else ok (undefined, some (no_permission_error, code_text no_permission_error))

-- What is thrown that is no `CoreError` has no code in the source.
abbrev pub lift : {A : Type 0} → Outcome A → Action A
lift (ok a) = pure a
lift (failed (core e t)) = throw e t
lift (failed (plain t)) = throw unqualified_error t
lift (failed _) = throw unqualified_error ""

abbrev new_data : String → DataInput → Value → ℕ → User → Data
new_data study_id d v time requester = record {
  study_id = study_id;
  field_id = d.field_id;
  data_version = none;
  value = v;
  properties = get_or d.properties [];
  life = born time requester.id;
}

abbrev pub refusal : ℕ → CoreErrors × String → Response
refusal counter (e, t) = record {
  id = decimal_text counter;
  successful = false;
  code = some e;
  description = t;
}

abbrev acceptance : ℕ → DataInput → Response
acceptance counter d = record {
  id = decimal_text counter;
  successful = true;
  code = none;
  description =
      push_str "Field "
        (push_str d.field_id (push_str " value " (push_str d.value " successfully uploaded.")));
}

-- One round of the loop: the response, and the clip for the bulk.
abbrev pub conclude : User → String → ℕ → DataInput → Verdict → Action (Response × List Data)
conclude requester study_id counter d (v, some e) = pure (refusal counter e, [])
conclude requester study_id counter d (v, none) = do
  data_id ← uuid
  time ← date_now
  pure (acceptance counter d, new_data study_id d v time requester ∷ [])

-- The loop. The bulk is sent at its end; that it is also sent whenever it has more than 999 batches is
-- left out.
unfoldable pub upload_each :
    User → String → List Field → String → ℕ → List DataInput → Action (List Response × List Data)
unfolding verdict_on
upload_each requester study_id fields missing counter [] = pure ([], [])
upload_each requester study_id fields missing counter (d ∷ ds) = do
  outcome ← gets (verdict_on requester study_id fields missing d)
  verdict ← lift outcome
  one ← conclude requester study_id counter d verdict
  rest ← upload_each requester study_id fields missing (suc counter) ds
  pure (one.0 ∷ rest.0, one.1 ++ rest.1)

-- `uploadData`
unfoldable pub upload_data : Option User → String → List DataInput → Action (List Response)
upload_data caller study_id data_inputs = do
  requester ← logged_in caller
  found ← gets (λ w. find_one (λ s. s.id == study_id && is_live s.life) w.studies)
  study ← or_throw found client_action_on_non_existent_entry "Study does not exist."
  fields ←
      get_study_fields caller study_id
        (versions (available_versions up_to_current study ++ none ∷ [])) none
  missing ←
      gets
        (λ w. (config_of study_config (some study_id) w).default_representation_for_missing_value)
  results ← upload_each requester study_id fields missing 0 data_inputs
  modify (λ w. record w { data_clips = w.data_clips ++ results.1 })
  pure results.0

-- `deleteData`: a clip that is deleted. What the check of the permission answers is not used.
unfoldable pub delete_data :
    Option User → String → String → List (String × String) → Action GenericResponse
delete_data caller study_id field_id properties = do
  requester ← logged_in caller
  roles ← gets (λ w. own_roles requester study_id w.roles)
  throw_if (is_empty roles || all (λ r. not (is_manager r)) roles) no_permission_error
      (code_text no_permission_error)
  found ← gets (λ w. find_one (λ s. s.id == study_id && is_live s.life) w.studies)
  throw_if (is_none found) client_action_on_non_existent_entry "Study does not exist."
  data_id ← uuid
  created ← date_now
  deleted ← date_now
  modify (λ w. record w {
    data_clips =
        insert_one
          (record {
            study_id = study_id;
            field_id = field_id;
            data_version = none;
            value = null;
            properties = properties;
            life = bury deleted requester.id (born created requester.id);
          })
          w.data_clips;
  })
  pure (record { id = ""; description = "Data deleted." })
