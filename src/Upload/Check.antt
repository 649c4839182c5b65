-- ===== src/Upload/Check.antt =====
-- The checks of a data clip: the parsing and the verifiers in uploadData of
-- packages/itmat-cores/src/coreFunc/dataCore.ts. The properties of a clip are texts.
use Prim.Native.String.{◌++◌ as push_str}
use dmp.Base.{
  String, Bool, true, false, ◌&&◌, ◌||◌, Option, none, some, List, [], ◌∷◌, ◌==◌, if◌then◌else◌,
  not, is_none, includes, get_or, map,
}
use dmp.Model.Value.{Value, undefined, boolean, number, text, Clip, read, inherits, is_undefined}
use dmp.Model.Formula.{ValueVerifier}
use dmp.Model.Types.{
  Field, FieldProperty, DataType, integer, decimal, string, boolean as boolean_type, datetime, file,
  json, categorical,
}
use dmp.Model.World.{Env}
use dmp.Model.Action.{CoreErrors, client_malformed_input, client_action_on_non_existent_entry}
use dmp.Model.Collection.{find_one}
use dmp.Formulas.{Outcome, plain, valid_value_with_verifier, ok, failed}

-- `IDataInput`
pub record DataInput : Type 0 where
  pub field_id : String
  pub value : String
  pub properties : Option (List (String × String))

-- The value that a clip was parsed to, or the message of the error.
pub data Parsed : Type 0 where
  parsed : Value → Parsed
  refused : String → Parsed

-- The value where there is none is undefined.
abbrev pub value_of : Parsed → Value
value_of (parsed v) = v
value_of (refused e) = undefined

abbrev pub error_of : Parsed → Option String
error_of (parsed v) = none
error_of (refused e) = some e

-- `Field ${dataClip.fieldId}: …`
abbrev about : DataInput → String → String
about d message = push_str "Field " (push_str d.field_id (push_str ": " message))

-- `Field ${dataClip.fieldId} value ${v}: …`
abbrev pub about_value : Env → DataInput → Value → String → String
about_value env d v message =
    push_str "Field " (
      push_str d.field_id
        (push_str " value " (push_str (env.js.to_text v) (push_str ": " message))))

abbrev pub if_matches : Bool → Value → String → Outcome Parsed
if_matches b v e = ok (if b then parsed v else refused e)

abbrev pub datetime_pattern : String
datetime_pattern =
    "^(-?(?:[1-9][0-9]*)?[0-9]{4})-(1[0-2]|0[1-9])-(3[01]|0[1-9]|[12][0-9])T(2[0-3]|[01][0-9]):([0-5][0-9]):([0-5][0-9])(.[0-9]+)?(Z)?"

-- The `switch` on the field's data type.
unfoldable pub parse_value : Env → Field → DataInput → DataType → Outcome Parsed
parse_value env f d decimal =
    if_matches (env.matches "^-?\\d+(\\.\\d+)?$" d.value) (number (env.js.parse_float d.value))
      (about d "Cannot parse as decimal.")
parse_value env f d integer =
    if_matches (env.matches "^-?\\d+$" d.value) (number (env.js.parse_int d.value))
      (about d "Cannot parse as integer.")
parse_value env f d boolean_type =
    let low = env.js.lower d.value in
    if_matches (low == "true" || low == "false") (boolean (low == "true"))
      (about d "Cannot parse as boolean.")
parse_value env f d string = ok (parsed (text d.value))
parse_value env f d datetime =
    if_matches (env.matches datetime_pattern d.value) (text d.value)
      (about d "Cannot parse as date. Value for date type must be in ISO format.")
parse_value env f d json = elim (env.js.parse_json d.value) [
  | none ↦ failed (plain "SyntaxError")
  | some v ↦ ok (parsed v)
]
parse_value env f d file = ok (parsed (text d.value))
parse_value env f d categorical = elim f.categorical_options [
  | none ↦ ok (refused (about d "Cannot parse as categorical, possible values not defined."))
  | some os ↦
      if_matches (includes (map (λ o. o.code) os) d.value) (text d.value)
        (about d "Cannot parse as categorical, value not in value list.")
]

-- `typeof v === 'string' || typeof v === 'number'`
abbrev is_scalar : Value → Bool
is_scalar (number n) = true
is_scalar (text s) = true
is_scalar _ = false

-- One list of verifiers: all of them, up to the first that fails.
unfoldable pub all_pass : Env → Value → List ValueVerifier → Outcome Bool
all_pass env v [] = ok true
all_pass env v (r ∷ rs) =
    if is_scalar v
    then elim (valid_value_with_verifier env v r) [
      | failed e ↦ failed e
      | ok b ↦ if b then all_pass env v rs else ok false
    ]
    else ok false

-- `!resEach.every(el => !el)`; each list is tried.
unfoldable pub any_passes : Env → Value → List (List ValueVerifier) → Outcome Bool
any_passes env v [] = ok false
any_passes env v (g ∷ gs) = elim (all_pass env v g) [
  | failed e ↦ failed e
  | ok b ↦ elim (any_passes env v gs) [ failed e ↦ failed e | ok c ↦ ok (b || c) ]
]

-- `verifier && verifier.length`; a field without verifiers takes every value.
unfoldable pub verify : Env → Value → Option (List (List ValueVerifier)) → Outcome Bool
verify env v none = ok true
verify env v (some []) = ok true
verify env v (some (g ∷ gs)) = any_passes env v (g ∷ gs)

abbrev texts : List (String × String) → Clip
texts ps = map (λ p. (p.0, text p.1)) ps

-- `dataClip.properties[name]`, undefined where there are no properties.
unfoldable pub property_of : DataInput → String → Value
property_of d name = elim d.properties [ none ↦ undefined | some ps ↦ read name (texts ps) ]

-- The verifier of a property: an empty list refuses every value.
unfoldable pub property_passes : Env → DataInput → FieldProperty → Outcome Bool
unfolding property_of
property_passes env d p = elim p.verifier [
  | none ↦ ok true
  | some gs ↦ elim d.properties [
    | none ↦ ok true
    | some ps ↦ any_passes env (property_of d p.name) gs
  ]
]

-- The loop over the field's properties, with the error so far.
unfoldable pub check_properties :
    Env → DataInput → Option String → List FieldProperty → Outcome (Option String)
unfolding property_of property_passes
check_properties env d error [] = ok error
check_properties env d error (p ∷ ps) =
    if p.required && is_undefined (property_of d p.name)
    then ok (some (about d (push_str "Property " (push_str p.name " is required."))))
    else elim (property_passes env d p) [
      | failed e ↦ failed e
      | ok b ↦
          check_properties env d
            (if b
              then error
              else some (
                  about_value env d (property_of d p.name)
                    (push_str "Property " (push_str p.name " failed to pass the verifier."))))
            ps
    ]

-- A value that is not the study's representation of a missing one: the value and the last error.
unfoldable pub check_value : Env → Field → DataInput → Outcome (Value × Option String)
unfolding parse_value verify check_properties
check_value env f d = elim (parse_value env f d f.data_type) [
  | failed e ↦ failed e
  | ok p ↦ elim (verify env (value_of p) f.verifier) [
    | failed e ↦ failed e
    | ok passes ↦
        let error =
          if passes
          then error_of p
          else some (about_value env d (value_of p) "Failed to pass the verifier.") in
        elim (check_properties env d error (get_or f.properties [])) [
          | failed e ↦ failed e
          | ok last ↦ ok (value_of p, last)
        ]
  ]
]

abbrev pub Verdict : Type 0
Verdict = Value × Option (CoreErrors × String)

abbrev pub malformed : Value × Option String → Verdict
malformed (v, none) = (v, none)
malformed (v, some e) = (v, some (client_malformed_input, e))

abbrev pub judge_field : Env → DataInput → Option Field → Outcome Verdict
judge_field env d none = ok (undefined, some (client_malformed_input, about d "Invalid data Type."))
judge_field env d (some f) = elim (check_value env f d) [
  | failed e ↦ failed e
  | ok r ↦ ok (malformed r)
]

-- `availableFieldsMapping[dataClip.fieldId]`
abbrev pub field_named : List Field → String → Option Field
field_named fields field_id = find_one (λ f. f.field_id == field_id) fields

-- The checks of one permitted clip. `fieldId in availableFieldsMapping` holds of the keys that every
-- object inherits, too; what is inherited is a field without a data type.
unfoldable pub judge : Env → List Field → String → DataInput → Outcome Verdict
unfolding check_value
judge env fields missing d =
    if is_none (field_named fields d.field_id) && not (inherits d.field_id)
    then ok (undefined, some (client_action_on_non_existent_entry, about d "Field not found"))
    else if d.value == missing
    then ok (text missing, none)
    else judge_field env d (field_named fields d.field_id)
