-- ===== src/Upload/Valid.antt =====
-- Which values pass the checks of `uploadData` (packages/itmat-cores/src/coreFunc/dataCore.ts).
use dmp.Base.{
  ◌≡◌, refl, ◌∙◌, ap, subst, String, Bool, true, false, ◌&&◌, Option, none, some, List, [], ◌∷◌,
  ◌==◌, All, ◌⊎◌, inl, inr, Bool-cases, Option-cases, eq_iff, arith, includes, map, get_or, is_none,
  not, if◌then◌else◌,
}
use dmp.Model.Value.{Value, boolean, number, text, is_undefined, inherits}
use dmp.Model.Types.{
  Field, FieldProperty, CategoricalOption, DataType, integer, decimal, string,
  boolean as boolean_type, datetime, file, json, categorical,
}
use dmp.Model.World.{Env}
use dmp.Formulas.{Outcome, Failure, ok, failed}
use dmp.Upload.Check.{
  DataInput, Parsed, value_of, error_of, parse_value, verify, property_of, property_passes,
  check_properties, check_value, judge, field_named, datetime_pattern, if_matches, about_value,
}

-- The value is one of the data type, and what the text reads as.
abbrev pub HasType : Env → Field → DataInput → DataType → Value → Type 0
HasType env f d decimal v =
    (env.matches "^-?\\d+(\\.\\d+)?$" d.value ≡ true) × (v ≡ number (env.js.parse_float d.value))
HasType env f d integer v =
    (env.matches "^-?\\d+$" d.value ≡ true) × (v ≡ number (env.js.parse_int d.value))
HasType env f d boolean_type v =
    ((env.js.lower d.value ≡ "true") × (v ≡ boolean true))
    ⊎ ((env.js.lower d.value ≡ "false") × (v ≡ boolean false))
HasType env f d string v = v ≡ text d.value
HasType env f d datetime v = (env.matches datetime_pattern d.value ≡ true) × (v ≡ text d.value)
HasType env f d json v = env.js.parse_json d.value ≡ some v
HasType env f d file v = v ≡ text d.value
HasType env f d categorical v =
    (os : List CategoricalOption) × (f.categorical_options ≡ some os)
    × (includes (map (λ o. o.code) os) d.value ≡ true)
    × (v ≡ text d.value)

if_matches-value :
    (b : Bool) (v : Value) (e : String) (p : Parsed)
    → if_matches b v e ≡ ok p
    → error_of p ≡ none
    → (b ≡ true) × (value_of p ≡ v)
if_matches-value true v e p h none_here = (refl, ground arith)
if_matches-value false v e p h none_here = absurd (ground arith)

parse_value-HasType :
    (env : Env) (f : Field) (d : DataInput) (t : DataType) (p : Parsed)
    → parse_value env f d t ≡ ok p
    → error_of p ≡ none
    → HasType env f d t (value_of p)
unfolding parse_value
parse_value-HasType env f d decimal p h e = if_matches-value _ _ _ p h e
parse_value-HasType env f d integer p h e = if_matches-value _ _ _ p h e
parse_value-HasType env f d boolean_type p h e =
    let (either, same) = if_matches-value _ _ _ p h e in
    elim (Bool-cases (env.js.lower d.value == "true")) [
      | inl same_text ↦
          inl (ground (arith, eq_iff (env.js.lower d.value) "true"), rw same_text at same)
      | inr other ↦ inr (ground (arith, eq_iff (env.js.lower d.value) "false"), rw other at same)
    ]
parse_value-HasType env f d string p h e = ground arith
parse_value-HasType env f d datetime p h e = if_matches-value _ _ _ p h e
parse_value-HasType env f d json p h e = ground arith
parse_value-HasType env f d file p h e = ground arith
parse_value-HasType env f d categorical p h e = elim (Option-cases f.categorical_options) [
  | inl none_given ↦ absurd (ground arith)
  | inr (os, given) ↦
      let (known, same) = if_matches-value _ _ _ p (rw given at h) e in (os, given, known, same)
]

-- A property that is required is there, and its verifiers pass.
abbrev pub PropertyHolds : Env → DataInput → FieldProperty → Type 0
PropertyHolds env d p =
    (p.required ≡ true → is_undefined (property_of d p.name) ≡ false)
    × (property_passes env d p ≡ ok true)

pub Outcome-cases :
    {A : Type 0} (o : Outcome A) → ((e : Failure) × (o ≡ failed e)) ⊎ ((a : A) × (o ≡ ok a))
Outcome-cases (ok a) = inr (a, refl)
Outcome-cases (failed e) = inl (e, refl)

check_properties-none :
    (env : Env) (d : DataInput) (ps : List FieldProperty) (error : Option String)
    → check_properties env d error ps ≡ ok none
    → (error ≡ none) × All (PropertyHolds env d) ps
unfolding check_properties
check_properties-none env d [] error h = (ground arith, tt)
check_properties-none env d (p ∷ ps) error h =
    elim (Bool-cases (p.required && is_undefined (property_of d p.name))) [
      | inl missing ↦ absurd (ground arith)
      | inr given ↦ elim (Outcome-cases (property_passes env d p)) [
        | inl (e, threw) ↦ absurd (ground arith)
        | inr (true, passed) ↦
            let (first, rest) = check_properties-none env d ps error (rw (given, passed) at h) in
            (first, ((λ needed. ground arith, passed), rest))
        | inr (false, refused_here) ↦
            let (first, rest) = check_properties-none env d ps _ (rw (given, refused_here) at h) in
            absurd (ground arith)
      ]
    ]

-- The value is the representation of a missing one, as it stands in the clip; or the clip's field is among
-- those given, the value is of its type, its verifiers pass and so do those of its properties.
abbrev pub IsValid : Env → List Field → String → DataInput → Value → Type 0
IsValid env fields missing d v =
    ((d.value ≡ missing) × (v ≡ text missing))
    ⊎ ((f : Field) × (field_named fields d.field_id ≡ some f)
        × HasType env f d f.data_type v
        × (verify env v f.verifier ≡ ok true)
        × All (PropertyHolds env d) (get_or f.properties []))

check_value-ok :
    (env : Env) (f : Field) (d : DataInput) (v : Value)
    → check_value env f d ≡ ok (v, none)
    → HasType env f d f.data_type v
      × (verify env v f.verifier ≡ ok true)
      × All (PropertyHolds env d) (get_or f.properties [])
unfolding check_value
check_value-ok env f d v h = elim (Outcome-cases (parse_value env f d f.data_type)) [
  | inl (e, threw) ↦ absurd (ground arith)
  | inr (p, was_parsed) ↦ elim (Outcome-cases (verify env (value_of p) f.verifier)) [
    | inl (e, threw) ↦ absurd (ground arith)
    | inr (b, verified) ↦
        elim (Outcome-cases (
          check_properties env d
            (if b
              then error_of p
              else some (about_value env d (value_of p) "Failed to pass the verifier."))
            (get_or f.properties []))) [
              | inl (e, threw) ↦ absurd (ground arith)
              | inr (last, checked) ↦
                  let reached : ◌≡◌ {A = Outcome (Value × Option String)} (ok (value_of p, last))
                      (ok (v, none)) =
                    rw (check_value, was_parsed, verified, checked) at h in
                  let same : value_of p ≡ v = ground arith in
                  let clean : last ≡ none = ground arith in
                  let (first, hold) = check_properties-none env d _ _ (checked ∙ ap ok clean) in
                  finish p b same was_parsed verified first hold
            ]
  ]
]
  where
    finish :
        (p : Parsed) (b : Bool)
        → value_of p ≡ v
        → parse_value env f d f.data_type ≡ ok p
        → verify env (value_of p) f.verifier ≡ ok b
        → (if b
            then error_of p
            else some (about_value env d (value_of p) "Failed to pass the verifier."))
          ≡ none
        → All (PropertyHolds env d) (get_or f.properties [])
        → HasType env f d f.data_type v
          × (verify env v f.verifier ≡ ok true)
          × All (PropertyHolds env d) (get_or f.properties [])
    finish p false same was_parsed verified first hold = absurd (ground arith)
    finish p true same was_parsed verified first hold = (
      subst (HasType env f d f.data_type) same
          (parse_value-HasType env f d f.data_type p was_parsed first),
      subst (λ u. verify env u f.verifier ≡ ok true) same verified,
      hold,
    )

pub judge-IsValid :
    (env : Env) (fields : List Field) (missing : String) (d : DataInput) (v : Value)
    → judge env fields missing d ≡ ok (v, none)
    → IsValid env fields missing d v
unfolding judge
judge-IsValid env fields missing d v h =
    elim (Bool-cases (is_none (field_named fields d.field_id) && not (inherits d.field_id))) [
      | inl absent ↦ absurd (ground arith)
      | inr present ↦ elim (Bool-cases (d.value == missing)) [
        | inl blank ↦ inl (ground (arith, eq_iff d.value missing), ground arith)
        | inr filled ↦ elim (Option-cases (field_named fields d.field_id)) [
          | inl none_named ↦ absurd (ground arith)
          | inr (f, named) ↦ elim (Outcome-cases (check_value env f d)) [
            | inl (e, threw) ↦ absurd (ground arith)
            | inr ((u, none), checked) ↦
                let same : u ≡ v = ground arith in
                let (typed, passed, hold) =
                  check_value-ok env f d v (checked ∙ ap (λ x. ok (x, none)) same) in
                inr (f, named, typed, passed, hold)
            | inr ((u, some e), checked) ↦ absurd (ground arith)
          ]
        ]
      ]
    ]
