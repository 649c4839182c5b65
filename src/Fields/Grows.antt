-- ===== src/Fields/Grows.antt =====
-- The dictionary of fields only grows (createField, editField, deleteField of
-- packages/itmat-cores/src/coreFunc/dataCore.ts).
use dmp.Base.{
  ◌⊎◌, inl, inr, ◌≡◌, refl, ◌∙◌, ap, String, true, false, Option, none, some, List, [], ◌∷◌, arith,
  ℕ,
}
use dmp.Model.Types.{User, Field, DataType, categorical, CategoricalOption}
use dmp.Model.World.{World}
use dmp.Model.Action.{Action, CoreErrors, Result, ok, err, GenericResponse, ◌>>=◌, uuid}
use dmp.Model.Action.Post.{
  or_throw-post, gets-post, throw_if-post, pure-post, uuid-post, date_now-post, modify-post,
  >>=-via, >>=-post,
}
use dmp.Model.Collection.{insert_one, is_live}
use dmp.Roles.{own_roles}
use dmp.Fields.{
  FieldInput, permits, require_field_permission, validate_field_entry, check_options, options_or,
  new_options, number_options, create_field, edit_field, delete_field,
}

-- The entry that a successful call appended, and the permission of its caller.
pub record Appended (caller : Option User) (study_id field_id : String) (bit : ℕ) (w w' : World)
    (entry : Field) : Type 0 where
  pub user : User
  pub logged : caller ≡ some user
  pub allowed : permits w.env.matches bit field_id (own_roles user study_id w.roles) ≡ true
  pub study : entry.study_id ≡ study_id
  pub field : entry.field_id ≡ field_id
  pub pending : entry.data_version ≡ none
  pub stored : w'.field_dictionary ≡ insert_one entry w.field_dictionary

-- What a call on the fields did.
abbrev pub Appends :
    {A : Type 0} → Option User → String → String → ℕ → World → Result A × World → Type 0
Appends caller study_id field_id bit w (err e t, w') = w'.field_dictionary ≡ w.field_dictionary
Appends caller study_id field_id bit w (ok a, w') =
    (entry : Field) × Appended caller study_id field_id bit w w' entry

-- A step that leaves the dictionary alone.
abbrev Same : {A : Type 0} → World → Result A × World → Type 0
Same w r = r.1.field_dictionary ≡ w.field_dictionary

number_options-Same : (os : List (String × String)) (w : World) → Same w (number_options os w)
unfolding ◌>>=◌
number_options-Same [] w = refl
number_options-Same (o ∷ os) w = number_options-Same os (uuid w).1

check_options-Same :
    (input : FieldInput) (type : DataType) (given : Option (List (String × String))) (w : World)
    → Same w (check_options input type given w)
unfolding ◌>>=◌
check_options-Same input categorical none w = refl
check_options-Same input categorical (some []) w = refl
check_options-Same input categorical (some (o ∷ os)) w = number_options-Same (o ∷ os) w
check_options-Same input _ given w = refl

validate-Same : (input : FieldInput) (w : World) → Same w (validate_field_entry input w)
unfolding validate_field_entry
validate-Same input w =
    let after : Result (Unit {0}) × World → Type 0 = Same w in
    gets-post after _ _ w (
      throw_if-post after _ _ _ _ w (λ _. refl)
        λ _. check_options-Same input input.data_type input.categorical_options w)

new_options-Same :
    (requester : User) (os : List (String × String)) (w : World)
    → Same w (new_options requester os w)
new_options-Same requester [] w = pure-post (Same w) [] w refl
new_options-Same requester (o ∷ os) w =
    let after : Result (List CategoricalOption) × World → Type 0 = Same w in
    uuid-post after _ w (
      date_now-post after _ _ (
        >>=-via after after (new_options requester os) _ _ (new_options-Same requester os _)
          (λ e t w' h. h) (λ rest w' h. pure-post after _ w' h)))

options_or-Same :
    (requester : User) (old : Option (List CategoricalOption))
    (given : Option (List (String × String))) (w : World)
    → Same w (options_or requester old given w)
unfolding options_or
options_or-Same requester old none w = pure-post (Same w) old w refl
options_or-Same requester old (some os) w =
    >>=-via (Same w) (Same w) (new_options requester os) _ w (new_options-Same requester os w)
      (λ e t w' h. h) (λ options w' h. pure-post (Same w) _ w' h)

require-same :
    (u : User) (study_id field_id : String) (bit : ℕ) (message : String) (w : World)
    → (require_field_permission u study_id field_id bit message w).1 ≡ w
unfolding require_field_permission ◌>>=◌
require-same u study_id field_id bit message w = ground arith

require-ok :
    (u : User) (study_id field_id : String) (bit : ℕ) (message : String) (w : World) {a : Unit {0}}
    → (require_field_permission u study_id field_id bit message w).0 ≡ ok a
    → permits w.env.matches bit field_id (own_roles u study_id w.roles) ≡ true
unfolding require_field_permission ◌>>=◌
require-ok u study_id field_id bit message w h = ground arith

module _ {B : Type 0} (P : Result B × World → Type 0) where
  require-post :
      (u : User) (study_id field_id : String) (bit : ℕ) (message : String) (k : Unit {0} → Action B)
      (w : World)
      → ((e : CoreErrors) (t : String) → P (err e t, w))
      → (permits w.env.matches bit field_id (own_roles u study_id w.roles) ≡ true → P (k tt w))
      → P ((require_field_permission u study_id field_id bit message >>= k) w)
  require-post u study_id field_id bit message k w failed passed =
      let same = require-same u study_id field_id bit message w in
      >>=-post P (require_field_permission u study_id field_id bit message) k w
        (λ e t _. rw same (failed e t))
        (λ a h. rw same (passed (require-ok u study_id field_id bit message w h)))

create_field-Appends :
    (caller : Option User) (input : FieldInput) (w : World)
    → Appends caller input.study_id input.field_id 2 w (create_field caller input w)
unfolding create_field
create_field-Appends caller input w =
    let after : Result Field × World → Type 0 = Appends caller input.study_id input.field_id 2 w in
    or_throw-post after caller _ _ _ w (λ _. refl)
      λ u known.
        require-post after u _ _ 2 _ _ w (λ e t. refl)
          λ may.
            >>=-via after (Same w) (validate_field_entry input) _ w (validate-Same input w)
              (λ e t w' h. h)
              λ a w₁ h₁.
                >>=-via after (Same w) (options_or u none input.categorical_options) _ w₁
                  (options_or-Same u none input.categorical_options w₁ ∙ h₁) (λ e t w' h. h)
                  λ options w₂ h₂. uuid-post after _ w₂ (
                    date_now-post after _ _ (
                      modify-post after _ _ _ (
                        pure-post after _ _ (
                          _,
                          record {
                            user = u;
                            logged = known;
                            allowed = may;
                            study = refl;
                            field = refl;
                            pending = refl;
                            stored = ap (insert_one _) h₂;
                          },
                        ))))

edit_field-Appends :
    (caller : Option User) (input : FieldInput) (w : World)
    → Appends caller input.study_id input.field_id 2 w (edit_field caller input w)
unfolding edit_field
edit_field-Appends caller input w =
    let after : Result GenericResponse × World → Type 0 =
      Appends caller input.study_id input.field_id 2 w in
    or_throw-post after caller _ _ _ w (λ _. refl)
      λ u known.
        require-post after u _ _ 2 _ _ w (λ e t. refl)
          λ may. gets-post after _ _ w (
            or_throw-post after _ _ _ _ w (λ _. refl)
              λ old found.
                >>=-via after (Same w) (validate_field_entry input) _ w (validate-Same input w)
                  (λ e t w' h. h)
                  λ a w₁ h₁.
                    >>=-via after (Same w)
                      (options_or u old.categorical_options input.categorical_options) _ w₁
                      (options_or-Same u old.categorical_options input.categorical_options w₁ ∙ h₁)
                      (λ e t w' h. h)
                      λ options w₂ h₂. uuid-post after _ w₂ (
                        date_now-post after _ _ (
                          modify-post after _ _ _ (
                            pure-post after _ _ (
                              _,
                              record {
                                user = u;
                                logged = known;
                                allowed = may;
                                study = refl;
                                field = refl;
                                pending = refl;
                                stored = ap (insert_one _) h₂;
                              },
                            )))))

-- The same for a deletion, whose entry is one that is deleted at the time of the call.
abbrev pub AppendsDeletion :
    Option User → String → String → World → Result GenericResponse × World → Type 0
AppendsDeletion caller study_id field_id w (err e t, w') = w'.field_dictionary ≡ w.field_dictionary
AppendsDeletion caller study_id field_id w (ok a, w') =
    (entry : Field) × Appended caller study_id field_id 1 w w' entry
    × (is_live entry.life ≡ false)
    × (entry.life.created_time ≡ w.env.now w.ticks)

pub delete_field-AppendsDeletion :
    (caller : Option User) (study_id field_id : String) (w : World)
    → AppendsDeletion caller study_id field_id w (delete_field caller study_id field_id w)
unfolding delete_field
delete_field-AppendsDeletion caller study_id field_id w =
    let after : Result GenericResponse × World → Type 0 =
      AppendsDeletion caller study_id field_id w in
    or_throw-post after caller _ _ _ w (λ _. refl)
      λ u known.
        require-post after u _ _ 1 _ _ w (λ e t. refl)
          λ may. gets-post after _ _ w (
            or_throw-post after _ _ _ _ w (λ _. refl)
              λ old found. uuid-post after _ w (
                date_now-post after _ _ (
                  date_now-post after _ _ (
                    modify-post after _ _ _ (
                      pure-post after _ _ (
                        _,
                        record {
                          user = u;
                          logged = known;
                          allowed = may;
                          study = refl;
                          field = refl;
                          pending = refl;
                          stored = refl;
                        },
                        refl,
                        refl,
                      ))))))

-- The calls on the fields of studies.
pub data Call : Type 0 where
  create edit : Option User → FieldInput → Call
  remove : Option User → String → String → Call

abbrev pub serve : Call → World → World
serve (create caller input) w = (create_field caller input w).1
serve (edit caller input) w = (edit_field caller input w).1
serve (remove caller study_id field_id) w = (delete_field caller study_id field_id w).1

abbrev pub serve_all : List Call → World → World
serve_all [] w = w
serve_all (c ∷ cs) w = serve_all cs (serve c w)

-- The caller, the study, the field and the bit of the permission that a call needs.
abbrev pub caller_of : Call → Option User
caller_of (create caller input) = caller
caller_of (edit caller input) = caller
caller_of (remove caller study_id field_id) = caller

abbrev pub study_of : Call → String
study_of (create caller input) = input.study_id
study_of (edit caller input) = input.study_id
study_of (remove caller study_id field_id) = study_id

abbrev pub field_of : Call → String
field_of (create caller input) = input.field_id
field_of (edit caller input) = input.field_id
field_of (remove caller study_id field_id) = field_id

abbrev pub bit_of : Call → ℕ
bit_of (create caller input) = 2
bit_of (edit caller input) = 2
bit_of (remove caller study_id field_id) = 1

-- The dictionary is as before, or has one entry more that the call may add.
abbrev pub Served : Call → World → World → Type 0
Served c w w' =
    (w'.field_dictionary ≡ w.field_dictionary)
    ⊎ ((entry : Field) × Appended (caller_of c) (study_of c) (field_of c) (bit_of c) w w' entry)

Appends-Served :
    {A : Type 0} (c : Call) (w : World) (r : Result A × World)
    → Appends (caller_of c) (study_of c) (field_of c) (bit_of c) w r
    → Served c w r.1
Appends-Served c w (err e t, w') h = inl h
Appends-Served c w (ok a, w') h = inr h

Deletion-Served :
    (caller : Option User) (study_id field_id : String) (w : World)
    (r : Result GenericResponse × World)
    → AppendsDeletion caller study_id field_id w r
    → Served (remove caller study_id field_id) w r.1
Deletion-Served caller study_id field_id w (err e t, w') h = inl h
Deletion-Served caller study_id field_id w (ok a, w') h = inr (h.0, h.1)

-- Creating, editing or deleting a field, by anyone and whether it succeeds or throws, leaves the dictionary
-- of fields as it was; or the caller is logged in and one of the caller's roles in the study (in any study,
-- where the study's id is empty) permits it for the field, by a pattern that matches and the level of its
-- permission, and the dictionary has one entry more, at its end, which is of that study and field and has no
-- version.
pub serve-Served : (c : Call) (w : World) → Served c w (serve c w)
serve-Served (create caller input) w =
    Appends-Served (create caller input) w _ (create_field-Appends caller input w)
serve-Served (edit caller input) w =
    Appends-Served (edit caller input) w _ (edit_field-Appends caller input w)
serve-Served (remove caller study_id field_id) w =
    Deletion-Served caller study_id field_id w _
      (delete_field-AppendsDeletion caller study_id field_id w)
