-- ===== src/Fields/Gone.antt =====
-- Deleting a field and reading afterwards (deleteField and getStudyFields of
-- packages/itmat-cores/src/coreFunc/dataCore.ts).
use dmp.Base.{
  ◌⊎◌, ◌<◌, ◌≡◌, ◌≢◌, sym, ◌∙◌, ap, subst, String, Bool, true, false, Option, none, List, [], ◌∷◌,
  arith, All, Any, inl, inr, eq_iff,
}
use dmp.Model.Types.{User, Field}
use dmp.Model.World.{World}
use dmp.Model.Action.{Result, ok, err, GenericResponse}
use dmp.Model.Collection.{insert_one, is_live}
use dmp.Model.Collection.Pairwise.{All-map}
use dmp.Roles.{own_roles}
use dmp.Fields.{
  versions, get_study_fields, delete_field, matching, in_versions, available_versions,
  readable_patterns,
}
use dmp.Fields.Read.{Newest, Read, get_study_fields-Read}
use dmp.Fields.Grows.{Appended, AppendsDeletion, delete_field-AppendsDeletion}

-- What holds of every old entry holds of an entry that is stored and is not the new one.
stored-cases :
    (P : Field → Type 0) (new f : Field) (fs : List Field)
    → All P fs
    → Any (λ y. y ≡ f) (insert_one new fs)
    → P f ⊎ (new ≡ f)
stored-cases P new f [] a (inl e) = inr e
stored-cases P new f [] a (inr h) = absurd h
stored-cases P new f (x ∷ fs) a (inl e) = inl (subst P e a.0)
stored-cases P new f (x ∷ fs) a (inr h) = stored-cases P new f fs a.1 h

All-last : (P : Field → Type 0) (new : Field) (fs : List Field) → All P (insert_one new fs) → P new
All-last P new [] a = a.0
All-last P new (x ∷ fs) a = All-last P new fs a.1

-- An entry that is newer than all old ones, and a deletion, hides its field.
module _ (test : String → String → Bool) (study_id : String) (vs : List (Option String))
    (selected : Option (List String)) (patterns : List String) where
  abbrev candidate : Field → Bool
  candidate = matching test study_id vs selected patterns

  same-matching :
      (f g : Field)
      → candidate f ≡ true
      → g.study_id ≡ study_id
      → g.field_id ≡ f.field_id
      → in_versions vs g.data_version ≡ true
      → candidate g ≡ true
  unfolding matching
  same-matching f g h study field version = ground (arith, eq_iff g.study_id study_id)

  hidden :
      (new f : Field) (fs : List Field)
      → in_versions vs none ≡ true
      → new.data_version ≡ none
      → new.study_id ≡ study_id
      → is_live new.life ≡ false
      → All (λ x. x.life.created_time < new.life.created_time) fs
      → Newest candidate (insert_one new fs) f
      → is_live f.life ≡ true
      → f.field_id ≢ new.field_id
  hidden new f fs drafts pending study dead older n live same =
      elim (stored-cases (λ x. x.life.created_time < new.life.created_time) new f fs older
        n.stored) [
          | inr e ↦
              let live' : is_live new.life ≡ true = ap (λ x. is_live x.life) e ∙ live in
              ground arith
          | inl below ↦
              let here : candidate new ≡ true =
                same-matching f new n.matches study (sym same)
                  (ap (in_versions vs) pending ∙ drafts) in
              let above = All-last _ new fs n.latest here (sym same) in omega (arith, above, below)
        ]

abbrev pub Without : String → Result (List Field) × World → Type 0
Without field_id (err e t, w) = Unit
Without field_id (ok fs, w) = All (λ f. f.field_id ≢ field_id) fs

-- What reading answers after a deletion that returned.
abbrev pub Gone :
    Option User
    → String
    → String
    → List (Option String)
    → Option (List String)
    → World
    → Result GenericResponse × World
    → Type 0
Gone reader study_id field_id vs selected w (err e t, w') = w'.field_dictionary ≡ w.field_dictionary
Gone reader study_id field_id vs selected w (ok a, w') =
    Without field_id (get_study_fields reader study_id (versions vs) selected w')

Read-Without :
    (caller reader : Option User) (study_id field_id : String) (vs : List (Option String))
    (selected : Option (List String)) (w w' : World) (entry : Field)
    → in_versions vs none ≡ true
    → All (λ x. x.life.created_time < w.env.now w.ticks) w.field_dictionary
    → Appended caller study_id field_id 1 w w' entry
    → is_live entry.life ≡ false
    → entry.life.created_time ≡ w.env.now w.ticks
    → (r : Result (List Field) × World) → Read reader study_id (versions vs) selected w' r
    → Without field_id r
unfolding available_versions
Read-Without caller reader study_id field_id vs selected w w' entry drafts older a dead time
      (err e t, v) h =
    tt
Read-Without caller reader study_id field_id vs selected w w' entry drafts older a dead time
      (ok fs, v) (same, (u, study, known, held, stored, live, (distinct, news, rest))) =
    All-map _ (λ f. f.field_id ≢ field_id)
      (λ f known same_id.
        hidden w'.env.matches study_id vs selected
          (readable_patterns (own_roles u study_id w'.roles)) entry f w.field_dictionary drafts
          a.pending a.study dead (rw time older)
          (subst
            (λ xs.
              Newest
                (candidate w'.env.matches study_id vs selected
                  (readable_patterns (own_roles u study_id w'.roles)))
                xs f)
            a.stored known.0)
          known.1 (same_id ∙ sym a.field))
      fs news

-- Where all entries are older than the time at which the clock is read, a call of `deleteField` throws and
-- leaves the dictionary as it was; or afterwards whoever reads the study's fields and asks for those without a
-- version, with whatever other versions and selection, gets no entry of that field.
pub delete_field-Gone :
    (caller reader : Option User) (study_id field_id : String) (vs : List (Option String))
    (selected : Option (List String)) (w : World)
    → in_versions vs none ≡ true
    → All (λ x. x.life.created_time < w.env.now w.ticks) w.field_dictionary
    → Gone reader study_id field_id vs selected w (delete_field caller study_id field_id w)
delete_field-Gone caller reader study_id field_id vs selected w drafts older =
    go (delete_field caller study_id field_id w)
      (delete_field-AppendsDeletion caller study_id field_id w)
  where
    go :
        (r : Result GenericResponse × World)
        → AppendsDeletion caller study_id field_id w r
        → Gone reader study_id field_id vs selected w r
    go (err e t, w') h = h
    go (ok a, w') (entry, appended, dead, time) =
        Read-Without caller reader study_id field_id vs selected w w' entry drafts older appended
          dead time _ (get_study_fields-Read reader study_id (versions vs) selected w')
