-- ===== src/Studies/Versions/Moved.antt =====
-- What creating a data version moves, and what a call that finds nothing to move leaves behind.
use dmp.Base.{
  suc, ap, ◌≡◌, refl, String, Bool, true, false, Option, some, List, [], ◌∷◌, ◌==◌, ◌&&◌, ◌⊎◌, eqb,
  arith, All, inl, inr, filter, length, Bool-cases,
}
use dmp.Model.Types.{User, DataVersion, Data, Field}
use dmp.Model.World.{World}
use dmp.Model.Action.{Result, ok, err, ◌>>=◌}
use dmp.Model.Action.Post.{
  throw_if-post, or_throw-post, gets-post, uuid-post, date_now-post, modify-post, pure-post,
  >>=-post,
}
use dmp.Model.Collection.{update_one, update_many}
use dmp.Studies.Versions.{
  create_data_version, finish_version, sync_cold, push_version, pending_data, pending_field,
}

-- No data clip and no field of the study waits for a version.
pub record AllVersioned (study_id : String) (data_clips : List Data) (fields : List Field)
    : Type 0 where
  pub data_done : All (λ d. pending_data study_id d ≡ false) data_clips
  pub fields_done : All (λ f. pending_field study_id f ≡ false) fields

-- Of a call: it threw before it wrote; or it wrote a new version to the study and left nothing waiting,
-- and it succeeded if and only if something had been waiting.
abbrev pub Versioned : String → World → Result DataVersion × World → Type 0
Versioned study_id w (ok v, w') =
    (w'.studies ≡ update_one (λ s. s.id == study_id) (push_version v) w.studies)
    × AllVersioned study_id w'.data_clips w'.field_dictionary
    × ¬ (AllVersioned study_id w.data_clips w.field_dictionary)
Versioned study_id w (err e t, w') =
    ((w'.studies ≡ w.studies)
      × (w'.data_clips ≡ w.data_clips)
      × (w'.field_dictionary ≡ w.field_dictionary))
    ⊎ ((v : DataVersion) × (w'.studies
          ≡ update_one (λ s. s.id == study_id) (push_version v) w.studies)
        × AllVersioned study_id w.data_clips w.field_dictionary)

module _ {R : Type 0} (p : R → Bool) where
  filter_empty : (rs : List R) → (eqb (length (filter p rs)) 0 ≡ true) → All (λ r. p r ≡ false) rs
  filter_empty [] h = tt
  filter_empty (r ∷ rs) h = ground (arith, filter_empty rs)

  filter_nonempty :
      (rs : List R) → (eqb (length (filter p rs)) 0 ≡ false) → ¬ (All (λ r. p r ≡ false) rs)
  filter_nonempty [] h a = cc
  filter_nonempty (r ∷ rs) h a = ground (arith, filter_nonempty rs)

  update_many_done :
      (f : R → R) (rs : List R)
      → ((r : R) → p (f r) ≡ false)
      → All (λ r. p r ≡ false) (update_many p f rs)
  update_many_done f [] done = tt
  update_many_done f (r ∷ rs) done = ground (arith, done r, update_many_done f rs done)

sync_cold_same :
    (u : User) (version : String) (ds : List Data) (w : World)
    → ((sync_cold u version ds w).1.studies ≡ w.studies)
      × ((sync_cold u version ds w).1.data_clips ≡ w.data_clips)
      × ((sync_cold u version ds w).1.field_dictionary ≡ w.field_dictionary)
      × ((sync_cold u version ds w).0 ≡ ok tt)
unfolding sync_cold ◌>>=◌
sync_cold_same u version [] w = (refl, refl, refl, refl)
sync_cold_same u version (d ∷ ds) w = sync_cold_same u version ds _

-- Of the end of `createDataVersion`, which throws if and only if nothing was moved.
abbrev Finished : String → Bool → World → Result DataVersion × World → Type 0
Finished study_id nothing w (ok v, w') =
    (nothing ≡ false)
    × (w'.studies ≡ update_one (λ s. s.id == study_id) (push_version v) w.studies)
    × (w'.data_clips ≡ w.data_clips)
    × (w'.field_dictionary ≡ w.field_dictionary)
Finished study_id nothing w (err e t, w') =
    (nothing ≡ true)
    × ((v : DataVersion) × (w'.studies
          ≡ update_one (λ s. s.id == study_id) (push_version v) w.studies))

finish_version-Finished :
    (u : User) (study_id version_id tag version : String) (ds : List Data) (nothing : Bool)
    (w : World)
    → Finished study_id nothing w (finish_version u study_id version_id tag version ds nothing w)
unfolding finish_version
finish_version-Finished u study_id version_id tag version ds nothing w =
    let after : Result DataVersion × World → Type 0 = Finished study_id nothing w in
    let (same, clips, fields, done) = sync_cold_same u version_id ds w in
    >>=-post after (sync_cold u version_id ds) _ w (λ e t thrown. cc)
      λ _ _. date_now-post after _ _ (
        modify-post after _ _ _ (
          throw_if-post after nothing _ _ _ _ (λ h. (h, (_, ap (update_one _ _) same)))
            (λ h. pure-post after _ _ (h, rw same refl, clips, fields))))

pending_data_done :
    (study_id version : String) (d : Data)
    → pending_data study_id (record d { data_version = some version }) ≡ false
pending_data_done study_id version d = ground arith

pending_field_done :
    (study_id version : String) (f : Field)
    → pending_field study_id (record f { data_version = some version }) ≡ false
pending_field_done study_id version f = ground arith

module _ (study_id version_id : String) (w : World) where
  abbrev nothing_moved : Bool
  nothing_moved =
      eqb (length (filter (pending_data study_id) w.data_clips)) 0
      && eqb (length (filter (pending_field study_id) w.field_dictionary)) 0

  -- The state after the three updates that move the study's data and fields.
  abbrev moved : World
  moved = record w {
    issued = suc w.issued;
    data_clips =
        update_many (pending_data study_id) (λ d. record d { data_version = some version_id })
          w.data_clips;
    field_dictionary =
        update_many (pending_field study_id) (λ f. record f { data_version = some version_id })
          w.field_dictionary;
    caches =
        update_many (λ c. c.key_study_id == study_id) (λ c. record c { outdated = true }) w.caches;
  }

  all_done : AllVersioned study_id moved.data_clips moved.field_dictionary
  all_done = record {
    data_done =
        update_many_done (pending_data study_id) _ w.data_clips
          (pending_data_done study_id version_id);
    fields_done =
        update_many_done (pending_field study_id) _ w.field_dictionary
          (pending_field_done study_id version_id);
  }

  none_waited : nothing_moved ≡ true → AllVersioned study_id w.data_clips w.field_dictionary
  none_waited h = record {
    data_done = filter_empty (pending_data study_id) w.data_clips (ground arith);
    fields_done = filter_empty (pending_field study_id) w.field_dictionary (ground arith);
  }

  some_waited : nothing_moved ≡ false → ¬ (AllVersioned study_id w.data_clips w.field_dictionary)
  some_waited h a =
      elim (Bool-cases (eqb (length (filter (pending_data study_id) w.data_clips)) 0)) [
        | inl e ↦
            filter_nonempty (pending_field study_id) w.field_dictionary (ground arith) a.fields_done
        | inr e ↦ filter_nonempty (pending_data study_id) w.data_clips e a.data_done
      ]

  Finished-Versioned :
      (w₁ : World) (r : Result DataVersion × World)
      → w₁.studies ≡ w.studies
      → AllVersioned study_id w₁.data_clips w₁.field_dictionary
      → Finished study_id nothing_moved w₁ r
      → Versioned study_id w r
  Finished-Versioned w₁ (ok v, w') same done (moved, pushed, clips, fields) =
      (rw (← same) pushed, rw (clips, fields) done, some_waited moved)
  Finished-Versioned w₁ (err e t, w') same done (idle, (v, pushed)) =
      inr (v, rw (← same) pushed, none_waited idle)

-- A call of `createDataVersion`, by anyone and in any state, ends in one of three ways. It throws with
-- the studies, the data and the fields as they were; or it returns a new version that it has appended to
-- the study's list, with no data and no field of the study left without a version where some were
-- before; or it throws although it has appended a version, and nothing was without a version before.
pub create_data_version-Versioned :
    (caller : Option User) (study_id tag version : String) (wants_cold : Bool) (w : World)
    → Versioned study_id w (create_data_version caller study_id tag version wants_cold w)
unfolding create_data_version
create_data_version-Versioned caller study_id tag version wants_cold w =
    let after : Result DataVersion × World → Type 0 = Versioned study_id w in
    or_throw-post after caller _ _ _ w (λ _. inl (refl, refl, refl))
      λ u _. gets-post after _ _ w (
        throw_if-post after _ _ _ _ w (λ _. inl (refl, refl, refl))
          λ _. gets-post after _ _ w (
            or_throw-post after _ _ _ _ w (λ _. inl (refl, refl, refl))
              λ study _. gets-post after _ _ w (
                throw_if-post after _ _ _ _ w (λ _. inl (refl, refl, refl))
                  λ _.
                    throw_if-post after _ _ _ _ w (λ _. inl (refl, refl, refl))
                      λ _. uuid-post after _ w (
                        gets-post after _ _ _ (
                          modify-post after _ _ _ (
                            gets-post after _ _ _ (
                              modify-post after _ _ _ (
                                modify-post after _ _ _ (
                                  gets-post after _ _ _ (
                                    Finished-Versioned study_id (w.env.uuid w.issued) w
                                      (moved study_id (w.env.uuid w.issued) w) _ refl
                                      (all_done study_id (w.env.uuid w.issued) w)
                                      (finish_version-Finished u study_id _ tag version _ _
                                        _)))))))))))
