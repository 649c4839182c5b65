-- ===== src/Upload/Stored.antt =====
-- What an upload of data stores, and what its responses say (uploadData of
-- packages/itmat-cores/src/coreFunc/dataCore.ts).
use dmp.Base.{
  ℕ, suc, ◌≡◌, refl, ◌∙◌, sym, ap, subst, String, true, false, Option, none, some, List, [], ◌∷◌,
  ◌++◌, arith, ◌⊎◌, inl, inr, Bool-cases, get_or, ◌==◌, ◌&&◌,
}
use dmp.Base.Decimal.{decimal}
use dmp.Model.Value.{Value}
use dmp.Model.Types.{User, Study, Field, Data, study_config}
use dmp.Model.World.{World}
use dmp.Model.Action.{
  no_permission_error, code_text, CoreErrors, Result, ok as returned, err, ◌>>=◌,
}
use dmp.Model.Action.Post.{
  >>=-via, >>=-post, or_throw-post, modify-post, pure-post, gets-post, uuid-post, date_now-post,
}
use dmp.Model.Collection.{is_live, find_one}
use dmp.Files.{config_of}
use dmp.Fields.{VersionQuery, versions, up_to_current, available_versions, get_study_fields}
use dmp.Fields.Read.{Read, get_study_fields-Read}
use dmp.Roles.Permission.{check_field_or_data_permission}
use dmp.Formulas.{Outcome, core, plain, type_error, untyped, ok, failed}
use dmp.Upload.{Response, may_upload, verdict_on, conclude, upload_each, lift, upload_data}
use dmp.Upload.Check.{DataInput, Verdict, judge}
use dmp.Upload.Valid.{IsValid, judge-IsValid}

-- The permissions and the stored clips are as before.
record Calm (w w' : World) : Type 0 where
  env : w'.env ≡ w.env
  roles : w'.roles ≡ w.roles
  data_clips : w'.data_clips ≡ w.data_clips

Calm-refl : (w : World) → Calm w w
Calm-refl w = record { env = refl; roles = refl; data_clips = refl }

module _ (u : User) (study_id : String) (fields : List Field) (missing : String) where
  Calm-verdict :
      {w w' : World} (d : DataInput)
      → Calm w w'
      → verdict_on u study_id fields missing d w' ≡ verdict_on u study_id fields missing d w
  unfolding verdict_on may_upload check_field_or_data_permission
  Calm-verdict d c = rw (c.env, c.roles) refl

  -- The clip is stored as it was sent, with a valid value, and its sender may write it.
  pub record Accepted (w : World) (d : DataInput) (r : Response) (c : Data) : Type 0 where
    pub successful : r.successful ≡ true
    pub allowed : may_upload w u study_id d ≡ true
    pub study : c.study_id ≡ study_id
    pub field : c.field_id ≡ d.field_id
    pub pending : c.data_version ≡ none
    pub properties : c.properties ≡ get_or d.properties []
    pub live : is_live c.life ≡ true
    pub valid : IsValid w.env fields missing d c.value

  -- The clip is refused, for want of a permission or for an error of its own.
  abbrev pub Refused : World → DataInput → Response → Type 0
  Refused w d r =
      (r.successful ≡ false)
      × ((may_upload w u study_id d ≡ false)
          ⊎ ((v : Value) × (e : CoreErrors × String) × (judge w.env fields missing d
                ≡ ok (v, some e))))

  -- One response for each clip, in order and numbered from `n`; and the clips that were added, in order.
  abbrev pub Recorded : World → ℕ → List DataInput → List Response → List Data → Type 0
  Recorded w n [] [] added = added ≡ []
  Recorded w n [] (r ∷ rs) added = ⊥
  Recorded w n (d ∷ ds) [] added = ⊥
  Recorded w n (d ∷ ds) (r ∷ rs) added =
      (r.id ≡ decimal n)
      × ((Refused w d r × Recorded w (suc n) ds rs added)
          ⊎ ((c : Data) × (rest : List Data) × (added ≡ c ∷ rest)
              × Accepted w d r c
              × Recorded w (suc n) ds rs rest))

  abbrev Each : World → ℕ → List DataInput → Result (List Response × List Data) × World → Type 0
  Each w n ds (err e t, w') = Calm w w'
  Each w n ds (returned (rs, added), w') = Calm w w' × Recorded w n ds rs added

  -- One round of the loop.
  abbrev Round : World → ℕ → DataInput → Result (Response × List Data) × World → Type 0
  Round w n d (err e t, w') = Calm w w'
  Round w n d (returned (r, cs), w') =
      Calm w w'
      × (r.id ≡ decimal n)
      × ((Refused w d r × (cs ≡ [])) ⊎ ((c : Data) × (cs ≡ c ∷ []) × Accepted w d r c))

  verdict-known :
      (w : World) (d : DataInput) (x : Verdict)
      → verdict_on u study_id fields missing d w ≡ ok x
      → ((may_upload w u study_id d ≡ true) × (judge w.env fields missing d ≡ ok x))
        ⊎ ((may_upload w u study_id d ≡ false) × ((e : CoreErrors × String) × (x.1 ≡ some e)))
  unfolding verdict_on
  verdict-known w d x h = elim (Bool-cases (may_upload w u study_id d)) [
    | inl e ↦ inl (e, ground arith)
    | inr e ↦ inr (e, ((no_permission_error, code_text no_permission_error), ground arith))
  ]

  conclude-Round :
      (w w₀ : World) (n : ℕ) (d : DataInput) (x : Verdict)
      → Calm w w₀
      → verdict_on u study_id fields missing d w ≡ ok x
      → Round w n d (conclude u study_id n d x w₀)
  conclude-Round w w₀ n d (v, some e) calm h = pure-post (Round w n d) _ w₀ (
    calm,
    refl,
    inl (
      (
        refl,
        elim (verdict-known w d (v, some e) h) [
          | inl (allowed, judged) ↦ inr (v, e, judged)
          | inr (forbidden, (e', same)) ↦ inl forbidden
        ],
      ),
      refl,
    ),
  )
  conclude-Round w w₀ n d (v, none) calm h = elim (verdict-known w d (v, none) h) [
    | inr (forbidden, (e', same)) ↦ absurd (ground arith)
    | inl (allowed, judged) ↦ uuid-post (Round w n d) _ w₀ (
        date_now-post (Round w n d) _ _ (
          pure-post (Round w n d) _ _ (
            record { env = calm.env; roles = calm.roles; data_clips = calm.data_clips },
            refl,
            inr (
              _,
              refl,
              record {
                successful = refl;
                allowed = allowed;
                study = refl;
                field = refl;
                pending = refl;
                properties = refl;
                live = refl;
                valid = judge-IsValid w.env fields missing d v judged;
              },
            ),
          )))
  ]

  extended :
      (w : World) (n : ℕ) (d : DataInput) (ds : List DataInput) (r : Response) (rs : List Response)
      (cs added : List Data)
      → r.id ≡ decimal n
      → (Refused w d r × (cs ≡ [])) ⊎ ((c : Data) × (cs ≡ c ∷ []) × Accepted w d r c)
      → Recorded w (suc n) ds rs added
      → Recorded w n (d ∷ ds) (r ∷ rs) (cs ++ added)
  extended w n d ds r rs cs added id (inl (refused, nothing)) rest =
      (id, inl (refused, subst (λ xs. Recorded w (suc n) ds rs (xs ++ added)) (sym nothing) rest))
  extended w n d ds r rs cs added id (inr (c, one, accepted)) rest =
      (id, inr (c, added, ap (λ xs. xs ++ added) one, accepted, rest))

-- What a step that does not touch the database leaves.
abbrev Lifted : {A : Type 0} → Outcome A → World → Result A × World → Type 0
Lifted o w (err e t, w') = w' ≡ w
Lifted o w (returned a, w') = (w' ≡ w) × (o ≡ ok a)

lift-Lifted : {A : Type 0} (o : Outcome A) (w : World) → Lifted o w (lift o w)
unfolding ◌>>=◌
lift-Lifted (ok a) w = (refl, refl)
lift-Lifted (failed (core e t)) w = refl
lift-Lifted (failed (plain t)) w = refl
lift-Lifted (failed type_error) w = refl
lift-Lifted (failed untyped) w = refl

module _ (u : User) (study_id : String) (fields : List Field) (missing : String) (w : World) where
  upload_each-Each :
      (ds : List DataInput) (n : ℕ) (w₀ : World)
      → Calm w w₀
      → Each u study_id fields missing w n ds (upload_each u study_id fields missing n ds w₀)
  unfolding upload_each
  upload_each-Each [] n w₀ calm =
      pure-post (Each u study_id fields missing w n []) _ w₀ (calm, refl)
  upload_each-Each (d ∷ ds) n w₀ calm =
      let after = Each u study_id fields missing w n (d ∷ ds) in
      let outcome = verdict_on u study_id fields missing d w₀ in
      gets-post after _ _ w₀ (
        >>=-via after (Lifted outcome w₀) (lift outcome) _ w₀ (lift-Lifted outcome w₀)
          (λ e t w' same. rw same calm)
          λ x w' (same, known).
            >>=-via after (Round u study_id fields missing w n d) (conclude u study_id n d x) _ w'
              (conclude-Round u study_id fields missing w w' n d x (rw same calm)
                (sym (Calm-verdict u study_id fields missing d calm) ∙ known))
              (λ e t w₁ h. h)
              λ (r, cs) w₁ (calm₁, id, what).
                >>=-via after (Each u study_id fields missing w (suc n) ds)
                  (upload_each u study_id fields missing (suc n) ds) _ w₁
                  (upload_each-Each ds (suc n) w₁ calm₁) (λ e t w₂ h. h)
                  λ (rs, added) w₂ (calm₂, rest).
                    pure-post after _ w₂ (
                      calm₂,
                      extended u study_id fields missing w n d ds r rs cs added id what rest,
                    ))

get_study_fields-same :
    (caller : Option User) (study_id : String) (query : VersionQuery)
    (selected : Option (List String)) (w : World)
    → (get_study_fields caller study_id query selected w).1 ≡ w
get_study_fields-same caller study_id query selected w =
    go (get_study_fields caller study_id query selected w)
      (get_study_fields-Read caller study_id query selected w)
  where
    go : (r : Result (List Field) × World) → Read caller study_id query selected w r → r.1 ≡ w
    go (err e t, w') h = h
    go (returned fs, w') h = h.0

-- The study's own representation of a missing value, or the default.
abbrev pub missing_value : String → World → String
missing_value study_id w =
    (config_of study_config (some study_id) w).default_representation_for_missing_value

-- What a call of `uploadData` did.
abbrev pub Stored :
    Option User → String → List DataInput → World → Result (List Response) × World → Type 0
Stored caller study_id ds w (err e t, w') = w'.data_clips ≡ w.data_clips
Stored caller study_id ds w (returned rs, w') =
    (u : User) × (study : Study) × (fields : List Field) × (added : List Data) × (caller ≡ some u)
    × (find_one (λ s. s.id == study_id && is_live s.life) w.studies ≡ some study)
    × ((get_study_fields caller study_id
          (versions (available_versions up_to_current study ++ none ∷ [])) none w).0
        ≡ returned fields)
    × (w'.data_clips ≡ w.data_clips ++ added)
    × Recorded u study_id fields (missing_value study_id w) w 0 ds rs added

-- Uploading clips to a study, by anyone and in any state, throws and leaves the stored clips as they were; or
-- there is one response for each clip, in order and numbered from 0, and clips are added at the end, in order.
-- A response says success exactly where its clip is added: then the caller may write the clip, and what is
-- stored has no version, is of the study and the clip's field, and has its properties; its value stands for a
-- missing one, or the field is among those that the caller reads up to the current version and without one,
-- the value is of its type and passes its verifiers, and the required properties are there and theirs pass.
-- Else the clip is refused since the caller may not write it or for an error of the clip.
pub upload_data-Stored :
    (caller : Option User) (study_id : String) (ds : List DataInput) (w : World)
    → Stored caller study_id ds w (upload_data caller study_id ds w)
unfolding upload_data
upload_data-Stored caller study_id ds w =
    let after : Result (List Response) × World → Type 0 = Stored caller study_id ds w in
    or_throw-post after caller _ _ _ w (λ _. refl)
      λ u known. gets-post after _ _ w (
        or_throw-post after _ _ _ _ w (λ _. refl)
          λ study found.
            let query = versions (available_versions up_to_current study ++ none ∷ []) in
            let same = get_study_fields-same caller study_id query none w in
            >>=-post after (get_study_fields caller study_id query none) _ w (λ e t _. rw same refl)
              λ fields read. rw same (
                gets-post after _ _ w (
                  >>=-via after (Each u study_id fields (missing_value study_id w) w 0 ds)
                    (upload_each u study_id fields (missing_value study_id w) 0 ds) _ w
                    (upload_each-Each u study_id fields (missing_value study_id w) w ds 0 w
                      (Calm-refl w))
                    (λ e t w' calm. calm.data_clips)
                    λ (rs, added) w' (calm, recorded). modify-post after _ _ w' (
                      pure-post after _ _ (
                        u,
                        study,
                        fields,
                        added,
                        known,
                        found,
                        read,
                        ap (λ xs. xs ++ added) calm.data_clips,
                        recorded,
                      )))))
