-- ===== src/Studies/Deleted.antt =====
-- What deleting a study deletes.
use dmp.Base.{
  ℕ, ap, ◌≡◌, ◌≢◌, refl, sym, ◌∙◌, String, Bool, true, false, ◌&&◌, Option, none, some, List, [],
  ◌∷◌, ◌==◌, eq_iff, eq_refl, arith, All, inl, inr, Bool-cases, not-eq-false, eqb,
}
use dmp.Model.Types.{User, Study, Config, study_config}
use dmp.Model.World.{World}
use dmp.Model.Action.{GenericResponse, Result, ok, err}
use dmp.Model.Action.Post.{
  or_throw-post, throw_if-post, gets-post, date_now-post, modify-post, pure-post,
}
use dmp.Model.Collection.{is_live, update_one}
use dmp.Model.Collection.Many.{Alongside, Kept, update_many-All, update_many-Kept, update_one-Kept}
use dmp.Model.Collection.Pairwise.{All-map}
use dmp.Model.Collection.Distinct.{Distinct}
use dmp.Access.{is_admin}
use dmp.Files.{config_tag, same_key}
use dmp.Studies.{delete_study, live_study}

-- Of a call: it threw and changed nothing, or it was an administrator's, and no study with the id is
-- live, and no file, field, data clip or study configuration of the study; every other document of these
-- collections is as it was at its place, and so are the roles.
abbrev pub Deleted : Option User → String → World → Result GenericResponse × World → Type 0
Deleted caller i w (err e t, w') = w' ≡ w
Deleted caller i w (ok a, w') =
    ((u : User) × (caller ≡ some u) × (is_admin u ≡ true))
    × All (λ s. s.id ≡ i → is_live s.life ≡ false) w'.studies
    × All (λ f. f.study_id ≡ some i → is_live f.life ≡ false) w'.files
    × All (λ f. f.study_id ≡ i → is_live f.life ≡ false) w'.field_dictionary
    × All (λ d. d.study_id ≡ i → is_live d.life ≡ false) w'.data_clips
    × All (λ c. c.config_type ≡ study_config → c.key ≡ some i → is_live c.life ≡ false) w'.configs
    × Alongside (Kept (λ s. (s.id ≡ i) × (is_live s.life ≡ true))) w.studies w'.studies
    × Alongside (Kept (λ f. (f.study_id ≡ some i) × (is_live f.life ≡ true))) w.files w'.files
    × Alongside (Kept (λ f. (f.study_id ≡ i) × (is_live f.life ≡ true))) w.field_dictionary
        w'.field_dictionary
    × Alongside (Kept (λ d. (d.study_id ≡ i) × (is_live d.life ≡ true))) w.data_clips w'.data_clips
    × Alongside
        (Kept (λ c.
          (config_tag c.config_type ≡ config_tag study_config)
          × (c.key ≡ some i)
          × (is_live c.life ≡ true)))
        w.configs w'.configs
    × (w'.roles ≡ w.roles)

matched : (i j : String) (l : Bool) → (i == j && l) ≡ false → i ≡ j → l ≡ false
matched i j l h same = ground (arith, eq_iff i j)

live_studies_dead :
    (i : String) (f : Study → Study) (rs : List Study)
    → ((s : Study) → is_live (f s).life ≡ false)
    → Distinct (λ s. s.id) rs
    → All (λ s. s.id ≡ i → is_live s.life ≡ false) (update_one (live_study i) f rs)
live_studies_dead i f [] dead d = tt
live_studies_dead i f (r ∷ rs) dead d = elim (Bool-cases (live_study i r)) [
  | inl e ↦
      let named : r.id ≡ i = ground (arith, eq_iff r.id i) in
      rw e (
        λ _. dead r,
        All-map (λ y. r.id ≢ y.id) (λ s. s.id ≡ i → is_live s.life ≡ false)
            (λ y apart same. absurd (apart (named ∙ sym same))) rs d.0,
      )
  | inr e ↦ rw e (λ same. matched r.id i (is_live r.life) e same, live_studies_dead i f rs dead d.1)
]

matched_key :
    (o : Option String) (i : String) (l : Bool)
    → (same_key o (some i) && l) ≡ false
    → o ≡ some i
    → l ≡ false
matched_key none i l h same = cc
matched_key (some k) i l h same = let named : k ≡ i = cc in ground (arith, eq_iff k i)

-- A study configuration that is left alone was dead.
matched_config :
    (c : Config) (i : String)
    → (eqb (config_tag c.config_type) (config_tag study_config)
        && same_key c.key (some i)
        && is_live c.life)
      ≡ false
    → c.config_type ≡ study_config
    → c.key ≡ some i
    → is_live c.life ≡ false
matched_config c i h kind key = let open_h = rw (kind, key, eq_refl i) at h in open_h

picked : (i j : String) (l : Bool) → (i == j && l) ≡ true → (i ≡ j) × (l ≡ true)
picked i j l h = ground (arith, eq_iff i j)

picked_key :
    (o : Option String) (i : String) (l : Bool)
    → (same_key o (some i) && l) ≡ true
    → (o ≡ some i) × (l ≡ true)
picked_key none i l h = absurd (ground arith)
picked_key (some k) i l h = let both = picked k i l h in (ap some both.0, both.1)

picked_config :
    (m n : ℕ) (o : Option String) (i : String) (l : Bool)
    → (eqb m n && same_key o (some i) && l) ≡ true
    → (m ≡ n) × (o ≡ some i) × (l ≡ true)
picked_config m n o i l h = elim (Bool-cases (eqb m n)) [
  | inl e ↦ let rest = picked_key o i l (rw e at h) in (ground arith, rest.0, rest.1)
  | inr e ↦ absurd (ground arith)
]

-- Where study ids are distinct, deleting a study throws and changes nothing, or the requester is an
-- administrator and no study with the id is live any more, nor any file, field, data clip or study
-- configuration that belongs to it, while every other study, file, field, data clip and configuration is as
-- it was at its place and all roles stay as they are.
pub delete_study-Deleted :
    (caller : Option User) (i : String) (w : World)
    → Distinct (λ s. s.id) w.studies
    → Deleted caller i w (delete_study caller i w)
unfolding delete_study
delete_study-Deleted caller i w distinct =
    let after : Result GenericResponse × World → Type 0 = Deleted caller i w in
    or_throw-post after caller _ _ _ w (λ _. refl)
      λ u known.
        throw_if-post after _ _ _ _ w (λ _. refl)
          λ allowed. gets-post after _ _ w (
            or_throw-post after _ _ _ _ w (λ _. refl)
              λ study _. date_now-post after _ w (
                modify-post after _ _ _ (
                  modify-post after _ _ _ (
                    modify-post after _ _ _ (
                      modify-post after _ _ _ (
                        modify-post after _ _ _ (
                          pure-post after _ _ (
                            (u, known, not-eq-false allowed),
                            live_studies_dead i _ w.studies (λ _. refl) distinct,
                            update_many-All _ _ (λ f. f.study_id ≡ some i → is_live f.life ≡ false)
                                w.files (λ _ _ _. refl)
                                (λ f. matched_key f.study_id i (is_live f.life)),
                            update_many-All _ _ (λ f. f.study_id ≡ i → is_live f.life ≡ false)
                                w.field_dictionary (λ _ _ _. refl)
                                (λ f. matched f.study_id i (is_live f.life)),
                            update_many-All _ _ (λ d. d.study_id ≡ i → is_live d.life ≡ false)
                                w.data_clips (λ _ _ _. refl)
                                (λ d. matched d.study_id i (is_live d.life)),
                            update_many-All _ _
                                (λ c.
                                  c.config_type ≡ study_config
                                  → c.key ≡ some i
                                  → is_live c.life ≡ false)
                                w.configs (λ _ _ _ _. refl) (λ c. matched_config c i),
                            update_one-Kept _ _ _ w.studies (λ s. picked s.id i (is_live s.life)),
                            update_many-Kept _ _ _ w.files
                                (λ f. picked_key f.study_id i (is_live f.life)),
                            update_many-Kept _ _ _ w.field_dictionary
                                (λ f. picked f.study_id i (is_live f.life)),
                            update_many-Kept _ _ _ w.data_clips
                                (λ d. picked d.study_id i (is_live d.life)),
                            update_many-Kept _ _ _ w.configs (λ c.
                                picked_config (config_tag c.config_type) (config_tag study_config)
                                  c.key i (is_live c.life)),
                            refl,
                          ))))))))
