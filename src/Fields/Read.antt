-- ===== src/Fields/Read.antt =====
-- What `getStudyFields` of packages/itmat-cores/src/coreFunc/dataCore.ts answers.
use dmp.Base.{
  ◌≤◌, ◌≡◌, ◌≢◌, refl, String, Bool, true, false, Option, some, List, [], ◌∷◌, ◌==◌, ◌&&◌, filter,
  arith, All, Any, ◌⊎◌, inl, inr, Bool-cases,
}
use dmp.Model.Types.{User, Study, Field}
use dmp.Model.World.{World}
use dmp.Model.Action.{Result, ok, err}
use dmp.Model.Action.Post.{or_throw-post, gets-post, throw_if-post, pure-post}
use dmp.Model.Collection.{find_one-holds, find_one-All, is_live}
use dmp.Model.Collection.Pairwise.{All-map, All-map₂, All-filter}
use dmp.Model.Collection.Distinct.{Distinct, filter-Distinct}
use dmp.Roles.{own_roles}
use dmp.Fields.{
  VersionQuery, get_study_fields, sort_by_time, first_of_each, matching, available_versions,
  readable_patterns,
}
use dmp.Fields.Latest.{
  sort_by_time-All, All-sort_by_time, first_of_each-All, sort_by_time-Descending, AsNew, Named,
  first_of_each-AsNew, first_of_each-Named, first_of_each-Distinct,
}

abbrev Stored : {A : Type 0} → List A → A → Type 0
Stored xs x = Any (λ y. y ≡ x) xs

-- The entry is stored, is one of those looked for, and none of these is a newer one of its field.
pub record Newest (p : Field → Bool) (fs : List Field) (f : Field) : Type 0 where
  pub stored : Stored fs f
  pub matches : p f ≡ true
  pub latest :
      All (λ x. p x ≡ true → x.field_id ≡ f.field_id → x.life.created_time ≤ f.life.created_time) fs

all-Stored : {A : Type 0} (xs : List A) → All (Stored xs) xs
all-Stored [] = tt
all-Stored (x ∷ xs) =
    (inl refl, All-map (Stored xs) (Stored (x ∷ xs)) (λ y h. inr h) xs (all-Stored xs))

All-unfilter :
    {A : Type 0} (P : A → Type 0) (p : A → Bool) (xs : List A)
    → All P (filter p xs)
    → All (λ x. p x ≡ true → P x) xs
All-unfilter P p [] a = tt
All-unfilter P p (x ∷ xs) a = elim (Bool-cases (p x)) [
  | inl e ↦ let b : P x × All P (filter p xs) = rw e at a in (λ _. b.0, All-unfilter P p xs b.1)
  | inr e ↦ (λ h. absurd (ground arith), All-unfilter P p xs (rw e at a))
]

module _ (p : Field → Bool) (fs : List Field) where
  abbrev pub newest_of : List Field
  newest_of = first_of_each (sort_by_time (filter p fs))

  newest_of-Newest : All (Newest p fs) newest_of
  newest_of-Newest =
      All-map₂ (λ f. Stored fs f × (p f ≡ true)) (AsNew (sort_by_time (filter p fs))) (Newest p fs)
        (λ f known new. record {
          stored = known.0;
          matches = known.1;
          latest = All-unfilter _ p fs (All-sort_by_time _ (filter p fs) new);
        })
        newest_of
        (first_of_each-All _ _
          (sort_by_time-All _ _ (All-filter (Stored fs) _ p (λ f h k. (k, h)) fs (all-Stored fs))))
        (first_of_each-AsNew _ (sort_by_time-Descending (filter p fs)))

  newest_of-Named : All (λ x. p x ≡ true → Named newest_of x) fs
  newest_of-Named = All-unfilter (Named newest_of) p fs (
      All-sort_by_time (Named newest_of) (filter p fs)
        (first_of_each-Named (sort_by_time (filter p fs))))

-- The answer's fields are the newest entries that are live, one for each field; where a field has entries
-- but no place in the answer, a newest one is a deletion.
abbrev pub Answers : (Field → Bool) → List Field → List Field → Type 0
Answers p stored fs =
    Distinct (λ f. f.field_id) fs
    × All (λ f. Newest p stored f × (is_live f.life ≡ true)) fs
    × All
        (λ x.
          p x ≡ true
          → Named fs x
            ⊎ ((d : Field) × Newest p stored d
                × (is_live d.life ≡ false)
                × (d.field_id ≡ x.field_id)))
        stored

Named-cases :
    (P : Field → Type 0) (fs : List Field) (x : Field)
    → All P fs
    → Named fs x
    → Named (filter (λ f. is_live f.life) fs) x
      ⊎ ((d : Field) × P d × (is_live d.life ≡ false) × (d.field_id ≡ x.field_id))
Named-cases P [] x a h = absurd h
Named-cases P (f ∷ fs) x a (inl h) = elim (Bool-cases (is_live f.life)) [
  | inl e ↦ inl (rw e (inl h))
  | inr e ↦ inr (f, a.0, e, h)
]
Named-cases P (f ∷ fs) x a (inr h) = elim (Named-cases P fs x a.1 h) [
  | inr d ↦ inr d
  | inl k ↦ inl (elim (Bool-cases (is_live f.life)) [ inl e ↦ rw e (inr k) | inr e ↦ rw e k ])
]

live-Answers :
    (p : Field → Bool) (fs : List Field)
    → Answers p fs (filter (λ f. is_live f.life) (newest_of p fs))
live-Answers p fs = (
  filter-Distinct (λ f. f.field_id) _ (newest_of p fs) (first_of_each-Distinct _),
  All-filter (Newest p fs) _ _ (λ f live n. (n, live)) (newest_of p fs) (newest_of-Newest p fs),
  All-map _ _
      (λ x found h. Named-cases (Newest p fs) (newest_of p fs) x (newest_of-Newest p fs) (found h))
      fs (newest_of-Named p fs),
)

-- What a call of `getStudyFields` did.
abbrev pub Read :
    Option User
    → String
    → VersionQuery
    → Option (List String)
    → World
    → Result (List Field) × World
    → Type 0
Read caller study_id query selected w (err e t, w') = w' ≡ w
Read caller study_id query selected w (ok fs, w') =
    (w' ≡ w)
    × ((u : User) × (study : Study) × (caller ≡ some u)
        × (own_roles u study_id w.roles ≢ [])
        × Stored w.studies study
        × ((study.id == study_id && is_live study.life) ≡ true)
        × Answers
            (matching w.env.matches study_id (available_versions query study) selected
              (readable_patterns (own_roles u study_id w.roles)))
            w.field_dictionary fs)

-- In any state, reading the fields of a study changes nothing; and where it does not throw, the caller
-- holds a role in the study, which is live, and the answer is this. Among the entries of the versions
-- asked for that the caller selected, or else has a pattern to read for, each field of the answer is one
-- that is live and as new as any of its field; no two entries are of one field; and a field that has
-- entries and is missing in the answer has a deletion among the newest of them.
pub get_study_fields-Read :
    (caller : Option User) (study_id : String) (query : VersionQuery)
    (selected : Option (List String)) (w : World)
    → Read caller study_id query selected w (get_study_fields caller study_id query selected w)
unfolding get_study_fields
get_study_fields-Read caller study_id query selected w =
    let after : Result (List Field) × World → Type 0 = Read caller study_id query selected w in
    or_throw-post after caller _ _ _ w (λ _. refl)
      λ u known. gets-post after _ _ w (
        throw_if-post after _ _ _ _ w (λ _. refl)
          λ held. gets-post after _ _ w (
            or_throw-post after _ _ _ _ w (λ _. refl)
              λ study found. gets-post after _ _ w (
                pure-post after _ w (
                  refl,
                  (
                    u,
                    study,
                    known,
                    λ none_held. ground arith,
                    find_one-All (Stored w.studies) _ w.studies (all-Stored w.studies) found,
                    find_one-holds _ w.studies found,
                    live-Answers _ w.field_dictionary,
                  ),
                ))))
