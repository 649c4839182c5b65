-- ===== src/Studies/Versions/Current.antt =====
-- The index of the current data version.
use dmp.Base.{
  ◌-◌, ◌≤◌, ◌≡◌, refl, String, Bool, Option, some, List, [], ◌∷◌, ◌==◌, ◌&&◌, eq_iff, arith, All,
  length, length-append, get_elem?,
}
use dmp.Model.Types.{User, Study, DataVersion, Data}
use dmp.Model.World.{World}
use dmp.Model.Action.{GenericResponse, Result, ok, err, ◌>>=◌}
use dmp.Model.Action.Post.{
  throw_if-post, or_throw-post, gets-post, uuid-post, date_now-post, modify-post, pure-post,
  >>=-post,
}
use dmp.Model.Collection.{find_one, is_live, update_one}
use dmp.Model.Collection.Pairwise.{All-update_one, All-map}
use dmp.Model.Collection.Distinct.{Distinct, Distinct-update_one, All-update_id, find_one_with_id}
use dmp.Studies.Versions.{
  create_data_version, finish_version, set_dataversion_as_current, sync_cold, position,
  push_version,
}

-- The current version's index is one of the study's list, or there is no current version yet.
abbrev pub IsBounded : Study → Type 0
IsBounded s = s.current_data_version ≤ length s.data_versions

pub record IsWellFormed (w : World) : Type 0 where
  pub ids : Distinct (λ s. s.id) w.studies
  pub bounds : All IsBounded w.studies

-- The version with an id stands at the current index.
abbrev pub IsCurrent : String → Study → Type 0
IsCurrent i s =
    (v : DataVersion) × (get_elem? s.data_versions (s.current_data_version - 1) ≡ some v)
    × (v.id ≡ i)

position-le : (i : String) (vs : List DataVersion) → position i vs ≤ length vs
position-le i [] = omega arith
position-le i (v ∷ vs) = ground (arith, position-le i vs)

sync_cold_studies :
    (requester : User) (version : String) (ds : List Data) (w : World)
    → (sync_cold requester version ds w).1.studies ≡ w.studies
unfolding sync_cold ◌>>=◌
sync_cold_studies requester version [] w = refl
sync_cold_studies requester version (d ∷ ds) w = sync_cold_studies requester version ds _

IsWellFormed-same : {w w' : World} → w'.studies ≡ w.studies → IsWellFormed w → IsWellFormed w'
IsWellFormed-same e v = record { ids = rw e v.ids; bounds = rw e v.bounds }

-- An update that leaves ids alone and keeps the bound keeps the invariant.
IsWellFormed-update :
    {w w' : World} (i : String) (f : Study → Study)
    → w'.studies ≡ update_one (λ s. s.id == i) f w.studies
    → ((s : Study) → (f s).id ≡ s.id)
    → ((s : Study) → IsBounded s → IsBounded (f s))
    → IsWellFormed w
    → IsWellFormed w'
IsWellFormed-update {w} i f e same keep v = record {
  ids = rw e (Distinct-update_one (λ s. s.id) i f w.studies same v.ids);
  bounds = rw e (All-update_one IsBounded (λ s. s.id == i) f w.studies (λ s _. keep s) v.bounds);
}

push_version-IsBounded :
    (new : DataVersion) (s : Study) → IsBounded s → IsBounded (push_version new s)
push_version-IsBounded new s h = omega (arith, length-append s.data_versions (new ∷ []))

-- The end of `createDataVersion`, after the updates of the other collections.
synced :
    (u : User) (study_id version_id tag version : String) (ds : List Data) (nothing : Bool)
    (w : World)
    → IsWellFormed w
    → IsWellFormed (finish_version u study_id version_id tag version ds nothing w).1
unfolding finish_version
synced u study_id version_id tag version ds nothing w v =
    let after : Result DataVersion × World → Type 0 = λ r. IsWellFormed r.1 in
    let kept = IsWellFormed-same (sync_cold_studies u version_id ds w) v in
    >>=-post after (sync_cold u version_id ds) _ w (λ _ _ _. kept)
      λ _ _. date_now-post after _ _ (
        modify-post after _ _ _ (
          throw_if-post after nothing _ _ _ _
            (λ _. IsWellFormed-update study_id _ refl (λ _. refl) (push_version-IsBounded _) kept)
            (λ _.
              pure-post after _ _
                (IsWellFormed-update study_id _ refl (λ _. refl) (push_version-IsBounded _) kept))))

-- Creating a version keeps the indices in their lists, whatever the outcome.
create_data_version-IsWellFormed :
    (caller : Option User) (study_id tag version : String) (wants_cold : Bool) (w : World)
    → IsWellFormed w
    → IsWellFormed (create_data_version caller study_id tag version wants_cold w).1
unfolding create_data_version
create_data_version-IsWellFormed caller study_id tag version wants_cold w v =
    let after : Result DataVersion × World → Type 0 = λ r. IsWellFormed r.1 in
    or_throw-post after caller _ _ _ w (λ _. v)
      λ u _. gets-post after _ _ w (
        throw_if-post after _ _ _ _ w (λ _. v)
          λ _. gets-post after _ _ w (
            or_throw-post after _ _ _ _ w (λ _. v)
              λ study _. gets-post after _ _ w (
                throw_if-post after _ _ _ _ w (λ _. v)
                  λ _.
                    throw_if-post after _ _ _ _ w (λ _. v)
                      λ _. uuid-post after _ w (
                        gets-post after _ _ _ (
                          modify-post after _ _ _ (
                            gets-post after _ _ _ (
                              modify-post after _ _ _ (
                                modify-post after _ _ _ (
                                  gets-post after _ _ _ (
                                    synced u study_id _ tag version _ _ _
                                      (IsWellFormed-same refl v)))))))))))

module _ (w : World) (study_id version_id : String) (study : Study) (v : IsWellFormed w)
    (found : find_one (λ s. s.id == study_id && is_live s.life) w.studies ≡ some study) where
  -- The study that was checked is the only one with its id.
  the_study : All (λ s. s.id ≡ study_id → s ≡ study) w.studies
  the_study =
      find_one_with_id (λ s. s.id) (λ s. s.id == study_id && is_live s.life) study_id w.studies
        (λ s e. ground (arith, eq_iff s.id study_id)) v.ids found

  chosen-IsWellFormed :
      {w' : World}
      → w'.studies
        ≡ update_one
            (λ s. s.id == study_id)
            (λ s. record s { current_data_version = position version_id study.data_versions })
            w.studies
      → IsWellFormed w'
  chosen-IsWellFormed e = record {
    ids = rw e (Distinct-update_one (λ s. s.id) study_id _ w.studies (λ _. refl) v.ids);
    bounds = rw e (
        All-update_id (λ s. s.id) IsBounded study_id _ w.studies v.ids
          (All-map (λ s. s.id ≡ study_id → s ≡ study) _
            (λ s same e'. rw (same e') (position-le version_id study.data_versions)) w.studies
            the_study)
          (All-map IsBounded _ (λ s h _. h) w.studies v.bounds));
  }

-- Choosing a version keeps the indices in their lists, whatever the outcome.
set_dataversion_as_current-IsWellFormed :
    (caller : Option User) (study_id version_id : String) (w : World)
    → IsWellFormed w
    → IsWellFormed (set_dataversion_as_current caller study_id version_id w).1
unfolding set_dataversion_as_current
set_dataversion_as_current-IsWellFormed caller study_id version_id w v =
    let after : Result GenericResponse × World → Type 0 = λ r. IsWellFormed r.1 in
    or_throw-post after caller _ _ _ w (λ _. v)
      λ u _. gets-post after _ _ w (
        throw_if-post after _ _ _ _ w (λ _. v)
          λ _. gets-post after _ _ w (
            or_throw-post after _ _ _ _ w (λ _. v)
              λ study found.
                throw_if-post after _ _ _ _ w (λ _. v)
                  λ one. modify-post after _ _ w (
                    pure-post after _ _
                      (chosen-IsWellFormed w study_id version_id study v found refl))))

-- A call of one of the two operations on versions, with its arguments.
pub data Call : Type 0 where
  create : Option User → (study_id tag version : String) → Bool → Call
  choose : Option User → (study_id version_id : String) → Call

abbrev pub serve : Call → World → World
serve (create u s t d cold) w = (create_data_version u s t d cold w).1
serve (choose u s i) w = (set_dataversion_as_current u s i w).1

abbrev pub serve_all : List Call → World → World
serve_all [] w = w
serve_all (c ∷ cs) w = serve_all cs (serve c w)

serve-IsWellFormed : (c : Call) (w : World) → IsWellFormed w → IsWellFormed (serve c w)
serve-IsWellFormed (create u s t d cold) w v = create_data_version-IsWellFormed u s t d cold w v
serve-IsWellFormed (choose u s i) w v = set_dataversion_as_current-IsWellFormed u s i w v

-- Where study ids are distinct and each study's current version is an index of its list or there is
-- none, both hold again after any sequence of calls that create versions and choose the current one, by
-- any callers and whether they succeed or throw.
pub serve_all-IsWellFormed :
    (cs : List Call) (w : World) → IsWellFormed w → IsWellFormed (serve_all cs w)
serve_all-IsWellFormed [] w v = v
serve_all-IsWellFormed (c ∷ cs) w v =
    serve_all-IsWellFormed cs (serve c w) (serve-IsWellFormed c w v)

abbrev pub Chosen : String → String → World → Result GenericResponse × World → Type 0
Chosen study_id version_id w (ok a, w') =
    All (λ s. s.id ≡ study_id → IsCurrent version_id s) w'.studies
Chosen study_id version_id w (err e t, w') = w' ≡ w
