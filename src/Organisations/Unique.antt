-- ===== src/Organisations/Unique.antt =====
-- The names of the live organisations stay distinct under every operation of organisationCore.ts.
use dmp.Base.{
  ℕ, suc, ◌≤◌, ◌≡◌, ◌≢◌, refl, sym, ◌∙◌, String, true, false, ◌==◌, eq_iff, Option, none, some,
  List, [], ◌∷◌, arith, Option-cases, is_some-eq-false, inl, inr, All, truthy,
}
use dmp.Model.Types.{User, FileUpload, Organisation, profile_file}
use dmp.Model.World.{World}
use dmp.Model.Action.{Result, GenericResponse, ok, ◌>>=◌}
use dmp.Model.Collection.{is_live, find_one, insert_one, update_one}
use dmp.Model.Collection.Pairwise.{
  Pairwise, Pairwise-insert_one, Pairwise-update_one, All-insert_one, All-update_one, All-map,
  find_one_only, Pairwise-map, All-of, find_one-none-All,
}
use dmp.Files.{upload_picture}
use dmp.Files.Frame.{upload_picture-Uploads}
use dmp.Model.Action.Post.{
  throw_if-post, or_throw-post, gets-post, uuid-post, date_now-post, modify-post, pure-post,
  >>=-post,
}
use dmp.Organisations.{
  create_organisation, edit_organisation, delete_organisation, live_named, set_organisation,
  check_name,
}

abbrev IdsDiffer : Organisation → Organisation → Type 0
IdsDiffer x y = x.id ≢ y.id

abbrev NamesDiffer : Organisation → Organisation → Type 0
NamesDiffer x y = is_live x.life ≡ true → is_live y.life ≡ true → x.name ≢ y.name

-- `uuid()` never answers the same twice.
abbrev UuidsDiffer : World → Type 0
UuidsDiffer w = (j k : ℕ) → w.env.uuid j ≡ w.env.uuid k → j ≡ k

-- Uuids never repeat, ids are distinct, live organisations have distinct names, and no id is a uuid still to come.
pub record IsUnique (w : World) : Type 0 where
  pub differ : UuidsDiffer w
  pub ids : Pairwise IdsDiffer w.organisations
  pub names : Pairwise NamesDiffer w.organisations
  pub fresh : (k : ℕ) → w.issued ≤ k → All (λ o. o.id ≢ w.env.uuid k) w.organisations

module _ (requester : User) (profile : Option FileUpload) (w : World) where
  -- An upload keeps the invariant.
  upload-IsUnique : IsUnique w → IsUnique (upload_picture requester none profile_file profile w).1
  upload-IsUnique v =
      let u = upload_picture-Uploads requester none profile_file profile w in
      record {
        differ = rw u.env v.differ;
        ids = rw u.organisations v.ids;
        names = rw u.organisations v.names;
        fresh = λ k h. rw (u.organisations, u.env) (v.fresh k (omega (arith, u.issued)));
      }

insert-IsUnique :
    (w : World) (t : ℕ) (o : Organisation) (n : String)
    → IsUnique w
    → o.id ≡ w.env.uuid w.issued
    → o.name ≡ n
    → find_one (live_named n) w.organisations ≡ none
    → IsUnique (record w {
      issued = suc w.issued;
      ticks = t;
      organisations = insert_one o w.organisations;
    })
insert-IsUnique w t o n v e named absent = record {
  differ = v.differ;
  ids =
      Pairwise-insert_one IdsDiffer o w.organisations v.ids (rw e (v.fresh w.issued (omega arith)));
  names = Pairwise-insert_one NamesDiffer o w.organisations v.names (
      find_one-none-All (live_named n) (λ x. NamesDiffer x o) w.organisations absent
        (λ x h live _ same. ground (arith, eq_iff x.name n)));
  fresh = λ k h.
      All-insert_one (λ x. x.id ≢ w.env.uuid k) w.organisations (v.fresh k (omega arith))
        (λ same. absurd (omega (arith, v.differ w.issued k (sym e ∙ same))));
}

-- Creating an organisation keeps the invariant, whatever the outcome.
create_organisation-IsUnique :
    (caller : Option User) (name : String) (shortname : Option String) (profile : Option FileUpload)
    (w : World)
    → IsUnique w
    → IsUnique (create_organisation caller name shortname profile w).1
unfolding create_organisation
create_organisation-IsUnique caller name shortname profile w v =
    let after : Result Organisation × World → Type 0 = λ r. IsUnique r.1 in
    or_throw-post after caller _ _ _ w (λ _. v)
      λ requester _.
        throw_if-post after _ _ _ _ w (λ _. v)
          λ _. gets-post after _ _ w (
            throw_if-post after _ _ _ _ w (λ _. v)
              λ free.
                let u = upload_picture-Uploads requester none profile_file profile w in
                >>=-post after (upload_picture requester none profile_file profile) _ w
                  (λ _ _ _. upload-IsUnique requester profile w v)
                  λ picture _. uuid-post after _ _ (
                    date_now-post after _ _ (
                      modify-post after _ _ _ (
                        pure-post after _ _ (
                          insert-IsUnique (upload_picture requester none profile_file profile w).1 _
                            _ name (upload-IsUnique requester profile w v) refl refl
                            (rw u.organisations (is_some-eq-false _ free)))))))

-- An update of the organisation with a given id keeps the invariant, if it leaves the id alone and the
-- name that it ends with is no other live organisation's.
update-IsUnique :
    (w : World) (t : ℕ) (i : String) (f : Organisation → Organisation) (Ok : Organisation → Type 0)
    → IsUnique w
    → ((o : Organisation) → (f o).id ≡ o.id)
    → All Ok w.organisations
    → ((x o : Organisation) → x.id ≢ i → Ok x → NamesDiffer x o → NamesDiffer x (f o))
    → IsUnique
        (record w { ticks = t; organisations = update_one (λ o. o.id == i) f w.organisations })
update-IsUnique w t i f Ok v same_id oks keep =
    let only =
      Pairwise-map IdsDiffer (λ x y. (x.id == i) ≡ true → (y.id == i) ≡ false)
        (λ x y apart. ground (arith, eq_iff x.id i, eq_iff y.id i)) w.organisations v.ids in
    record {
      differ = v.differ;
      ids =
          Pairwise-update_one IdsDiffer (λ _. Unit {0}) (λ o. o.id == i) f w.organisations
            (λ x y apart e. apart (sym e)) (λ x r _ _ _ apart. rw (same_id r) apart) only
            (All-of w.organisations (λ _. tt)) v.ids;
      names =
          Pairwise-update_one NamesDiffer Ok (λ o. o.id == i) f w.organisations
            (λ x y apart live_y live_x e. apart live_x live_y (sym e))
            (λ x r _ other ok apart. keep x r (λ e. ground (arith, eq_iff x.id i)) ok apart) only
            oks v.names;
      fresh = λ k h.
          All-update_one (λ o. o.id ≢ w.env.uuid k) (λ o. o.id == i) f w.organisations
            (λ r _ old. rw (same_id r) old) (v.fresh k h);
    }

-- Deleting an organisation keeps the invariant, whatever the outcome.
delete_organisation-IsUnique :
    (caller : Option User) (organisation_id : String) (w : World)
    → IsUnique w
    → IsUnique (delete_organisation caller organisation_id w).1
unfolding delete_organisation
delete_organisation-IsUnique caller organisation_id w v =
    let after : Result GenericResponse × World → Type 0 = λ r. IsUnique r.1 in
    or_throw-post after caller _ _ _ w (λ _. v)
      λ requester _.
        throw_if-post after _ _ _ _ w (λ _. v)
          λ _. gets-post after _ _ w (
            throw_if-post after _ _ _ _ w (λ _. v)
              λ found. date_now-post after _ _ (
                modify-post after _ _ _ (
                  pure-post after _ _ (
                    update-IsUnique w _ organisation_id _ (λ _. Unit {0}) v (λ _. refl)
                      (All-of w.organisations (λ _. tt)) (λ x o _ _ apart _ dead. ground arith)))))

-- The name that an edit asks for is free, or the edited organisation's.
IsFree : String → Option String → Organisation → Type 0
IsFree i none x = Unit
IsFree i (some n) x = live_named n x ≡ true → x.id ≡ i

check_name-IsFree :
    (i : String) (name : Option String) (w : World)
    → IsUnique w
    → (check_name i name w).0 ≡ ok tt
    → All (IsFree i name) w.organisations
unfolding check_name IsFree ◌>>=◌
check_name-IsFree i none w v e = All-of w.organisations (λ _. tt)
check_name-IsFree i (some n) w v e = elim (Option-cases (find_one (live_named n) w.organisations)) [
  | inl absent ↦
      find_one-none-All (live_named n) (IsFree i (some n)) w.organisations absent
        (λ x other named. ground arith)
  | inr (o, found) ↦
      All-map (λ x. live_named n x ≡ true → x ≡ o) (IsFree i (some n))
        (λ x same named. ground (arith, same named, eq_iff o.id i)) w.organisations
        (find_one_only (live_named n) w.organisations
          (Pairwise-map NamesDiffer (λ x y. live_named n x ≡ true → live_named n y ≡ false)
            (λ x y apart. ground (arith, eq_iff x.name n, eq_iff y.name n)) w.organisations v.names)
          found)
]

check_name_same : (i : String) (name : Option String) (w : World) → (check_name i name w).1 ≡ w
unfolding check_name ◌>>=◌
check_name_same i none w = refl
check_name_same i (some n) w = refl

set_organisation-NamesDiffer :
    (i : String) (name shortname picture : Option String) (x o : Organisation)
    → x.id ≢ i
    → IsFree i name x
    → NamesDiffer x o
    → NamesDiffer x (set_organisation name shortname picture o)
unfolding IsFree
set_organisation-NamesDiffer i none shortname picture x o other free apart = apart
set_organisation-NamesDiffer i (some n) shortname picture x o other free apart =
    λ live_x live_o same. other (free (ground (arith, eq_iff x.name n)))

-- Editing an organisation keeps the invariant, whatever the outcome.
edit_organisation-IsUnique :
    (caller : Option User) (organisation_id : String) (name shortname : Option String)
    (profile : Option FileUpload) (w : World)
    → IsUnique w
    → IsUnique (edit_organisation caller organisation_id name shortname profile w).1
unfolding edit_organisation
edit_organisation-IsUnique caller organisation_id name shortname profile w v =
    let after : Result GenericResponse × World → Type 0 = λ r. IsUnique r.1 in
    or_throw-post after caller _ _ _ w (λ _. v)
      λ requester _.
        throw_if-post after _ _ _ _ w (λ _. v)
          λ _. gets-post after _ _ w (
            throw_if-post after _ _ _ _ w (λ _. v)
              λ found.
                let same = check_name_same organisation_id (truthy name) w in
                let u = upload_picture-Uploads requester none profile_file profile w in
                let kept = upload-IsUnique requester profile w v in
                >>=-post after (check_name organisation_id (truthy name)) _ w (λ _ _ _. rw same v)
                  λ _ passed. rw same (
                    >>=-post after (upload_picture requester none profile_file profile) _ w
                      (λ _ _ _. kept)
                      λ picture _. modify-post after _ _ _ (
                        pure-post after _ _ (
                          update-IsUnique (upload_picture requester none profile_file profile w).1 _
                            organisation_id _ (IsFree organisation_id (truthy name)) kept
                            (λ _. refl)
                            (rw u.organisations
                              (check_name-IsFree organisation_id (truthy name) w v passed))
                            (set_organisation-NamesDiffer organisation_id (truthy name)
                              (truthy shortname) picture)))))

-- A call of one of the three operations that write, with its arguments.
pub data Call : Type 0 where
  create : Option User → String → Option String → Option FileUpload → Call
  edit : Option User → String → Option String → Option String → Option FileUpload → Call
  delete : Option User → String → Call

abbrev pub serve : Call → World → World
serve (create u n s p) w = (create_organisation u n s p w).1
serve (edit u i n s p) w = (edit_organisation u i n s p w).1
serve (delete u i) w = (delete_organisation u i w).1

abbrev pub serve_all : List Call → World → World
serve_all [] w = w
serve_all (c ∷ cs) w = serve_all cs (serve c w)

serve-IsUnique : (c : Call) (w : World) → IsUnique w → IsUnique (serve c w)
serve-IsUnique (create u n s p) w v = create_organisation-IsUnique u n s p w v
serve-IsUnique (edit u i n s p) w v = edit_organisation-IsUnique u i n s p w v
serve-IsUnique (delete u i) w v = delete_organisation-IsUnique u i w v

-- After any sequence of creations, edits and deletions of organisations, by any callers and whether
-- the calls succeed or throw, starting where uuids never repeat, ids are distinct, live organisations
-- have distinct names and no id is a uuid still to come, all four hold again.
pub serve_all-IsUnique : (cs : List Call) (w : World) → IsUnique w → IsUnique (serve_all cs w)
serve_all-IsUnique [] w v = v
serve_all-IsUnique (c ∷ cs) w v = serve_all-IsUnique cs (serve c w) (serve-IsUnique c w v)
