-- ===== src/Studies/Visible.antt =====
-- Which studies a user gets.
use dmp.Base.{
  some-injective, ◌≡◌, refl, sym, ◌∙◌, String, Bool, true, false, ◌&&◌, ◌||◌, Option, none, some,
  List, [], ◌∷◌, ◌==◌, eq_iff, arith, All, Any, ◌⊎◌, inl, inr, Bool-cases, filter, not, includes,
  map, truthy,
}
use dmp.Model.Types.{User, Role, Study}
use dmp.Model.World.{World}
use dmp.Model.Action.{Result, ok, err}
use dmp.Model.Action.Post.{or_throw-post, throw_if-post, gets-post, pure-post}
use dmp.Model.Collection.{is_live}
use dmp.Model.Collection.Pairwise.{All-map, All-of, All-filter}
use dmp.Access.{is_admin}
use dmp.Roles.{held_by}
use dmp.Studies.{get_studies, live_study, role_study_ids, select, is_foreign}

-- An administrator, or the holder of a live role in the study.
abbrev pub MayRead : User → List Role → Study → Type 0
MayRead u roles s =
    (is_admin u ≡ true) ⊎ Any (λ r. (held_by u.id r ≡ true) × (r.study_id ≡ s.id)) roles

abbrev pub Asked : Option String → Study → Type 0
Asked study_id s = (i : String) → truthy study_id ≡ some i → s.id ≡ i

abbrev pub Permitted : User → List Role → Option String → Study → Type 0
Permitted u roles study_id s = (is_live s.life ≡ true) × MayRead u roles s × Asked study_id s

-- Of a call: it changed nothing, and where it returned, the answer has the permitted studies and no
-- others.
abbrev pub Visible : Option User → Option String → World → Result (List Study) × World → Type 0
Visible caller study_id w (err e t, w') = w' ≡ w
Visible caller study_id w (ok ss, w') =
    (w' ≡ w)
    × ((u : User) × (caller ≡ some u)
        × All (Permitted u w.roles study_id) ss
        × All (λ s. Permitted u w.roles study_id s → Any (λ x. x ≡ s) ss) w.studies)

module _ (p : Role → Bool) where
  ids_of_roles :
      (roles : List Role) (i : String)
      → includes (map (λ r. r.study_id) (filter p roles)) i ≡ true
      → Any (λ r. (p r ≡ true) × (r.study_id ≡ i)) roles
  ids_of_roles [] i h = cc
  ids_of_roles (r ∷ rs) i h = elim (Bool-cases (p r)) [
    | inr e ↦ inr (ids_of_roles rs i (rw e at h))
    | inl e ↦ elim (Bool-cases (r.study_id == i)) [
      | inl same ↦ inl (e, (eq_iff r.study_id i).0 same)
      | inr other ↦ inr (ids_of_roles rs i (ground arith))
    ]
  ]

  ids_of_roles_complete :
      (roles : List Role) (i : String)
      → Any (λ r. (p r ≡ true) × (r.study_id ≡ i)) roles
      → includes (map (λ r. r.study_id) (filter p roles)) i ≡ true
  ids_of_roles_complete [] i h = absurd h
  ids_of_roles_complete (r ∷ rs) i (inl (held, same)) = ground (arith, eq_iff r.study_id i)
  ids_of_roles_complete (r ∷ rs) i (inr later) =
      let rest = ids_of_roles_complete rs i later in ground arith

module _ {R : Type 0} (p : R → Bool) where
  filter_grow :
      (r x : R) (rs : List R)
      → Any (λ y. y ≡ x) (filter p rs)
      → Any (λ y. y ≡ x) (filter p (r ∷ rs))
  filter_grow r x rs h = elim (Bool-cases (p r)) [ inl e ↦ rw e (inr h) | inr e ↦ rw e h ]

  filter_complete : (rs : List R) → All (λ r. p r ≡ true → Any (λ x. x ≡ r) (filter p rs)) rs
  filter_complete [] = tt
  filter_complete (r ∷ rs) = (
    λ e. rw e (inl refl),
    All-map (λ x. p x ≡ true → Any (λ y. y ≡ x) (filter p rs))
        (λ x. p x ≡ true → Any (λ y. y ≡ x) (filter p (r ∷ rs))) (λ x h q. filter_grow r x rs (h q))
        rs (filter_complete rs),
  )

module _ (u : User) (w : World) (study_id : Option String) where
  reads_by_role :
      (s : Study) → (is_admin u || includes (role_study_ids u w) s.id) ≡ true → MayRead u w.roles s
  reads_by_role s h = elim (Bool-cases (is_admin u)) [
    | inl e ↦ inl e
    | inr e ↦ inr (ids_of_roles (held_by u.id) w.roles s.id (ground arith))
  ]

  role_reads :
      (s : Study) → MayRead u w.roles s → (is_admin u || includes (role_study_ids u w) s.id) ≡ true
  role_reads s (inl e) = ground arith
  role_reads s (inr held) =
      let known = ids_of_roles_complete (held_by u.id) w.roles s.id held in ground arith

  select-Permitted :
      (o : Option String)
      → truthy study_id ≡ o
      → (not (is_admin u) && is_foreign o (role_study_ids u w)) ≡ false
      → All (Permitted u w.roles study_id) (select o u w)
  select-Permitted none e near =
      All-filter (λ _. Unit {0}) (Permitted u w.roles study_id) _
        (λ s h _. (ground arith, reads_by_role s (ground arith), λ i e'. cc)) w.studies
        (All-of w.studies (λ _. tt))
  select-Permitted (some i) e near =
      All-filter (λ _. Unit {0}) (Permitted u w.roles study_id) (live_study i)
        (λ s h _.
          let named : s.id ≡ i = ground (arith, eq_iff s.id i) in
          (
            ground arith,
            reads_by_role s (rw named (ground arith)),
            λ j e'. named ∙ some-injective (sym e ∙ e'),
          ))
        w.studies (All-of w.studies (λ _. tt))

  select_complete :
      (o : Option String)
      → truthy study_id ≡ o
      → All (λ s. Permitted u w.roles study_id s → Any (λ x. x ≡ s) (select o u w)) w.studies
  select_complete none e =
      All-map (λ s. _ ≡ true → Any (λ x. x ≡ s) (select none u w)) _
        (λ s found (live, read, asked). let r = role_reads s read in found (ground arith)) w.studies
        (filter_complete _ w.studies)
  select_complete (some i) e =
      All-map (λ s. live_study i s ≡ true → Any (λ x. x ≡ s) (select (some i) u w)) _
        (λ s found (live, read, asked).
          let named = asked i e in found (ground (arith, eq_iff s.id i)))
        w.studies (filter_complete (live_study i) w.studies)

-- In any state, asking for studies changes nothing; and where it does not throw, someone is logged in,
-- and the answer has those live studies in which the user has a live role (an administrator needs none)
-- and which are the study asked for, if one was, and it has all of them and no others.
pub get_studies-Visible :
    (caller : Option User) (study_id : Option String) (w : World)
    → Visible caller study_id w (get_studies caller study_id w)
unfolding get_studies
get_studies-Visible caller study_id w =
    let after : Result (List Study) × World → Type 0 = Visible caller study_id w in
    or_throw-post after caller _ _ _ w (λ _. refl)
      λ u known. gets-post after _ _ w (
        throw_if-post after _ _ _ _ w (λ _. refl)
          λ near. gets-post after _ _ w (
            throw_if-post after _ _ _ _ w (λ _. refl)
              λ _. pure-post after _ w (
                refl,
                (
                  u,
                  known,
                  select-Permitted u w study_id _ refl near,
                  select_complete u w study_id _ refl,
                ),
              )))
