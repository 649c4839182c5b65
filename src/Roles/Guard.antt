-- ===== src/Roles/Guard.antt =====
-- Who may change the roles of a study, and what a refused call leaves behind.
use dmp.Base.{
  ◌≡◌, ◌≢◌, refl, String, Bool, true, Option, none, some, List, [], ◌∷◌, ◌==◌, arith, ◌⊎◌, inl, inr,
  ◌&&◌, Any, any, filter, includes, Bool-cases, eq_iff,
}
use dmp.Model.Types.{User, Role, DataPermission, StudyRole, study_manager}
use dmp.Model.World.{World}
use dmp.Model.Action.{Action, GenericResponse, Result, ok, err, CoreErrors, ◌>>=◌}
use dmp.Model.Action.Post.{
  or_throw-post, gets-post, uuid-post, date_now-post, modify-post, pure-post, gets_end-post,
  >>=-post,
}
use dmp.Model.Collection.{find_one, is_live}
use dmp.Access.{is_admin}
use dmp.Roles.{
  own_roles, held_by, held_in, is_manager, manages, require_manager, create_study_role,
  edit_study_role, delete_study_role,
}

-- A live manager's role of the user, in the study or, where its id is empty, in any.
abbrev pub ManagesIn : User → String → Role → Type 0
ManagesIn u study_id r =
    (r.study_role ≡ study_manager)
    × (includes r.users u.id ≡ true)
    × (is_live r.life ≡ true)
    × (study_id ≢ "" → r.study_id ≡ study_id)

-- The caller is logged in, and an administrator or a manager.
abbrev pub MayManage : Option User → String → List Role → Type 0
MayManage caller study_id roles =
    (u : User) × (caller ≡ some u) × ((is_admin u ≡ true) ⊎ Any (ManagesIn u study_id) roles)

Any-filter :
    (P : Role → Type 0) (p q : Role → Bool)
    → ((r : Role) → p r ≡ true → q r ≡ true → P r)
    → (rs : List Role) → any q (filter p rs) ≡ true
    → Any P rs
Any-filter P p q known [] h = absurd (ground arith)
Any-filter P p q known (r ∷ rs) h = elim (Bool-cases (p r)) [
  | inr e ↦ inr (Any-filter P p q known rs (rw e at h))
  | inl e ↦ elim (Bool-cases (q r)) [
    | inl k ↦ inl (known r e k)
    | inr k ↦ inr (Any-filter P p q known rs (rw (e, k) at h))
  ]
]

is_manager-role : (r : Role) → is_manager r ≡ true → r.study_role ≡ study_manager
is_manager-role r h = ground arith

manages-ManagesIn :
    (u : User) (study_id : String) (roles : List Role)
    → manages u study_id roles ≡ true
    → Any (ManagesIn u study_id) roles
unfolding manages own_roles
manages-ManagesIn u study_id roles h = elim (Bool-cases (study_id == "")) [
  | inl e ↦
      Any-filter (ManagesIn u study_id) (held_by u.id) is_manager
        (λ r held k. (
          is_manager-role r k,
          ground arith,
          ground arith,
          λ named. absurd (named ((eq_iff study_id "").0 e)),
        ))
        roles (rw (manages, own_roles, e) at h)
  | inr e ↦
      Any-filter (ManagesIn u study_id) (held_in study_id u.id) is_manager
        (λ r held k. (
          is_manager-role r k,
          ground arith,
          ground arith,
          λ _. ground (arith, eq_iff r.study_id study_id),
        ))
        roles (rw (manages, own_roles, e) at h)
]

may :
    {caller : Option User} (study_id : String) (roles : List Role) (u : User)
    → caller ≡ some u
    → (is_admin u ≡ true) ⊎ (manages u study_id roles ≡ true)
    → MayManage caller study_id roles
may study_id roles u known (inl e) = (u, known, inl e)
may study_id roles u known (inr e) = (u, known, inr (manages-ManagesIn u study_id roles e))

-- What a guarded call on the roles of a study did: it threw and left the whole database as it was, or
-- the caller may manage the study.
abbrev pub Guarded : {A : Type 0} → Option User → String → World → Result A × World → Type 0
Guarded caller study_id w (ok a, w') = MayManage caller study_id w.roles
Guarded caller study_id w (err e t, w') = w' ≡ w

require_manager_same :
    (u : User) (study_id : String) (w : World) → (require_manager u study_id w).1 ≡ w
unfolding require_manager ◌>>=◌
require_manager_same u study_id w = refl

require_manager-ok :
    (u : User) (study_id : String) (w : World) {a : Unit {0}}
    → (require_manager u study_id w).0 ≡ ok a
    → (is_admin u ≡ true) ⊎ (manages u study_id w.roles ≡ true)
unfolding require_manager ◌>>=◌
require_manager-ok u study_id w h = ground arith

module _ {B : Type 0} (P : Result B × World → Type 0) where
  -- The guard: it throws and leaves the database alone, or the requester may manage the study.
  pub require_manager-post :
      (u : User) (study_id : String) (k : Unit {0} → Action B) (w : World)
      → ((e : CoreErrors) (t : String) → P (err e t, w))
      → ((is_admin u ≡ true) ⊎ (manages u study_id w.roles ≡ true) → P (k tt w))
      → P ((require_manager u study_id >>= k) w)
  require_manager-post u study_id k w failed passed =
      >>=-post P (require_manager u study_id) k w
        (λ e t _. rw (require_manager_same u study_id w) (failed e t))
        (λ a h. rw (require_manager_same u study_id w) (passed (require_manager-ok u study_id w h)))

-- Creating a role throws and changes nothing, or the caller is an administrator or a manager of the
-- role's study.
create_study_role-Guarded :
    (caller : Option User) (study_id name : String) (description : Option String)
    (data_permissions : Option (List DataPermission)) (study_role : Option StudyRole)
    (users : Option (List String)) (w : World)
    → Guarded caller study_id w
        (create_study_role caller study_id name description data_permissions study_role users w)
unfolding create_study_role
create_study_role-Guarded caller study_id name description data_permissions study_role users w =
    let after : Result Role × World → Type 0 = Guarded caller study_id w in
    or_throw-post after caller _ _ _ w (λ _. refl)
      λ u e.
        require_manager-post after u study_id _ w (λ _ _. refl)
          λ allowed. uuid-post after _ w (
            date_now-post after _ _
              (modify-post after _ _ _ (pure-post after _ _ (may study_id w.roles u e allowed))))

-- The study of the live role with an id, `study_id` where there is none.
abbrev pub study_of : String → List Role → String
study_of role_id roles = elim (find_one (λ r. r.id == role_id && is_live r.life) roles) [
  | none ↦ ""
  | some r ↦ r.study_id
]

edit_study_role-Guarded :
    (caller : Option User) (role_id : String) (name description : Option String)
    (data_permissions : Option (List DataPermission)) (study_role : Option StudyRole)
    (users : Option (List String)) (w : World)
    → Guarded caller
        (study_of role_id w.roles)
        w
        (edit_study_role caller role_id name description data_permissions study_role users w)
unfolding edit_study_role
edit_study_role-Guarded caller role_id name description data_permissions study_role users w =
    let after : Result (Option Role) × World → Type 0 =
      Guarded caller (study_of role_id w.roles) w in
    or_throw-post after caller _ _ _ w (λ _. refl)
      λ u e. gets-post after _ _ w (
        or_throw-post after _ _ _ _ w (λ _. refl)
          λ role found.
            require_manager-post after u role.study_id _ w (λ _ _. refl)
              λ allowed. modify-post after _ _ w (
                gets_end-post after _ _
                  (may (study_of role_id w.roles) w.roles u e (rw (found, study_of) allowed))))

delete_study_role-Guarded :
    (caller : Option User) (role_id : String) (w : World)
    → Guarded caller (study_of role_id w.roles) w (delete_study_role caller role_id w)
unfolding delete_study_role
delete_study_role-Guarded caller role_id w =
    let after : Result GenericResponse × World → Type 0 =
      Guarded caller (study_of role_id w.roles) w in
    or_throw-post after caller _ _ _ w (λ _. refl)
      λ u e. gets-post after _ _ w (
        or_throw-post after _ _ _ _ w (λ _. refl)
          λ role found.
            require_manager-post after u role.study_id _ w (λ _ _. refl)
              λ allowed. date_now-post after _ w (
                modify-post after _ _ _ (
                  pure-post after _ _
                    (may (study_of role_id w.roles) w.roles u e (rw (found, study_of) allowed)))))

-- A call of one of the three operations, with its arguments.
pub data Request : Type 0 where
  create :
      (study_id name : String)
      → Option String
      → Option (List DataPermission)
      → Option StudyRole
      → Option (List String)
      → Request
  edit :
      (role_id : String)
      → Option String
      → Option String
      → Option (List DataPermission)
      → Option StudyRole
      → Option (List String)
      → Request
  delete : (role_id : String) → Request

abbrev pub forget : {A : Type 0} → Result A × World → Result (Unit {0}) × World
forget (ok a, w) = (ok tt, w)
forget (err e t, w) = (err e t, w)

abbrev pub serve : Option User → Request → World → Result (Unit {0}) × World
serve caller (create s n d p r u) w = forget (create_study_role caller s n d p r u w)
serve caller (edit i n d p r u) w = forget (edit_study_role caller i n d p r u w)
serve caller (delete i) w = forget (delete_study_role caller i w)

-- The study whose roles a request is about.
abbrev pub target : Request → World → String
target (create s n d p r u) w = s
target (edit i n d p r u) w = study_of i w.roles
target (delete i) w = study_of i w.roles

Guarded-forget :
    {A : Type 0} (caller : Option User) (study_id : String) (w : World) (r : Result A × World)
    → Guarded caller study_id w r
    → Guarded caller study_id w (forget r)
Guarded-forget caller study_id w (ok a, w') g = g
Guarded-forget caller study_id w (err e t, w') g = g

-- Creating, editing and deleting a role either throws, and then leaves the whole database as it was,
-- or the caller is logged in and is an administrator or holds a live manager's role in the study whose
-- role it is; where that study's id is empty, a live manager's role in any study is enough.
pub serve-Guarded :
    (caller : Option User) (r : Request) (w : World)
    → Guarded caller (target r w) w (serve caller r w)
serve-Guarded caller (create s n d p r u) w =
    Guarded-forget caller s w _ (create_study_role-Guarded caller s n d p r u w)
serve-Guarded caller (edit i n d p r u) w =
    Guarded-forget caller (study_of i w.roles) w _ (edit_study_role-Guarded caller i n d p r u w)
serve-Guarded caller (delete i) w =
    Guarded-forget caller (study_of i w.roles) w _ (delete_study_role-Guarded caller i w)
