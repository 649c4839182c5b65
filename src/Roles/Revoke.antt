-- ===== src/Roles/Revoke.antt =====
-- A deleted role gives nobody anything.
use dmp.Base.{◌≡◌, refl, ◌≢◌, String, false, Option, none, some, List, arith, All, truthy, filter}
use dmp.Model.Types.{User, Role}
use dmp.Model.World.{World}
use dmp.Model.Action.{GenericResponse, Result, ok, err}
use dmp.Model.Action.Post.{or_throw-post, gets-post, date_now-post, modify-post, pure-post}
use dmp.Model.Collection.{is_live}
use dmp.Model.Collection.Pairwise.{All-of, All-filter}
use dmp.Model.Collection.Distinct.{Distinct, All-update_id}
use dmp.Roles.{held_in, held_by, own_roles, delete_study_role}
use dmp.Roles.Guard.{require_manager-post}

-- The roles that a user holds are live ones.
none_held :
    (i : String) (u : User) (study_id : String) (rs : List Role)
    → All (λ r. r.id ≡ i → is_live r.life ≡ false) rs
    → All (λ r. r.id ≢ i) (own_roles u study_id rs)
unfolding own_roles
none_held i u study_id rs a = go (truthy (some study_id))
  where
    go :
        (o : Option String)
        → All
            (λ r. r.id ≢ i)
            (elim o [ some s ↦ filter (held_in s u.id) rs | none ↦ filter (held_by u.id) rs ])
    go none =
        All-filter (λ r. r.id ≡ i → is_live r.life ≡ false) (λ r. r.id ≢ i) (held_by u.id)
          (λ r held dead same. ground (arith, dead same)) rs a
    go (some s) =
        All-filter (λ r. r.id ≡ i → is_live r.life ≡ false) (λ r. r.id ≢ i) (held_in s u.id)
          (λ r held dead same. ground (arith, dead same)) rs a

-- After the call no user holds the role, in any study, unless it threw.
abbrev pub Revoked : String → Result GenericResponse × World → Type 0
Revoked i (ok a, w) =
    (u : User) (study_id : String) → All (λ r. r.id ≢ i) (own_roles u study_id w.roles)
Revoked i (err e t, w) = Unit

-- Where role ids are distinct, after a successful deletion no user holds the role any more, in its study
-- or among all of the user's roles.
pub delete_study_role-Revoked :
    (caller : Option User) (role_id : String) (w : World)
    → Distinct (λ r. r.id) w.roles
    → Revoked role_id (delete_study_role caller role_id w)
unfolding delete_study_role
delete_study_role-Revoked caller role_id w differ =
    let after : Result GenericResponse × World → Type 0 = Revoked role_id in
    or_throw-post after caller _ _ _ w (λ _. tt)
      λ u e. gets-post after _ _ w (
        or_throw-post after _ _ _ _ w (λ _. tt)
          λ role found.
            require_manager-post after u role.study_id _ w (λ _ _. tt)
              λ allowed. date_now-post after _ w (
                modify-post after _ _ _ (
                  pure-post after _ _ (λ v s. none_held role_id v s _ (
                    All-update_id (λ r. r.id) (λ r. r.id ≡ role_id → is_live r.life ≡ false) role_id
                      _ w.roles differ (All-of w.roles (λ r _ _. refl))
                      (All-of w.roles (λ r other same. absurd (other same))))))))
