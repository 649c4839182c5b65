-- ===== src/Roles/Guests.antt =====
-- What adding a guest user grants.
use dmp.Base.{
  ◌≡◌, ◌≢◌, ◌↔◌, refl, sym, ◌∙◌, ap, subst, String, Bool, true, false, ◌&&◌, some, List, [], ◌∷◌,
  ◌++◌, ◌==◌, eq_iff, not-eq-false, eq_refl, arith, All, inl, inr, Bool-cases, filter, includes,
  not, if◌then◌else◌, ◌⊎◌,
}
use dmp.Model.Types.{User, Role}
use dmp.Model.World.{World}
use dmp.Model.Action.{GenericResponse, Result, ok, err}
use dmp.Model.Action.Post.{or_throw-post, throw_if-post, gets-post, modify-post, pure-post}
use dmp.Model.Collection.{find_one}
use dmp.Model.Collection.Pairwise.{All-map, All-map₂, All-of, All-filter}
use dmp.Model.Collection.Distinct.{Distinct}
use dmp.Roles.GuestRole.{GuestRole, is_guest_role_iff}
use dmp.Roles.{
  add_guest_user, is_guest_role, public_study_ids, guest_roles, push_user, push_to_all, is_guest,
  is_empty,
}

includes-last : (xs : List String) (i : String) → includes (xs ++ i ∷ []) i ≡ true
includes-last [] i = ground (arith, eq_refl i)
includes-last (x ∷ xs) i = ground (arith, includes-last xs i)

includes-more :
    (xs : List String) (j i : String) → includes xs i ≡ true → includes (xs ++ j ∷ []) i ≡ true
includes-more [] j i h = cc
includes-more (x ∷ xs) j i h = elim (Bool-cases (x == i)) [
  | inl e ↦ ground arith
  | inr e ↦ let rest = includes-more xs j i (ground arith) in ground arith
]

includes-cases :
    (xs : List String) (i j : String)
    → includes (xs ++ i ∷ []) j ≡ true
    → (includes xs j ≡ true) ⊎ (j ≡ i)
includes-cases [] i j h = inr (sym ((eq_iff i j).0 (ground arith)))
includes-cases (x ∷ xs) i j h = elim (Bool-cases (x == j)) [
  | inl e ↦ inl (ground arith)
  | inr e ↦ elim (includes-cases xs i j (ground arith)) [
    | inl k ↦ inl (ground arith)
    | inr k ↦ inr k
  ]
]

-- Each role with an id has a user.
abbrev pub HasUser : String → String → List Role → Type 0
HasUser j i rs = All (λ r. r.id ≡ j → includes r.users i ≡ true) rs

-- The studies of the guest roles, and the user that they are to gain.
module _ (study_ids : List String) (i : String) where
  -- One role before and after: only its users differ, no user is lost and none but `i` is gained; and where
  -- it is no guest role, the role is as before.
  pub record IsGrown (r r' : Role) : Type 0 where
    pub same : r' ≡ record r { users = r'.users }
    pub kept : (j : String) → includes r.users j ≡ true → includes r'.users j ≡ true
    pub gained : (j : String) → includes r'.users j ≡ true → (includes r.users j ≡ true) ⊎ (j ≡ i)
    pub others : is_guest_role study_ids r ≡ false → r' ≡ r

  -- The collection before and after, role by role.
  pub data Grown : List Role → List Role → Type 0 where
    nothing : Grown [] []
    one_more :
        {r r' : Role} {rs rs' : List Role} → IsGrown r r' → Grown rs rs' → Grown (r ∷ rs) (r' ∷ rs')

  unchanged : (r : Role) → IsGrown r r
  unchanged r = record { same = refl; kept = λ j h. h; gained = λ j h. inl h; others = λ _. refl }

  Grown-refl : (rs : List Role) → Grown rs rs
  Grown-refl [] = nothing
  Grown-refl (r ∷ rs) = one_more (unchanged r) (Grown-refl rs)

  with_users : List String → Role → Role
  with_users us r = record r { users = us }

  same_kind : {r r' : Role} → IsGrown r r' → is_guest_role study_ids r' ≡ is_guest_role study_ids r
  same_kind g = ap (is_guest_role study_ids) g.same

  IsGrown-trans : {a b c : Role} → IsGrown a b → IsGrown b c → IsGrown a c
  unfolding with_users
  IsGrown-trans {a} {b} {c} p q = record {
    same = q.same ∙ ap (with_users c.users) p.same;
    kept = λ j h. q.kept j (p.kept j h);
    gained = λ j h. elim (q.gained j h) [ inl k ↦ p.gained j k | inr e ↦ inr e ];
    others = λ h. q.others (same_kind p ∙ h) ∙ p.others h;
  }

  Grown-trans : {xs ys zs : List Role} → Grown xs ys → Grown ys zs → Grown xs zs
  Grown-trans nothing nothing = nothing
  Grown-trans (one_more p ps) (one_more q qs) = one_more (IsGrown-trans p q) (Grown-trans ps qs)

  same_id : {r r' : Role} → IsGrown r r' → r'.id ≡ r.id
  same_id g = ap (λ r. r.id) g.same

  -- Each role with the id of `g` is a guest role.
  abbrev Marked : List Role → Role → Type 0
  Marked rs g = All (λ r. r.id ≡ g.id → is_guest_role study_ids r ≡ true) rs

  Grown-Marked : {rs rs' : List Role} (g : Role) → Grown rs rs' → Marked rs g → Marked rs' g
  Grown-Marked g nothing a = tt
  Grown-Marked g (one_more p ps) a =
      (λ named. same_kind p ∙ a.0 (sym (same_id p) ∙ named), Grown-Marked g ps a.1)

  push_user-Grown : (g : Role) (rs : List Role) → Marked rs g → Grown rs (push_user i g rs)
  push_user-Grown g [] a = nothing
  push_user-Grown g (r ∷ rs) a = elim (Bool-cases (r.id == g.id && not (includes r.users i))) [
    | inl e ↦
        let marked = a.0 (ground (arith, eq_iff r.id g.id)) in
        rw e (
          one_more
            (record {
              same = refl;
              kept = λ j h. includes-more r.users i j h;
              gained = λ j h. includes-cases r.users i j h;
              others = λ h. absurd (cc (sym marked ∙ h));
            })
            (Grown-refl rs))
    | inr e ↦ rw e (one_more (unchanged r) (push_user-Grown g rs a.1))
  ]

  push_to_all-Grown : (gs rs : List Role) → All (Marked rs) gs → Grown rs (push_to_all i gs rs)
  unfolding push_to_all
  push_to_all-Grown [] rs a = Grown-refl rs
  push_to_all-Grown (g ∷ gs) rs a =
      let first = push_user-Grown g rs a.0 in
      Grown-trans first (
        push_to_all-Grown gs (push_user i g rs)
          (All-map (Marked rs) (Marked (push_user i g rs)) (λ h. Grown-Marked h first) gs a.1))

  Grown-HasUser :
      {rs rs' : List Role} (j k : String) → Grown rs rs' → HasUser j k rs → HasUser j k rs'
  Grown-HasUser j k nothing a = tt
  Grown-HasUser j k (one_more g gs) a =
      (λ same. g.kept k (a.0 (sym (same_id g) ∙ same)), Grown-HasUser j k gs a.1)

  Grown-apart :
      {rs rs' : List Role} (j : String)
      → Grown rs rs'
      → All (λ y. j ≢ y.id) rs
      → All (λ y. j ≢ y.id) rs'
  Grown-apart j nothing a = tt
  Grown-apart j (one_more g gs) a = (λ same. a.0 (same ∙ same_id g), Grown-apart j gs a.1)

  Grown-Distinct :
      {rs rs' : List Role} → Grown rs rs' → Distinct (λ r. r.id) rs → Distinct (λ r. r.id) rs'
  Grown-Distinct nothing d = tt
  Grown-Distinct (one_more {r} {r'} {rs} {rs'} g gs) d = (
    subst (λ j. All (λ y. j ≢ y.id) rs') (sym (same_id g)) (Grown-apart r.id gs d.0),
    Grown-Distinct gs d.1,
  )

  -- Where ids are distinct, the guest roles are the only ones with their ids.
  guest-Marked :
      (rs : List Role)
      → Distinct (λ r. r.id) rs
      → All (λ g. is_guest_role study_ids g ≡ true → Marked rs g) rs
  guest-Marked [] d = tt
  guest-Marked (r ∷ rs) d = (
    λ h. (
      λ _. h,
      All-map (λ y. r.id ≢ y.id) (λ y. y.id ≡ r.id → is_guest_role study_ids y ≡ true)
          (λ y apart same. absurd (apart (sym same))) rs d.0,
    ),
    All-map₂ (λ y. r.id ≢ y.id) (λ g. is_guest_role study_ids g ≡ true → Marked rs g)
        (λ g. is_guest_role study_ids g ≡ true → Marked (r ∷ rs) g)
        (λ g apart known h. (λ same. absurd (apart same), known h)) rs d.0 (guest-Marked rs d.1),
  )

push_user-HasUser :
    (i : String) (g : Role) (rs : List Role)
    → Distinct (λ r. r.id) rs
    → HasUser g.id i (push_user i g rs)
push_user-HasUser i g [] d = tt
push_user-HasUser i g (r ∷ rs) d = elim (Bool-cases (r.id == g.id && not (includes r.users i))) [
  | inl e ↦
      let named : r.id ≡ g.id = ground (arith, eq_iff r.id g.id) in
      rw e (
        λ _. includes-last r.users i,
        All-map (λ y. r.id ≢ y.id) (λ y. y.id ≡ g.id → includes y.users i ≡ true)
            (λ y apart same. absurd (apart (named ∙ sym same))) rs d.0,
      )
  | inr e ↦ rw e (λ same. ground (arith, eq_iff r.id g.id), push_user-HasUser i g rs d.1)
]

push_to_all-HasUser :
    (study_ids : List String) (i : String) (gs rs : List Role)
    → Distinct (λ r. r.id) rs
    → All (Marked study_ids i rs) gs
    → All (λ g. HasUser g.id i (push_to_all i gs rs)) gs
unfolding push_to_all
push_to_all-HasUser study_ids i [] rs d a = tt
push_to_all-HasUser study_ids i (g ∷ gs) rs d a =
    let first = push_user-Grown study_ids i g rs a.0 in
    let marked =
      All-map (Marked study_ids i rs) (Marked study_ids i (push_user i g rs))
        (λ h. Grown-Marked study_ids i h first) gs a.1 in
    (
      Grown-HasUser study_ids i g.id i (push_to_all-Grown study_ids i gs (push_user i g rs) marked)
          (push_user-HasUser i g rs d),
      push_to_all-HasUser study_ids i gs (push_user i g rs) (Grown-Distinct study_ids i first d)
          marked,
    )

of_filter :
    (P : Role → Type 0) (p : Role → Bool) (rs : List Role)
    → All P (filter p rs)
    → All (λ r. p r ≡ true → P r) rs
of_filter P p [] a = tt
of_filter P p (r ∷ rs) a = elim (Bool-cases (p r)) [
  | inl e ↦ let b = rw (e, filter) at a in (λ _. b.0, of_filter P p rs b.1)
  | inr e ↦ (λ h. cc, of_filter P p rs (rw (e, filter) at a))
]

-- Of a call: it threw and changed nothing, or only the guest roles of live public studies gained the user,
-- and each of them did.
abbrev pub Granted : String → World → Result GenericResponse × World → Type 0
Granted username w (err e t, w') = w' ≡ w
Granted username w (ok a, w') =
    (u : User) × (find_one (λ x. x.username == username) w.users ≡ some u)
    × (is_guest u ≡ true)
    × Grown (public_study_ids w) u.id w.roles w'.roles
    × ((g : Role) → (is_guest_role (public_study_ids w) g ≡ true) ↔ GuestRole w.studies g)
    × All (λ g. GuestRole w.studies g → HasUser g.id u.id w'.roles) w.roles

none_public : (ids : List String) (g : Role) → is_empty ids ≡ true → is_guest_role ids g ≡ false
none_public [] g h = refl
none_public (i ∷ ids) g h = cc

granted_roles :
    (w : World) (i : String)
    → Distinct (λ r. r.id) w.roles
    → (b : Bool) → is_empty (public_study_ids w) ≡ b
    → Grown
        (public_study_ids w)
        i
        w.roles
        (if b then w.roles else push_to_all i (guest_roles w) w.roles)
      × All
          (λ g.
            is_guest_role (public_study_ids w) g ≡ true
            → HasUser g.id i (if b then w.roles else push_to_all i (guest_roles w) w.roles))
          w.roles
granted_roles w i d true e = (
  Grown-refl (public_study_ids w) i w.roles,
  All-of w.roles (λ g guest. let never = none_public (public_study_ids w) g e in cc),
)
granted_roles w i d false e =
    let ids = public_study_ids w in
    let marked : All (Marked ids i w.roles) (guest_roles w) =
      All-filter (λ g. is_guest_role ids g ≡ true → Marked ids i w.roles g) (Marked ids i w.roles)
        (is_guest_role ids) (λ g h known. known h) w.roles (guest-Marked ids i w.roles d) in
    (
      push_to_all-Grown ids i (guest_roles w) w.roles marked,
      of_filter (λ g. HasUser g.id i (push_to_all i (guest_roles w) w.roles)) (is_guest_role ids)
          w.roles (push_to_all-HasUser ids i (guest_roles w) w.roles d marked),
    )

-- Where role ids are distinct, adding a guest user throws and changes nothing; or the name is that of a
-- guest user, who is then a user of each live role named Guest of a live public study that has a data
-- permission to read, while such a role changes in nothing else, and every other role is as it was before.
pub add_guest_user-Granted :
    (username : String) (w : World)
    → Distinct (λ r. r.id) w.roles
    → Granted username w (add_guest_user username w)
unfolding add_guest_user
add_guest_user-Granted username w d =
    let after : Result GenericResponse × World → Type 0 = Granted username w in
    throw_if-post after _ _ _ _ w (λ _. refl)
      λ _. gets-post after _ _ w (
        or_throw-post after _ _ _ _ w (λ _. refl)
          λ u found.
            throw_if-post after _ _ _ _ w (λ _. refl)
              λ guest. gets-post after _ _ w (
                gets-post after _ _ w (
                  throw_if-post after _ _ _ _ w (λ _. refl)
                    λ _. modify-post after _ _ w (
                      pure-post after _ _ (
                        let (grown, granted) = granted_roles w u.id d _ refl in
                        (
                          u,
                          found,
                          not-eq-false guest,
                          grown,
                          is_guest_role_iff w.studies,
                          All-map _ _
                              (λ g known kind. known ((is_guest_role_iff w.studies g).1 kind))
                              w.roles granted,
                        ))))))
