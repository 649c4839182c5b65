-- ===== src/Roles/Permission/Spec.antt =====
-- What `checkFieldOrDataPermission` decides, stated without its loops.
use dmp.Base.{
  ◌≡◌, refl, ◌↔◌, String, Bool, true, false, not, Option, none, some, List, [], ◌∷◌, get_or, all,
  arith, All, Any, map, if◌then◌else◌,
}
use dmp.Model.Types.{User, Role, DataPermission}
use dmp.Model.World.{World}
use dmp.Roles.{own_roles}
use dmp.Roles.Permission.{
  Entry, AtomicPermission, permission_string, lookup, field_passes, property_passes,
  properties_pass, level_passes, tag_of, check_field_or_data_permission,
}

module _ (test : String → String → Bool) (entry : Entry) (a : AtomicPermission) where
  -- One of the property's patterns matches its value.
  abbrev pub PropertyMatches : List (String × String) → String × List String → Type 0
  PropertyMatches given (property, patterns) =
      Any (λ r. test r (lookup property given) ≡ true) patterns

  abbrev pub PropertiesMatch : Option (List (String × String)) → DataPermission → Type 0
  PropertiesMatch none p = Unit
  PropertiesMatch (some given) p = All (PropertyMatches given) p.data_properties

  -- A permission covers an entry: one of its field patterns matches the field, for a data clip with
  -- properties every property has a matching pattern, and its level is one of those that the
  -- requested permission lists.
  pub record Covers (p : DataPermission) : Type 0 where
    pub field : Any (λ r. test r (get_or entry.field_id "undefined") ≡ true) p.fields
    pub properties : entry.has_value ≡ true → PropertiesMatch entry.properties p
    pub level : Any (λ n. n ≡ p.permission) (permission_string a)

  Any-iff :
      {A : Type 0} (f : A → Bool) (xs : List A)
      → (not (all (λ x. not (f x)) xs) ≡ true) ↔ Any (λ x. f x ≡ true) xs
  Any-iff f [] = ground arith
  Any-iff f (x ∷ xs) = ground (arith, Any-iff f xs)

  all_iff :
      {A : Type 0} (f : A → Bool) (Q : A → Type 0) (xs : List A)
      → ((x : A) → (f x ≡ true) ↔ Q x)
      → (all f xs ≡ true) ↔ All Q xs
  all_iff f Q [] each = (λ _. tt, λ _. refl)
  all_iff f Q (x ∷ xs) each =
      let rest = all_iff f Q xs each in
      (
        λ e. ((each x).0 (ground arith), rest.0 (ground arith)),
        λ h. ground (arith, (each x).1 h.0, rest.1 h.1),
      )

  properties_iff :
      (p : DataPermission)
      → (properties_pass test entry p ≡ true)
        ↔ (entry.has_value ≡ true → PropertiesMatch entry.properties p)
  properties_iff p = go entry.has_value entry.properties
    where
      go :
          (b : Bool) (o : Option (List (String × String)))
          → ((if b
                then elim o [
                  | none ↦ true
                  | some given ↦ all (property_passes test given) p.data_properties
                ]
                else true)
              ≡ true)
            ↔ (b ≡ true → PropertiesMatch o p)
      go false o = (λ _ e. cc, λ _. refl)
      go true none = (λ _ _. tt, λ _. refl)
      go true (some given) =
          let each =
            all_iff (property_passes test given) (PropertyMatches given) p.data_properties
              (λ pair. Any-iff (λ r. test r (lookup pair.0 given)) pair.1) in
          (λ e _. each.0 e, λ h. each.1 (h refl))

  level_iff :
      (p : DataPermission)
      → (level_passes test a p ≡ true) ↔ Any (λ n. n ≡ p.permission) (permission_string a)
  level_iff p = go a
    where
      go :
          (b : AtomicPermission)
          → (level_passes test b p ≡ true) ↔ Any (λ n. n ≡ p.permission) (permission_string b)
      go AtomicPermission.read = ground arith
      go AtomicPermission.write = ground arith
      go AtomicPermission.delete = ground arith

  passes_iff :
      (field properties level tag : Bool)
      → ((if level then if properties then if field then tag else false else false else false)
          ≡ true)
        ↔ ((tag ≡ true) × (field ≡ true) × (properties ≡ true) × (level ≡ true))
  passes_iff field properties level tag = ground arith

  Covers-cons_iff :
      (tag : Bool) (p : DataPermission) (ps : List DataPermission)
      → ((tag ≡ true)
          × (field_passes test entry p ≡ true)
          × (properties_pass test entry p ≡ true)
          × (level_passes test a p ≡ true))
      → Covers p
  Covers-cons_iff tag p ps h = record {
    field = (Any-iff (λ r. test r (get_or entry.field_id "undefined")) p.fields).0 h.1;
    properties = (properties_iff p).0 h.2;
    level = (level_iff p).0 h.3;
  }

  tag_of_iff :
      (tag : Bool) (ps : List DataPermission)
      → (tag_of test entry a tag ps ≡ true) ↔ ((tag ≡ true) × All Covers ps)
  unfolding tag_of
  tag_of_iff tag [] = (λ e. (e, tt), λ h. h.0)
  tag_of_iff tag (p ∷ ps) =
      let here =
        passes_iff (field_passes test entry p) (properties_pass test entry p)
          (level_passes test a p) tag in
      let next : Bool =
        if level_passes test a p
        then if properties_pass test entry p
          then if field_passes test entry p then tag else false
          else false
        else false in
      let later = tag_of_iff next ps in
      (
        λ e. let h = here.0 (later.0 e).0 in (h.0, (Covers-cons_iff tag p ps h, (later.0 e).1)),
        λ h. later.1 (
          here.1 (
            h.0,
            (Any-iff (λ r. test r (get_or entry.field_id "undefined")) p.fields).1 h.1.0.field,
            (properties_iff p).1 h.1.0.properties,
            (level_iff p).1 h.1.0.level,
          ),
          h.1.1,
        ),
      )

granted_iff :
    (f : Role → Bool) (Q : Role → Type 0)
    → ((r : Role) → (f r ≡ true) ↔ Q r)
    → (rs : List Role)
    → ((if all (λ tag. not tag) (map f rs) then false else true) ≡ true) ↔ Any Q rs
granted_iff f Q each [] = ground arith
granted_iff f Q each (r ∷ rs) = ground (arith, each r, granted_iff f Q each rs)

-- A user passes the check exactly when one of the user's live roles in the study (in any study, where
-- the study's id is empty) has only data permissions that cover the entry: a field pattern of each
-- matches, for a data clip with properties each property of each has a matching pattern, and each has a
-- level that permits the request.
pub check_iff :
    (w : World) (user : User) (study_id : String) (entry : Entry) (a : AtomicPermission)
    → (check_field_or_data_permission w user study_id entry a ≡ true)
      ↔ Any
          (λ r. All (Covers w.env.matches entry a) r.data_permissions)
          (own_roles user study_id w.roles)
unfolding check_field_or_data_permission
check_iff w user study_id entry a =
    granted_iff (λ r. tag_of w.env.matches entry a true r.data_permissions)
      (λ r. All (Covers w.env.matches entry a) r.data_permissions)
      (λ r.
        let each = tag_of_iff w.env.matches entry a true r.data_permissions in
        (λ e. (each.0 e).1, λ h. each.1 (refl, h)))
      (own_roles user study_id w.roles)
