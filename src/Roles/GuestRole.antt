-- ===== src/Roles/GuestRole.antt =====
-- Which roles addGuestUser of packages/itmat-cores/src/coreFunc/permissionCore.ts looks for.
use dmp.Base.{
  ◌≡◌, ◌↔◌, refl, ◌/◌, ◌%◌, String, Bool, true, ◌&&◌, List, [], ◌∷◌, ◌==◌, eq_iff, arith, Any, any,
  inl, inr, Bool-cases, filter, includes, map,
}
use dmp.Model.Types.{Role, Study, DataPermission}
use dmp.Model.Collection.{is_live}
use dmp.Roles.{is_guest_role, is_public_study, reads}

-- A live public study with an id.
abbrev PublicStudy : String → Study → Type 0
PublicStudy i s = (s.id ≡ i) × (s.is_public ≡ true) × (is_live s.life ≡ true)

-- A live role named Guest of a live public study, with a data permission to read.
abbrev pub GuestRole : List Study → Role → Type 0
GuestRole studies r =
    Any (PublicStudy r.study_id) studies
    × (r.name ≡ "Guest")
    × Any (λ p. p.permission / 4 % 2 ≡ 1) r.data_permissions
    × (is_live r.life ≡ true)

any_iff :
    {A : Type 0} (p : A → Bool) (P : A → Type 0)
    → ((a : A) → (p a ≡ true) ↔ P a)
    → (xs : List A) → (any p xs ≡ true) ↔ Any P xs
any_iff p P each [] = (λ h. absurd (ground arith), λ h. absurd h)
any_iff p P each (x ∷ xs) =
    let later = any_iff p P each xs in
    (
      λ h. elim (Bool-cases (p x)) [
        | inl e ↦ inl ((each x).0 e)
        | inr e ↦ inr (later.0 (rw e at h))
      ],
      λ h. elim h [
        | inl a ↦ rw ((each x).1 a) refl
        | inr a ↦ elim (Bool-cases (p x)) [ inl e ↦ rw e refl | inr e ↦ rw e (later.1 a) ]
      ],
    )

abbrev public_ids : List Study → List String
public_ids studies = map (λ s. s.id) (filter is_public_study studies)

public_iff :
    (i : String) (studies : List Study)
    → (includes (public_ids studies) i ≡ true) ↔ Any (PublicStudy i) studies
public_iff i [] = (λ h. absurd (ground arith), λ h. absurd h)
public_iff i (s ∷ studies) =
    let later = public_iff i studies in
    elim (Bool-cases (is_public_study s)) [
      | inl e ↦ rw e (
        λ h. elim (Bool-cases (s.id == i)) [
          | inl same ↦ inl ((eq_iff s.id i).0 same, ground arith, ground arith)
          | inr other ↦ inr (later.0 (rw other at h))
        ],
        λ h. elim h [
          | inl a ↦ rw ((eq_iff s.id i).1 a.0) refl
          | inr a ↦ elim (Bool-cases (s.id == i)) [
            | inl same ↦ rw same refl
            | inr other ↦ rw other (later.1 a)
          ]
        ],
      )
      | inr e ↦
          rw e (
            λ h. inr (later.0 h),
            λ h. elim h [ inl a ↦ absurd (ground arith) | inr a ↦ later.1 a ],
          )
    ]

all_true_iff :
    (a b c d : Bool)
    → ((a && b && c && d) ≡ true) ↔ ((a ≡ true) × (b ≡ true) × (c ≡ true) × (d ≡ true))
all_true_iff a b c d = ground arith

reads_iff : (p : DataPermission) → (reads p ≡ true) ↔ (p.permission / 4 % 2 ≡ 1)
reads_iff p = (ground arith, ground arith)

pub is_guest_role_iff :
    (studies : List Study) (r : Role)
    → (is_guest_role (public_ids studies) r ≡ true) ↔ GuestRole studies r
is_guest_role_iff studies r =
    let public = public_iff r.study_id studies in
    let named = eq_iff r.name "Guest" in
    let readable = any_iff reads (λ p. p.permission / 4 % 2 ≡ 1) reads_iff r.data_permissions in
    let parts =
      all_true_iff (includes (public_ids studies) r.study_id) (r.name == "Guest")
        (any reads r.data_permissions) (is_live r.life) in
    (
      λ h. let (a, b, c, d) = parts.0 h in (public.0 a, named.0 b, readable.0 c, d),
      λ (a, b, c, d). parts.1 (public.1 a, named.1 b, readable.1 c, d),
    )
