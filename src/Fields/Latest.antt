-- ===== src/Fields/Latest.antt =====
-- Which entries of the field dictionary a reader gets: the newest of each field (getStudyFields of
-- packages/itmat-cores/src/coreFunc/dataCore.ts).
use dmp.Base.{
  ◌≤◌, ◌≡◌, ◌≢◌, refl, List, [], ◌∷◌, ◌==◌, not, filter, arith, All, Any, inl, inr, Bool-cases,
  eq_iff, leb,
}
use dmp.Model.Types.{Field}
use dmp.Model.Collection.Pairwise.{All-map, All-filter, All-of}
use dmp.Model.Collection.Distinct.{Distinct, filter-Distinct}
use dmp.Fields.{insert_by_time, sort_by_time, first_of_each}

module _ (P : Field → Type 0) where
  insert_by_time-All : (f : Field) (fs : List Field) → P f → All P fs → All P (insert_by_time f fs)
  insert_by_time-All f [] p a = (p, tt)
  insert_by_time-All f (g ∷ gs) p a =
      elim (Bool-cases (leb g.life.created_time f.life.created_time)) [
        | inl e ↦ rw e (p, a)
        | inr e ↦ rw e (a.0, insert_by_time-All f gs p a.1)
      ]

  All-insert_by_time : (f : Field) (fs : List Field) → All P (insert_by_time f fs) → P f × All P fs
  All-insert_by_time f [] a = a
  All-insert_by_time f (g ∷ gs) a =
      elim (Bool-cases (leb g.life.created_time f.life.created_time)) [
        | inl e ↦ rw e at a
        | inr e ↦
            let b : P g × All P (insert_by_time f gs) = rw e at a in
            let (p, c) = All-insert_by_time f gs b.1 in (p, (b.0, c))
      ]

  pub sort_by_time-All : (fs : List Field) → All P fs → All P (sort_by_time fs)
  sort_by_time-All [] a = tt
  sort_by_time-All (f ∷ fs) a = insert_by_time-All f (sort_by_time fs) a.0 (sort_by_time-All fs a.1)

  pub All-sort_by_time : (fs : List Field) → All P (sort_by_time fs) → All P fs
  All-sort_by_time [] a = tt
  All-sort_by_time (f ∷ fs) a =
      let (p, b) = All-insert_by_time f (sort_by_time fs) a in (p, All-sort_by_time fs b)

  pub first_of_each-All : (fs : List Field) → All P fs → All P (first_of_each fs)
  first_of_each-All [] a = tt
  first_of_each-All (f ∷ fs) a =
      (a.0, All-filter P P _ (λ g _ p. p) (first_of_each fs) (first_of_each-All fs a.1))

-- No entry is newer than one before it.
abbrev Descending : List Field → Type 0
Descending [] = Unit
Descending (f ∷ fs) = All (λ g. g.life.created_time ≤ f.life.created_time) fs × Descending fs

insert_by_time-Descending :
    (f : Field) (fs : List Field) → Descending fs → Descending (insert_by_time f fs)
insert_by_time-Descending f [] d = (tt, tt)
insert_by_time-Descending f (g ∷ gs) d =
    elim (Bool-cases (leb g.life.created_time f.life.created_time)) [
      | inl e ↦
          let below : g.life.created_time ≤ f.life.created_time = ground arith in
          rw e ((below, All-map _ _ (λ h k. omega (arith, k, below)) gs d.0), d)
      | inr e ↦ rw e (
        insert_by_time-All (λ h. h.life.created_time ≤ g.life.created_time) f gs (ground arith) d.0,
        insert_by_time-Descending f gs d.1,
      )
    ]

pub sort_by_time-Descending : (fs : List Field) → Descending (sort_by_time fs)
sort_by_time-Descending [] = tt
sort_by_time-Descending (f ∷ fs) =
    insert_by_time-Descending f (sort_by_time fs) (sort_by_time-Descending fs)

-- The entry is as new as any of its field.
abbrev pub AsNew : List Field → Field → Type 0
AsNew fs f = All (λ x. x.field_id ≡ f.field_id → x.life.created_time ≤ f.life.created_time) fs

pub first_of_each-AsNew : (fs : List Field) → Descending fs → All (AsNew fs) (first_of_each fs)
first_of_each-AsNew [] d = tt
first_of_each-AsNew (f ∷ fs) d = (
  (
    λ _. omega arith,
    All-map (λ g. g.life.created_time ≤ f.life.created_time) _ (λ g below _. below) fs d.0,
  ),
  All-filter (AsNew fs) (AsNew (f ∷ fs)) _
      (λ g other new. (λ same. absurd (ground (arith, eq_iff g.field_id f.field_id)), new))
      (first_of_each fs) (first_of_each-AsNew fs d.1),
)

-- Every field has an entry.
abbrev pub Named : List Field → Field → Type 0
Named fs x = Any (λ f. f.field_id ≡ x.field_id) fs

module _ (x f : Field) where
  Named-filter :
      (gs : List Field) → Named gs x → Named (f ∷ filter (λ g. not (g.field_id == f.field_id)) gs) x
  Named-filter [] h = absurd h
  Named-filter (g ∷ gs) (inl h) = elim (Bool-cases (g.field_id == f.field_id)) [
    | inl e ↦ inl (ground (arith, eq_iff g.field_id f.field_id))
    | inr e ↦ inr (rw e (inl h))
  ]
  Named-filter (g ∷ gs) (inr h) = elim (Named-filter gs h) [
    | inl e ↦ inl e
    | inr k ↦
        inr (elim (Bool-cases (g.field_id == f.field_id)) [ inl e ↦ rw e k | inr e ↦ rw e (inr k) ])
  ]

pub first_of_each-Named : (fs : List Field) → All (Named (first_of_each fs)) fs
first_of_each-Named [] = tt
first_of_each-Named (f ∷ fs) = (
  inl refl,
  All-map (Named (first_of_each fs)) _ (λ x h. Named-filter x f (first_of_each fs) h) fs
      (first_of_each-Named fs),
)

pub first_of_each-Distinct : (fs : List Field) → Distinct (λ f. f.field_id) (first_of_each fs)
first_of_each-Distinct [] = tt
first_of_each-Distinct (f ∷ fs) = (
  All-filter (λ _. Unit {0}) (λ g. f.field_id ≢ g.field_id) _
      (λ g other _ same. ground (arith, eq_iff g.field_id f.field_id)) (first_of_each fs)
      (All-of _ (λ _. tt)),
  filter-Distinct (λ f. f.field_id) _ (first_of_each fs) (first_of_each-Distinct fs),
)
