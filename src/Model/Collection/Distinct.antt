-- ===== src/Model/Collection/Distinct.antt =====
-- Collections in which no two documents have one id, and updates of the document with a given id.
use dmp.Base.{
  ◌≡◌, ◌∙◌, sym, String, ◌≢◌, Bool, true, false, List, [], ◌∷◌, ◌==◌, eq_iff, arith, All, inl, inr,
  Bool-cases, some, filter,
}
use dmp.Model.Collection.{update_one, find_one, find_one-All, find_one-holds}
use dmp.Model.Collection.Pairwise.{
  Pairwise, Pairwise-update_one, Pairwise-map, All-map, All-of, All-filter,
}

module _ {R : Type 0} (id : R → String) where
  abbrev pub Distinct : List R → Type 0
  Distinct = Pairwise (λ x y. id x ≢ id y)

module _ {R : Type 0} (id : R → String) where
  pub filter-Distinct : (p : R → Bool) (rs : List R) → Distinct id rs → Distinct id (filter p rs)
  filter-Distinct p [] d = tt
  filter-Distinct p (r ∷ rs) d = elim (Bool-cases (p r)) [
    | inl e ↦ rw e (
      All-filter (λ y. id r ≢ id y) (λ y. id r ≢ id y) p (λ y _ h. h) rs d.0,
      filter-Distinct p rs d.1,
    )
    | inr e ↦ rw e (filter-Distinct p rs d.1)
  ]

  pub only_one :
      (i : String) (rs : List R)
      → Distinct id rs
      → Pairwise (λ x y. (id x == i) ≡ true → (id y == i) ≡ false) rs
  only_one i rs =
      Pairwise-map (λ x y. id x ≢ id y) (λ x y. (id x == i) ≡ true → (id y == i) ≡ false)
        (λ x y apart. ground (arith, eq_iff (id x) i, eq_iff (id y) i)) rs

  pub Distinct-update_one :
      (i : String) (f : R → R) (rs : List R)
      → ((r : R) → id (f r) ≡ id r)
      → Distinct id rs
      → Distinct id (update_one (λ r. id r == i) f rs)
  Distinct-update_one i f rs same d =
      Pairwise-update_one (λ x y. id x ≢ id y) (λ _. Unit {0}) (λ r. id r == i) f rs
        (λ x y apart e. apart (sym e)) (λ x r _ _ _ apart. rw (same r) apart) (only_one i rs d)
        (All-of rs (λ _. tt)) d

  apart-All :
      (Q : R → Type 0) (i : String) (r : R) (rs : List R)
      → id r ≡ i
      → All (λ y. id r ≢ id y) rs
      → All (λ y. id y ≢ i → Q y) rs
      → All Q rs
  apart-All Q i r [] same apart miss = tt
  apart-All Q i r (x ∷ rs) same apart miss =
      (miss.0 (λ e. apart.0 (same ∙ sym e)), apart-All Q i r rs same apart.1 miss.1)

  -- The first document with an id is the only one with it, so an update leaves none of that id as it
  -- was, and touches no other.
  pub All-update_id :
      (Q : R → Type 0) (i : String) (f : R → R) (rs : List R)
      → Distinct id rs
      → All (λ r. id r ≡ i → Q (f r)) rs
      → All (λ r. id r ≢ i → Q r) rs
      → All Q (update_one (λ r. id r == i) f rs)
  All-update_id Q i f [] differ hit miss = tt
  All-update_id Q i f (r ∷ rs) differ hit miss = elim (Bool-cases (id r == i)) [
    | inl e ↦
        let same : id r ≡ i = (eq_iff (id r) i).0 e in
        rw e (hit.0 same, apart-All Q i r rs same differ.0 miss.1)
    | inr e ↦ rw e (
      miss.0 (λ same. cc ((eq_iff (id r) i).1 same)),
      All-update_id Q i f rs differ.1 hit.1 miss.1,
    )
  ]

  -- What a filter on an id finds is the only document with that id.
  pub find_one_with_id :
      (q : R → Bool) (i : String) (rs : List R) {o : R}
      → ((r : R) → q r ≡ true → id r ≡ i)
      → Distinct id rs
      → find_one q rs ≡ some o
      → All (λ r. id r ≡ i → r ≡ o) rs
  find_one_with_id q i [] has d found = tt
  find_one_with_id q i (r ∷ rs) {o} has d found = elim (Bool-cases (q r)) [
    | inl e ↦
        let same : r ≡ o = ground arith in
        (
          λ _. same,
          All-map (λ y. id r ≢ id y) (λ y. id y ≡ i → y ≡ o)
              (λ y apart e'. absurd (apart (has r e ∙ sym e'))) rs d.0,
        )
    | inr e ↦
        let later : find_one q rs ≡ some o = rw e at found in
        let apart = find_one-All (λ y. id r ≢ id y) q rs d.0 later in
        (
          λ e'. absurd (apart (e' ∙ sym (has o (find_one-holds q rs later)))),
          find_one_with_id q i rs has d.1 later,
        )
  ]
