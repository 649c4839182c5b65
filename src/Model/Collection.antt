-- ===== src/Model/Collection.antt =====
-- The collection methods of the MongoDB driver that the core functions call, over a list of documents
-- and a test for the filter, and their laws.
pub mod Many
pub mod Pairwise
pub mod Distinct
use dmp.Base.{
  ℕ, ◌≡◌, String, Bool, true, false, Option, none, some, List, [], ◌∷◌, ◌++◌, arith, if◌then◌else◌,
  All, is_none, inl, inr, subst, Bool-cases,
}
use dmp.Model.Types.{Life, Deleter, user_id}

-- The filter `'life.deletedTime': null`.
abbrev pub is_live : Life → Bool
is_live l = is_none l.deleted_time

-- `life` of a new document.
abbrev pub born : ℕ → String → Life
born t u = record { created_time = t; created_user = u; deleted_time = none; deleted_user = none }

-- `$set: { 'life.deletedTime': t, 'life.deletedUser': u.id }`
abbrev pub bury : ℕ → String → Life → Life
bury t u l = record l { deleted_time = some t; deleted_user = some (user_id u) }

-- `$set: { 'life.deletedTime': t, 'life.deletedUser': u }`, whatever `u` is.
abbrev pub bury_by : ℕ → Deleter → Life → Life
bury_by t u l = record l { deleted_time = some t; deleted_user = some u }

module _ {R : Type 0} where
  -- `find(p).toArray()` is `filter p`
  abbrev pub find_one : (R → Bool) → List R → Option R
  find_one p [] = none
  find_one p (r ∷ rs) = if p r then some r else find_one p rs

  abbrev pub insert_one : R → List R → List R
  insert_one r rs = rs ++ r ∷ []

  -- `updateOne` and `findOneAndUpdate`: the first match
  abbrev pub update_one : (R → Bool) → (R → R) → List R → List R
  update_one p f [] = []
  update_one p f (r ∷ rs) = if p r then f r ∷ rs else r ∷ update_one p f rs

  abbrev pub update_many : (R → Bool) → (R → R) → List R → List R
  update_many p f [] = []
  update_many p f (r ∷ rs) = (if p r then f r else r) ∷ update_many p f rs

  pub find_one-holds : (p : R → Bool) (rs : List R) {r : R} → find_one p rs ≡ some r → p r ≡ true
  find_one-holds p [] h = ground arith
  find_one-holds p (x ∷ rs) h = elim (Bool-cases (p x)) [
    | inl e ↦ ground arith
    | inr e ↦ find_one-holds p rs (ground arith)
  ]

  pub find_one-All :
      (P : R → Type 0) (p : R → Bool) (rs : List R) {r : R}
      → All P rs
      → find_one p rs ≡ some r
      → P r
  find_one-All P p [] a h = absurd (ground arith)
  find_one-All P p (x ∷ rs) {r} a h = elim (Bool-cases (p x)) [
    | inl e ↦ let same : x ≡ r = ground arith in subst P same a.0
    | inr e ↦ find_one-All P p rs a.1 (rw e at h)
  ]

  pub find_one-none :
      (p : R → Bool) (rs : List R) → find_one p rs ≡ none → All (λ r. p r ≡ false) rs
  find_one-none p [] h = tt
  find_one-none p (x ∷ rs) h = ground (arith, find_one-none p rs)
