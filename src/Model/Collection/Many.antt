-- ===== src/Model/Collection/Many.antt =====
-- What an update of all matching documents leaves.
use dmp.Base.{◌≡◌, refl, Bool, true, false, List, [], ◌∷◌, inl, inr, All, Bool-cases}
use dmp.Model.Collection.{update_one, update_many}

-- Two lists of one length, with a relation between the documents at each place.
abbrev pub Alongside : {R : Type 0} → (R → R → Type 0) → List R → List R → Type 0
Alongside P [] [] = Unit
Alongside P [] (y ∷ ys) = ⊥
Alongside P (x ∷ xs) [] = ⊥
Alongside P (x ∷ xs) (y ∷ ys) = P x y × Alongside P xs ys

-- A document that is not picked is as it was.
abbrev pub Kept : {R : Type 0} → (R → Type 0) → R → R → Type 0
Kept Picked r s = ¬ (Picked r) → s ≡ r

Alongside-refl :
    {R : Type 0} (P : R → R → Type 0) → ((r : R) → P r r) → (rs : List R) → Alongside P rs rs
Alongside-refl P same [] = tt
Alongside-refl P same (r ∷ rs) = (same r, Alongside-refl P same rs)

module _ {R : Type 0} (p : R → Bool) (f : R → R) where
  pub update_many-All :
      (P : R → Type 0) (rs : List R)
      → ((r : R) → p r ≡ true → P (f r))
      → ((r : R) → p r ≡ false → P r)
      → All P (update_many p f rs)
  update_many-All P [] hit miss = tt
  update_many-All P (r ∷ rs) hit miss = elim (Bool-cases (p r)) [
    | inl e ↦ rw e (hit r e, update_many-All P rs hit miss)
    | inr e ↦ rw e (miss r e, update_many-All P rs hit miss)
  ]

  -- Each document and what became of it.
  pub update_many-Alongside :
      (P : R → R → Type 0) (rs : List R)
      → ((r : R) → p r ≡ true → P r (f r))
      → ((r : R) → p r ≡ false → P r r)
      → Alongside P rs (update_many p f rs)
  update_many-Alongside P [] hit miss = tt
  update_many-Alongside P (r ∷ rs) hit miss = elim (Bool-cases (p r)) [
    | inl e ↦ rw e (hit r e, update_many-Alongside P rs hit miss)
    | inr e ↦ rw e (miss r e, update_many-Alongside P rs hit miss)
  ]

  pub update_many-Kept :
      (Picked : R → Type 0) (rs : List R)
      → ((r : R) → p r ≡ true → Picked r)
      → Alongside (Kept Picked) rs (update_many p f rs)
  update_many-Kept Picked rs picked =
      update_many-Alongside (Kept Picked) rs (λ r e other. absurd (other (picked r e)))
        (λ r e other. refl)

  pub update_one-Kept :
      (Picked : R → Type 0) (rs : List R)
      → ((r : R) → p r ≡ true → Picked r)
      → Alongside (Kept Picked) rs (update_one p f rs)
  update_one-Kept Picked [] picked = tt
  update_one-Kept Picked (r ∷ rs) picked = elim (Bool-cases (p r)) [
    | inl e ↦
        rw e
          (λ other. absurd (other (picked r e)), Alongside-refl (Kept Picked) (λ s other. refl) rs)
    | inr e ↦ rw e (λ other. refl, update_one-Kept Picked rs picked)
  ]
