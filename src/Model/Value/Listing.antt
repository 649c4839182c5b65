-- ===== src/Model/Value/Listing.antt =====
-- The listing of an object's properties has each property once.
use dmp.Base.{
  ℕ, ◌+◌, ◌≡◌, ◌∙◌, refl, String, List, [], ◌∷◌, ◌++◌, arith, All, Any, ◌⊎◌, inl, inr, Option-cases,
  Bool-cases, filter, is_none, ltb,
}
use dmp.Model.Value.{place, indexed, listing, index_of}

-- A sum over the elements.
abbrev pub sum {ℓ} : {A : Type ℓ} → (A → ℕ) → List A → ℕ
sum w [] = 0
sum w (x ∷ xs) = w x + sum w xs

pub sum-append {ℓ} :
    {A : Type ℓ} (w : A → ℕ) (xs ys : List A) → sum w (xs ++ ys) ≡ sum w xs + sum w ys
sum-append w [] ys = omega arith
sum-append w (x ∷ xs) ys = omega (arith, sum-append w xs ys)

pub All-append :
    {A : Type 0} (P : A → Type 0) (xs ys : List A) → All P xs → All P ys → All P (xs ++ ys)
All-append P [] ys a b = b
All-append P (x ∷ xs) ys a b = (a.0, All-append P xs ys a.1 b)

pub Any-append :
    {A : Type 0} (P : A → Type 0) (xs ys : List A) → Any P xs ⊎ Any P ys → Any P (xs ++ ys)
Any-append P [] ys (inl h) = absurd h
Any-append P [] ys (inr h) = h
Any-append P (x ∷ xs) ys (inl (inl h)) = inl h
Any-append P (x ∷ xs) ys (inl (inr h)) = inr (Any-append P xs ys (inl h))
Any-append P (x ∷ xs) ys (inr h) = inr (Any-append P xs ys (inr h))

module _ {V : Type 0} where
  -- A place puts the property in front of the list or behind its first property.
  place-cases :
      (n : ℕ) (p q : String × V) (qs : List (String × V))
      → (place n p (q ∷ qs) ≡ q ∷ place n p qs) ⊎ (place n p (q ∷ qs) ≡ p ∷ q ∷ qs)
  unfolding place
  place-cases n p q qs = elim (Option-cases (index_of q.0)) [
    | inl e ↦ inl (rw (e, place) refl)
    | inr (m, e) ↦ elim (Bool-cases (ltb m n)) [
      | inl h ↦ inl (rw (e, place, h) refl)
      | inr h ↦ inr (rw (e, place, h) refl)
    ]
  ]

  module _ (P : String × V → Type 0) where
    All-place :
        (n : ℕ) (p : String × V) (qs : List (String × V)) → P p → All P qs → All P (place n p qs)
    unfolding place
    All-place n p [] h a = (h, tt)
    All-place n p (q ∷ qs) h a = elim (place-cases n p q qs) [
      | inl e ↦ rw e (a.0, All-place n p qs h a.1)
      | inr e ↦ rw e (h, a)
    ]

    Any-place :
        (n : ℕ) (p : String × V) (qs : List (String × V)) → P p ⊎ Any P qs → Any P (place n p qs)
    unfolding place
    Any-place n p [] (inl h) = inl h
    Any-place n p [] (inr h) = absurd h
    Any-place n p (q ∷ qs) h = elim (place-cases n p q qs) [
      | inl e ↦ rw e (elim h [
        | inl x ↦ inr (Any-place n p qs (inl x))
        | inr (inl y) ↦ inl y
        | inr (inr z) ↦ inr (Any-place n p qs (inr z))
      ])
      | inr e ↦ rw e (elim h [ inl x ↦ inl x | inr y ↦ inr y ])
    ]

    pub All-listing : (ps : List (String × V)) → All P ps → All P (listing ps)
    unfolding listing
    All-listing ps a = All-append P (indexed ps) _ (front ps a) (back ps a)
      where
        front : (ps : List (String × V)) → All P ps → All P (indexed ps)
        front [] a = tt
        front (p ∷ ps) a = elim (Option-cases (index_of p.0)) [
          | inl e ↦ rw (e, indexed) (front ps a.1)
          | inr (n, e) ↦ rw (e, indexed) (All-place n p (indexed ps) a.0 (front ps a.1))
        ]

        back : (ps : List (String × V)) → All P ps → All P (filter (λ p. is_none (index_of p.0)) ps)
        back [] a = tt
        back (p ∷ ps) a = elim (Option-cases (index_of p.0)) [
          | inl e ↦ rw e (a.0, back ps a.1)
          | inr (n, e) ↦ rw e (back ps a.1)
        ]

    pub Any-listing : (ps : List (String × V)) → Any P ps → Any P (listing ps)
    unfolding listing
    Any-listing ps a = Any-append P (indexed ps) _ (either ps a)
      where
        either :
            (ps : List (String × V))
            → Any P ps
            → Any P (indexed ps) ⊎ Any P (filter (λ p. is_none (index_of p.0)) ps)
        either [] h = elim h [ ]
        either (p ∷ ps) (inl h) = elim (Option-cases (index_of p.0)) [
          | inl e ↦ inr (rw e (inl h))
          | inr (n, e) ↦ inl (rw (e, indexed) (Any-place n p (indexed ps) (inl h)))
        ]
        either (p ∷ ps) (inr h) =
            let rest = either ps h in
            elim (Option-cases (index_of p.0)) [
              | inl e ↦ elim rest [ inl x ↦ inl (rw (e, indexed) x) | inr y ↦ inr (rw e (inr y)) ]
              | inr (n, e) ↦ elim rest [
                | inl x ↦ inl (rw (e, indexed) (Any-place n p (indexed ps) (inr x)))
                | inr y ↦ inr (rw e y)
              ]
            ]

  module _ (w : String × V → ℕ) where
    sum-place :
        (n : ℕ) (p : String × V) (qs : List (String × V)) → sum w (place n p qs) ≡ w p + sum w qs
    unfolding place
    sum-place n p [] = refl
    sum-place n p (q ∷ qs) = elim (place-cases n p q qs) [
      | inl e ↦ rw e (omega (arith, sum-place n p qs))
      | inr e ↦ rw e refl
    ]

    pub sum-listing : (ps : List (String × V)) → sum w (listing ps) ≡ sum w ps
    unfolding listing
    sum-listing ps = sum-append w (indexed ps) _ ∙ parts ps
      where
        parts :
            (ps : List (String × V))
            → sum w (indexed ps) + sum w (filter (λ p. is_none (index_of p.0)) ps) ≡ sum w ps
        parts [] = refl
        parts (p ∷ ps) = elim (Option-cases (index_of p.0)) [
          | inl e ↦ rw (e, indexed) (omega (arith, parts ps))
          | inr (n, e) ↦ rw (e, indexed) (omega (arith, parts ps, sum-place n p (indexed ps)))
        ]
