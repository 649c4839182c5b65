-- ===== src/Model/Collection/Pairwise.antt =====
-- Separation of the documents of a collection (no two with one id, no two live ones with one name),
-- and its preservation by inserts and updates.
use dmp.Base.{
  filter, ◌≡◌, Bool, true, false, none, some, List, [], ◌∷◌, arith, All, inl, inr, Bool-cases,
}
use dmp.Model.Collection.{find_one, insert_one, update_one, update_many}

module _ {R : Type 0} where
  pub All-map : (P Q : R → Type 0) → ((r : R) → P r → Q r) → (rs : List R) → All P rs → All Q rs
  All-map P Q f [] a = tt
  All-map P Q f (r ∷ rs) a = (f r a.0, All-map P Q f rs a.1)

  pub All-map₂ :
      (P Q S : R → Type 0)
      → ((r : R) → P r → Q r → S r)
      → (rs : List R) → All P rs
      → All Q rs
      → All S rs
  All-map₂ P Q S f [] a b = tt
  All-map₂ P Q S f (r ∷ rs) a b = (f r a.0 b.0, All-map₂ P Q S f rs a.1 b.1)

  pub All-of : {P : R → Type 0} (rs : List R) → ((r : R) → P r) → All P rs
  All-of [] f = tt
  All-of (r ∷ rs) f = (f r, All-of rs f)

  -- What holds of every document picked holds of the answer of `find`.
  pub All-filter :
      (P Q : R → Type 0) (f : R → Bool)
      → ((r : R) → f r ≡ true → P r → Q r)
      → (rs : List R) → All P rs
      → All Q (filter f rs)
  All-filter P Q f keep [] a = tt
  All-filter P Q f keep (r ∷ rs) a = elim (Bool-cases (f r)) [
    | inl e ↦ rw e (keep r e a.0, All-filter P Q f keep rs a.1)
    | inr e ↦ rw e (All-filter P Q f keep rs a.1)
  ]

  pub All-map₃ :
      (P Q S T : R → Type 0)
      → ((r : R) → P r → Q r → S r → T r)
      → (rs : List R) → All P rs
      → All Q rs
      → All S rs
      → All T rs
  All-map₃ P Q S T f [] a b c = tt
  All-map₃ P Q S T f (r ∷ rs) a b c = (f r a.0 b.0 c.0, All-map₃ P Q S T f rs a.1 b.1 c.1)

  pub All-insert_one :
      (P : R → Type 0) {r : R} (rs : List R) → All P rs → P r → All P (insert_one r rs)
  All-insert_one P [] a h = (h, tt)
  All-insert_one P (x ∷ rs) a h = (a.0, All-insert_one P rs a.1 h)

  pub All-update_one :
      (P : R → Type 0) (p : R → Bool) (f : R → R) (rs : List R)
      → ((r : R) → p r ≡ true → P r → P (f r))
      → All P rs
      → All P (update_one p f rs)
  All-update_one P p f [] keep a = tt
  All-update_one P p f (r ∷ rs) keep a = elim (Bool-cases (p r)) [
    | inl e ↦ rw e (keep r e a.0, a.1)
    | inr e ↦ rw e (a.0, All-update_one P p f rs keep a.1)
  ]

  pub All-update_many :
      (P : R → Type 0) (p : R → Bool) (f : R → R) (rs : List R)
      → ((r : R) → p r ≡ true → P r → P (f r))
      → All P rs
      → All P (update_many p f rs)
  All-update_many P p f [] keep a = tt
  All-update_many P p f (r ∷ rs) keep a = elim (Bool-cases (p r)) [
    | inl e ↦ rw e (keep r e a.0, All-update_many P p f rs keep a.1)
    | inr e ↦ rw e (a.0, All-update_many P p f rs keep a.1)
  ]

module _ {R : Type 0} (Sep : R → R → Type 0) where
  abbrev pub Pairwise : List R → Type 0
  Pairwise [] = Unit
  Pairwise (r ∷ rs) = All (Sep r) rs × Pairwise rs

module _ {R : Type 0} where
  pub Pairwise-map :
      (S T : R → R → Type 0)
      → ((x y : R) → S x y → T x y)
      → (rs : List R) → Pairwise S rs
      → Pairwise T rs
  Pairwise-map S T f [] p = tt
  Pairwise-map S T f (r ∷ rs) p = (All-map (S r) (T r) (f r) rs p.0, Pairwise-map S T f rs p.1)

module _ {R : Type 0} (Sep : R → R → Type 0) where
  pub Pairwise-insert_one :
      (r : R) (rs : List R)
      → Pairwise Sep rs
      → All (λ x. Sep x r) rs
      → Pairwise Sep (insert_one r rs)
  Pairwise-insert_one r [] p a = (tt, tt)
  Pairwise-insert_one r (x ∷ rs) p a =
      (All-insert_one (Sep x) rs p.0 a.0, Pairwise-insert_one r rs p.1 a.1)

  -- An update of the first document that `p` picks keeps the separation if `p` picks no other, and
  -- the updated document stays separate from the others.
  pub Pairwise-update_one :
      (Ok : R → Type 0) (p : R → Bool) (f : R → R) (rs : List R)
      → ((x y : R) → Sep x y → Sep y x)
      → ((x r : R) → p r ≡ true → p x ≡ false → Ok x → Sep x r → Sep x (f r))
      → Pairwise (λ x y. p x ≡ true → p y ≡ false) rs
      → All Ok rs
      → Pairwise Sep rs
      → Pairwise Sep (update_one p f rs)
  Pairwise-update_one Ok p f [] flip keep only a s = tt
  Pairwise-update_one Ok p f (r ∷ rs) flip keep only a s = elim (Bool-cases (p r)) [
    | inl e ↦ rw e (
      All-map₃ Ok (λ y. p r ≡ true → p y ≡ false) (Sep r) (Sep (f r))
          (λ y ok alone apart. flip y (f r) (keep y r e (alone e) ok (flip r y apart))) rs a.1
          only.0 s.0,
      s.1,
    )
    | inr e ↦ rw e (
      All-update_one (Sep r) p f rs (λ y hit other. keep r y hit e a.0 other) s.0,
      Pairwise-update_one Ok p f rs flip keep only.1 a.1 s.1,
    )
  ]

module _ {R : Type 0} where
  -- The document that `find_one` finds is the only one that its filter picks, if the filter picks no
  -- two.
  pub find_one_only :
      (q : R → Bool) (rs : List R) {o : R}
      → Pairwise (λ x y. q x ≡ true → q y ≡ false) rs
      → find_one q rs ≡ some o
      → All (λ x. q x ≡ true → x ≡ o) rs
  find_one_only q [] only h = tt
  find_one_only q (r ∷ rs) {o} only h = elim (Bool-cases (q r)) [
    | inl e ↦
        let same : r ≡ o = ground arith in
        (
          λ _. same,
          All-map (λ y. q r ≡ true → q y ≡ false) (λ y. q y ≡ true → y ≡ o)
              (λ y apart picked. absurd (ground (arith, apart e))) rs only.0,
        )
    | inr e ↦ (λ picked. absurd (ground arith), find_one_only q rs only.1 (rw e at h))
  ]

  pub find_one-none-All :
      (q : R → Bool) (P : R → Type 0) (rs : List R)
      → find_one q rs ≡ none
      → ((r : R) → q r ≡ false → P r)
      → All P rs
  find_one-none-All q P [] h k = tt
  find_one-none-All q P (r ∷ rs) h k = elim (Bool-cases (q r)) [
    | inl e ↦ absurd (ground arith)
    | inr e ↦ (k r e, find_one-none-All q P rs (rw e at h) k)
  ]
