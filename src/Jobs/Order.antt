-- ===== src/Jobs/Order.antt =====
-- The order of the scheduler: the first job of a sorted list.
use dmp.Base.{
  ◌≢◌, ap, ◌≡◌, refl, true, false, none, some, List, [], ◌∷◌, ◌⊎◌, inl, inr, arith, All, Any,
  Bool-cases, Option-cases, subst,
}
use dmp.Model.Types.{Job, JobSchedulerConfig}
use dmp.Model.Collection.Pairwise.{All-map}
use dmp.Jobs.{goes_before, insert, sort, first}

module _ (c : JobSchedulerConfig) where
  first-none : (x : Job) (js : List Job) → first (insert c x js) ≢ none
  first-none x [] e = cc
  first-none x (y ∷ ys) e = ground arith

  -- Of an insertion: either the first stays, and goes before the new one, or the new one is first, and
  -- the old first did not go before it.
  first-insert :
      (x : Job) (js : List Job) {k : Job}
      → first (insert c x js) ≡ some k
      → ((first js ≡ some k) × (goes_before c k x ≡ true))
        ⊎ ((x ≡ k) × ((y : Job) → first js ≡ some y → goes_before c y x ≡ false))
  first-insert x [] e = inr (ground arith, λ y e'. cc)
  first-insert x (y ∷ ys) {k} e = elim (Bool-cases (goes_before c y x)) [
    | inl h ↦ let same : y ≡ k = ground arith in inl (ap some same, rw (← same) h)
    | inr h ↦ inr (ground arith, λ z e'. let same : y ≡ z = ground arith in rw (← same) h)
  ]

  -- What is not before `y`, which is not before `x`, is not before `x`.
  not_before_trans :
      (i y x : Job)
      → goes_before c i y ≡ false
      → goes_before c y x ≡ false
      → goes_before c i x ≡ false
  not_before_trans i y x h h' = ground arith

  not_before_refl : (x : Job) → goes_before c x x ≡ false
  not_before_refl x = ground arith

  not_before_asym : (x y : Job) → goes_before c x y ≡ true → goes_before c y x ≡ false
  not_before_asym x y h = ground arith

  pub sort-none : (js : List Job) → first (sort c js) ≡ none → js ≡ []
  sort-none [] e = refl
  sort-none (x ∷ xs) e = absurd (first-none x (sort c xs) e)

  -- The first of the sorted jobs is one of them, and none goes before it.
  pub first-sort :
      (js : List Job) {k : Job}
      → first (sort c js) ≡ some k
      → Any (λ x. x ≡ k) js × All (λ i. goes_before c i k ≡ false) js
  first-sort [] e = absurd (cc)
  first-sort (x ∷ xs) {k} e = elim (first-insert x (sort c xs) e) [
    | inl h ↦
        let (there, least) = first-sort xs h.0 in (inr there, (not_before_asym k x h.1, least))
    | inr h ↦
        let rest : All (λ i. goes_before c i x ≡ false) xs =
          elim (Option-cases (first (sort c xs))) [
            | inl empty ↦ rw (sort-none xs empty) tt
            | inr (y, e') ↦
                All-map (λ i. goes_before c i y ≡ false) (λ i. goes_before c i x ≡ false)
                  (λ i least. not_before_trans i y x least (h.1 y e')) xs (first-sort xs e').1
          ] in
        (
          inl h.0,
          subst (λ y. All (λ i. goes_before c i y ≡ false) (x ∷ xs)) h.0 (not_before_refl x, rest),
        )
  ]
