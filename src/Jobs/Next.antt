-- ===== src/Jobs/Next.antt =====
-- Which job the scheduler hands out.
use dmp.Jobs.Available.{
  IsDue, IsRefused, Sieve, Sieved, available-Sieved, Sieve-All, Sieve-Any, Sieve-none,
}
use dmp.Jobs.Order.{first-sort, sort-none}
use dmp.Base.{
  ℕ, ◌≡◌, refl, ◌∙◌, false, Option, none, some, List, [], ◌∷◌, ◌⊎◌, inl, inr, is_some, arith, All,
  Any, subst,
}
use dmp.Model.Types.{Job, JobSchedulerConfig}
use dmp.Model.World.{World}
use dmp.Model.Action.{Result, ok, err}
use dmp.Model.Action.Post.{>>=-via, gets-post, date_now-post, modify-post, pure-post}
use dmp.Jobs.{available, find_next_job, goes_before, sort, first, reserve, reserve_for}

-- What the scheduler does to the job it hands out: nothing, where the job is one-off.
abbrev Reserved : Option ℕ → Job → World → Result (Option Job) × World → Type 0
Reserved period k w (ok none, w') = ⊥
Reserved period k w (ok (some j), w') =
    (k.id ≡ j.id) × (is_some period ≡ false → (j ≡ k) × (w'.jobs ≡ w.jobs))
Reserved period k w (err e t, w') = ⊥

reserve_for-Reserved :
    (period : Option ℕ) (k : Job) (w : World) → Reserved period k w (reserve_for period k w)
reserve_for-Reserved none k w = pure-post (Reserved none k w) _ w (refl, λ _. (refl, refl))
reserve_for-Reserved (some p) k w =
    let after : Result (Option Job) × World → Type 0 = Reserved (some p) k w in
    date_now-post after _ w (modify-post after _ _ _ (pure-post after _ _ (refl, λ once. cc)))

-- The scheduler hands out no job, and there is a reason to leave out each; or it hands out a stored job
-- that is due, and each job has a reason to be left out or does not go before it.
abbrev pub Next : JobSchedulerConfig → World → Result (Option Job) × World → Type 0
Next c w (ok none, w') = All (IsRefused c w.env w.ticks) w.jobs
Next c w (ok (some j), w') =
    Any
      (λ k.
        IsDue c w.env w.ticks k
        × ((k.id ≡ j.id) × (is_some k.period ≡ false → (j ≡ k) × (w'.jobs ≡ w.jobs)))
        × All (λ i. IsRefused c w.env w.ticks i ⊎ (goes_before c i k ≡ false)) w.jobs)
      w.jobs
Next c w (err e t, w') = ⊥

Any-map : (P Q : Job → Type 0) → ((r : Job) → P r → Q r) → (rs : List Job) → Any P rs → Any Q rs
Any-map P Q f [] a = absurd a
Any-map P Q f (r ∷ rs) (inl a) = inl (f r a)
Any-map P Q f (r ∷ rs) (inr a) = inr (Any-map P Q f rs a)

module _ (c : JobSchedulerConfig) (w w₁ : World) (ks : List Job)
    (s : Sieve c w.env w.ticks w.jobs ks) (same : w₁.jobs ≡ w.jobs) where
  Reserved-Next :
      (k : Job) (r : Result (Option Job) × World)
      → first (sort c ks) ≡ some k
      → Reserved k.period k w₁ r
      → Next c w r
  Reserved-Next k (ok none, w') e h = absurd h
  Reserved-Next k (err _ _, w') e h = absurd h
  Reserved-Next k (ok (some j), w') e (named, kept) =
      let (there, least) = first-sort c ks e in
      let others = Sieve-All c w.env w.ticks (λ i. goes_before c i k ≡ false) s least in
      Any-map (λ i. IsDue c w.env w.ticks i × (i ≡ k))
        (λ i.
          IsDue c w.env w.ticks i
          × ((i.id ≡ j.id) × (is_some i.period ≡ false → (j ≡ i) × (w'.jobs ≡ w.jobs)))
          × All (λ x. IsRefused c w.env w.ticks x ⊎ (goes_before c x i ≡ false)) w.jobs)
        (λ i (due, e'). (
          due,
          (rw e' named, λ once. let (a, b) = kept (rw (← e') once) in (rw e' a, b ∙ same)),
          rw e' others,
        ))
        w.jobs (Sieve-Any c w.env w.ticks (λ x. x ≡ k) s there)

  reserve-Next : (o : Option Job) → first (sort c ks) ≡ o → Next c w (reserve o w₁)
  unfolding reserve
  reserve-Next none e =
      pure-post (Next c w) none w₁
        (Sieve-none (subst (Sieve c w.env w.ticks w.jobs) (sort-none c ks e) s))
  reserve-Next (some k) e = Reserved-Next k _ e (reserve_for-Reserved k.period k w₁)

pub find_next_job-Next : (c : JobSchedulerConfig) (w : World) → Next c w (find_next_job c w)
unfolding find_next_job
find_next_job-Next c w =
    let after : Result (Option Job) × World → Type 0 = Next c w in
    gets-post after _ _ w (
      >>=-via after (Sieved c w.ticks w.jobs w) (available c w.jobs) _ w
        (available-Sieved c w.ticks w.jobs w (omega arith)) (λ _ _ _ no_throw. absurd no_throw)
        (λ ks w' (s, same, _). reserve-Next c w w' ks s same _ refl))
