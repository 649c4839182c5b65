-- ===== src/Jobs/Available.antt =====
-- The filter of the scheduler: which pending jobs it keeps, and why it leaves the others out.
use dmp.Base.{
  ℕ, suc, ◌≤◌, if◌then◌else◌, ◌≡◌, refl, true, false, ◌&&◌, ◌||◌, List, [], ◌∷◌, ◌⊎◌, inl, inr, not,
  is_some, ltb, arith, All, Any, Bool-cases,
}
use dmp.Model.Types.{Job, JobSchedulerConfig}
use dmp.Model.World.{World, Env}
use dmp.Model.Action.{Result, ok, err}
use dmp.Model.Action.Post.{>>=-via, date_now-post, pure-post}
use dmp.Jobs.{available, is_pending, is_exhausted}

-- A pending job that is periodic, or that has not failed too often and whose time has come at a reading
-- of the clock not earlier than `start`.
pub data IsDue (c : JobSchedulerConfig) (env : Env) (start : ℕ) (j : Job) : Type 0 where
  periodic : is_pending j ≡ true → is_some j.period ≡ true → IsDue c env start j
  one_off :
      is_pending j ≡ true
      → is_some j.period ≡ false
      → is_exhausted c j ≡ false
      → (n : ℕ) → start ≤ n
      → ltb (env.now n) j.next_execution_time ≡ false
      → IsDue c env start j

-- The reasons to leave a job out.
pub data IsRefused (c : JobSchedulerConfig) (env : Env) (start : ℕ) (j : Job) : Type 0 where
  not_pending : is_pending j ≡ false → IsRefused c env start j
  exhausted : is_some j.period ≡ false → is_exhausted c j ≡ true → IsRefused c env start j
  too_early :
      is_some j.period ≡ false
      → (n : ℕ) → start ≤ n
      → ltb (env.now n) j.next_execution_time ≡ true
      → IsRefused c env start j

-- The jobs that remain of a list, in order.
pub data Sieve (c : JobSchedulerConfig) (env : Env) (start : ℕ) : List Job → List Job → Type 0 where
  done : Sieve c env start [] []
  keep :
      {j : Job} {js ks : List Job}
      → IsDue c env start j
      → Sieve c env start js ks
      → Sieve c env start (j ∷ js) (j ∷ ks)
  drop :
      {j : Job} {js ks : List Job}
      → IsRefused c env start j
      → Sieve c env start js ks
      → Sieve c env start (j ∷ js) ks

abbrev pub Sieved : JobSchedulerConfig → ℕ → List Job → World → Result (List Job) × World → Type 0
Sieved c start js w (ok ks, w') = Sieve c w.env start js ks × (w'.jobs ≡ w.jobs) × (w'.env ≡ w.env)
Sieved c start js w (err e t, w') = ⊥

module _ (c : JobSchedulerConfig) (start : ℕ) where
  Sieved-drop :
      (j : Job) (js : List Job) (w : World) (r : Result (List Job) × World)
      → IsRefused c w.env start j
      → Sieved c start js w r
      → Sieved c start (j ∷ js) w r
  Sieved-drop j js w (ok ks, w') out (s, same, there) = (drop out s, same, there)
  Sieved-drop j js w (err e t, w') out s = s

  is_refused :
      (env : Env) (j : Job)
      → (not (is_pending j) || (not (is_some j.period) && is_exhausted c j)) ≡ true
      → IsRefused c env start j
  is_refused env j h = elim (Bool-cases (is_pending j)) [
    | inr e ↦ not_pending e
    | inl e ↦ exhausted (ground arith) (ground arith)
  ]

  -- The last test of a one-off job, by a reading of the clock.
  decide :
      (j : Job) (js : List Job) (w : World)
      → is_some j.period ≡ false
      → is_pending j ≡ true
      → is_exhausted c j ≡ false
      → (n : ℕ) → start ≤ n
      → (ks : List Job) (w' : World) → Sieved c start js w (ok ks, w')
      → Sieved c start
          (j ∷ js)
          w
          (ok (if ltb (w.env.now n) j.next_execution_time then ks else j ∷ ks), w')
  decide j js w once waits fit n le ks w' (s, same, there) =
      elim (Bool-cases (ltb (w.env.now n) j.next_execution_time)) [
        | inl e ↦ rw e (drop (too_early once n le e) s, same, there)
        | inr e ↦ rw e (keep (one_off waits once fit n le e) s, same, there)
      ]

  pub available-Sieved :
      (js : List Job) (w : World) → start ≤ w.ticks → Sieved c start js w (available c js w)
  unfolding available
  available-Sieved [] w le = pure-post (Sieved c start [] w) [] w (done, refl, refl)
  available-Sieved (j ∷ js) w le =
      elim (Bool-cases (not (is_pending j) || (not (is_some j.period) && is_exhausted c j))) [
        | inl e ↦ rw e (Sieved-drop j js w _ (is_refused w.env j e) (available-Sieved js w le))
        | inr e ↦
            let waits : is_pending j ≡ true = ground arith in
            let after : Result (List Job) × World → Type 0 = Sieved c start (j ∷ js) w in
            elim (Bool-cases (is_some j.period)) [
              | inl p ↦
                  rw (e, p)
                    (>>=-via after (Sieved c start js w) (available c js) _ w
                      (available-Sieved js w le) (λ _ _ _ s. s)
                      (λ ks w' s. pure-post after _ w' (keep (periodic waits p) s.0, s.1, s.2)))
              | inr p ↦
                  rw (e, p)
                    (date_now-post after _ w (
                      >>=-via after (Sieved c start js w) (available c js) _ _
                        (available-Sieved js (record w { ticks = suc w.ticks }) (omega arith))
                        (λ _ _ _ s. s)
                        (λ ks w' s.
                          pure-post after _ w'
                            (decide j js w p waits (ground arith) w.ticks le ks w' s))))
            ]
      ]

module _ (c : JobSchedulerConfig) (env : Env) (start : ℕ) (P : Job → Type 0) where
  pub Sieve-All :
      {js ks : List Job}
      → Sieve c env start js ks
      → All P ks
      → All (λ i. IsRefused c env start i ⊎ P i) js
  Sieve-All done a = tt
  Sieve-All (keep due s) a = (inr a.0, Sieve-All s a.1)
  Sieve-All (drop out s) a = (inl out, Sieve-All s a)

  pub Sieve-Any :
      {js ks : List Job}
      → Sieve c env start js ks
      → Any P ks
      → Any (λ i. IsDue c env start i × P i) js
  Sieve-Any done a = absurd a
  Sieve-Any (keep due s) (inl a) = inl (due, a)
  Sieve-Any (keep due s) (inr a) = inr (Sieve-Any s a)
  Sieve-Any (drop out s) a = inr (Sieve-Any s a)

pub Sieve-none :
    {c : JobSchedulerConfig} {env : Env} {start : ℕ} {js : List Job}
    → Sieve c env start js []
    → All (IsRefused c env start) js
Sieve-none done = tt
Sieve-none (drop out s) = (out, Sieve-none s)
