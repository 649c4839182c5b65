-- ===== src/Jobs/Recorded.antt =====
-- What the poller records of a run.
use dmp.Base.{
  ℕ, ◌≢◌, suc, if◌then◌else◌, ◌≡◌, refl, String, false, ◌&&◌, Option, none, some, List, [], ◌∷◌,
  ◌++◌, ◌==◌, inl, inr, not, ltb, All, Bool-cases, eq_iff,
}
use dmp.Model.Types.{
  Job, JobStatus, pending, finished, error, JobHistory, JobHistoryStatus, success, failed,
  JobSchedulerConfig, JobActionReturn,
}
use dmp.Model.World.{World}
use dmp.Model.Action.{Action, Result, ok, err, CoreErrors, pure}
use dmp.Model.Action.Post.{
  >>=-post, >>=-via, gets-post, date_now-post, modify_end-post, pure-post, try_catch-via,
}
use dmp.Model.Collection.{find_one, find_one-none}
use dmp.Model.Collection.Pairwise.{All-map, All-of}
use dmp.Model.Collection.Distinct.{Distinct, All-update_id}
use dmp.Jobs.{
  run_job, record_result, record_throw, store_update, rescheduled, update_of, retry_time,
  apply_update, Update, is_periodic,
}

-- The status after a run that returned.
abbrev pub status_after : Job → JobActionReturn → JobStatus
status_after j r = if is_periodic j then pending else (if r.successful then finished else error)

abbrev pub outcome_of : JobActionReturn → JobHistoryStatus
outcome_of r = if r.successful then success else failed

-- Of a job as stored after its run: by what the executor returned or threw.
abbrev pub Recorded : Job → Result (Option JobActionReturn) → Job → Type 0
Recorded j (ok none) x = x.counter ≡ suc j.counter
Recorded j (ok (some r)) x =
    (x.counter ≡ suc j.counter)
    × (x.status ≡ status_after j r)
    × ((past : List JobHistory) × (time : ℕ) × (x.history
          ≡ past ++ record { time = time; status = outcome_of r } ∷ []))
Recorded j (err e t) x =
    (time : ℕ) × (x.history ≡ j.history ++ record { time = time; status = failed } ∷ [])

abbrev AllRecorded : Job → Result (Option JobActionReturn) → World → Type 0
AllRecorded j r w = All (λ x. x.id ≡ j.id → Recorded j r x) w.jobs

abbrev Settled : Job → World → Option JobActionReturn → Result Update × World → Type 0
Settled j w none (ok u, w') = Unit × (w'.jobs ≡ w.jobs)
Settled j w (some r) (ok u, w') =
    ((u.status ≡ some (status_after j r))
      × ((time : ℕ) × (u.entry ≡ some (record { time = time; status = outcome_of r }))))
    × (w'.jobs ≡ w.jobs)
Settled j w result (err e t, w') = ⊥

abbrev Quiet : {A : Type 0} → World → Result A × World → Type 0
Quiet w (ok a, w') = w'.jobs ≡ w.jobs
Quiet w (err e t, w') = ⊥

rescheduled-Quiet : (j : Job) (w : World) → Quiet w (rescheduled j w)
rescheduled-Quiet j w = elim (Bool-cases (is_periodic j)) [
  | inl e ↦ rw e (date_now-post (Quiet w) _ w (pure-post (Quiet w) _ _ refl))
  | inr e ↦ rw e (pure-post (Quiet w) _ w refl)
]

retry_time-Quiet :
    (c : JobSchedulerConfig) (j : Job) (next : Option ℕ) (w : World)
    → Quiet w (retry_time c j next w)
retry_time-Quiet c j next w =
    elim (Bool-cases (not (is_periodic j) && ltb j.counter c.max_attempts)) [
      | inl e ↦ rw e (date_now-post (Quiet w) _ w (pure-post (Quiet w) _ _ refl))
      | inr e ↦ rw e (pure-post (Quiet w) _ w refl)
    ]

next_time-Quiet :
    (r : JobActionReturn) (c : JobSchedulerConfig) (j : Job) (next : Option ℕ) (w : World)
    → Quiet w ((if r.successful then pure next else retry_time c j next) w)
next_time-Quiet r c j next w = elim (Bool-cases r.successful) [
  | inl e ↦ rw e (pure-post (Quiet w) _ w refl)
  | inr e ↦ rw e (retry_time-Quiet c j next w)
]

update_of-Settled :
    (c : JobSchedulerConfig) (j : Job) (next : Option ℕ) (result : Option JobActionReturn)
    (w : World)
    → Settled j w result (update_of c j next result w)
update_of-Settled c j next none w = pure-post (Settled j w none) _ w (tt, refl)
update_of-Settled c j next (some r) w =
    let after : Result Update × World → Type 0 = Settled j w (some r) in
    date_now-post after _ w (
      >>=-via after (Quiet w) _ _ _ (next_time-Quiet r c j next _) (λ _ _ _ q. q)
        (λ _ w' q. pure-post after _ w' ((refl, (_, refl)), q)))

Recorded-update :
    (j u x : Job) (w w' : World) (result : Option JobActionReturn) (s : Update)
    → Settled j w result (ok s, w')
    → Recorded j (ok result) (apply_update j u s x)
Recorded-update j u x w w' none s h = refl
Recorded-update j u x w w' (some r) s ((status, (time, entry)), q) =
    (refl, rw status refl, (u.history, time, rw entry refl))

no_such :
    (i : String) (js : List Job) → find_one (λ k. k.id == i) js ≡ none → All (λ x. x.id ≢ i) js
no_such i js e =
    All-map (λ x. (x.id == i) ≡ false) (λ x. x.id ≢ i) (λ x h same. cc ((eq_iff x.id i).1 same)) js
      (find_one-none (λ k. k.id == i) js e)

-- Of the end of a run that returned.
abbrev Ended : Job → Result (Option JobActionReturn) → World → Result (Unit {0}) × World → Type 0
Ended j r w (ok a, w') = AllRecorded j r w'
Ended j r w (err e t, w') = (r ≡ err e t) × (w'.jobs ≡ w.jobs)

Settled-jobs :
    (j : Job) (w : World) (result : Option JobActionReturn) (u : Update) (w' : World)
    → Settled j w result (ok u, w')
    → w'.jobs ≡ w.jobs
Settled-jobs j w none u w' h = h.1
Settled-jobs j w (some r) u w' h = h.1

store_update-Ended :
    (j : Job) (update : Update) (result : Option JobActionReturn) (w₀ w₁ w : World)
    → Settled j w₁ result (ok update, w)
    → Distinct (λ k. k.id) w.jobs
    → (o : Option Job) → find_one (λ k. k.id == j.id) w.jobs ≡ o
    → Ended j (ok result) w₀ (store_update j update o w)
store_update-Ended j update result w₀ w₁ w h distinct none e =
    pure-post (Ended j (ok result) w₀) _ w (
      All-map (λ x. x.id ≢ j.id) (λ x. x.id ≡ j.id → Recorded j (ok result) x)
        (λ x apart same. absurd (apart same)) w.jobs (no_such j.id w.jobs e))
store_update-Ended j update result w₀ w₁ w h distinct (some u) e =
    modify_end-post (Ended j (ok result) w₀) _ w (
      All-update_id (λ k. k.id) (λ x. x.id ≡ j.id → Recorded j (ok result) x) j.id
        (apply_update j u update) w.jobs distinct
        (All-of w.jobs (λ x _ _. Recorded-update j u x w₁ w result update h))
        (All-of w.jobs (λ x apart same. absurd (apart same))))

record_result-Ended :
    (c : JobSchedulerConfig) (j : Job) (result : Option JobActionReturn) (w : World)
    → Distinct (λ k. k.id) w.jobs
    → Ended j (ok result) w (record_result c j result w)
unfolding record_result
record_result-Ended c j result w distinct =
    let after : Result (Unit {0}) × World → Type 0 = Ended j (ok result) w in
    >>=-via after (Quiet w) (rescheduled j) _ w (rescheduled-Quiet j w) (λ _ _ _ q. absurd q)
      λ next w₁ q₁.
        >>=-via after (Settled j w₁ result) (update_of c j next result) _ w₁
          (update_of-Settled c j next result w₁) (λ _ _ _ q. absurd q)
          λ update w₂ q₂. gets-post after _ _ w₂ (
            store_update-Ended j update result w w₁ w₂ q₂
              (rw (Settled-jobs j w₁ result update w₂ q₂, q₁) distinct) _ refl)

record_throw-Recorded :
    (j : Job) (e : CoreErrors) (t : String) (w : World)
    → Distinct (λ k. k.id) w.jobs
    → AllRecorded j (err e t) (record_throw j w).1
unfolding record_throw
record_throw-Recorded j e t w distinct =
    let after : Result (Unit {0}) × World → Type 0 = λ r. AllRecorded j (err e t) r.1 in
    date_now-post after _ w (
      modify_end-post after _ _ (
        All-update_id (λ k. k.id) (λ x. x.id ≡ j.id → Recorded j (err e t) x) j.id _ w.jobs distinct
          (All-of w.jobs (λ _ _ _. (_, refl)))
          (All-of w.jobs (λ x apart same. absurd (apart same)))))

pub run_job-Recorded :
    (execute : Job → Action (Option JobActionReturn)) (c : JobSchedulerConfig) (j : Job) (w : World)
    → Distinct (λ k. k.id) (execute j w).1.jobs
    → All (λ x. x.id ≡ j.id → Recorded j (execute j w).0 x) (run_job execute c j w).1.jobs
unfolding run_job
run_job-Recorded execute c j w distinct =
    let r = (execute j w).0 in
    let w₁ = (execute j w).1 in
    try_catch-via (λ s. AllRecorded j r s.1) (Ended j r w₁) _ (record_throw j) w
      (>>=-post (Ended j r w₁) (execute j) (record_result c j) w (λ e t h. (h, refl))
        λ a h. rw h (record_result-Ended c j a w₁ distinct))
      (λ _ _ q. q) (λ e t w' q. rw (q.0) (record_throw-Recorded j e t w' (rw q.1 distinct)))
