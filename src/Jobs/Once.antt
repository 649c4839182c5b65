-- ===== src/Jobs/Once.antt =====
-- One-off jobs after their run.
use dmp.Base.{
  ◌≢◌, ◌≡◌, refl, ◌∙◌, subst, String, true, false, Option, none, some, List, [], ◌∷◌, inl, inr,
  is_some, is_some-eq-false, All, Any, Bool-cases,
}
use dmp.Model.Types.{Job, JobSchedulerConfig, JobActionReturn}
use dmp.Model.World.{World}
use dmp.Model.Action.{Action, Result, ok, err}
use dmp.Model.Collection.Pairwise.{All-map}
use dmp.Model.Collection.Distinct.{Distinct}
use dmp.Jobs.{run_job, find_next_job, is_pending}
use dmp.Jobs.Available.{IsDue, periodic, one_off}
use dmp.Jobs.Next.{Next, find_next_job-Next}
use dmp.Jobs.Recorded.{Recorded, status_after, run_job-Recorded}

abbrev pub NotAgain : String → Result (Option Job) × World → Type 0
NotAgain i (ok none, w') = Unit
NotAgain i (ok (some k), w') = k.id ≢ i
NotAgain i (err e t, w') = ⊥

both : (P Q : Job → Type 0) (js : List Job) → All P js → Any Q js → (k : Job) × P k × Q k
both P Q [] a b = absurd b
both P Q (j ∷ js) a (inl q) = (j, a.0, q)
both P Q (j ∷ js) a (inr q) = both P Q js a.1 q

IsDue-pending :
    (c : JobSchedulerConfig) (w : World) (k : Job) → IsDue c w.env w.ticks k → is_pending k ≡ true
IsDue-pending c w k (periodic p q) = p
IsDue-pending c w k (one_off p q h n le e) = p

not_pending_after :
    (j k : Job) (r : JobActionReturn)
    → is_some j.period ≡ false
    → k.status ≡ status_after j r
    → is_pending k ≡ false
not_pending_after j k r once e = elim (Bool-cases r.successful) [
  | inl h ↦ rw (e, is_some-eq-false j.period once, h) refl
  | inr h ↦ rw (e, is_some-eq-false j.period once, h) refl
]

module _ (c : JobSchedulerConfig) (j : Job) where
  Next-NotAgain :
      (w' : World) (r : Result (Option Job) × World)
      → All (λ x. x.id ≡ j.id → is_pending x ≡ false) w'.jobs
      → Next c w' r
      → NotAgain j.id r
  Next-NotAgain w' (ok none, w'') over h = tt
  Next-NotAgain w' (err e t, w'') over h = h
  Next-NotAgain w' (ok (some k), w'') over h = λ same.
      let (x, idle, (due, (named, _), _)) =
        both (λ x. x.id ≡ j.id → is_pending x ≡ false) _ w'.jobs over h in
      let waits : is_pending x ≡ true = IsDue-pending c w' x due in
      let rests : is_pending x ≡ false = idle (named ∙ same) in cc

-- Where job ids are distinct once the executor has ended, and a run of a one-off job returned a result,
-- successful or not, the next call of the scheduler does not throw and does not hand out a job with that
-- id.
pub find_next_job-run_job :
    (execute : Job → Action (Option JobActionReturn)) (c : JobSchedulerConfig) (j : Job) (w : World)
    → Distinct (λ k. k.id) (execute j w).1.jobs
    → is_some j.period ≡ false
    → (r : JobActionReturn) → (execute j w).0 ≡ ok (some r)
    → NotAgain j.id (find_next_job c (run_job execute c j w).1)
find_next_job-run_job execute c j w distinct once r returned =
    let w' = (run_job execute c j w).1 in
    Next-NotAgain c j w' _
      (All-map (λ x. x.id ≡ j.id → Recorded j (ok (some r)) x)
        (λ x. x.id ≡ j.id → is_pending x ≡ false)
        (λ x done same. not_pending_after j x r once (done same).1) w'.jobs
        (subst (λ o. All (λ x. x.id ≡ j.id → Recorded j o x) w'.jobs) returned
          (run_job-Recorded execute c j w distinct)))
      (find_next_job-Next c w')
