-- ===== src/Jobs.antt =====
-- Jobs: packages/itmat-cores/src/coreFunc/jobCore.ts, and the poller and the scheduler of
-- packages/itmat-commons/src/utils/poller.ts.
mod Tests
pub mod Available
pub mod Order
pub mod Next
pub mod Once
pub mod Recorded
use dmp.Base.{
  ℕ, zero, suc, ◌+◌, String, Bool, true, false, ◌&&◌, ◌||◌, Option, none, some, List, [], ◌∷◌, ◌++◌,
  ◌==◌, if◌then◌else◌, not, is_some, get_or, or_else, ltb, eqb, filter, length,
}
use dmp.Model.Types.{
  Job, JobStatus, pending, finished, error, JobHistory, JobHistoryStatus, success, failed,
  JobSchedulerConfig, JobActionReturn,
}
use dmp.Model.World.{World}
use dmp.Model.Action.{
  Action, ◌>>=◌, ◌>>◌, pure, throw, gets, or_throw, modify, uuid, date_now, try_catch,
  client_action_on_non_existent_entry, database_error,
}
use dmp.Model.Collection.{find_one, insert_one, update_one, born}

-- `d ?? Date.now()`
abbrev or_now : Option ℕ → Action ℕ
or_now none = date_now
or_now (some t) = pure t

-- `createJob`
unfoldable pub create_job : String → String → Option ℕ → Option ℕ → Option ℕ → Action Job
create_job requester name next_execution_time period priority = do
  job_id ← uuid
  next ← or_now next_execution_time
  time ← date_now
  let entry : Job = record {
    id = job_id;
    name = name;
    next_execution_time = next;
    period = period;
    priority = get_or priority 0;
    history = [];
    counter = 0;
    status = pending;
    life = born time requester;
  }
  modify (λ w. record w { jobs = insert_one entry w.jobs })
  pure entry

-- `editJob`; `period` is undefined where it is none, and null where it is `some none`.
unfoldable pub edit_job : String → Option ℕ → Option ℕ → Option (Option ℕ) → Action Job
edit_job job_id priority next_execution_time period = do
  found ← gets (λ w. find_one (λ j. j.id == job_id) w.jobs)
  job ← or_throw found client_action_on_non_existent_entry "Job does not exist."
  modify (λ w. record w {
    jobs =
        update_one (λ j. j.id == job_id)
          (λ j. record j {
            priority = get_or priority j.priority;
            next_execution_time = get_or next_execution_time j.next_execution_time;
            status = if is_some next_execution_time then pending else j.status;
            period = get_or period j.period;
          })
          w.jobs;
  })
  result ← gets (λ w. find_one (λ j. j.id == job_id) w.jobs)
  or_throw result database_error "Failed to update the job."

abbrev pub is_pending : Job → Bool
is_pending j = elim j.status [ pending ↦ true | _ ↦ false ]

abbrev is_failed : JobHistory → Bool
is_failed h = elim h.status [ failed ↦ true | _ ↦ false ]

-- `reExecuteFailedJobs && history.filter(failed).length > maxAttempts`
abbrev pub is_exhausted : JobSchedulerConfig → Job → Bool
is_exhausted c j =
    c.re_execute_failed_jobs && ltb c.max_attempts (length (filter is_failed j.history))

-- The filter over the pending jobs. Only a one-off job that is not exhausted is held against the clock,
-- which is read anew for each.
unfoldable pub available : JobSchedulerConfig → List Job → Action (List Job)
available c [] = pure []
available c (j ∷ js) =
    let later = available c js in
    if not (is_pending j) || (not (is_some j.period) && is_exhausted c j)
    then later
    else if is_some j.period
    then (later >>= λ rest. pure (j ∷ rest))
    else (date_now >>= λ now.
        later >>= λ rest. pure (if ltb now j.next_execution_time then rest else j ∷ rest))

-- The comparison of two jobs is negative: the first goes before the second.
abbrev pub goes_before : JobSchedulerConfig → Job → Job → Bool
goes_before c a b =
    if c.use_priority && not (eqb a.priority b.priority)
    then ltb b.priority a.priority
    else ltb a.next_execution_time b.next_execution_time

abbrev pub insert : JobSchedulerConfig → Job → List Job → List Job
insert c x [] = x ∷ []
insert c x (y ∷ ys) = if goes_before c y x then y ∷ insert c x ys else x ∷ y ∷ ys

-- `sort`, which is stable
abbrev pub sort : JobSchedulerConfig → List Job → List Job
sort c [] = []
sort c (x ∷ xs) = insert c x (sort c xs)

abbrev pub first : List Job → Option Job
first [] = none
first (j ∷ js) = some j

-- The end of `findNextJob`: the next time of a periodic job is set before the job runs. The document's
-- `_id` is taken to be its id.
abbrev pub reserve_for : Option ℕ → Job → Action (Option Job)
reserve_for none j = pure (some j)
reserve_for (some p) j = do
  now ← date_now
  modify (λ w. record w {
    jobs =
        update_one (λ k. k.id == j.id)
          (λ k. record k { next_execution_time = now + p; status = pending }) w.jobs;
  })
  pure (some (record j { next_execution_time = now + p }))

unfoldable pub reserve : Option Job → Action (Option Job)
reserve none = pure none
reserve (some j) = reserve_for j.period j

-- `findNextJob`
unfoldable pub find_next_job : JobSchedulerConfig → Action (Option Job)
find_next_job c = do
  stored ← gets (λ w. w.jobs)
  jobs ← available c stored
  reserve (first (sort c jobs))

-- `if (job.period)`: a period of 0 reads as none.
abbrev pub is_periodic : Job → Bool
is_periodic j = elim j.period [ none ↦ false | some zero ↦ false | some (suc p) ↦ true ]

-- The fields of `setObj`, but for `counter` and `history`.
pub record Update : Type 0 where
  pub status : Option JobStatus
  pub next_execution_time : Option ℕ
  pub entry : Option JobHistory

-- `if (job.period)` after the run.
abbrev pub rescheduled : Job → Action (Option ℕ)
rescheduled j =
    if is_periodic j then (date_now >>= λ now. pure (some (now + get_or j.period 0))) else pure none

-- A one-off job that failed is due again later, as long as it has attempts left.
abbrev pub retry_time : JobSchedulerConfig → Job → Option ℕ → Action (Option ℕ)
retry_time c j next =
    if not (is_periodic j) && ltb j.counter c.max_attempts
    then (date_now >>= λ now. pure (some (now + c.failed_job_delay_time)))
    else pure next

-- `if (result)`
abbrev pub update_of : JobSchedulerConfig → Job → Option ℕ → Option JobActionReturn → Action Update
update_of c j next none = pure (record {
  status = if is_periodic j then some pending else none;
  next_execution_time = next;
  entry = none;
})
update_of c j next (some r) = do
  time ← date_now
  later ← if r.successful then pure next else retry_time c j next
  pure (record {
    status = some (if is_periodic j then pending else (if r.successful then finished else error));
    next_execution_time = later;
    entry = some (record { time = time; status = if r.successful then success else failed });
  })

abbrev pub entries : Option JobHistory → List JobHistory
entries none = []
entries (some h) = h ∷ []

-- `$set: setObj` after a run that returned; `u` is the job as stored at that time.
abbrev pub apply_update : Job → Job → Update → Job → Job
apply_update j u s k = record k {
  status = get_or s.status k.status;
  next_execution_time = get_or s.next_execution_time k.next_execution_time;
  counter = suc j.counter;
  history = u.history ++ entries s.entry;
}

abbrev pub store_update : Job → Update → Option Job → Action (Unit {0})
store_update j update none = pure tt
store_update j update (some u) =
    modify
      (λ w. record w { jobs = update_one (λ k. k.id == j.id) (apply_update j u update) w.jobs })

unfoldable pub record_result : JobSchedulerConfig → Job → Option JobActionReturn → Action (Unit {0})
record_result c j result = do
  next ← rescheduled j
  update ← update_of c j next result
  found ← gets (λ w. find_one (λ k. k.id == j.id) w.jobs)
  store_update j update found

-- The `catch` block; only the executor throws, and `setObj` is empty then.
unfoldable pub record_throw : Job → Action (Unit {0})
record_throw j = do
  time ← date_now
  modify (λ w. record w {
    jobs =
        update_one (λ k. k.id == j.id)
          (λ k. record k { history = j.history ++ record { time = time; status = failed } ∷ [] })
          w.jobs;
  })

-- The body of `if (job)` in `checkForJobs`, for a given executor.
unfoldable pub run_job :
    (Job → Action (Option JobActionReturn)) → JobSchedulerConfig → Job → Action (Unit {0})
run_job execute c j = try_catch (execute j >>= record_result c j) (record_throw j)

-- `checkForJobs`
unfoldable pub check_for_jobs :
    (Job → Action (Option JobActionReturn)) → JobSchedulerConfig → Action (Unit {0})
check_for_jobs execute c = do
  job ← find_next_job c
  elim job [ none ↦ pure tt | some j ↦ run_job execute c j ]
