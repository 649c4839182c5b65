-- ===== src/Jobs/Tests.antt =====
-- Tests of jobCore.ts and poller.ts, and their theorems at concrete inputs.
use dmp.Base.{◌≡◌, refl, true, false, Option, none, some, [], ◌∷◌, map, eq_iff}
use dmp.Model.Types.{Job, pending, error, JobSchedulerConfig, JobActionReturn}
use dmp.Model.World.{World}
use dmp.Model.Action.{Action, ok, ◌>>=◌, try_catch}
use dmp.Model.Collection.{born}
use dmp.Model.Collection.Distinct.{Distinct}
use dmp.Samples.{empty_world}
use dmp.Jobs.{check_for_jobs, find_next_job, available, reserve, run_job, record_result}
use dmp.Jobs.Recorded.{Recorded}
use dmp.Jobs.Next.{Next}
use dmp.Jobs.Once.{NotAgain, find_next_job-run_job}

abbrev one_off : Job
one_off = record {
  id = "a";
  name = "import";
  next_execution_time = 1;
  period = none;
  priority = 2;
  history = [];
  counter = 0;
  status = pending;
  life = born 1 "root";
}

abbrev hourly : Job
hourly = record one_off { id = "b"; name = "monitor"; period = some 60; priority = 1 }

abbrev urgent : Job
urgent = record one_off { id = "c"; name = "later"; priority = 5; next_execution_time = 900 }

abbrev settings : JobSchedulerConfig
settings = record {
  use_priority = true;
  re_execute_failed_jobs = true;
  failed_job_delay_time = 600;
  max_attempts = 10;
}

abbrev job_world : World
job_world = record empty_world { jobs = one_off ∷ hourly ∷ urgent ∷ [] }

abbrev fails : Job → Action (Option JobActionReturn)
fails j w = (ok (some (record { successful = false })), w)

-- The job of the highest priority is not due, so the import runs, and fails.
first_poll :
    map (λ j. j.status) (check_for_jobs fails settings job_world).1.jobs
    ≡ error ∷ pending ∷ pending ∷ []
unfolding check_for_jobs find_next_job available reserve run_job record_result try_catch ◌>>=◌
first_poll = refl

-- The next poll runs the monitor, and a third runs it again although its next time has not come.
third_poll :
    map
      (λ j. j.counter)
      (check_for_jobs fails settings
        (check_for_jobs fails settings (check_for_jobs fails settings job_world).1).1).1.jobs
    ≡ 1 ∷ 2 ∷ 0 ∷ []
unfolding check_for_jobs find_next_job available reserve run_job record_result try_catch ◌>>=◌
third_poll = refl

abbrev IdsDiffer : Type 0
IdsDiffer = Distinct (λ j. j.id) job_world.jobs

ids_differ : IdsDiffer
ids_differ = (
  (λ e. cc ((eq_iff "a" "b").1 e), (λ e. cc ((eq_iff "a" "c").1 e), tt)),
  ((λ e. cc ((eq_iff "b" "c").1 e), tt), (tt, tt)),
)

find_next_job-run_job_example :
    NotAgain "a" (find_next_job settings (run_job fails settings one_off job_world).1)
find_next_job-run_job_example =
    find_next_job-run_job fails settings one_off job_world ids_differ refl
      (record { successful = false }) refl
