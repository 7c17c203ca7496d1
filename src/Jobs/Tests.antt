-- ===== src/Jobs/Tests.antt =====
-- Runs of the job service on a small job table, and the theorems about it at these inputs.
use mathlib.Core.Option
use meshonator.Base.{
  ℕ, ◌≡◌, ◌⊎◌, refl, true, none, some, [], ◌∷◌, ◌++◌, map, arith, count_by, filter_by,
  if◌then◌else◌, nat_eq, string_eq, ◌==◌, String,
}
use meshonator.Base.Sort.{sort_by, insert_by}
use meshonator.Json.{end}
use meshonator.Db.{
  Uuid, Status, pending, running, success, JobModel, Db, empty_db, status_eq, minutes,
}
use meshonator.Db.Session.{Session, ok}
use meshonator.Jobs.{
  find_job, claim_next_pending_id, claim_first, try_claim, recover_rows, recover_stale_running_jobs,
}
use meshonator.Jobs.Heartbeat.{
  Beat, touch_worker_heartbeat, find_worker, beaten, touch_worker_heartbeat_lem,
}
use meshonator.Jobs.Claim.{
  DistinctJobs, Oldest, is_pending, claimed_session, after_claim, claim_next_pending_id_lem,
}
use meshonator.Jobs.Race.{Run, stop, wins, loses, Supplied}
use meshonator.Jobs.Race.Once.{EachOnce, won_once}
use meshonator.Jobs.Recover.{mark, is_recovered, recovered_session, recover_stale_running_jobs_lem}

abbrev job : Uuid → Status → ℕ → JobModel
job id status created_at = record {
  id = id;
  job_type = "sync_all";
  status = status;
  requested_by = "admin";
  source = "ui";
  payload = end;
  started_at = none;
  finished_at = none;
  created_at = created_at;
}

abbrev some_jobs : Db
some_jobs = record empty_db {
  jobs = job 1 success 10 ∷ job 2 pending 40 ∷ job 3 pending 30 ∷ job 4 running 5 ∷ [];
  next_id = 5;
}

abbrev session : Session (Unit {0})
session = record {
  db = some_jobs;
  committed = some_jobs;
  clock = λ n. minutes 20;
  reads = 0;
  net = tt;
}

some_jobs-Distinct : DistinctJobs some_jobs
some_jobs-Distinct = omega arith

claim_run : (claim_next_pending_id session).0 ≡ ok (some 3)
unfolding claim_next_pending_id claim_first try_claim sort_by insert_by status_eq nat_eq
claim_run = refl

claim_next_pending_id_lem_example :
    ((claim_next_pending_id session ≡ (ok none, session))
      × (filter_by is_pending session.db.jobs ≡ []))
    ⊎ ((j : JobModel) × Oldest session.db j
        × (claim_next_pending_id session ≡ (ok (some j.id), claimed_session session j.id))
        × (find_job j.id session.db ≡ some j)
        × ((k : Uuid)
            → find_job k (claimed_session session j.id).db
              ≡ after_claim j.id (session.clock session.reads) (find_job k session.db)))
claim_next_pending_id_lem_example = claim_next_pending_id_lem session some_jobs-Distinct

recover_run : (recover_stale_running_jobs (some 15) true session).0 ≡ ok 3
unfolding recover_stale_running_jobs recover_rows status_eq
recover_run = refl

recover_stale_running_jobs_lem_example :
    ((recover_stale_running_jobs (some 15) true session).0
      ≡ ok (count_by (is_recovered (some 15) true (minutes 20)) some_jobs.jobs))
    × ((k : Uuid)
        → find_job k (recovered_session (some 15) true session).db
          ≡ Option.map
              (λ j. if is_recovered (some 15) true (minutes 20) j then mark (minutes 20) j else j)
              (find_job k some_jobs))
    × (map (λ r. r.job_id) (recovered_session (some 15) true session).db.results
        ≡ map (λ r. r.job_id) some_jobs.results
          ++ map (λ j. j.id) (filter_by (is_recovered (some 15) true (minutes 20)) some_jobs.jobs))
recover_stale_running_jobs_lem_example =
    recover_stale_running_jobs_lem (some 15) true session some_jobs-Distinct

abbrev alive : Beat
alive = record {
  worker_id = "w1";
  mode = "external";
  host = "h";
  pid = 7;
  status = "idle";
  last_claimed_job_id = some 3;
  last_completed_job_id = none;
  processed_jobs = some 1;
  details = none;
}

touch_worker_heartbeat_lem_example :
    ((touch_worker_heartbeat alive session).0 ≡ ok tt)
    × ((touch_worker_heartbeat alive session).1.committed
        ≡ (touch_worker_heartbeat alive session).1.db)
    × (find_worker "w2" (touch_worker_heartbeat alive session).1.db ≡ (
        if ◌==◌ {A = String} "w2" "w1"
        then some (beaten alive (minutes 20) (find_worker "w1" some_jobs))
        else find_worker "w2" some_jobs))
touch_worker_heartbeat_lem_example = touch_worker_heartbeat_lem alive session "w2"

-- a worker wins job 3, another one loses it and wins job 2
abbrev after_first : Session (Unit {0})
after_first = (try_claim 3 (minutes 20) session).1

abbrev after_second : Session (Unit {0})
after_second = (try_claim 3 (minutes 20) after_first).1

race : Run session (3 ∷ 2 ∷ []) (try_claim 2 (minutes 21) after_second).1
unfolding try_claim status_eq nat_eq
race = wins 3 (minutes 20) session refl (
    loses 3 (minutes 20) after_first (λ e. ground (arith, e))
      (wins 2 (minutes 21) after_second refl (stop (try_claim 2 (minutes 21) after_second).1)))

supplied : Supplied some_jobs
supplied = (omega arith, (omega arith, (omega arith, (omega arith, tt))))

won_once_example : EachOnce (3 ∷ 2 ∷ [])
won_once_example = won_once supplied race
