-- ===== src/Jobs.antt =====
-- jobs/service.py: `JobsService`, each method as an action on the session.
pub mod Claim
pub mod Recover
pub mod Keeps
pub mod Race
pub mod Heartbeat
mod Tests
use meshonator.Base.{
  ℕ, zero, suc, ◌+◌, ◌-◌, ◌*◌, ◌≡◌, String, Bool, true, false, ◌&&◌, ◌||◌, not, Option, none, some,
  List, [], ◌∷◌, ◌++◌, map, ◌==◌, if◌then◌else◌, leb, ltb, nat_eq, string_eq, find?, filter_by,
  update_where, take, count_by,
}
use meshonator.Base.Int.{pos}
use meshonator.Base.Sort.{sort_by}
use meshonator.Json.{Value, null, int, str, Fields, end, field}
use meshonator.Db.{
  Uuid, Time, minutes, Status, pending, running, success, failed, status_eq, JobModel, Message,
  text, JobResultModel, WorkerHeartbeatModel, Db,
}
use meshonator.Db.Session.{
  Exn, value_error, Session, Exec, pure, raise, gets, or_raise, ◌>>=◌, ◌>>◌, modify, commit, now,
  new_id,
}

-- `db.get(JobModel, job_id)`
abbrev pub find_job : Uuid → Db → Option JobModel
find_job job_id db = find? (λ j. j.id == job_id) db.jobs

-- a change of one loaded row
abbrev set_job : Uuid → (JobModel → JobModel) → Db → Db
set_job job_id f db = record db { jobs = update_where (λ j. j.id == job_id) f db.jobs }

abbrev add_job : JobModel → Db → Db
add_job job db = record db { jobs = db.jobs ++ job ∷ [] }

abbrev add_result_row : JobResultModel → Db → Db
add_result_row row db = record db { results = db.results ++ row ∷ [] }

-- the rows that the UPDATE of a claim matches, and what it writes
abbrev pub is_candidate : Uuid → JobModel → Bool
is_candidate candidate_id j = j.id == candidate_id && j.status == pending

abbrev pub claimed : Time → JobModel → JobModel
claimed started j = record j { status = running; started_at = some started }

-- `SELECT id … WHERE status = 'pending' ORDER BY created_at ASC LIMIT 20`
unfoldable pub pending_ids : Db → List Uuid
pending_ids db =
    map (λ j. j.id)
      (take 20 (
        sort_by (λ a b. leb a.created_at b.created_at)
          (filter_by (λ j. j.status == pending) db.jobs)))

-- `status IN ('running', 'pending')`, or `status IN ('running')`
unfoldable pub recoverable : Bool → JobModel → Bool
recoverable include_pending j = j.status == running || (include_pending && j.status == pending)

-- `started_at or created_at`
abbrev anchor : JobModel → Time
anchor job = elim job.started_at [ none ↦ job.created_at | some t ↦ t ]

-- not `anchor.timestamp() >= cutoff`, with `cutoff = now - stale_after_minutes * 60`
unfoldable pub is_stale : Option ℕ → Time → JobModel → Bool
is_stale none at job = true
is_stale (some m) at job = ltb (anchor job + minutes m) at

unfoldable pub recovery_row : Option ℕ → Uuid → Uuid → JobResultModel
recovery_row stale_after job_id id = record {
  id = id;
  job_id = job_id;
  node_id = none;
  status = failed;
  message = text "Recovered stale job during startup";
  details =
      field "reason"
        (str (elim stale_after [ none ↦ "startup_orphan_recovery" | some m ↦ "stale_recovery" ]))
        (field "stale_after_minutes" (elim stale_after [ none ↦ null | some m ↦ int (pos m) ]) end);
}

module _ {N : Type 0} where
  unfoldable pub create : String → String → String → Fields → Exec N JobModel
  create job_type requested_by source payload = do
    id ← new_id
    created_at ← now
    let job : JobModel = record {
      id = id;
      job_type = job_type;
      status = pending;
      requested_by = requested_by;
      source = source;
      payload = payload;
      started_at = none;
      finished_at = none;
      created_at = created_at;
    }
    modify (add_job job)
    commit
    pure job

  unfoldable pub start : Uuid → Exec N (Unit {0})
  start job_id = do
    found ← gets (find_job job_id)
    or_raise found (value_error "Job not found")
    started ← now
    modify (set_job job_id (λ j. record j { status = running; started_at = some started }))
    commit

  unfoldable pub finish : Uuid → Bool → Exec N (Unit {0})
  finish job_id succeeded = do
    found ← gets (find_job job_id)
    or_raise found (value_error "Job not found")
    finished ← now
    modify (
        set_job job_id (λ j. record j {
          status = if succeeded then success else failed;
          finished_at = some finished;
        }))
    commit

  unfoldable pub add_result : Uuid → Status → Option Uuid → Message → Fields → Exec N (Unit {0})
  add_result job_id status node_id message details = do
    id ← new_id
    modify (
        add_result_row (record {
          id = id;
          job_id = job_id;
          node_id = node_id;
          status = status;
          message = message;
          details = details;
        }))
    commit

  -- `ORDER BY created_at DESC LIMIT n`
  unfoldable list_jobs : ℕ → Exec N (List JobModel)
  list_jobs limit = gets (λ db. take limit (sort_by (λ a b. leb b.created_at a.created_at) db.jobs))

  -- `UPDATE jobs SET status = 'running' WHERE id = c AND status = 'pending'`, with its row count
  unfoldable pub try_claim : Uuid → Time → Exec N ℕ
  try_claim candidate_id started = do
    rowcount ← gets (λ db. count_by (is_candidate candidate_id) db.jobs)
    modify (λ db. record db {
      jobs = update_where (is_candidate candidate_id) (claimed started) db.jobs;
    })
    commit
    pure rowcount

  -- the loop over the candidates
  unfoldable pub claim_first : List Uuid → Exec N (Option Uuid)
  claim_first [] = pure none
  claim_first (candidate_id ∷ rest) = do
    started ← now
    rowcount ← try_claim candidate_id started
    if rowcount == 1 then pure (some candidate_id) else claim_first rest

  unfoldable pub claim_next_pending_id : Exec N (Option Uuid)
  unfolding pending_ids
  claim_next_pending_id = do candidate_ids ← gets pending_ids; claim_first candidate_ids

  -- the loop over the rows; the count of those that were recovered
  unfoldable pub recover_rows : Option ℕ → Time → List JobModel → Exec N ℕ
  unfolding is_stale recovery_row
  recover_rows stale_after at [] = pure 0
  recover_rows stale_after at (job ∷ rows) =
      if is_stale stale_after at job
      then (do
        modify (set_job job.id (λ j. record j { status = failed; finished_at = some at }))
        id ← new_id
        modify (add_result_row (recovery_row stale_after job.id id))
        recovered ← recover_rows stale_after at rows
        pure (recovered + 1))
      else recover_rows stale_after at rows

  unfoldable pub recover_stale_running_jobs : Option ℕ → Bool → Exec N ℕ
  unfolding recoverable
  recover_stale_running_jobs stale_after include_pending = do
    at ← now
    rows ← gets (λ db. filter_by (recoverable include_pending) db.jobs)
    recovered ← recover_rows stale_after at rows
    if leb 1 recovered then commit else pure tt
    pure recovered
