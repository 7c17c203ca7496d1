-- ===== src/Jobs/Heartbeat.antt =====
-- `JobsService.touch_worker_heartbeat` and `get_latest_worker_heartbeat`.
use meshonator.Base.{
  ℕ, ◌≡◌, refl, true, String, Option, none, some, List, [], ◌∷◌, ◌++◌, arith, ◌==◌, if◌then◌else◌,
  leb, string_eq, ==_refl, find?, update_where,
}
use meshonator.Base.Sort.{sort_by}
use meshonator.Json.{Fields, end}
use meshonator.Db.{Uuid, Time, WorkerHeartbeatModel, Db}
use meshonator.Db.Session.{Session, Exec, ok, gets, ◌>>=◌, ◌>>◌, modify, commit, now}

-- the arguments of the method
pub record Beat : Type 0 where
  pub worker_id : String
  pub mode : String
  pub host : String
  pub pid : ℕ
  pub status : String
  pub last_claimed_job_id : Option Uuid
  pub last_completed_job_id : Option Uuid
  pub processed_jobs : Option ℕ
  pub details : Option Fields

-- `new if new is not None else old`
abbrev given_or : {A : Type 0} → Option A → A → A
given_or none old = old
given_or (some new) old = new

abbrev given_or_kept : {A : Type 0} → Option A → Option A → Option A
given_or_kept none old = old
given_or_kept (some new) old = some new

-- the row that is added for a worker without one
unfoldable pub new_row : Beat → Time → WorkerHeartbeatModel
new_row b at = record {
  worker_id = b.worker_id;
  mode = b.mode;
  host = b.host;
  pid = b.pid;
  status = b.status;
  started_at = at;
  last_heartbeat_at = at;
  last_claimed_job_id = b.last_claimed_job_id;
  last_completed_job_id = b.last_completed_job_id;
  processed_jobs = given_or b.processed_jobs 0;
  details = given_or b.details end;
}

-- what is written into the row that is there
unfoldable pub touch_row : Beat → Time → WorkerHeartbeatModel → WorkerHeartbeatModel
touch_row b at row = record row {
  mode = b.mode;
  host = b.host;
  pid = b.pid;
  status = b.status;
  last_heartbeat_at = at;
  last_claimed_job_id = given_or_kept b.last_claimed_job_id row.last_claimed_job_id;
  last_completed_job_id = given_or_kept b.last_completed_job_id row.last_completed_job_id;
  processed_jobs = given_or b.processed_jobs row.processed_jobs;
  details = given_or b.details row.details;
}

-- `db.get(WorkerHeartbeatModel, worker_id)`
abbrev pub find_worker : String → Db → Option WorkerHeartbeatModel
find_worker w db = find? (λ r. r.worker_id == w) db.heartbeats

abbrev write_beat : Beat → Time → Option WorkerHeartbeatModel → Db → Db
write_beat b at none db = record db { heartbeats = db.heartbeats ++ new_row b at ∷ [] }
write_beat b at (some row) db = record db {
  heartbeats = update_where (λ r. r.worker_id == b.worker_id) (touch_row b at) db.heartbeats;
}

module _ {N : Type 0} where
  unfoldable pub touch_worker_heartbeat : Beat → Exec N (Unit {0})
  touch_worker_heartbeat b = do
    at ← now
    row ← gets (find_worker b.worker_id)
    modify (write_beat b at row)
    commit

  -- `ORDER BY last_heartbeat_at DESC LIMIT 1`
  unfoldable get_latest_worker_heartbeat : Exec N (Option WorkerHeartbeatModel)
  get_latest_worker_heartbeat = gets (λ db.
      find? (λ _. true)
        (sort_by (λ a b. leb b.last_heartbeat_at a.last_heartbeat_at) db.heartbeats))

find-append :
    (w : String) (row : WorkerHeartbeatModel) (rows : List WorkerHeartbeatModel)
    → find? (λ r. r.worker_id == w) (rows ++ row ∷ [])
      ≡ (elim (find? (λ r. r.worker_id == w) rows) [
        | none ↦ if row.worker_id == w then some row else none
        | some r ↦ some r
      ])
find-append w row [] = refl
find-append w row (r ∷ rows) = ground (arith, find-append w row rows)

find-touched :
    (w : String) (b : Beat) (at : Time) (rows : List WorkerHeartbeatModel)
    → find?
        (λ r. r.worker_id == w)
        (update_where (λ r. r.worker_id == b.worker_id) (touch_row b at) rows)
      ≡ (elim (find? (λ r. r.worker_id == w) rows) [
        | none ↦ none
        | some r ↦ some (if w == b.worker_id then touch_row b at r else r)
      ])
unfolding touch_row
find-touched w b at [] = refl
find-touched w b at (r ∷ rows) = ground (arith, find-touched w b at rows)

-- a worker's row after a heartbeat, from the row before it
abbrev pub beaten : Beat → Time → Option WorkerHeartbeatModel → WorkerHeartbeatModel
beaten b at none = record {
  worker_id = b.worker_id;
  mode = b.mode;
  host = b.host;
  pid = b.pid;
  status = b.status;
  started_at = at;
  last_heartbeat_at = at;
  last_claimed_job_id = b.last_claimed_job_id;
  last_completed_job_id = b.last_completed_job_id;
  processed_jobs = elim b.processed_jobs [ none ↦ 0 | some n ↦ n ];
  details = elim b.details [ none ↦ end | some d ↦ d ];
}
beaten b at (some row) = record {
  worker_id = row.worker_id;
  mode = b.mode;
  host = b.host;
  pid = b.pid;
  status = b.status;
  started_at = row.started_at;
  last_heartbeat_at = at;
  last_claimed_job_id = elim b.last_claimed_job_id [
    | none ↦ row.last_claimed_job_id
    | some id ↦ some id
  ];
  last_completed_job_id = elim b.last_completed_job_id [
    | none ↦ row.last_completed_job_id
    | some id ↦ some id
  ];
  processed_jobs = elim b.processed_jobs [ none ↦ row.processed_jobs | some n ↦ n ];
  details = elim b.details [ none ↦ row.details | some d ↦ d ];
}

given_or_lem :
    {A : Type 0} (o : Option A) (a : A) → given_or o a ≡ (elim o [ none ↦ a | some x ↦ x ])
given_or_lem none a = refl
given_or_lem (some x) a = refl

given_or_kept_lem :
    {A : Type 0} (o p : Option A) → given_or_kept o p ≡ (elim o [ none ↦ p | some x ↦ some x ])
given_or_kept_lem none p = refl
given_or_kept_lem (some x) p = refl

new_row_lem : (b : Beat) (at : Time) → new_row b at ≡ beaten b at none
unfolding new_row
new_row_lem b at = rw (given_or_lem b.processed_jobs 0, given_or_lem b.details end) refl

touch_row_lem :
    (b : Beat) (at : Time) (row : WorkerHeartbeatModel)
    → touch_row b at row ≡ beaten b at (some row)
unfolding touch_row
touch_row_lem b at row =
    rw
      (
        given_or_kept_lem b.last_claimed_job_id row.last_claimed_job_id,
        given_or_kept_lem b.last_completed_job_id row.last_completed_job_id,
        given_or_lem b.processed_jobs row.processed_jobs,
        given_or_lem b.details row.details,
      )
      refl

find-write_beat :
    (w : String) (b : Beat) (at : Time) (db : Db) (o : Option WorkerHeartbeatModel)
    → find_worker b.worker_id db ≡ o
    → find_worker w (write_beat b at o db)
      ≡ (if w == b.worker_id then some (beaten b at o) else find_worker w db)
unfolding new_row
find-write_beat w b at db none h = elim (string_eq.dec w b.worker_id) [
  | yes p ↦
      rw (p, find-append b.worker_id (new_row b at) db.heartbeats, h)
        (ground (arith, new_row_lem b at))
  | no p ↦ ground (arith, find-append w (new_row b at) db.heartbeats)
]
find-write_beat w b at db (some row) h = elim (string_eq.dec w b.worker_id) [
  | yes p ↦
      rw (p, find-touched b.worker_id b at db.heartbeats, h)
        (ground (arith, ==_refl b.worker_id, touch_row_lem b at row))
  | no p ↦ ground (arith, find-touched w b at db.heartbeats)
]

-- A heartbeat never fails, is committed, and leaves the rows of all other workers as they were. The
-- row of its worker is a new one with the values of the beat, started at its time, or the old one with
-- the beat's mode, host, pid, status and time, and with those of its job ids, its count of jobs and
-- its details that it gives.
pub touch_worker_heartbeat_lem :
    {N : Type 0} (b : Beat) (s : Session N) (w : String)
    → ((touch_worker_heartbeat b s).0 ≡ ok tt)
      × ((touch_worker_heartbeat b s).1.committed ≡ (touch_worker_heartbeat b s).1.db)
      × (find_worker w (touch_worker_heartbeat b s).1.db ≡ (
          if w == b.worker_id
          then some (beaten b (s.clock s.reads) (find_worker b.worker_id s.db))
          else find_worker w s.db))
unfolding touch_worker_heartbeat
touch_worker_heartbeat_lem b s w =
    (refl, refl, find-write_beat w b (s.clock s.reads) s.db (find_worker b.worker_id s.db) refl)
