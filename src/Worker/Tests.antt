-- ===== src/Worker/Tests.antt =====
-- A worker with `once` on a table of one pending job, whose run marks the job as done.
use meshonator.Base.{none, [], ◌∷◌, ◌==◌, nat_eq, update_where}
use meshonator.Json.{end}
use meshonator.Db.{Uuid, pending, success, Db, empty_db, minutes}
use meshonator.Db.Session.{Session, Exec, ◌>>◌, modify, commit}
use meshonator.Worker.{Identity}

abbrev one_job : Db
one_job = record empty_db {
  jobs =
      (record {
        id = 1;
        job_type = "sync_all";
        status = pending;
        requested_by = "admin";
        source = "ui";
        payload = end;
        started_at = none;
        finished_at = none;
        created_at = 3;
      })
      ∷ [];
  next_id = 2;
}

abbrev one_job_session : Session (Unit {0})
one_job_session = record { db = one_job; committed = one_job; clock = minutes; reads = 0; net = tt }

abbrev mark_done : Uuid → Exec (Unit {0}) (Unit {0})
mark_done id = do
  modify (λ db. record db {
    jobs = update_where (λ j. j.id == id) (λ j. record j { status = success }) db.jobs;
  })
  commit

abbrev worker : Identity
worker = record { worker_id = "w1"; host = "h"; pid = 7; start_details = end }
