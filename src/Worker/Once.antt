-- ===== src/Worker/Once.antt =====
-- A worker started with `once`: it handles at most one job, stops, and reports so.
use meshonator.Base.{
  ℕ, suc, ◌+◌, ◌≡◌, ◌⊎◌, true, Option, none, some, string_eq, nat_eq, update_where,
}
use meshonator.Db.{Db, Uuid, WorkerHeartbeatModel}
use meshonator.Db.Session.{Session, Exec, ok, with_session}
use meshonator.Jobs.{claim_next_pending_id, is_candidate, claimed}
use meshonator.Jobs.Heartbeat.{find_worker, touch_worker_heartbeat}
use meshonator.Worker.{Identity, beat, after_claim, loop, run_worker_loop}

module _ {N : Type 0} where
  abbrev tried : Uuid → Session N → Session N
  tried id s =
      let db : Db = record s.db {
        jobs = update_where (is_candidate id) (claimed (s.clock s.reads)) s.db.jobs;
      } in
      record s { db = db; committed = db; reads = s.reads + 1 }

module _ {N : Type 0} (run_job : Uuid → Exec N (Unit {0})) (w : Identity) where
  -- the worker's row says that it is idle after `n` jobs
  abbrev pub IdleAfter : ℕ → Session N → Type 0
  IdleAfter n s =
      (row : WorkerHeartbeatModel) × (find_worker w.worker_id s.db ≡ some row)
      × (row.status ≡ "idle")
      × (row.processed_jobs ≡ n)

  -- the state in which the loop begins
  abbrev pub started : Session N → Session N
  started s =
      (with_session (touch_worker_heartbeat (beat w "running" none none 0 (some w.start_details)))
        s).1

  module _ (returns : (id : Uuid) (s : Session N) → (run_job id s).0 ≡ ok tt) where
    abbrev Outcome : ℕ → Session N → Type 0
    Outcome rounds s =
        (n : ℕ) × ((run_worker_loop run_job w (suc rounds) true s).0 ≡ ok (some n))
        × IdleAfter n (run_worker_loop run_job w (suc rounds) true s).1
        × ((((claim_next_pending_id (started s)).0 ≡ ok none) × (n ≡ 0))
            ⊎ ((id : Uuid) × ((claim_next_pending_id (started s)).0 ≡ ok (some id)) × (n ≡ 1)))

    abbrev next : ℕ → Option Uuid → Exec N (Option ℕ)
    next rounds =
        after_claim run_job w true 0 none (λ s. loop run_job w rounds true 0 none s)
          (λ id s. loop run_job w rounds true (0 + 1) (some id) s)
