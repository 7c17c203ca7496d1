-- ===== src/Worker.antt =====
-- jobs/worker.py: `run_worker_loop`. `run_job` is a parameter, since the loop only calls it. The
-- loop of a worker without `once` never ends, so `loop` takes the number of rounds that are looked
-- at: `none` means that the worker is still at work after them. `time.sleep` changes no state.
pub mod Once
mod Tests
use meshonator.Base.{ℕ, zero, suc, ◌+◌, String, Bool, true, false, Option, none, some}
use meshonator.Json.{Fields}
use meshonator.Db.{Uuid}
use meshonator.Db.Session.{Exec, pure, ◌>>=◌, ◌>>◌, with_session}
use meshonator.Jobs.{claim_next_pending_id}
use meshonator.Jobs.Heartbeat.{Beat, touch_worker_heartbeat}

-- what the worker knows of itself
pub record Identity : Type 0 where
  pub worker_id : String
  pub host : String
  pub pid : ℕ
  pub start_details : Fields

abbrev pub beat : Identity → String → Option Uuid → Option Uuid → ℕ → Option Fields → Beat
beat w status claimed completed processed details = record {
  worker_id = w.worker_id;
  mode = "external";
  host = w.host;
  pid = w.pid;
  status = status;
  last_claimed_job_id = claimed;
  last_completed_job_id = completed;
  processed_jobs = some processed;
  details = details;
}

module _ {N : Type 0} (run_job : Uuid → Exec N (Unit {0})) (w : Identity) where
  -- the first part of a round: claim a job and report
  unfoldable pub claim_round : ℕ → Option Uuid → Exec N (Option Uuid)
  claim_round processed last_claimed = with_session (do
    job_id ← claim_next_pending_id
    touch_worker_heartbeat (beat w "running" last_claimed none processed none)
    pure job_id)

  -- the second part, when a job was claimed
  unfoldable pub work : ℕ → Uuid → Exec N (Unit {0})
  work processed job_id = do
    run_job job_id
    with_session
        (touch_worker_heartbeat (beat w "running" (some job_id) (some job_id) (processed + 1) none))

  unfoldable pub report_idle : ℕ → Option Uuid → Option Uuid → Exec N (Unit {0})
  report_idle processed claimed completed =
      with_session (touch_worker_heartbeat (beat w "idle" claimed completed processed none))

  -- `if once: …; return processed`, or the rounds that follow
  unfoldable pub stop_or :
      Bool → ℕ → Option Uuid → Option Uuid → Exec N (Option ℕ) → Exec N (Option ℕ)
  stop_or true processed claimed completed rest = do
    report_idle processed claimed completed
    pure (some processed)
  stop_or false processed claimed completed rest = rest

  -- what follows the claim; `idle` and `busy` are the rounds that follow
  unfoldable pub after_claim :
      Bool
      → ℕ
      → Option Uuid
      → Exec N (Option ℕ)
      → (Uuid → Exec N (Option ℕ))
      → Option Uuid
      → Exec N (Option ℕ)
  after_claim once processed last_claimed idle busy none =
      stop_or once processed last_claimed none idle
  after_claim once processed last_claimed idle busy (some id) = do
    work processed id
    stop_or once (processed + 1) (some id) (some id) (busy id)

  unfoldable pub loop : ℕ → Bool → ℕ → Option Uuid → Exec N (Option ℕ)
  loop zero once processed last_claimed = pure none
  loop (suc rounds) once processed last_claimed = do
    job_id ← claim_round processed last_claimed
    after_claim once processed last_claimed (λ s. loop rounds once processed last_claimed s)
        (λ id s. loop rounds once (processed + 1) (some id) s) job_id

  unfoldable pub run_worker_loop : ℕ → Bool → Exec N (Option ℕ)
  run_worker_loop rounds once = do
    with_session (touch_worker_heartbeat (beat w "running" none none 0 (some w.start_details)))
    loop rounds once 0 none
