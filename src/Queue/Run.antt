-- ===== src/Queue/Run.antt =====
-- jobs/queue.py: `run_job`.
use meshonator.Base.{false, String, Option, none, some, ◌==◌, if◌then◌else◌, string_eq}
use meshonator.Json.{end}
use meshonator.Db.{Uuid, failed, JobModel, unsupported_job_type}
use meshonator.Db.Session.{Exec, pure, gets, ◌>>=◌, ◌>>◌, with_session}
use meshonator.Jobs.{find_job, finish, add_result}
use meshonator.Providers.{Registry}
use meshonator.Queue.{
  External, run_sync_job, run_group_patch_job, run_node_patch_job, run_node_nodedb_job,
}
use meshonator.Queue.Multi.{Python}
use meshonator.Queue.Multi.Job.{run_multi_node_patch_job}
use meshonator.Queue.Discover.{Names, run_discovery_job}
use meshonator.Radios.Discover.{Scanner}
use meshonator.Queue.Bulk.{run_bulk_nodedb_job}

module _ {N C : Type 0} (registry : Registry N C) (ext : External) (py : Python) (names : Names)
    (scanners : String → Option (Scanner N)) where
  unfoldable pub run_unsupported : Uuid → String → Exec N (Unit {0})
  run_unsupported job_id job_type =
      with_session
        (do add_result job_id failed none (unsupported_job_type job_type) end; finish job_id false)

  -- the handler for a type of job
  unfoldable pub dispatch : String → Uuid → Exec N (Unit {0})
  dispatch job_type job_id =
      if job_type == "discovery_scan"
      then run_discovery_job registry ext names scanners job_id
      else if job_type == "sync_all"
      then run_sync_job registry ext job_id
      else if job_type == "group_apply_template"
      then run_group_patch_job registry ext job_id
      else if job_type == "node_config_patch"
      then run_node_patch_job registry ext job_id
      else if job_type == "multi_node_config_patch"
      then run_multi_node_patch_job registry ext py job_id
      else if job_type == "node_nodedb_mutation"
      then run_node_nodedb_job registry ext job_id
      else if job_type == "bulk_nodedb_mutation"
      then run_bulk_nodedb_job registry ext job_id
      else run_unsupported job_id job_type

  abbrev dispatch_job : Uuid → Option JobModel → Exec N (Unit {0})
  dispatch_job job_id none = pure tt
  dispatch_job job_id (some job) = dispatch job.job_type job_id

  unfoldable pub run_job : Uuid → Exec N (Unit {0})
  run_job job_id = with_session (gets (find_job job_id)) >>= λ job. dispatch_job job_id job
