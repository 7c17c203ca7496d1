-- ===== src/Queue/Bulk.antt =====
-- jobs/queue.py: `_run_bulk_nodedb_job`, which changes the node databases of several radios and may
-- sync all endpoints after it.
use meshonator.Base.{
  ℕ, String, Bool, true, false, not, ◌&&◌, Option, none, some, List, [], ◌∷◌, ◌==◌, if◌then◌else◌,
  nat_eq, string_eq, length, filter_by, count_by, leb,
}
use meshonator.Base.Int.{pos}
use meshonator.Base.Text.{strip, is_empty}
use meshonator.Json.{Items, bool, int, str, arr, obj, nil, cons, end, field, get, list_or_empty}
use meshonator.Db.{
  Uuid, success, failed, JobModel, ManagedNodeModel, text, nodedb_result, sync_result,
}
use meshonator.Db.Session.{
  value_error, exn_text, Exec, pure, gets, or_raise, ◌>>=◌, ◌>>◌, rollback, catch,
}
use meshonator.Jobs.{add_result}
use meshonator.Operations.{find_node}
use meshonator.Operations.NodeDb.{result_fields, applied_count, failed_count, mutate_node_db}
use meshonator.Providers.{Registry}
use meshonator.Queue.{
  External, flag, or_value, clean_targets, nonempty_items, nonempty_list, nonempty_text, status_of,
  returned, attempt, with_job, job_entry, sync_failures, closing,
}
use meshonator.Sync.{sync_items, sync_all}

-- what the job asks for
pub record Request : Type 0 where
  pub action : String
  pub targets : List String
  pub dry_run : Bool
  pub exclude_self : Bool

-- the targets without the destination itself
unfoldable pub targets_for : Request → ManagedNodeModel → List String
targets_for q destination =
    if q.exclude_self && not (is_empty destination.provider_node_id)
    then filter_by (λ item. not (item == destination.provider_node_id)) q.targets
    else q.targets

module _ {N C : Type 0} (registry : Registry N C) (ext : External) where
  -- `[UUID(item) for item in destination_node_ids]`
  unfoldable pub parse_ids : Items → Exec N (List Uuid)
  parse_ids nil = pure []
  parse_ids (cons item rest) = do
    id ← returned (ext.uuid_of item)
    ids ← parse_ids rest
    pure (id ∷ ids)

  abbrev pub mutate_targets : Uuid → JobModel → Request → Uuid → Option (List String) → Exec N Bool
  mutate_targets job_id job q destination_id none = do
    add_result job_id success (some destination_id)
        (text "Skipped: no remaining targets after self exclusion") end
    pure true
  mutate_targets job_id job q destination_id (some targets) =
      catch
        (do
          result ←
              mutate_node_db registry destination_id q.action targets job.requested_by job.source
                q.dry_run
          let done : Bool = failed_count result.answers == 0
          add_result job_id (status_of done) (some destination_id)
              (nodedb_result q.action (applied_count result.answers) (failed_count result.answers))
              (field "result" (obj (result_fields result)) end)
          pure done)
        (λ x. do
          rollback
          add_result job_id failed (some destination_id) (text (exn_text x)) end
          pure false)

  abbrev pub mutate_found : Uuid → JobModel → Request → Uuid → Option ManagedNodeModel → Exec N Bool
  mutate_found job_id job q destination_id none = do
    add_result job_id failed (some destination_id) (text "Destination node not found") end
    pure false
  mutate_found job_id job q destination_id (some destination) =
      mutate_targets job_id job q destination_id (nonempty_list (targets_for q destination))

  -- one round of the loop over the destinations: whether it was a success
  unfoldable pub mutate_destination : Uuid → JobModel → Request → Uuid → Exec N Bool
  mutate_destination job_id job q destination_id =
      gets (find_node destination_id) >>= λ destination.
      mutate_found job_id job q destination_id destination

  unfoldable pub mutate_destinations : Uuid → JobModel → Request → List Uuid → Exec N (List Bool)
  mutate_destinations job_id job q [] = pure []
  mutate_destinations job_id job q (destination_id ∷ rest) = do
    first ← mutate_destination job_id job q destination_id
    others ← mutate_destinations job_id job q rest
    pure (first ∷ others)

  -- the number of endpoints that the sync afterwards failed on
  unfoldable pub sync_after : Uuid → Bool → Exec N ℕ
  sync_after job_id false = pure 0
  sync_after job_id true = do
    sync_results ← sync_all registry ext.version_hash ext.isoformat true
    let failures : ℕ = length (sync_failures registry ext sync_results)
    add_result job_id (status_of (failures == 0)) none
        (sync_result "Auto-sync after favorite refresh" (length sync_results) failures)
        (field "sync_results" (arr (sync_items sync_results)) end)
    pure failures

  -- the body of the `try`
  unfoldable pub mutate_all : Uuid → JobModel → Exec N (Unit {0})
  mutate_all job_id job = do
    action ←
        or_raise (nonempty_text (strip (ext.str_of (or_value (get "action" job.payload) (str "")))))
          (value_error "Missing action")
    chosen ←
        or_raise (nonempty_items (list_or_empty (get "destination_node_ids" job.payload)))
          (value_error "No destination nodes selected")
    selected ←
        or_raise (nonempty_items (list_or_empty (get "target_node_ids" job.payload)))
          (value_error "No target nodes selected")
    destinations ← parse_ids chosen
    targets ←
        or_raise (nonempty_list (clean_targets selected))
          (value_error "No valid target node IDs provided")
    let q : Request = record {
      action = action;
      targets = targets;
      dry_run = flag "dry_run" true job.payload;
      exclude_self = flag "exclude_self" true job.payload;
    }
    outcomes ← mutate_destinations job_id job q destinations
    let successes : ℕ = count_by (λ b. b) outcomes
    let failures : ℕ = count_by (λ b. not b) outcomes
    sync_failed ←
        sync_after job_id
          (flag "refresh_mode" false job.payload && not q.dry_run && leb 1 successes)
    closing job_id (failures == 0 && sync_failed == 0) (λ at.
        (job_entry registry ext job "node.nodedb.bulk.queued" (
          field "dry_run" (bool q.dry_run) (
            field "action" (str action) (
              field "destination_count" (int (pos (length destinations))) (
                field "target_count" (int (pos (length targets))) (
                  field "exclude_self" (bool q.exclude_self) (
                    field "success_count" (int (pos successes)) (
                      field "fail_count" (int (pos failures)) (
                        field "auto_sync_fail_count" (int (pos sync_failed))
                          (field "completed_at" (str (ext.isoformat at)) end)))))))))))

  unfoldable pub run_bulk_nodedb_job : Uuid → Exec N (Unit {0})
  run_bulk_nodedb_job job_id = with_job job_id (λ job. attempt job_id (mutate_all job_id job))
