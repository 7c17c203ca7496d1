-- ===== src/Queue/Multi/Job.antt =====
-- jobs/queue.py: the loop of `_run_multi_node_patch_job` over the nodes, and the whole job.
use meshonator.Base.{
  ℕ, ◌+◌, Bool, true, false, not, Option, none, some, List, [], ◌∷◌, ◌==◌, nat_eq, string_eq,
  length, count_by,
}
use meshonator.Base.Int.{pos}
use meshonator.Json.{Value, bool, int, str, obj, nil, arr, end, field, get}
use meshonator.Audit.{Entry}
use meshonator.Db.{Uuid, Time, failed, success, JobModel, text}
use meshonator.Db.Session.{
  value_error, exn_text, Exec, pure, or_raise, ◌>>=◌, ◌>>◌, rollback, catch,
}
use meshonator.Jobs.{add_result}
use meshonator.Operations.{apply_patch}
use meshonator.Providers.{Registry}
use meshonator.Queue.{External, flag, or_value, returned, attempt, with_job, job_entry, closing}
use meshonator.Queue.Bulk.{parse_ids}
use meshonator.Queue.Multi.{
  Python, or_empty, as_dict, iterate, Clone, cloned, Spread, spread_of, spread_patch,
}

abbrev nonempty_ids : List Uuid → Option (List Uuid)
nonempty_ids [] = none
nonempty_ids (id ∷ ids) = some (id ∷ ids)

module _ {N C : Type 0} (registry : Registry N C) (ext : External) (py : Python) where
  -- one round of the loop: whether the node was patched
  unfoldable pub patch_one : Uuid → JobModel → Bool → Spread → Value → ℕ → ℕ → Uuid → Exec N Bool
  patch_one job_id job dry_run spread base index total node_id =
      catch
        (do
          node_patch_payload ← spread_patch py spread index total base
          patch ← returned (ext.config_patch node_patch_payload)
          result ← apply_patch registry node_id patch job.requested_by job.source dry_run
          add_result job_id success (some node_id) (text "Batch patch applied")
              (field "result" (obj result) end)
          pure true)
        (λ x. do
          rollback
          add_result job_id failed (some node_id) (text (exn_text x)) end
          pure false)

  unfoldable pub patch_each :
      Uuid → JobModel → Bool → Spread → Value → ℕ → ℕ → List Uuid → Exec N (List Bool)
  patch_each job_id job dry_run spread base index total [] = pure []
  patch_each job_id job dry_run spread base index total (node_id ∷ node_ids) = do
    first ← patch_one job_id job dry_run spread base index total node_id
    rest ← patch_each job_id job dry_run spread base (index + 1) total node_ids
    pure (first ∷ rest)

  abbrev batch_entry : JobModel → Bool → Clone → Value → Value → List Bool → Time → Entry
  batch_entry job dry_run clone location base outcomes at =
      job_entry registry ext job "node.batch_patch.queued" (
        field "dry_run" (bool dry_run) (
          field "selected_nodes" (int (pos (length outcomes))) (
            field "success_count" (int (pos (count_by (λ b. b) outcomes))) (
              field "fail_count" (int (pos (count_by (λ b. not b) outcomes))) (
                field "clone" (obj clone.fields) (
                  field "location_spread" location (
                    field "base_patch" base
                      (field "completed_at" (str (ext.isoformat at)) end))))))))

  -- the body of the `try`
  unfoldable pub patch_nodes : Uuid → JobModel → Clone → Exec N (Unit {0})
  patch_nodes job_id job clone = do
    let dry_run : Bool = flag "dry_run" true job.payload
    let base_patch_payload : Value = or_empty (get "base_patch" job.payload)
    let location : Value = or_empty (get "location_spread" job.payload)
    node_ids_raw ← returned (iterate py (or_value (get "node_ids" job.payload) (arr nil)))
    parsed ← parse_ids registry ext node_ids_raw
    node_ids ← or_raise (nonempty_ids parsed) (value_error "No nodes selected")
    merged_base_patch ← cloned py ext clone base_patch_payload
    location_dict ← returned (as_dict py location)
    spread ← spread_of py location_dict
    outcomes ← patch_each job_id job dry_run spread merged_base_patch 0 (length node_ids) node_ids
    closing job_id (count_by (λ b. not b) outcomes == 0)
        (batch_entry job dry_run clone location base_patch_payload outcomes)

  -- the payload is read before the `try`
  unfoldable pub run_multi_node_patch_job : Uuid → Exec N (Unit {0})
  run_multi_node_patch_job job_id = with_job job_id (λ job. do
    clone_fields ← returned (as_dict py (or_empty (get "clone" job.payload)))
    let clone : Clone = record {
      fields = clone_fields;
      include_role = flag "include_role" false clone_fields;
      include_favorite = flag "include_favorite" false clone_fields;
    }
    attempt job_id (patch_nodes job_id job clone))
