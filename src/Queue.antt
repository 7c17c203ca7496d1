-- ===== src/Queue.antt =====
-- jobs/queue.py: the handlers of the jobs that patch a node or a group, sync the endpoints or
-- change the node database of a radio. What the handlers call in other libraries is in `External`.
pub mod Bulk
pub mod Discover
pub mod Keeps
pub mod Ends
pub mod Multi
pub mod Run
mod Tests
use meshonator.Base.{
  ℕ, zero, suc, ◌+◌, ◌-◌, String, Bool, true, false, not, ◌&&◌, Option, none, some, List, [], ◌∷◌,
  ◌++◌, ◌==◌, if◌then◌else◌, nat_eq, string_eq, length, filter_by,
}
use meshonator.Base.Int.{pos}
use meshonator.Base.Text.{strip, is_empty}
use meshonator.Json.{
  Value, Items, Fields, bool, int, str, arr, obj, null, nil, cons, end, field, get, truthy,
  list_or_empty,
}
use meshonator.Audit.{Entry, entry, log}
use meshonator.Db.{
  Uuid, Time, Status, success, failed, JobModel, ManagedNodeModel, Db, text, unsupported_job_type,
  nodedb_finished, sync_result,
}
use meshonator.Db.Session.{
  Exn, value_error, exn_text, Result, Session, Exec, ok, pure, raise, gets, or_raise, ◌>>=◌, ◌>>◌,
  rollback, now, catch, with_session,
}
use meshonator.Groups.{get_group}
use meshonator.Groups.Resolve.{resolve_all_members}
use meshonator.Jobs.{find_job, start, finish, add_result}
use meshonator.Operations.{apply_patch}
use meshonator.Operations.NodeDb.{
  NodeDbResult, result_fields, applied_count, failed_count, mutate_node_db,
}
use meshonator.Providers.{ConfigPatch, Registry}
use meshonator.Sync.{EndpointSync, is_synced, sync_items, sync_all}

-- `UUID(…)`, `ConfigPatch(**…)`, `str(…)`, the hash of a configuration and `datetime.isoformat`
pub record External : Type 0 where
  pub uuid_of : Value → Result Uuid
  pub config_patch : Value → Result ConfigPatch
  pub str_of : Value → String
  pub version_hash : Fields → String
  pub isoformat : Time → String

-- `payload.get(key)`: None where the key is missing
abbrev given : String → Fields → Option Value
given key payload = elim (get key payload) [ none ↦ none | some null ↦ none | some v ↦ some v ]

-- `bool(payload.get(key, default))`
abbrev pub flag : String → Bool → Fields → Bool
flag key default payload = elim (get key payload) [ none ↦ default | some v ↦ truthy v ]

abbrev pub or_value : Option Value → Value → Value
or_value none default = default
or_value (some v) default = v

-- the texts of a list that are not blank, stripped
unfoldable pub clean_targets : Items → List String
clean_targets nil = []
clean_targets (cons (str s) rest) =
    let targets = clean_targets rest in if is_empty (strip s) then targets else strip s ∷ targets
clean_targets (cons v rest) = clean_targets rest

abbrev pub nonempty_items : Items → Option Items
nonempty_items nil = none
nonempty_items (cons x xs) = some (cons x xs)

abbrev pub nonempty_list : List String → Option (List String)
nonempty_list [] = none
nonempty_list (x ∷ xs) = some (x ∷ xs)

abbrev pub nonempty_text : String → Option String
nonempty_text s = if is_empty s then none else some s

abbrev pub status_of : Bool → Status
status_of true = success
status_of false = failed

module _ {N : Type 0} where
  abbrev pub returned : {A : Type 0} → Result A → Exec N A
  returned r s = (r, s)

  -- the `except` part of most handlers
  abbrev pub give_up : Uuid → Exn → Exec N (Unit {0})
  give_up job_id x = do add_result job_id failed none (text (exn_text x)) end; finish job_id false

  abbrev pub attempt : Uuid → Exec N (Unit {0}) → Exec N (Unit {0})
  attempt job_id body = catch body (λ x. rollback >> give_up job_id x)

  -- how most handlers end: the outcome is stored, and then the audit row
  abbrev pub closing : Uuid → Bool → (Time → Entry) → Exec N (Unit {0})
  closing job_id succeeded made = do finish job_id succeeded; at ← now; log (made at); pure tt

  -- the part that all handlers begin with
  abbrev pub started_job :
      Uuid → (JobModel → Exec N (Unit {0})) → Option JobModel → Exec N (Unit {0})
  started_job job_id body none = pure tt
  started_job job_id body (some job) = start job_id >> body job

  unfoldable pub with_job : Uuid → (JobModel → Exec N (Unit {0})) → Exec N (Unit {0})
  with_job job_id body =
      with_session (gets (find_job job_id) >>= λ job. started_job job_id body job)

module _ {N C : Type 0} (registry : Registry N C) (ext : External) where
  abbrev pub job_entry : JobModel → String → Fields → Entry
  job_entry job action metadata = entry job.requested_by job.source action metadata

  -- the body of the `try` of `_run_node_patch_job`
  unfoldable pub patch_node : Uuid → JobModel → Exec N (Unit {0})
  patch_node job_id job = do
    let dry_run : Bool = flag "dry_run" true job.payload
    node_id ← or_raise (given "node_id" job.payload) (value_error "Missing node_id")
    patch ← returned (ext.config_patch (or_value (get "patch" job.payload) (obj end)))
    id ← returned (ext.uuid_of node_id)
    result ← apply_patch registry id patch job.requested_by job.source dry_run
    add_result job_id success (some id) (text "Node patch applied")
        (field "result" (obj result) end)
    closing job_id true (λ at.
        (record (job_entry job "node.patch.queued"
          (field "dry_run" (bool dry_run) (field "completed_at" (str (ext.isoformat at)) end))) {
            node_id = some id;
          }))

  unfoldable pub run_node_patch_job : Uuid → Exec N (Unit {0})
  run_node_patch_job job_id = with_job job_id (λ job. attempt job_id (patch_node job_id job))

  -- one member of the group: whether the patch was applied
  unfoldable pub patch_member :
      Uuid → JobModel → ConfigPatch → Bool → ManagedNodeModel → Exec N Bool
  patch_member job_id job patch dry_run node =
      catch
        (do
          result ← apply_patch registry node.id patch job.requested_by job.source dry_run
          add_result job_id success (some node.id) (text "Group patch applied")
              (field "result" (obj result) end)
          pure true)
        (λ x. do
          rollback
          add_result job_id failed (some node.id) (text (exn_text x)) end
          pure false)

  -- the loop over the members: how many were patched
  unfoldable pub patch_members :
      Uuid → JobModel → ConfigPatch → Bool → List ManagedNodeModel → Exec N ℕ
  patch_members job_id job patch dry_run [] = pure 0
  patch_members job_id job patch dry_run (node ∷ members) = do
    applied ← patch_member job_id job patch dry_run node
    success_count ← patch_members job_id job patch dry_run members
    pure (if applied then success_count + 1 else success_count)

  abbrev fail_count : ℕ → List ManagedNodeModel → ℕ
  fail_count success_count members = length members - success_count

  -- the body of the `try` of `_run_group_patch_job`
  unfoldable pub patch_group : Uuid → JobModel → Exec N (Unit {0})
  patch_group job_id job = do
    let dry_run : Bool = flag "dry_run" true job.payload
    group_id ← or_raise (given "group_id" job.payload) (value_error "Missing group_id")
    id ← returned (ext.uuid_of group_id)
    found ← get_group id
    group ← or_raise found (value_error "Group not found")
    members ← resolve_all_members group
    patch ← returned (ext.config_patch (or_value (get "patch" job.payload) (obj end)))
    success_count ← patch_members job_id job patch dry_run members
    closing job_id (fail_count success_count members == 0) (λ at.
        (record (job_entry job "group.apply_template" (
          field "dry_run" (bool dry_run) (
            field "members" (int (pos (length members))) (
              field "success_count" (int (pos success_count)) (
                field "fail_count" (int (pos (fail_count success_count members)))
                  (field "completed_at" (str (ext.isoformat at)) end)))))) { group_id = some id }))

  unfoldable pub run_group_patch_job : Uuid → Exec N (Unit {0})
  run_group_patch_job job_id = with_job job_id (λ job. attempt job_id (patch_group job_id job))

  abbrev pub sync_failures : List EndpointSync → List EndpointSync
  sync_failures results = filter_by (λ r. not (is_synced r)) results

  -- the body of the `try` of `_run_sync_job`
  unfoldable pub sync_endpoints : Uuid → JobModel → Exec N (Unit {0})
  sync_endpoints job_id job = do
    let quick : Bool = flag "quick" false job.payload
    results ← sync_all registry ext.version_hash ext.isoformat quick
    let failures : ℕ = length (sync_failures results)
    add_result job_id (status_of (failures == 0)) none
        (sync_result "Sync finished" (length results) failures)
        (field "results" (arr (sync_items results)) end)
    closing job_id (failures == 0) (λ at.
        (job_entry job "sync.all" (
          field "queued" (bool true)
            (field "quick" (bool quick) (field "completed_at" (str (ext.isoformat at)) end)))))

  -- its `except` part does not roll back
  unfoldable pub run_sync_job : Uuid → Exec N (Unit {0})
  run_sync_job job_id = with_job job_id (λ job. catch (sync_endpoints job_id job) (give_up job_id))

  -- the body of the `try` of `_run_node_nodedb_job`
  unfoldable pub mutate_node : Uuid → JobModel → Exec N (Unit {0})
  mutate_node job_id job = do
    let dry_run : Bool = flag "dry_run" true job.payload
    destination ←
        or_raise (given "destination_node_id" job.payload)
          (value_error "Missing destination_node_id")
    action ←
        or_raise (nonempty_text (strip (ext.str_of (or_value (get "action" job.payload) (str "")))))
          (value_error "Missing action")
    selected ←
        or_raise (nonempty_items (list_or_empty (get "target_node_ids" job.payload)))
          (value_error "No target nodes selected")
    targets ←
        or_raise (nonempty_list (clean_targets selected))
          (value_error "No valid target node IDs provided")
    id ← returned (ext.uuid_of destination)
    result ← mutate_node_db registry id action targets job.requested_by job.source dry_run
    let done : Bool = failed_count result.answers == 0
    add_result job_id (status_of done) (some id)
        (nodedb_finished action (applied_count result.answers) (failed_count result.answers))
        (field "result" (obj (result_fields result)) end)
    closing job_id done (λ at.
        (record (job_entry job "node.nodedb.mutation.queued" (
          field "dry_run" (bool dry_run) (
            field "action" (str action) (
              field "target_count" (int (pos (length targets))) (
                field "completed_at" (str (ext.isoformat at))
                  (field "result" (obj (result_fields result)) end)))))) { node_id = some id }))

  unfoldable pub run_node_nodedb_job : Uuid → Exec N (Unit {0})
  run_node_nodedb_job job_id = with_job job_id (λ job. attempt job_id (mutate_node job_id job))
