-- ===== src/Operations/NodeDb.antt =====
-- operations/service.py: `mutate_node_db`, which changes the node database of one radio for a list of
-- target nodes.
use meshonator.Base.{ℕ, suc, String, Bool, Option, none, some, List, [], ◌∷◌, length}
use meshonator.Base.Int.{pos}
use meshonator.Json.{Items, Fields, bool, int, str, arr, obj, nil, cons, end, field}
use meshonator.Audit.{Entry, log}
use meshonator.Db.{Uuid, ManagedNodeModel}
use meshonator.Db.Session.{
  value_error, provider_error, integrity_error, other_error, Result, Exec, ok, raised, pure, gets,
  or_raise, ◌>>=◌, ◌>>◌,
}
use meshonator.Providers.{Provider, Registry, call, provider_of, connected}
use meshonator.Operations.{find_node, first_endpoint, connection_of}

-- one entry of `applied` or of `failures`
pub data Answer : Type 0 where
  applied : String → Fields → Answer
  failure : String → String → Answer

abbrev applied_items : List Answer → Items
applied_items [] = nil
applied_items (applied target result ∷ rest) =
    cons (obj (field "target_node_id" (str target) (field "result" (obj result) end)))
      (applied_items rest)
applied_items (failure target error ∷ rest) = applied_items rest

abbrev failure_items : List Answer → Items
failure_items [] = nil
failure_items (applied target result ∷ rest) = failure_items rest
failure_items (failure target error ∷ rest) =
    cons (obj (field "target_node_id" (str target) (field "error" (str error) end)))
      (failure_items rest)

abbrev pub applied_count : List Answer → ℕ
applied_count [] = 0
applied_count (applied target result ∷ rest) = suc (applied_count rest)
applied_count (failure target error ∷ rest) = applied_count rest

abbrev pub failed_count : List Answer → ℕ
failed_count [] = 0
failed_count (applied target result ∷ rest) = failed_count rest
failed_count (failure target error ∷ rest) = suc (failed_count rest)

-- `final_result`; its counts are kept beside the dict, since the jobs read them
pub record NodeDbResult : Type 0 where
  pub destination_node_id : String
  pub action : String
  pub target_count : ℕ
  pub answers : List Answer
  pub dry_run : Bool

abbrev pub result_fields : NodeDbResult → Fields
result_fields r = field "destination_node_id" (str r.destination_node_id) (
    field "action" (str r.action) (
      field "target_count" (int (pos r.target_count)) (
        field "applied_count" (int (pos (applied_count r.answers))) (
          field "failed_count" (int (pos (failed_count r.answers))) (
            field "applied" (arr (applied_items r.answers)) (
              field "failures" (arr (failure_items r.answers))
                (field "dry_run" (bool r.dry_run) end)))))))

abbrev no_targets : List String → Option (List String)
no_targets [] = none
no_targets (target ∷ targets) = some (target ∷ targets)

module _ {N C : Type 0} (provider : Provider N C) (conn : C) where
  -- `except ProviderError`: that exception is an answer, any other one is raised
  abbrev pub answer : String → Result Fields → Result Answer
  answer target (ok result) = ok (applied target result)
  answer target (raised (provider_error e)) = ok (failure target e)
  answer target (raised (value_error e)) = raised (value_error e)
  answer target (raised (integrity_error e)) = raised (integrity_error e)
  answer target (raised (other_error e)) = raised (other_error e)

  unfoldable pub mutate_one : String → String → Bool → String → Exec N Answer
  mutate_one destination action dry_run target s =
      let (r, s') = call (provider.mutate_node_db conn destination action target dry_run) s in
      (answer target r, s')

  -- the loop over the targets
  unfoldable pub mutate_each : String → String → Bool → List String → Exec N (List Answer)
  mutate_each destination action dry_run [] = pure []
  mutate_each destination action dry_run (target ∷ targets) = do
    first ← mutate_one destination action dry_run target
    rest ← mutate_each destination action dry_run targets
    pure (first ∷ rest)

module _ {N C : Type 0} (registry : Registry N C) where
  abbrev pub mutate_entry : String → String → ManagedNodeModel → NodeDbResult → Entry
  mutate_entry actor source destination r = record {
    actor = actor;
    source = source;
    action = "node.nodedb.mutate";
    provider = some destination.provider;
    node_id = some destination.id;
    group_id = none;
    before_state = end;
    after_state = end;
    metadata = result_fields r;
  }

  unfoldable pub mutate_node_db :
      Uuid → String → List String → String → String → Bool → Exec N NodeDbResult
  mutate_node_db destination_node_id action target_node_ids actor source dry_run = do
    found ← gets (find_node destination_node_id)
    destination ← or_raise found (value_error "Destination node not found")
    targets ← or_raise (no_targets target_node_ids) (value_error "No target nodes provided")
    row ← gets (first_endpoint destination.id)
    e ← or_raise row (value_error "Destination node has no TCP endpoint")
    provider ← provider_of registry destination.provider
    answers ←
        connected provider (connection_of e)
          (λ conn. mutate_each provider conn destination.provider_node_id action dry_run targets)
    let final_result : NodeDbResult = record {
      destination_node_id = destination.provider_node_id;
      action = action;
      target_count = length target_node_ids;
      answers = answers;
      dry_run = dry_run;
    }
    log (mutate_entry actor source destination final_result)
    pure final_result
