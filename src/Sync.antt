-- ===== src/Sync.antt =====
-- sync/service.py: `SyncService`, which fetches the nodes of the endpoints into the inventory. The
-- hash of a configuration, `datetime.isoformat` and the ping are parameters.
pub mod Total
pub mod Keeps
mod Tests
use meshonator.Base.{
  ℕ, zero, suc, ◌+◌, String, Bool, true, false, not, Option, none, some, List, [], ◌∷◌, ◌++◌, ◌==◌,
  if◌then◌else◌, nat_eq, length, find?, filter_by, map,
}
use meshonator.Base.Int.{pos}
use meshonator.Json.{Value, Items, Fields, bool, int, str, float, arr, obj, nil, cons, end, field}
use meshonator.Audit.{Entry, entry, log}
use meshonator.Db.{
  Uuid, Time, Real, ManagedNodeModel, ProviderEndpointModel, NodeEndpointModel, NodeSnapshotModel,
  Db,
}
use meshonator.Db.Session.{
  Exn, value_error, exn_text, Session, Exec, ok, pure, raise, gets, or_raise, ◌>>=◌, ◌>>◌, modify,
  commit, rollback, now, new_id, catch,
}
use meshonator.Inventory.{Origin, upsert_nodes}
use meshonator.Inventory.Stale.{stale_mark}
use meshonator.Inventory.Reachability.{Report, refresh_transport_reachability}
use meshonator.Operations.{find_node, first_endpoint, connection_of}
use meshonator.Operations.Configs.{save_config_snapshot}
use meshonator.Providers.{Provider, ProviderConnection, Registry, call, provider_of, connected}

-- what `sync_all` answers for an endpoint
pub data EndpointSync : Type 0 where
  synced : (endpoint : String) (nodes snapshots : ℕ) (quick : Bool) → EndpointSync
  unsynced : (endpoint error : String) → EndpointSync

abbrev pub is_synced : EndpointSync → Bool
is_synced (synced endpoint nodes snapshots quick) = true
is_synced (unsynced endpoint error) = false

abbrev sync_fields : EndpointSync → Fields
sync_fields (synced endpoint nodes snapshots quick) = field "status" (str "success") (
    field "endpoint" (str endpoint) (
      field "nodes" (int (pos nodes))
        (field "snapshots" (int (pos snapshots)) (field "quick" (bool quick) end))))
sync_fields (unsynced endpoint error) =
    field "status" (str "failed") (field "endpoint" (str endpoint) (field "error" (str error) end))

abbrev pub sync_items : List EndpointSync → Items
sync_items [] = nil
sync_items (r ∷ rest) = cons (obj (sync_fields r)) (sync_items rest)

abbrev report_fields : (Time → String) → Report → Fields
report_fields isoformat r = field "checked_at" (str (isoformat r.checked_at)) (
    field "timeout_s" (float r.timeout_s.mantissa r.timeout_s.scale) (
      field "endpoints_total" (int (pos r.endpoints_total)) (
        field "endpoints_online" (int (pos r.endpoints_online)) (
          field "endpoints_offline" (int (pos r.endpoints_offline)) (
            field "nodes_total" (int (pos r.nodes_total)) (
              field "nodes_online" (int (pos r.nodes_online)) (
                field "nodes_offline" (int (pos r.nodes_offline))
                  (field "node_changes" (int (pos r.node_changes)) end))))))))

abbrev origin_of : NodeEndpointModel → Origin
origin_of e = record { endpoint = e.endpoint; host = e.host; port = e.port; source = e.source }

module _ {N C : Type 0} (registry : Registry N C) (version_hash : Fields → String)
    (isoformat : Time → String) where
  abbrev pub add_snapshot : Uuid → Fields → Exec N (Unit {0})
  add_snapshot node_id cfg = do
    id ← new_id
    let row : NodeSnapshotModel = record {
      id = id;
      node_id = node_id;
      snapshot_type = "full_sync";
      payload = cfg;
    }
    modify (λ db. record db { snapshots = db.snapshots ++ row ∷ [] })

  -- the configuration of one node, fetched and stored
  unfoldable pub take_snapshot : Provider N C → C → Uuid → String → Exec N (Unit {0})
  take_snapshot provider conn node_id provider_node_id = do
    cfg ← call (provider.fetch_config conn provider_node_id)
    save_config_snapshot version_hash node_id "provider_config" cfg
    add_snapshot node_id cfg

  unfoldable pub take_snapshots : Provider N C → C → List ManagedNodeModel → Exec N ℕ
  take_snapshots provider conn [] = pure 0
  take_snapshots provider conn (n ∷ saved) = do
    take_snapshot provider conn n.id n.provider_node_id
    count ← take_snapshots provider conn saved
    pure (count + 1)

  abbrev full_sync : Provider N C → C → Bool → List ManagedNodeModel → Exec N ℕ
  full_sync provider conn quick saved =
      if quick then pure 0 else (do count ← take_snapshots provider conn saved; commit; pure count)

  -- the body of the `try` of `sync_endpoint`
  unfoldable pub fetch_into : Provider N C → Origin → Bool → C → Exec N (ℕ × ℕ)
  fetch_into provider o quick conn = do
    nodes ← call (provider.fetch_nodes conn)
    saved ← upsert_nodes nodes o
    snapshot_count ← full_sync provider conn quick saved
    pure (length saved, snapshot_count)

  unfoldable pub sync_endpoint : Uuid → Bool → Exec N EndpointSync
  sync_endpoint endpoint_id quick = do
    found ← gets (λ db. find? (λ e. e.id == endpoint_id) db.provider_endpoints)
    e ← or_raise found (value_error "Endpoint not found")
    provider ← provider_of registry e.provider_name
    let c : ProviderConnection = record { endpoint = e.endpoint; host = e.host; port = e.port }
    let o : Origin = record {
      endpoint = e.endpoint;
      host = e.host;
      port = e.port;
      source = e.source;
    }
    counts ← connected provider c (fetch_into provider o quick)
    pure (synced e.endpoint counts.0 counts.1 quick)

  -- the loop of `sync_all`: a failing endpoint is rolled back and reported
  unfoldable pub sync_each : Bool → List ProviderEndpointModel → Exec N (List EndpointSync)
  sync_each quick [] = pure []
  sync_each quick (e ∷ endpoints) = do
    first ←
        catch (sync_endpoint e.id quick) (λ x. rollback >> pure (unsynced e.endpoint (exn_text x)))
    rest ← sync_each quick endpoints
    pure (first ∷ rest)

  unfoldable pub sync_all : Bool → Exec N (List EndpointSync)
  sync_all quick = do
    endpoints ← gets (λ db. filter_by (λ e. e.reachable) db.provider_endpoints)
    out ← sync_each quick endpoints
    stale_mark 30
    at ← now
    log (
        entry "scheduler" "scheduler" "sync.all" (
          field "quick" (bool quick) (
            field "results" (arr (sync_items out)) (field "executed_at" (str (isoformat at)) end))))
    pure out

  unfoldable refresh_reachability : (String → Real → N → Fields × N) → Real → ℕ → Exec N Report
  refresh_reachability ping_probe timeout failures_before_offline = do
    result ← refresh_transport_reachability ping_probe isoformat timeout failures_before_offline
    log (entry "scheduler" "scheduler" "sync.reachability" (report_fields isoformat result))
    pure result

  -- the body of the `try` of `sync_node`
  unfoldable fetch_node : Provider N C → ManagedNodeModel → Origin → Bool → C → Exec N ℕ
  fetch_node provider n o quick conn = do
    nodes ← call (provider.fetch_nodes conn)
    saved ← upsert_nodes nodes o
    again ← gets (find_node n.id)
    row ← or_raise again (value_error "Node not found")
    if quick then pure tt else (take_snapshot provider conn row.id row.provider_node_id >> commit)
    pure (length saved)

  -- `"saved_nodes"` of the answer
  unfoldable sync_node : Uuid → Bool → Exec N ℕ
  sync_node node_id quick = do
    found ← gets (find_node node_id)
    n ← or_raise found (value_error "Node not found")
    row ← gets (first_endpoint n.id)
    e ← or_raise row (value_error "Node has no endpoint")
    provider ← provider_of registry n.provider
    connected provider (connection_of e) (fetch_node provider n (origin_of e) quick)
