-- ===== src/Operations.antt =====
-- operations/service.py: `OperationsService`. The hash of a configuration (SHA-256 of its JSON
-- text) is a parameter.
pub mod NodeDb
pub mod Configs
pub mod Answers
pub mod DryRun
mod Tests
use meshonator.Base.{
  ℕ, String, Bool, true, false, not, ◌&&◌, ◌||◌, Option, none, some, List, [], ◌∷◌, ◌++◌, ◌==◌,
  if◌then◌else◌, nat_eq, find?, update_where,
}
use meshonator.Json.{
  Value, Items, Fields, bool, float, str, arr, obj, null, nil, cons, end, field, get, set,
  dict_or_empty, list_or_empty,
}
use meshonator.Json.Merge.{merge_dict}
use meshonator.Channels.{merge_channels}
use meshonator.Audit.{Entry, entry, log}
use meshonator.Db.{
  Uuid, Time, Real, ManagedNodeModel, NodeEndpointModel, NodeConfigModel, NodeDesiredStateModel, Db,
}
use meshonator.Db.Session.{
  Exn, value_error, Session, Exec, ok, pure, raise, gets, or_raise, ◌>>=◌, ◌>>◌, modify, commit,
  now, new_id,
}
use meshonator.Providers.{
  ConfigPatch, ProviderConnection, Provider, Registry, call, provider_of, connected,
}

abbrev pub find_node : Uuid → Db → Option ManagedNodeModel
find_node id db = find? (λ n. n.id == id) db.nodes

-- `node.endpoints[0] if node.endpoints else None`
abbrev pub first_endpoint : Uuid → Db → Option NodeEndpointModel
first_endpoint id db = find? (λ e. e.node_id == id) db.node_endpoints

abbrev pub connection_of : NodeEndpointModel → ProviderConnection
connection_of e = record { endpoint = e.endpoint; host = e.host; port = e.port }

module _ {A : Type 0} where
  abbrev pub is_some : Option A → Bool
  is_some none = false
  is_some (some a) = true

  -- `new if new is not None else old`
  abbrev or_old : Option A → Option A → Option A
  or_old none old = old
  or_old (some a) old = some a

abbrev or_bool : Option Bool → Bool → Bool
or_bool none b = b
or_bool (some a) b = a

abbrev pub has_fields : Fields → Bool
has_fields end = false
has_fields (field k v d) = true

abbrev pub has_items : Items → Bool
has_items nil = false
has_items (cons x xs) = true

unfoldable pub remote_update_requested : ConfigPatch → Bool
remote_update_requested p =
    is_some p.short_name
    || is_some p.long_name
    || is_some p.role
    || (is_some p.latitude && is_some p.longitude)
    || has_fields p.local_config_patch
    || has_fields p.module_config_patch
    || has_items p.channels_patch

abbrev pub opt_str : Option String → Value
opt_str none = null
opt_str (some s) = str s

abbrev pub opt_real : Option Real → Value
opt_real none = null
opt_real (some r) = float r.mantissa r.scale

-- the dict that the audit log keeps of a node
abbrev state_of : ManagedNodeModel → Fields
state_of n = field "short_name" (opt_str n.short_name) (
    field "long_name" (opt_str n.long_name) (
      field "role" (opt_str n.role) (
        field "favorite" (bool n.favorite) (
          field "location"
            (obj (
              field "lat" (opt_real n.latitude)
                (field "lon" (opt_real n.longitude) (field "alt" (opt_real n.altitude) end))))
            end))))

-- the node with what the patch names in place of what it has
unfoldable pub renamed : ConfigPatch → ManagedNodeModel → ManagedNodeModel
renamed p n = record n {
  short_name = or_old p.short_name n.short_name;
  long_name = or_old p.long_name n.long_name;
  role = or_old p.role n.role;
  favorite = or_bool p.favorite n.favorite;
  latitude = or_old p.latitude n.latitude;
  longitude = or_old p.longitude n.longitude;
}

abbrev with_altitude : ConfigPatch → ManagedNodeModel → ManagedNodeModel
with_altitude p n = record n { altitude = or_old p.altitude n.altitude }

-- `raw`: the metadata after the configuration patches
unfoldable pub patched_metadata : ConfigPatch → Fields → Fields
patched_metadata p raw =
    let raw1 =
      if has_fields p.local_config_patch
      then set "preferences"
          (obj (merge_dict (dict_or_empty (get "preferences" raw)) p.local_config_patch)) raw
      else raw in
    let raw2 =
      if has_fields p.module_config_patch
      then set "modulePreferences"
          (obj (merge_dict (dict_or_empty (get "modulePreferences" raw1)) p.module_config_patch))
          raw1
      else raw1 in
    if has_items p.channels_patch
    then set "channels"
        (arr (merge_channels (list_or_empty (get "channels" raw2)) p.channels_patch)) raw2
    else raw2

-- the node's row after the provider has applied the patch
unfoldable pub patched : Bool → ConfigPatch → Time → ManagedNodeModel → ManagedNodeModel
patched dry_run p at n =
    let m : ManagedNodeModel = with_altitude p (if dry_run then n else renamed p n) in
    record m { raw_metadata = patched_metadata p m.raw_metadata; last_successful_sync = some at }

abbrev pub set_node : Uuid → (ManagedNodeModel → ManagedNodeModel) → Db → Db
set_node id f db = record db { nodes = update_where (λ n. n.id == id) f db.nodes }

abbrev applied_favorite : Option Bool → Fields
applied_favorite none = end
applied_favorite (some b) = field "favorite" (bool b) end

abbrev local_result : ConfigPatch → ManagedNodeModel → Fields
local_result p n = field "provider_node_id" (str n.provider_node_id) (
    field "mode" (str "local_only")
      (field "applied" (obj (applied_favorite p.favorite)) (field "supported" (bool true) end)))

module _ {N C : Type 0} (registry : Registry N C) where
  -- a patch of the favorite flag alone never reaches the radio
  unfoldable pub apply_local : ConfigPatch → Bool → ManagedNodeModel → Exec N Fields
  apply_local p dry_run n = do
    if not dry_run && is_some p.favorite
        then (do
          at ← now
          modify (
              set_node n.id (λ m. record m {
                favorite = or_bool p.favorite m.favorite;
                last_successful_sync = some at;
              }))
          commit)
        else pure tt
    pure (local_result p n)

  -- the body of the `try` of `apply_patch`
  unfoldable pub apply_connected :
      Provider N C → ConfigPatch → Bool → ManagedNodeModel → C → Exec N Fields
  apply_connected provider p dry_run n conn = do
    result ← call (provider.apply_config_patch conn n.provider_node_id p dry_run)
    at ← now
    modify (set_node n.id (patched dry_run p at))
    commit
    pure result

  unfoldable pub apply_remote : ConfigPatch → Bool → ManagedNodeModel → Exec N Fields
  apply_remote p dry_run n = do
    provider ← provider_of registry n.provider
    found ← gets (first_endpoint n.id)
    e ← or_raise found (value_error "Node has no TCP endpoint")
    connected provider (connection_of e) (apply_connected provider p dry_run n)

  abbrev pub patch_entry :
      String → String → Bool → Fields → ConfigPatch → ManagedNodeModel → ManagedNodeModel → Entry
  patch_entry actor source dry_run result p before now_ = record {
    actor = actor;
    source = source;
    action = "node.config_patch";
    provider = some before.provider;
    node_id = some before.id;
    group_id = none;
    before_state = state_of before;
    after_state = state_of (with_altitude p (renamed p now_));
    metadata = field "dry_run" (bool dry_run) (field "result" (obj result) end);
  }

  unfoldable pub apply_patch : Uuid → ConfigPatch → String → String → Bool → Exec N Fields
  apply_patch node_id p actor source dry_run = do
    found ← gets (find_node node_id)
    node ← or_raise found (value_error "Node not found")
    result ←
        if remote_update_requested p
        then apply_remote p dry_run node
        else apply_local p dry_run node
    again ← gets (find_node node_id)
    after ← or_raise again (value_error "Node not found")
    log (patch_entry actor source dry_run result p node after)
    pure result
