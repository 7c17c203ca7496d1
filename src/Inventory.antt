-- ===== src/Inventory.antt =====
-- inventory/service.py: `InventoryService`, and the domain models that it takes from the providers
-- (domain/models.py). The probe of a host (`ping_probe`, a `ping` process) is a parameter.
pub mod Reachability
pub mod Debounce
pub mod Stale
pub mod Keys
mod Tests
use meshonator.Base.{
  ℕ, ◌+◌, ◌≡◌, String, Bool, true, false, ◌&&◌, ◌||◌, Option, none, some, List, [], ◌∷◌, ◌++◌, ◌==◌,
  if◌then◌else◌, nat_eq, string_eq, find?, filter_by, update_where, any, leb, not,
}
use meshonator.Base.Sort.{sort_by}
use meshonator.Base.Text.{starts_with, is_empty}
use meshonator.Json.{Fields}
use meshonator.Db.{Uuid, Time, Real, ManagedNodeModel, NodeEndpointModel, Db}
use meshonator.Db.Session.{Session, Exec, pure, gets, ◌>>=◌, ◌>>◌, modify, commit, now, new_id}

-- `ManagedNode`, with the parts of its location, firmware and hardware beside the other fields
pub record ManagedNode : Type 0 where
  pub provider : String
  pub provider_node_id : String
  pub node_num : Option ℕ
  pub short_name : Option String
  pub long_name : Option String
  pub role : Option String
  pub managed : Bool
  pub reachable : Bool
  pub first_seen : Option Time
  pub last_seen : Option Time
  pub latitude : Option Real
  pub longitude : Option Real
  pub altitude : Option Real
  pub location_source : Option String
  pub firmware_version : Option String
  pub hardware_model : Option String
  pub capabilities : Fields
  pub raw_metadata : Fields

-- the endpoint that a fetch went through
pub record Origin : Type 0 where
  pub endpoint : String
  pub host : String
  pub port : ℕ
  pub source : String

abbrev pub has_key : String → String → ManagedNodeModel → Bool
has_key provider node_id n = n.provider == provider && n.provider_node_id == node_id

-- a node of the provider that was reached through the endpoint
abbrev pub reached_by : String → String → Db → ManagedNodeModel → Bool
reached_by provider endpoint db n =
    n.provider == provider
    && any (λ e. e.node_id == n.id && e.endpoint == endpoint) db.node_endpoints

-- the first of two queries that finds a row
abbrev pub first_of_two :
    Option ManagedNodeModel → Option ManagedNodeModel → Option ManagedNodeModel
first_of_two none second = second
first_of_two (some n) second = some n

-- a placeholder of an earlier fetch: `local-unknown`, or else one like `local-%`
unfoldable pub placeholder : String → String → Db → Option ManagedNodeModel
placeholder provider endpoint db =
    first_of_two
      (find? (λ n. reached_by provider endpoint db n && n.provider_node_id == "local-unknown")
        db.nodes)
      (find? (λ n. reached_by provider endpoint db n && starts_with n.provider_node_id "local-")
        db.nodes)

-- the row of a fetched node: found under its own key, or a placeholder that takes that key over
pub data Located : Type 0 where
  by_key by_placeholder : ManagedNodeModel → Located
  nowhere : Located

-- the outcome of the search for a placeholder
abbrev pub or_nowhere : Option ManagedNodeModel → Located
or_nowhere none = nowhere
or_nowhere (some row) = by_placeholder row

abbrev pub unless_found : Option ManagedNodeModel → Located → Located
unless_found none rest = rest
unless_found (some row) rest = by_key row

-- the row that a fetched node is written into, as the database has it
unfoldable pub locate : ManagedNode → String → Db → Located
locate node endpoint seen =
    unless_found (find? (has_key node.provider node.provider_node_id) seen.nodes) (
      if node.provider_node_id == "local-unknown"
      then nowhere
      else or_nowhere (placeholder node.provider endpoint seen))

abbrev pub or_time : Option Time → Time → Option Time
or_time none at = some at
or_time (some t) at = some t

-- `db_node.node_num = node.node_num` and the assignments that follow
unfoldable pub refreshed : ManagedNode → Time → ManagedNodeModel → ManagedNodeModel
refreshed node at row = record row {
  node_num = node.node_num;
  short_name = node.short_name;
  long_name = node.long_name;
  firmware_version = node.firmware_version;
  hardware_model = node.hardware_model;
  role = node.role;
  favorite = true;
  managed = node.managed;
  latitude = node.latitude;
  longitude = node.longitude;
  altitude = node.altitude;
  location_source = node.location_source;
  last_seen = or_time node.last_seen at;
  reachable = node.reachable;
  last_successful_sync = some at;
  capability_matrix = node.capabilities;
  raw_metadata = node.raw_metadata;
}

-- a new row, before the assignments
unfoldable pub blank_row : ManagedNode → Time → Uuid → ManagedNodeModel
blank_row node at id = record {
  id = id;
  provider = node.provider;
  provider_node_id = node.provider_node_id;
  node_num = none;
  short_name = none;
  long_name = none;
  firmware_version = none;
  hardware_model = none;
  role = none;
  favorite = false;
  managed = true;
  latitude = none;
  longitude = none;
  altitude = none;
  location_source = none;
  first_seen = or_time node.first_seen at;
  last_seen = none;
  last_successful_sync = none;
  reachable = false;
  raw_metadata = Fields.end;
  capability_matrix = Fields.end;
}

-- The session does not flush by itself: a query sees `seen`, the tables of the last flush, while the
-- objects of the session carry the changes since then, as in `tables`.
pub record Unflushed : Type 0 where
  pub seen : Db
  pub tables : Db

-- the assignments to the object with the id
abbrev pub assign : Uuid → (ManagedNodeModel → ManagedNodeModel) → Db → Db
assign id f db = record db { nodes = update_where (λ n. n.id == id) f db.nodes }

-- `db_node.provider_node_id = node.provider_node_id`
abbrev with_key : ManagedNode → ManagedNodeModel → ManagedNodeModel
with_key node row = record row { provider_node_id = node.provider_node_id }

-- `self.db.add(db_node)`
abbrev pub add_row : ManagedNode → Time → Db → Db
add_row node at db = record db {
  nodes = db.nodes ++ blank_row node at db.next_id ∷ [];
  next_id = db.next_id + 1;
}

-- the row of a fetched node and the session with that row: a new one is flushed at once
unfoldable pub node_row : ManagedNode → Origin → Time → Unflushed → Unflushed × Uuid
node_row node o at u = elim (locate node o.endpoint u.seen) [
  | by_key row ↦ (u, row.id)
  | by_placeholder row ↦ (record u { tables = assign row.id (with_key node) u.tables }, row.id)
  | nowhere ↦
      let grown : Db = add_row node at u.tables in
      (record { seen = grown; tables = grown }, u.tables.next_id)
]

abbrev is_endpoint : Uuid → String → NodeEndpointModel → Bool
is_endpoint node_id endpoint e = e.node_id == node_id && e.endpoint == endpoint

-- the endpoint row of the node, as the query finds it, is seen again; else a new one is pending
unfoldable pub touch_endpoint : Uuid → Origin → Time → Option NodeEndpointModel → Db → Db
touch_endpoint node_id o at (some row) db = record db {
  node_endpoints =
      update_where (λ e. e.id == row.id)
        (λ e. record e { last_seen = some at; host = o.host; port = o.port; source = o.source })
        db.node_endpoints;
}
touch_endpoint node_id o at none db = record db {
  node_endpoints =
      db.node_endpoints
      ++ (record {
        id = db.next_id;
        node_id = node_id;
        endpoint = o.endpoint;
        host = o.host;
        port = o.port;
        source = o.source;
        is_primary = true;
        last_seen = some at;
      })
        ∷ [];
  next_id = db.next_id + 1;
}

-- one round of the loop of `upsert_nodes`, and the row written
unfoldable pub upsert_one : ManagedNode → Origin → Time → Unflushed → Unflushed × Uuid
upsert_one node o at u =
    let (u', id) = node_row node o at u in
    (
      record u' {
        tables =
            touch_endpoint id o at (find? (is_endpoint id o.endpoint) u'.seen.node_endpoints)
              (assign id (refreshed node at) u'.tables);
      },
      id,
    )

unfoldable pub upsert_each : List ManagedNode → Origin → Time → Unflushed → Unflushed × List Uuid
upsert_each [] o at u = (u, [])
upsert_each (node ∷ nodes) o at u =
    let (u', id) = upsert_one node o at u in
    let (u'', ids) = upsert_each nodes o at u' in (u'', id ∷ ids)

-- the objects of `out` once the loop is done
unfoldable pub rows_of : List Uuid → Db → List ManagedNodeModel
rows_of [] db = []
rows_of (id ∷ ids) db = filter_by (λ n. n.id == id) db.nodes ++ rows_of ids db

-- the session at the start of the loop, with nothing pending
abbrev pub flushed : Db → Unflushed
flushed db = record { seen = db; tables = db }

abbrev pub of_provider : Option String → String → Bool
of_provider none name = true
of_provider (some provider) name = is_empty provider || name == provider

abbrev seen_later : ManagedNodeModel → ManagedNodeModel → Bool
seen_later a b = elim b.last_seen [
  | none ↦ true
  | some t ↦ elim a.last_seen [ none ↦ false | some u ↦ leb t u ]
]

module _ {N : Type 0} where
  unfoldable pub upsert_nodes : List ManagedNode → Origin → Exec N (List ManagedNodeModel)
  upsert_nodes nodes o = do
    at ← now
    ids ← gets (λ db. (upsert_each nodes o at (flushed db)).1)
    modify (λ db. (upsert_each nodes o at (flushed db)).0.tables)
    commit
    gets (rows_of ids)

  -- `ORDER BY last_seen DESC NULLS LAST`, of one provider if the name is not empty
  unfoldable list_nodes : Option String → Exec N (List ManagedNodeModel)
  list_nodes provider =
      gets (λ db. sort_by seen_later (filter_by (λ n. of_provider provider n.provider) db.nodes))

  unfoldable get_node : Uuid → Exec N (Option ManagedNodeModel)
  get_node node_id = gets (λ db. find? (λ n. n.id == node_id) db.nodes)

  unfoldable delete_node_endpoints : Uuid → Exec N (Unit {0})
  delete_node_endpoints node_id = do
    modify (λ db. record db {
      node_endpoints = filter_by (λ e. not (e.node_id == node_id)) db.node_endpoints;
    })
    commit
