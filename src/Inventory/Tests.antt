-- ===== src/Inventory/Tests.antt =====
-- A history of probes of one endpoint, and the marks of three nodes.
use mathlib.Core.Option.{Option}
use meshonator.Base.{arith, All}
use meshonator.Inventory.{ManagedNode, Origin, upsert_nodes}
use meshonator.Inventory.Keys.{keys, has, EachKeyOnce}
use meshonator.Inventory.Keys.Once.{upsert_nodes-EachKeyOnce}
use meshonator.Db.{Uuid, Time, ManagedNodeModel, Db, empty_db}
use meshonator.Db.Session.{Session, ok}
use meshonator.Inventory.Stale.{stale_mark}
use meshonator.Base.{String, ◌≡◌, refl, true, false, none, some, [], ◌∷◌, ltb, string_eq}
use meshonator.Base.Int.{pos, int_eq}
use meshonator.Json.{Fields, end, field, bool, get}
use meshonator.Db.{ProviderEndpointModel, minutes}
use meshonator.Inventory.Reachability.{failures_of, max_one}
use meshonator.Inventory.Debounce.{after_probes, trailing_failures, after_probes-reachable}

abbrev endpoint_up : ProviderEndpointModel
endpoint_up = record {
  id = 1;
  provider_name = "meshtastic";
  endpoint = "tcp://10.0.0.1";
  host = "10.0.0.1";
  port = 4403;
  source = "manual";
  last_seen = none;
  reachable = true;
  meta_json = end;
}

abbrev answered : Fields
answered = field "is_online" (bool true) end

abbrev silent : Fields
silent = field "is_online" (bool false) end

no_failures : failures_of end ≡ some (pos 0)
unfolding get
no_failures = refl

after_probes-reachable_example :
    (after_probes
      (λ t. "now")
      2
      minutes
      (silent ∷ answered ∷ silent ∷ silent ∷ [])
      endpoint_up).reachable
    ≡ ltb (trailing_failures (silent ∷ answered ∷ silent ∷ silent ∷ [])) (max_one 2)
after_probes-reachable_example =
    after_probes-reachable (λ t. "now") 2 minutes (silent ∷ answered ∷ silent ∷ silent ∷ [])
      endpoint_up refl no_failures

abbrev seen_node : Uuid → Option Time → ManagedNodeModel
seen_node id last_seen = record {
  id = id;
  provider = "meshtastic";
  provider_node_id = "!1";
  node_num = none;
  short_name = none;
  long_name = none;
  firmware_version = none;
  hardware_model = none;
  role = none;
  favorite = true;
  managed = true;
  latitude = none;
  longitude = none;
  altitude = none;
  location_source = none;
  first_seen = none;
  last_seen = last_seen;
  last_successful_sync = none;
  reachable = true;
  raw_metadata = end;
  capability_matrix = end;
}

abbrev seen_db : Db
seen_db = record empty_db {
  nodes = seen_node 1 (some (minutes 50)) ∷ seen_node 2 (some (minutes 5)) ∷ seen_node 3 none ∷ [];
}

abbrev seen_session : Session (Unit {0})
seen_session = record {
  db = seen_db;
  committed = seen_db;
  clock = λ n. minutes 60;
  reads = 0;
  net = tt;
}

first_marks : (stale_mark 30 seen_session).0 ≡ ok 2
unfolding stale_mark get
first_marks = ground arith

abbrev fetched_node : ManagedNode
fetched_node = record {
  provider = "meshtastic";
  provider_node_id = "!9";
  node_num = none;
  short_name = none;
  long_name = none;
  role = none;
  managed = true;
  reachable = true;
  first_seen = none;
  last_seen = none;
  latitude = none;
  longitude = none;
  altitude = none;
  location_source = none;
  firmware_version = none;
  hardware_model = none;
  capabilities = end;
  raw_metadata = end;
}

abbrev tcp_origin : Origin
tcp_origin = record {
  endpoint = "tcp://10.0.0.1:4403";
  host = "10.0.0.1";
  port = 4403;
  source = "manual";
}

abbrev one_row : Db
one_row = record empty_db { nodes = seen_node 1 none ∷ []; next_id = 2 }

abbrev one_row_session : Session (Unit {0})
one_row_session = record seen_session { db = one_row; committed = one_row }

upsert_nodes-EachKeyOnce_example :
    EachKeyOnce (
      keys
        (upsert_nodes
          (fetched_node ∷ fetched_node ∷ [])
          tcp_origin
          one_row_session).1.committed.nodes)
    × All
        (λ node.
          has node.provider node.provider_node_id (
            keys
              (upsert_nodes
                (fetched_node ∷ fetched_node ∷ [])
                tcp_origin
                one_row_session).1.committed.nodes)
          ≡ true)
        (fetched_node ∷ fetched_node ∷ [])
    × ((p i : String)
        → has p i (keys one_row.nodes) ≡ true
        → has p i (
            keys
              (upsert_nodes
                (fetched_node ∷ fetched_node ∷ [])
                tcp_origin
                one_row_session).1.committed.nodes)
          ≡ true)
upsert_nodes-EachKeyOnce_example =
    upsert_nodes-EachKeyOnce (fetched_node ∷ fetched_node ∷ []) tcp_origin one_row_session
      (refl, (refl, tt)) (refl, tt) (refl, tt)
