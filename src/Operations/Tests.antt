-- ===== src/Operations/Tests.antt =====
-- Operations on one node, over a provider that only counts its calls.
use meshonator.Base.{
  ℕ, ◌+◌, ◌≡◌, refl, String, true, false, none, some, [], ◌∷◌, ◌==◌, nat_eq, string_eq, map,
  if◌then◌else◌, arith,
}
use meshonator.Json.{end, field, str, nil}
use meshonator.Audit.{audit_row}
use meshonator.Db.{ManagedNodeModel, NodeEndpointModel, Db, empty_db, minutes}
use meshonator.Db.Session.{Session, ok, raised, provider_error}
use meshonator.Providers.{Provider, Registry, ConfigPatch}
use meshonator.Operations.{apply_patch, remote_update_requested, find_node, first_endpoint}
use meshonator.Operations.NodeDb.{
  mutate_node_db, mutate_entry, NodeDbResult, applied_count, failed_count,
}
use meshonator.Operations.Answers.{IsAnswered, target_of, mutate_node_db-answers}
use meshonator.Operations.DryRun.{apply_patch-raised}

-- it refuses to add the node "!bad"; the world outside is the number of calls
abbrev radio : Provider ℕ String
radio = record {
  connect = λ e n. (ok e.host, n + 1);
  disconnect = λ c n. (ok tt, n + 1);
  fetch_nodes = λ c n. (ok [], n + 1);
  fetch_config = λ c id n. (ok end, n + 1);
  apply_config_patch = λ c id p dry_run n. (ok end, n + 1);
  mutate_node_db = λ c id action target dry_run n.
      (if target == "!bad" then raised (provider_error "refused") else ok end, n + 1);
}

abbrev broken_radio : Provider ℕ String
broken_radio = record radio {
  apply_config_patch = λ c id p dry_run n. (raised (provider_error "lost"), n + 1);
}

abbrev radios : Registry ℕ String
radios name = some radio

abbrev broken_radios : Registry ℕ String
broken_radios name = some broken_radio

abbrev one_node : ManagedNodeModel
one_node = record {
  id = 1;
  provider = "meshtastic";
  provider_node_id = "!1";
  node_num = none;
  short_name = none;
  long_name = none;
  firmware_version = none;
  hardware_model = none;
  role = none;
  favorite = true;
  managed = true;
  latitude = none;
  longitude = none;
  altitude = none;
  location_source = none;
  first_seen = none;
  last_seen = none;
  last_successful_sync = none;
  reachable = true;
  raw_metadata = end;
  capability_matrix = end;
}

abbrev its_endpoint : NodeEndpointModel
its_endpoint = record {
  id = 2;
  node_id = 1;
  endpoint = "tcp://10.0.0.1";
  host = "10.0.0.1";
  port = 4403;
  source = "manual";
  is_primary = true;
  last_seen = none;
}

abbrev one_node_db : Db
one_node_db = record empty_db {
  nodes = one_node ∷ [];
  node_endpoints = its_endpoint ∷ [];
  next_id = 3;
}

abbrev node_session : Session ℕ
node_session = record {
  db = one_node_db;
  committed = one_node_db;
  clock = minutes;
  reads = 0;
  net = 0;
}

abbrev role_patch : ConfigPatch
role_patch = record {
  short_name = none;
  long_name = none;
  role = some "ROUTER";
  favorite = none;
  latitude = none;
  longitude = none;
  altitude = none;
  local_config_patch = field "device" (str "x") end;
  module_config_patch = end;
  channels_patch = nil;
}

node_found : find_node 1 one_node_db ≡ some one_node
unfolding nat_eq
node_found = refl

endpoint_found : first_endpoint 1 one_node_db ≡ some its_endpoint
unfolding nat_eq
endpoint_found = refl

role_requested : remote_update_requested role_patch ≡ true
unfolding remote_update_requested
role_requested = refl

always_answers :
    (t : String) (m : ℕ) → IsAnswered (radio.mutate_node_db "10.0.0.1" "!1" "add" t false m).0
unfolding string_eq
always_answers t m = elim (string_eq.dec t "!bad") [ yes p ↦ rw p tt | no p ↦ ground arith ]

mutate_node_db-answers_example :
    (r : NodeDbResult) × ((mutate_node_db radios 1 "add"
        ("!2" ∷ "!bad" ∷ [])
        "admin"
        "ui"
        false
        node_session).0
      ≡ ok r)
    × (map target_of r.answers ≡ "!2" ∷ "!bad" ∷ [])
    × (applied_count r.answers + failed_count r.answers ≡ r.target_count)
    × ((mutate_node_db radios 1 "add" ("!2" ∷ "!bad" ∷ []) "admin" "ui" false node_session).1.db
        ≡ record one_node_db {
          audit_logs = audit_row 3 (mutate_entry radios "admin" "ui" one_node r) ∷ [];
          next_id = 4;
        })
    × ((mutate_node_db radios 1 "add"
          ("!2" ∷ "!bad" ∷ [])
          "admin"
          "ui"
          false
          node_session).1.committed
        ≡ (mutate_node_db radios 1 "add" ("!2" ∷ "!bad" ∷ []) "admin" "ui" false node_session).1.db)
mutate_node_db-answers_example =
    mutate_node_db-answers radios 1 "add" "!2" ("!bad" ∷ []) "admin" "ui" false node_session
      one_node its_endpoint radio "10.0.0.1" 1 node_found endpoint_found refl refl (λ m. refl)
      always_answers

apply_patch-raised_example :
    apply_patch broken_radios 1 role_patch "admin" "ui" false node_session
    ≡ (raised (provider_error "lost"), record node_session { net = 3 })
apply_patch-raised_example =
    apply_patch-raised broken_radios role_patch false one_node its_endpoint broken_radio "10.0.0.1"
      node_session 1 2 (provider_error "lost") "admin" "ui" node_found role_requested endpoint_found
      refl refl refl refl
