-- ===== src/Radios/Tests.antt =====
-- Runs of the two kinds of radio over a library whose world is the number of calls.
use meshonator.Base.{
  ◌≡◌, refl, ℕ, ◌+◌, String, true, false, none, some, [], ◌∷◌, ◌==◌, if◌then◌else◌, string_eq,
  nat_eq, map, ◌⊎◌,
}
use meshonator.Audit.{audit_row}
use meshonator.Base.Int.{pos}
use meshonator.Db.{ManagedNodeModel, NodeEndpointModel, Real, Db, empty_db, minutes}
use meshonator.Db.Session.{Exn, provider_error, other_error, Result, Session, ok, raised}
use meshonator.Inventory.{ManagedNode}
use meshonator.Json.{null, int, str, obj, Fields, end, field, nil, get}
use meshonator.Operations.{apply_patch, find_node, first_endpoint, remote_update_requested}
use meshonator.Operations.Answers.{target_of}
use meshonator.Operations.NodeDb.{
  mutate_node_db, mutate_entry, NodeDbResult, applied_count, failed_count,
}
use meshonator.Providers.{Registry, ConfigPatch, ProviderConnection}
use meshonator.Radios.Apply.{dry_run_answer}
use meshonator.Radios.Connect.{
  connect, connect_rounds, connect_error, connect_round, disconnect, rounds_of, Failing,
}
use meshonator.Radios.Connect.Rounds.{Connected, connect_lem}
use meshonator.Radios.Info.{Draft}
use meshonator.Radios.JsonSafe.{
  Object, other, missing, raising, gives, vars_of, no_dict, to_json_safe,
}
use meshonator.Radios.JsonSafe.Plain.{
  entries_of, public_part, as_dict, by_attributes, to_json_safe_lem,
}
use meshonator.Radios.Meshcore.{
  CoreLibrary, CoreDraft, core_disconnect, close_by, meshcore_provider, config_write_error,
}
use meshonator.Radios.Meshcore.Refuses.{apply_patch-meshcore_provider}
use meshonator.Radios.Meshtastic.{meshtastic_provider}
use meshonator.Radios.Meshtastic.Answers.{mutate_node_db-meshtastic_provider}
use meshonator.Radios.Meshtastic.DryRun.{apply_patch-dry_run_answer}
use meshonator.Radios.Settings.{Settings}
use meshonator.Radios.{Process, Library, LocalNode, Section, descriptor}

abbrev thirty : Real
thirty = record { mantissa = pos 30; scale = 0 }

abbrev settings : Settings
settings = record {
  provider_timeout_s = thirty;
  provider_connect_retries = pos 1;
  meshtastic_default_tcp_port = 4403;
}

abbrev lora_section : Section ℕ
lora_section = descriptor (λ d n. (ok tt, n + 1))

-- a radio that has the section "lora" alone, and refuses to add the node "!bad"
abbrev lora_node : LocalNode ℕ
lora_node = record {
  set_owner = none;
  set_fixed_position = none;
  write_config = some (λ name n. (ok tt, n + 1));
  write_channel = none;
  set_favorite =
      λ target n. (if target == "!bad" then raised (other_error "refused") else ok tt, n + 1);
  remove_favorite = λ target n. (ok tt, n + 1);
  remove_node = λ target n. (ok tt, n + 1);
  local_section = λ name. if name == "lora" then some lora_section else none;
  module_section = λ name. none;
  channels = [];
}

-- its first connection is refused
abbrev library : Library ℕ String
library = record {
  tcp_interface = λ endpoint timeout socket_default n.
      (if n == 0 then raised (other_error "timed out") else ok endpoint.host, n + 1);
  wait_for_config = λ conn socket_default n. (ok tt, n + 1);
  close = λ conn. some (λ n. (ok tt, n + 1));
  local_node = λ conn. some lora_node;
  info = λ conn n. record { nodes = null; my_info = end; metadata = end; local_info = none };
  wait_for_ack = λ conn. none;
  elapsed_s = λ n m. "0.01";
}

abbrev endpoint_at : ProviderConnection
endpoint_at = record { endpoint = "tcp://10.0.0.1:4403"; host = "10.0.0.1"; port = 4403 }

abbrev fresh : Process ℕ
fresh = record { timeout = none; net = 0 }

-- the second round connects
connect_lem_example :
    Connected library settings endpoint_at 2 none fresh
      (connect (some library) settings endpoint_at fresh)
    ⊎ ((d : Exn) × (q : Process ℕ) × Failing library settings endpoint_at 2 none (some d) fresh q
        × (connect (some library) settings endpoint_at fresh
            ≡ (raised (connect_error endpoint_at d), q)))
connect_lem_example = connect_lem library settings endpoint_at fresh

connects_again :
    connect (some library) settings endpoint_at fresh
    ≡ (ok "10.0.0.1", record { timeout = none; net = 3 })
unfolding connect connect_rounds connect_round disconnect rounds_of nat_eq
connects_again = refl

abbrev patch_sections : Fields
patch_sections =
    field "lora" (obj (field "hopLimit" (int (pos 3)) end))
      (field "unknown" (obj end) (field "role" (str "CLIENT") end))

abbrev attributes_of_a_user : Fields
attributes_of_a_user = field "_cache" (int (pos 1)) (field "name" (str "Relay") end)

-- an object whose `model_dump` raises and whose `to_dict` gives an object with attributes
abbrev a_user : Object
a_user =
    other raising (gives (other missing missing (vars_of (entries_of attributes_of_a_user)) "user"))
      no_dict "message"

to_json_safe_lem_example : to_json_safe a_user ≡ obj (field "name" (str "Relay") end)
unfolding public_part string_eq get
to_json_safe_lem_example =
    to_json_safe_lem a_user (obj (field "name" (str "Relay") end)) (tt, refl, tt)
      (as_dict (other missing missing (vars_of (entries_of attributes_of_a_user)) "user")
        (obj (field "name" (str "Relay") end)) raising no_dict "message" tt
        (by_attributes attributes_of_a_user missing missing "user" tt tt))

abbrev a_node : ManagedNodeModel
a_node = record {
  id = 1;
  provider = "meshtastic";
  provider_node_id = "!1";
  node_num = none;
  short_name = none;
  long_name = none;
  firmware_version = none;
  hardware_model = none;
  role = none;
  favorite = false;
  managed = true;
  latitude = none;
  longitude = none;
  altitude = none;
  location_source = none;
  first_seen = none;
  last_seen = none;
  last_successful_sync = none;
  reachable = true;
  raw_metadata = end;
  capability_matrix = end;
}

abbrev an_endpoint : NodeEndpointModel
an_endpoint = record {
  id = 2;
  node_id = 1;
  endpoint = "tcp://10.0.0.1:4403";
  host = "10.0.0.1";
  port = 4403;
  source = "manual";
  is_primary = true;
  last_seen = none;
}

abbrev a_db : Db
a_db = record empty_db { nodes = a_node ∷ []; node_endpoints = an_endpoint ∷ []; next_id = 3 }

abbrev a_session : Session (Process ℕ)
a_session = record { db = a_db; committed = a_db; clock = minutes; reads = 0; net = fresh }

abbrev no_nodes : Draft → Result ManagedNode
no_nodes draft = raised (other_error "invalid")

abbrev meshtastic_only : Registry (Process ℕ) String
meshtastic_only name = some (meshtastic_provider library settings (λ v. "text") no_nodes (λ n. 0))

node_found : find_node 1 a_db ≡ some a_node
unfolding nat_eq
node_found = refl

endpoint_found : first_endpoint 1 a_db ≡ some an_endpoint
unfolding nat_eq
endpoint_found = refl

mutate_node_db-meshtastic_provider_example :
    let run =
      mutate_node_db meshtastic_only 1 "set_favorite"
        ("!2" ∷ "!bad" ∷ [])
        "admin"
        "ui"
        false
        a_session in
    (r : NodeDbResult) × (run.0 ≡ ok r)
    × (map target_of r.answers ≡ "!2" ∷ "!bad" ∷ [])
    × (applied_count r.answers + failed_count r.answers ≡ r.target_count)
    × (run.1.db ≡ record a_db {
      audit_logs = audit_row 3 (mutate_entry meshtastic_only "admin" "ui" a_node r) ∷ [];
      next_id = 4;
    })
    × (run.1.committed ≡ run.1.db)
mutate_node_db-meshtastic_provider_example =
    mutate_node_db-meshtastic_provider library settings (λ v. "text") no_nodes (λ n. 0)
      meshtastic_only 1 "set_favorite" "!2" ("!bad" ∷ []) "admin" "ui" false a_session a_node
      an_endpoint "10.0.0.1" (record { timeout = none; net = 3 }) node_found endpoint_found refl
      connects_again

abbrev hop_patch : ConfigPatch
hop_patch = record {
  short_name = none;
  long_name = none;
  role = none;
  favorite = none;
  latitude = none;
  longitude = none;
  altitude = none;
  local_config_patch = patch_sections;
  module_config_patch = end;
  channels_patch = nil;
}

hop_requested : remote_update_requested hop_patch ≡ true
unfolding remote_update_requested
hop_requested = refl

apply_patch-dry_run_answer_example :
    let run = apply_patch meshtastic_only 1 hop_patch "admin" "ui" true a_session in
    (run.0 ≡ ok (dry_run_answer "!1" hop_patch)) × (run.1.net ≡ record { timeout = none; net = 4 })
unfolding disconnect
apply_patch-dry_run_answer_example =
    apply_patch-dry_run_answer library settings (λ v. "text") no_nodes (λ n. 0) meshtastic_only
      hop_patch "admin" "ui" a_session a_node an_endpoint "10.0.0.1"
      (record { timeout = none; net = 3 }) node_found hop_requested endpoint_found refl
      connects_again

abbrev core_library : CoreLibrary ℕ String
core_library = record {
  client = some (λ host port n. (ok host, n + 1));
  method = λ conn name. if name == "stop" then some (λ n. (ok tt, n + 1)) else none;
  contacts = λ conn. none;
}

abbrev no_core_nodes : CoreDraft → Result ManagedNode
no_core_nodes draft = raised (other_error "invalid")

abbrev meshcore_only : Registry (Process ℕ) String
meshcore_only name = some (meshcore_provider core_library (λ v. "text") (λ s. s) no_core_nodes)

apply_patch-meshcore_provider_example :
    apply_patch meshcore_only 1 hop_patch "admin" "ui" true a_session ≡ (
      raised (provider_error config_write_error),
      record a_session { net = record { timeout = none; net = 2 } },
    )
unfolding core_disconnect close_by string_eq
apply_patch-meshcore_provider_example =
    apply_patch-meshcore_provider core_library (λ v. "text") (λ s. s) no_core_nodes meshcore_only
      hop_patch "admin" "ui" true a_session a_node an_endpoint "10.0.0.1"
      (record { timeout = none; net = 1 }) node_found hop_requested endpoint_found refl refl
