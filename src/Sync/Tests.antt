-- ===== src/Sync/Tests.antt =====
-- A sync of two endpoints, of which one cannot be connected to.
use meshonator.Base.{
  ℕ, ◌+◌, ◌≡◌, String, true, none, some, List, [], ◌∷◌, ◌==◌, string_eq, if◌then◌else◌, length,
}
use meshonator.Json.{end}
use meshonator.Db.{ProviderEndpointModel, Uuid, Db, empty_db, minutes}
use meshonator.Db.Session.{Session, ok, raised, provider_error}
use meshonator.Providers.{Provider, Registry}
use meshonator.Sync.{EndpointSync, sync_all}
use meshonator.Sync.Total.{sync_all-total}

abbrev one_host : Provider ℕ String
one_host = record {
  connect =
      λ e n. (if e.host == "10.0.0.1" then ok e.host else raised (provider_error "down"), n + 1);
  disconnect = λ c n. (ok tt, n + 1);
  fetch_nodes = λ c n. (ok [], n + 1);
  fetch_config = λ c id n. (ok end, n + 1);
  apply_config_patch = λ c id p dry_run n. (ok end, n + 1);
  mutate_node_db = λ c id action target dry_run n. (ok end, n + 1);
}

abbrev one_hosts : Registry ℕ String
one_hosts name = some one_host

abbrev endpoint_of : Uuid → String → ProviderEndpointModel
endpoint_of id host = record {
  id = id;
  provider_name = "meshtastic";
  endpoint = host;
  host = host;
  port = 4403;
  source = "manual";
  last_seen = none;
  reachable = true;
  meta_json = end;
}

abbrev two_endpoints : Db
two_endpoints = record empty_db {
  provider_endpoints = endpoint_of 1 "10.0.0.1" ∷ endpoint_of 2 "10.0.0.2" ∷ [];
  next_id = 3;
}

abbrev sync_session : Session ℕ
sync_session = record {
  db = two_endpoints;
  committed = two_endpoints;
  clock = minutes;
  reads = 0;
  net = 0;
}

sync_all-total_example :
    (out : List EndpointSync) × ((sync_all one_hosts
        (λ cfg. "hash")
        (λ t. "now")
        true
        sync_session).0
      ≡ ok out)
    × (length out ≡ 2)
sync_all-total_example = sync_all-total one_hosts (λ cfg. "hash") (λ t. "now") true sync_session
