-- ===== src/Console/Visibility/Tests.antt =====
-- Two nodes that hear each other, and a third one that is heard alone.
use meshonator.Base.{String, true, false, none, some, List, [], ◌∷◌}
use meshonator.Base.Int.{pos}
use meshonator.Console.Visibility.{Peer, SourceRow}
use meshonator.Db.{ManagedNodeModel}
use meshonator.Json.{null, str, end}

abbrev node_named : String → ManagedNodeModel
node_named id = record {
  id = 1;
  provider = "meshtastic";
  provider_node_id = id;
  node_num = none;
  short_name = none;
  long_name = none;
  firmware_version = none;
  hardware_model = none;
  role = none;
  favorite = false;
  managed = true;
  latitude = none;
  longitude = none;
  altitude = none;
  location_source = none;
  first_seen = none;
  last_seen = none;
  last_successful_sync = none;
  reachable = true;
  raw_metadata = end;
  capability_matrix = end;
}

abbrev heard : String → Peer
heard id = record {
  candidate = record {
    id = str id;
    short_name = null;
    long_name = null;
    role = null;
    hw_model = null;
    hops_away = pos 0;
    last_heard = null;
    snr = null;
    is_favorite = false;
  };
  peer_id = id;
  managed = some (node_named id);
}

abbrev row_of : String → List Peer → SourceRow
row_of id peers = record { node = node_named id; managed_peers = peers; unmanaged_peers = [] }

abbrev three_rows : List SourceRow
three_rows =
    row_of "!1" (heard "!2" ∷ heard "!3" ∷ []) ∷ row_of "!2" (heard "!1" ∷ []) ∷ row_of "!3" [] ∷ []
