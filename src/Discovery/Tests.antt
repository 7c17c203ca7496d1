-- ===== src/Discovery/Tests.antt =====
-- A scan that finds one known endpoint and a new one.
use meshonator.Base.{[], ◌∷◌}
use meshonator.Db.{Db, empty_db, minutes}
use meshonator.Db.Session.{Session}
use meshonator.Providers.{ProviderConnection}
use meshonator.Discovery.{found_row}

abbrev known_host : ProviderConnection
known_host = record { endpoint = "tcp://10.0.0.1:4403"; host = "10.0.0.1"; port = 4403 }

abbrev new_host : ProviderConnection
new_host = record { endpoint = "tcp://10.0.0.2:4403"; host = "10.0.0.2"; port = 4403 }

abbrev one_endpoint : Db
one_endpoint = record empty_db {
  provider_endpoints = found_row "meshtastic" "manual" known_host 1 (minutes 5) ∷ [];
  next_id = 2;
}

abbrev scan_session : Session (Unit {0})
scan_session = record {
  db = one_endpoint;
  committed = one_endpoint;
  clock = minutes;
  reads = 0;
  net = tt;
}
