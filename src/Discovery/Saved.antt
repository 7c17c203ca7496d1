-- ===== src/Discovery/Saved.antt =====
-- What a scan does to the table of endpoints.
use meshonator.Base.{String, Option, none, some, List, [], ◌∷◌, map, nat_eq, string_eq, find?}
use meshonator.Db.{ProviderEndpointModel, Db}
use meshonator.Db.Session.{Session}
use meshonator.Providers.{ProviderConnection}
use meshonator.Discovery.{is_endpoint_row}

-- the endpoints of the table, in its order
abbrev pub endpoints_of : Db → List String
endpoints_of db = map (λ e. e.endpoint) db.provider_endpoints

-- the discovered endpoints that have no row yet
unfoldable pub unknown : Db → List ProviderConnection → List String
unknown seen [] = []
unknown seen (found ∷ discovered) =
    let rest = unknown seen discovered in
    elim (find? (is_endpoint_row found.endpoint) seen.provider_endpoints) [
      | none ↦ found.endpoint ∷ rest
      | some row ↦ rest
    ]

-- the new names of one round
abbrev new_name : ProviderConnection → Option ProviderEndpointModel → List String
new_name found none = found.endpoint ∷ []
new_name found (some row) = []
