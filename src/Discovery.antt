-- ===== src/Discovery.antt =====
-- discovery/service.py: `DiscoveryService.scan`, and `expand_targets` of providers/utils/tcp_scan.py.
-- `ipaddress.ip_network` is a parameter. The second scan, without the progress callback, that a
-- TypeError leads to, is for providers that take no callback, and is left out.
mod Tests
pub mod Saved
use Prim.Native.String
use Prim.Native.Char.{code}
use meshonator.Base.{
  ℕ, zero, suc, ◌+◌, ◌≡◌, String, Bool, true, false, ◌&&◌, not, Option, none, some, List, [], ◌∷◌,
  ◌++◌, map, ◌==◌, if◌then◌else◌, nat_eq, string_eq, find?, filter_by, update_where, contains,
}
use meshonator.Base.Sort.{sort_by}
use meshonator.Base.Text.{starts_with, text_leb}
use meshonator.Json.{Fields, str, end, field}
use meshonator.Db.{Uuid, Time, ProviderEndpointModel, Db}
use meshonator.Db.Session.{
  Exn, value_error, other_error, Result, ok, raised, Session, Exec, pure, raise, gets, or_raise,
  ◌>>=◌, ◌>>◌, modify, commit_if, now,
}
use meshonator.Providers.{ProviderConnection}
use meshonator.Radios.Discover.{Scanner, discover_endpoints}

-- the addresses of a network, or the ValueError of `ip_network`
abbrev pub Networks : Type 0
Networks = String → Result (List String)

-- `set` and `sorted`
unfoldable pub sorted_set : List String → List String
sorted_set [] = []
sorted_set (host ∷ hosts) =
    let rest = sorted_set hosts in
    if contains rest host then rest else sort_by text_leb (host ∷ rest)

unfoldable pub add_networks : Networks → List String → List String → Result (List String)
add_networks net [] out = ok out
add_networks net (cidr ∷ cidrs) out = elim (net cidr) [
  | raised e ↦ raised e
  | ok ips ↦ add_networks net cidrs (out ++ ips)
]

unfoldable pub expand_targets : Networks → List String → List String → Result (List String)
expand_targets net single_hosts cidrs = elim (add_networks net cidrs single_hosts) [
  | ok out ↦ ok (sorted_set out)
  | raised e ↦ raised e
]

-- the text without its first characters
unfoldable pub drop_chars : ℕ → String → String
drop_chars zero s = s
drop_chars (suc n) String.[] = String.[]
drop_chars (suc n) (String.◌∷◌ c s) = drop_chars n s

-- `.split(":")[0]`
unfoldable pub before_colon : String → String
before_colon String.[] = String.[]
before_colon (String.◌∷◌ c s) =
    let rest = before_colon s in if code c == 58 then String.[] else String.◌∷◌ c rest

-- the hosts of the endpoints that are given by hand
unfoldable pub manual_hosts : List String → List String
manual_hosts [] = []
manual_hosts (endpoint ∷ endpoints) =
    let hosts = manual_hosts endpoints in
    if starts_with endpoint "tcp://" then before_colon (drop_chars 6 endpoint) ∷ hosts else hosts

abbrev pub found_row : String → String → ProviderConnection → Uuid → Time → ProviderEndpointModel
found_row provider_name source found id at = record {
  id = id;
  provider_name = provider_name;
  endpoint = found.endpoint;
  host = found.host;
  port = found.port;
  source = source;
  last_seen = some at;
  reachable = true;
  meta_json = field "transport" (str "tcp") end;
}

-- the endpoint is in the table
abbrev pub is_endpoint_row : String → ProviderEndpointModel → Bool
is_endpoint_row endpoint row = row.endpoint == endpoint

-- a new row, or the old one seen again; the id of the row
unfoldable pub save_row :
    String → String → ProviderConnection → Time → Option ProviderEndpointModel → Db → Db × Uuid
save_row provider_name source found at none db = (
  record db {
    provider_endpoints =
        db.provider_endpoints ++ found_row provider_name source found db.next_id at ∷ [];
    next_id = db.next_id + 1;
  },
  db.next_id,
)
save_row provider_name source found at (some row) db = (
  record db {
    provider_endpoints =
        update_where (λ e. e.id == row.id)
          (λ e. record e { reachable = true; last_seen = some at; source = source })
          db.provider_endpoints;
  },
  row.id,
)

-- no endpoint has two rows: the column is unique
unfoldable pub unique_endpoints : List ProviderEndpointModel → Bool
unique_endpoints [] = true
unique_endpoints (row ∷ rows) =
    not (contains (map (λ e. e.endpoint) rows) row.endpoint) && unique_endpoints rows

-- the rows with the ids
unfoldable pub endpoint_rows : List Uuid → Db → List ProviderEndpointModel
endpoint_rows [] db = []
endpoint_rows (id ∷ ids) db =
    filter_by (λ e. e.id == id) db.provider_endpoints ++ endpoint_rows ids db

module _ {N : Type 0} where
  -- a round of the loop; the query sees `seen`, the tables of the last flush
  unfoldable pub save_found : String → String → Db → ProviderConnection → Exec N Uuid
  save_found provider_name source seen found = do
    at ← now
    let row : Option ProviderEndpointModel =
        find? (is_endpoint_row found.endpoint) seen.provider_endpoints
    id ← gets (λ db. (save_row provider_name source found at row db).1)
    modify (λ db. (save_row provider_name source found at row db).0)
    pure id

  unfoldable pub save_each : String → String → Db → List ProviderConnection → Exec N (List Uuid)
  save_each provider_name source seen [] = pure []
  save_each provider_name source seen (found ∷ discovered) = do
    first ← save_found provider_name source seen found
    rest ← save_each provider_name source seen discovered
    pure (first ∷ rest)

  abbrev pub unless_raised : {A : Type 0} → Result A → Exec N A
  unless_raised r s = (r, s)

-- The providers by name, with what their scans differ in. The progress callback and its variables,
-- a `K`, are those of the caller.
module _ {N K : Type 0} (net : Networks) (port_text : ℕ → String)
    (registry : String → Option (Scanner N))
    (report : ℕ → ℕ → String → Bool → Fields → K → Exec N K) where
  unfoldable pub scan :
      String
      → List String
      → List String
      → List String
      → Option ℕ
      → String
      → K
      → Exec N (K × List ProviderEndpointModel)
  scan provider_name hosts cidrs manual_endpoints port source k = do
    scanner ← or_raise (registry provider_name) (value_error "Provider is not configured")
    targets ← unless_raised (expand_targets net hosts cidrs)
    (k', discovered) ←
        discover_endpoints port_text scanner report
          (sorted_set (targets ++ manual_hosts manual_endpoints)) port k
    seen ← gets (λ db. db)
    ids ← save_each provider_name source seen discovered
    commit_if (λ db. unique_endpoints db.provider_endpoints)
    rows ← gets (endpoint_rows ids)
    pure (k', rows)
