-- ===== src/Markers.antt =====
-- map/service.py: `MapService.markers`, the nodes that the map shows. `str` of a UUID and
-- `datetime.isoformat` are parameters.
use meshonator.Base.{
  String, Bool, true, false, ◌&&◌, Option, none, some, List, map, ◌==◌, if◌then◌else◌, string_eq,
  bool_eq, filter_by,
}
use meshonator.Base.Text.{is_empty}
use meshonator.Db.{Uuid, Time, Real, ManagedNodeModel}
use meshonator.Db.Session.{Exec, gets}
use meshonator.Inventory.{of_provider}

pub record Marker : Type 0 where
  pub id : String
  pub provider : String
  pub provider_node_id : String
  pub name : String
  pub lat : Option Real
  pub lon : Option Real
  pub alt : Option Real
  pub reachable : Bool
  pub favorite : Bool
  pub last_seen : Option String

-- `text or other`
unfoldable name_or : Option String → String → String
name_or none other = other
name_or (some name) other = if is_empty name then other else name

abbrev is_set : {A : Type 0} → Option A → Bool
is_set none = false
is_set (some a) = true

abbrev is_wanted : Option Bool → Bool → Bool
is_wanted none favorite = true
is_wanted (some wanted) favorite = favorite == wanted

-- the condition of the query
unfoldable is_shown : Option String → Option Bool → ManagedNodeModel → Bool
is_shown provider favorite row =
    is_set row.latitude
    && is_set row.longitude
    && of_provider provider row.provider
    && is_wanted favorite row.favorite

module _ (str_uuid : Uuid → String) (isoformat : Time → String) where
  unfoldable marker : ManagedNodeModel → Marker
  marker row = record {
    id = str_uuid row.id;
    provider = row.provider;
    provider_node_id = row.provider_node_id;
    name = name_or row.long_name (name_or row.short_name row.provider_node_id);
    lat = row.latitude;
    lon = row.longitude;
    alt = row.altitude;
    reachable = row.reachable;
    favorite = row.favorite;
    last_seen = elim row.last_seen [ none ↦ none | some t ↦ some (isoformat t) ];
  }

  unfoldable markers : {N : Type 0} → Option String → Option Bool → Exec N (List Marker)
  markers provider favorite =
      gets (λ db. map marker (filter_by (is_shown provider favorite) db.nodes))
