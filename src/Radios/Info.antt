-- ===== src/Radios/Info.antt =====
-- providers/meshtastic/provider.py: `_build_meshtastic_info_payload`, `fetch_nodes`, `fetch_config`
-- and their helpers. pydantic's checks of a `ManagedNode` are a parameter.
use Prim.Native.String
use meshonator.Base.{
  ◌*◌, String, true, Option, none, some, List, [], ◌∷◌, ◌==◌, if◌then◌else◌, ltb, nat_eq,
}
use meshonator.Base.Int.{pos, int_eq}
use meshonator.Base.Text.{strip, upper, is_empty}
use meshonator.Json.{
  Value, null, bool, int, float, str, obj, arr, Fields, end, field, Items, nil, get, truthy, as_int,
  dict_or_empty,
}
use meshonator.Json.Equal.{same}
use meshonator.Console.Nested.{or_null}
use meshonator.Db.{Time}
use meshonator.Db.Session.{other_error, Result, ok, raised}
use meshonator.Inventory.{ManagedNode}
use meshonator.Providers.{Net}
use meshonator.Radios.Settings.{round_half_even}
use meshonator.Radios.{Library, ConnInfo, LocalInfo}

-- `getattr(conn, "nodes", {}) or {}`
unfoldable pub nodes_in_mesh : ConnInfo → Value
nodes_in_mesh info = if truthy info.nodes then info.nodes else obj end

-- the loop over the nodes, for a number that is not None: the first one with it
unfoldable pub record_of : Value → Fields → Fields
record_of num end = end
record_of num (field k (obj value) nodes) =
    if same (or_null (get "num" value)) num then value else record_of num nodes
record_of num (field k value nodes) = record_of num nodes

unfoldable pub local_node_record : Option Value → Value → Fields
local_node_record (some null) nodes = end
local_node_record (some num) (obj nodes) = record_of num nodes
local_node_record _ _ = end

abbrev or_no_fields : {A : Type 0} → (A → Fields) → Option A → Fields
or_no_fields f none = end
or_no_fields f (some a) = f a

abbrev channels_of : Option LocalInfo → Items
channels_of none = nil
channels_of (some i) = i.channels

abbrev url_value : Option (Result String) → Value
url_value (some (ok url)) = str url
url_value _ = null

abbrev primary_url : Option LocalInfo → Value
primary_url none = null
primary_url (some i) = url_value i.url

unfoldable pub build_meshtastic_info_payload : ConnInfo → Fields
build_meshtastic_info_payload info =
    let record_ : Fields = local_node_record (get "myNodeNum" info.my_info) (nodes_in_mesh info) in
    field "owner" (obj (dict_or_empty (get "user" record_))) (
      field "myInfo" (obj info.my_info) (
        field "metadata" (obj info.metadata) (
          field "localNodeRecord" (obj record_) (
            field "nodesInMesh" (nodes_in_mesh info) (
              field "preferences" (obj (or_no_fields (λ i. i.local_config) info.local_info)) (
                field "modulePreferences"
                  (obj (or_no_fields (λ i. i.module_config) info.local_info))
                  (field "channels" (arr (channels_of info.local_info))
                    (field "primaryChannelUrl" (primary_url info.local_info) end))))))))

-- the text, if it is a text with more than blanks in it
abbrev text_in : Value → Option String
text_in (str s) = if is_empty (strip s) then none else some (strip s)
text_in value = none

-- the `str` of an int is a parameter; a short name is a text or None
module _ (str_of : Value → String) where
  abbrev node_number : Value → Option String → String
  node_number value short_name = elim (as_int value) [
    | some z ↦ String.◌++◌ "node-" (str_of value)
    | none ↦ elim short_name [ some name ↦ name | none ↦ "local-unknown" ]
  ]

  unfoldable pub resolve_provider_node_id : Fields → Value → Value → String
  resolve_provider_node_id owner node_num short_name = elim (text_in (or_null (get "id" owner))) [
    | some id ↦ id
    | none ↦ node_number node_num (text_in short_name)
  ]

abbrev first_text : List Value → Option String
first_text [] = none
first_text (value ∷ candidates) = elim (text_in value) [
  | some s ↦ some (upper s)
  | none ↦ first_text candidates
]

unfoldable pub resolve_role : Fields → Fields → Fields → Fields → Option String
resolve_role owner metadata preferences local_record = first_text (
    or_null (get "role" owner)
    ∷ or_null (get "role" metadata)
    ∷ or_null (get "role" (dict_or_empty (get "user" local_record)))
    ∷ or_null (get "role" (dict_or_empty (get "device" preferences)))
    ∷ [])

-- `datetime.fromtimestamp` in microseconds, up to the year 9999
abbrev up_to_year_9999 : Time → Option Time
up_to_year_9999 t = if ltb t 253402300800000000 then some t else none

unfoldable pub ts_to_dt : Value → Option Time
unfolding round_half_even
ts_to_dt (int (pos n)) = if n == 0 then none else up_to_year_9999 (n * 1000000)
ts_to_dt (float (pos m) k) =
    if m == 0 then none else up_to_year_9999 (round_half_even (m * 1000000) k)
ts_to_dt (bool true) = some 1000000
ts_to_dt _ = none

abbrev type_name : Value → String
type_name null = "NoneType"
type_name (bool b) = "bool"
type_name (int z) = "int"
type_name (float m k) = "float"
type_name (str s) = "str"
type_name (obj d) = "dict"
type_name (arr xs) = "list"

-- `position`, whose `get` is called: an AttributeError, if it is no dict
unfoldable pub position_of : Option Value → Result Fields
position_of none = ok end
position_of (some (obj d)) = ok d
position_of (some v) =
    raised
      (other_error (String.◌++◌ "'" (String.◌++◌ (type_name v) "' object has no attribute 'get'")))

-- the arguments of `ManagedNode(…)`, as they are read
pub record Draft : Type 0 where
  pub provider_node_id : String
  pub node_num : Value
  pub short_name : Value
  pub long_name : Value
  pub role : Option String
  pub seen_at : Time
  pub last_seen : Time
  pub latitude : Value
  pub longitude : Value
  pub altitude : Value
  pub location_source : Value
  pub firmware_version : Value
  pub hardware_model : Value
  pub raw_metadata : Fields

abbrev or_time : Option Time → Time → Time
or_time none now = now
or_time (some t) now = t

module _ {N C : Type 0} (library : Library N C) where
  unfoldable pub fetch_config : C → String → Net N Fields
  fetch_config conn provider_node_id n =
      let payload : Fields = build_meshtastic_info_payload (library.info conn n) in
      (
        ok (
            field "provider_node_id" (str provider_node_id) (
              field "owner" (or_null (get "owner" payload)) (
                field "myInfo" (or_null (get "myInfo" payload)) (
                  field "metadata" (or_null (get "metadata" payload)) (
                    field "nodesInMesh" (or_null (get "nodesInMesh" payload)) (
                      field "preferences" (or_null (get "preferences" payload)) (
                        field "modulePreferences" (or_null (get "modulePreferences" payload)) (
                          field "channels" (or_null (get "channels" payload)) (
                            field "primaryChannelUrl" (or_null (get "primaryChannelUrl" payload))
                              end))))))))),
        n,
      )

  module _ (str_of : Value → String) (validate : Draft → Result ManagedNode) where
    abbrev draft_of : ConnInfo → Time → Fields → Fields → Draft
    draft_of info now payload position =
        let owner = dict_or_empty (get "owner" payload) in
        let local_record = dict_or_empty (get "localNodeRecord" payload) in
        let node_num = or_null (get "myNodeNum" info.my_info) in
        record {
          provider_node_id =
              resolve_provider_node_id str_of owner node_num (or_null (get "shortName" owner));
          node_num = node_num;
          short_name = or_null (get "shortName" owner);
          long_name = or_null (get "longName" owner);
          role =
              resolve_role owner info.metadata (dict_or_empty (get "preferences" payload))
                local_record;
          seen_at = now;
          last_seen = or_time (ts_to_dt (or_null (get "lastHeard" local_record))) now;
          latitude = or_null (get "latitude" position);
          longitude = or_null (get "longitude" position);
          altitude = or_null (get "altitude" position);
          location_source = or_null (get "locationSource" position);
          firmware_version = or_null (get "firmwareVersion" info.metadata);
          hardware_model = or_null (get "hwModel" info.metadata);
          raw_metadata = payload;
        }

    -- the local node alone, if the connection has one
    abbrev fetched : ConnInfo → Time → Option LocalInfo → Result (List ManagedNode)
    fetched info now none = ok []
    fetched info now (some i) =
        let payload : Fields = build_meshtastic_info_payload info in
        elim (position_of (get "position" (dict_or_empty (get "localNodeRecord" payload)))) [
          | raised e ↦ raised e
          | ok position ↦ elim (validate (draft_of info now payload position)) [
            | raised e ↦ raised e
            | ok node ↦ ok (node ∷ [])
          ]
        ]

    unfoldable pub fetch_nodes : Time → C → Net N (List ManagedNode)
    fetch_nodes now conn n = let info = library.info conn n in (fetched info now info.local_info, n)
