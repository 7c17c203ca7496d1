-- ===== src/Radios/Meshcore.antt =====
-- providers/meshcore/provider.py and the default of providers/base.py: the experimental provider,
-- which neither reads nor writes configurations. The library `meshcore_py` is a parameter, and so
-- are pydantic's checks of a node.
pub mod Refuses
use Prim.Native.String
use meshonator.Base.{ℕ, String, Option, none, some, List, [], ◌∷◌}
use meshonator.Console.Nested.{or_null}
use meshonator.Db.Session.{provider_error, Result, ok, raised}
use meshonator.Inventory.{ManagedNode}
use meshonator.Json.{Value, obj, str, Fields, Items, nil, cons, get}
use meshonator.Providers.{Net, Provider, ProviderConnection}
use meshonator.Radios.{Process, done, fail, swallow, outside, ◌>>=◌}

-- `meshcore_py.Client`, the methods of its connections by name, and `contacts()`
pub record CoreLibrary (N C : Type 0) : Type 0 where
  pub client : Option (String → ℕ → Net N C)
  pub method : C → String → Option (Net N (Unit {0}))
  pub contacts : C → Option (Net N Items)

-- the arguments of `ManagedNode(…)`
pub record CoreDraft : Type 0 where
  pub provider_node_id : String
  pub short_name : Value
  pub raw_metadata : Fields

abbrev str_or : (Value → String) → Option Value → String
str_or str_of none = "unknown"
str_or str_of (some v) = str_of v

module _ {N C : Type 0} where
  abbrev pub core_connect : Option (CoreLibrary N C) → ProviderConnection → Net N C
  core_connect none endpoint = fail (provider_error "meshcore_py not available")
  core_connect (some library) endpoint = elim library.client [
    | none ↦ fail (provider_error "meshcore_py.Client is unavailable")
    | some client ↦ client endpoint.host endpoint.port
  ]

  module _ (library : CoreLibrary N C) where
    -- the first method of the names that the connection has
    unfoldable pub close_by : List String → C → Net N (Unit {0})
    close_by [] conn = done tt
    close_by (method_name ∷ names) conn = elim (library.method conn method_name) [
      | none ↦ close_by names conn
      | some close ↦ swallow close
    ]

    unfoldable pub core_disconnect : Option C → Net N (Unit {0})
    core_disconnect none = done tt
    core_disconnect (some conn) = close_by ("close" ∷ "disconnect" ∷ "stop" ∷ []) conn

abbrev core_draft : (Value → String) → Fields → CoreDraft
core_draft str_of c = record {
  provider_node_id = str_or str_of (get "id" c);
  short_name = or_null (get "name" c);
  raw_metadata = c;
}

module _ (str_of : Value → String) (validate : CoreDraft → Result ManagedNode) where
  unfoldable pub nodes_of : Items → Result (List ManagedNode)
  nodes_of nil = ok []
  nodes_of (cons (obj c) contacts) =
      let later = nodes_of contacts in
      elim (validate (core_draft str_of c)) [
        | raised e ↦ raised e
        | ok node ↦ elim later [ ok nodes ↦ ok (node ∷ nodes) | raised e ↦ raised e ]
      ]
  nodes_of (cons value contacts) = nodes_of contacts

  unfoldable pub core_fetch_nodes : {N C : Type 0} → CoreLibrary N C → C → Net N (List ManagedNode)
  core_fetch_nodes library conn = elim (library.contacts conn) [
    | none ↦ done []
    | some contacts ↦ contacts >>= λ items n. (nodes_of items, n)
  ]

abbrev config_read_error : String
config_read_error = "MeshCore config read is currently unsupported in experimental provider"

abbrev pub config_write_error : String
config_write_error = "MeshCore config write is currently unsupported in experimental provider"

-- `Provider.mutate_node_db`, for the text of `repr(action)`
unfoldable pub base_mutate_node_db :
    {N : Type 0} → (String → String) → String → String → Net N Fields
base_mutate_node_db repr name action = fail (
    provider_error (
      String.◌++◌ "NodeDB action "
        (String.◌++◌ (repr action) (String.◌++◌ " is unsupported by provider " name))))

abbrev pub meshcore_provider :
    {N C : Type 0}
    → CoreLibrary N C
    → (Value → String)
    → (String → String)
    → (CoreDraft → Result ManagedNode)
    → Provider (Process N) C
meshcore_provider library str_of repr validate = record {
  connect = λ endpoint. outside (core_connect (some library) endpoint);
  disconnect = λ conn. outside (core_disconnect library conn);
  fetch_nodes = λ conn. outside (core_fetch_nodes str_of validate library conn);
  fetch_config = λ conn provider_node_id. fail (provider_error config_read_error);
  apply_config_patch = λ conn provider_node_id p dry_run. fail (provider_error config_write_error);
  mutate_node_db =
      λ conn destination action target dry_run. base_mutate_node_db repr "meshcore" action;
}
