-- ===== src/Radios/Meshtastic.antt =====
-- providers/meshtastic/provider.py: the provider as the services see it.
pub mod Answers
pub mod DryRun
use meshonator.Base.{String, Option}
use meshonator.Db.{Time}
use meshonator.Db.Session.{Result}
use meshonator.Inventory.{ManagedNode}
use meshonator.Json.{Value}
use meshonator.Providers.{Provider}
use meshonator.Radios.Apply.{apply_config_patch, mutate_node_db}
use meshonator.Radios.Connect.{connect, disconnect}
use meshonator.Radios.Info.{Draft, fetch_nodes, fetch_config}
use meshonator.Radios.Settings.{Settings}
use meshonator.Radios.{Process, Library, outside}

-- The calls take the library, which is there once `connect` has returned. `now` is the reading of
-- the clock when the nodes are fetched.
abbrev pub meshtastic_provider :
    {N C : Type 0}
    → Library N C
    → Settings
    → (Value → String)
    → (Draft → Result ManagedNode)
    → (N → Time)
    → Provider (Process N) C
meshtastic_provider library settings str_of validate now = record {
  connect = connect (Option.some library) settings;
  disconnect = disconnect library;
  fetch_nodes = λ conn. outside (λ n. fetch_nodes library str_of validate (now n) conn n);
  fetch_config = λ conn provider_node_id. outside (fetch_config library conn provider_node_id);
  apply_config_patch = λ conn provider_node_id p dry_run.
      outside (apply_config_patch library conn provider_node_id p dry_run);
  mutate_node_db = λ conn destination action target dry_run.
      outside (mutate_node_db library conn destination action target dry_run);
}
